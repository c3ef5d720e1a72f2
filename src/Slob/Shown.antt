-- ===== src/Slob/Shown.antt =====
-- What `slob_print` shows.
use hlos.Base.{ℕ, suc, ◌+◌, ◌^◌, ◌<◌, ◌≡◌, refl, ap, ◌∙◌, List, [], ◌∷◌, map, some, arith, length}
use hlos.Links.Walk.{list_for_each-IsRing}
use hlos.Slob.{Heap}
use hlos.Slob.Blocks.{Block, node, Tiles, Fields, Tiles-le, Holds}
use hlos.Slob.Glue.{le_to_block-node}
use hlos.Slob.SelfTest.{BlockLine, line_of, slob_print}

-- What `slob_print` shows of a block.
abbrev pub line : Block → BlockLine
line b = record { addr = b.addr; length = b.len; used = b.used }

lines_of :
    (h : Heap) (from to : ℕ) (bs : List Block)
    → to < 2 ^ 32
    → Tiles from to bs
    → Fields h bs
    → map (line_of h) (map node bs) ≡ map line bs
lines_of h from to [] top t f = refl
lines_of h from to (b ∷ bs) top t f =
    let le = Tiles-le (from + (12 + b.len)) to bs t.1 in
    let place = le_to_block-node 0 from to b (omega (arith, t.0, le, top)) in
    let rest = lines_of h (from + (12 + b.len)) to bs top t.1 f.2 in
    let len = ap h.length place ∙ f.1 in
    let used = ap h.allocated place ∙ f.0 in
    λ i. record { addr = place i; length = len i; used = used i } ∷ rest i

-- On a heap that stands for a list of blocks, slob_print ends with more fuel than there are blocks,
-- and shows every block, in order, with its length and whether it is in use.
pub slob_print-Holds :
    (head fuel : ℕ) (h : Heap) (from to : ℕ) (bs : List Block)
    → Holds head h from to bs
    → length bs < fuel
    → slob_print head fuel h ≡ some (map line bs)
unfolding slob_print
slob_print-Holds head fuel h from to bs a enough =
    rw (list_for_each-IsRing h.links head fuel (map node bs) a.ring (short bs enough))
      (ap some (lines_of h from to bs a.top a.tiles a.fields))
  where
    length-map : (bs : List Block) → length (map node bs) ≡ length bs
    length-map [] = refl
    length-map (b ∷ bs) = ap suc (length-map bs)

    short : (bs : List Block) → length bs < fuel → length (map node bs) < fuel
    short bs enough = omega (arith, length-map bs, enough)
