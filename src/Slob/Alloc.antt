-- ===== src/Slob/Alloc.antt =====
-- `kmalloc`: first fit.
use mathlib.Core.List.{append_assoc, map-append}
use hlos.Base.{
  ℕ, zero, suc, ◌+◌, ◌-◌, ◌%◌, ◌^◌, ◌<◌, ◌≤◌, ◌≡◌, inl, inr, refl, sym, subst, ◌∙◌, Bool, true,
  false, ◌&&◌, ◌||◌, Bool-cases, List, [], ◌∷◌, ◌++◌, map, Option, some, arith, ◌==◌, ==_refl, ltb,
  if◌then◌else◌, length,
}
use hlos.Links.Chain.{IsRing, first, next-Chain, Chain-split}
use hlos.Slob.{Heap, le_to_block, split_chunk, kmalloc_loop, kmalloc, slob_min_part}
use hlos.Slob.Blocks.{Block, node, Tiles-le, Tiles-split, Fields-split, Holds}
use hlos.Slob.Glue.{addr-lt, node-ne-head, le_to_block-node}
use hlos.Slob.Split.{carve, split_chunk-Holds, split_chunk-eq}

abbrev pub fits : ℕ → Block → Bool
fits len b = (b.used == 0) && ltb len b.len

abbrev pub any_fits : ℕ → List Block → Bool
any_fits len [] = false
any_fits len (b ∷ bs) = fits len b || any_fits len bs

-- First fit on the blocks themselves: the returned address and the blocks afterwards.
unfoldable pub first_fit : ℕ → List Block → ℕ × List Block
first_fit len [] = (0, [])
first_fit len (b ∷ bs) =
    let rest = first_fit len bs in
    if fits len b then (b.addr + 12, carve len b ++ bs) else (rest.0, b ∷ rest.1)

-- The length that `kmalloc` looks for.
abbrev pub chunk_len : ℕ → ℕ
chunk_len size = (if ltb slob_min_part size then size else slob_min_part) + 12

too_few : {n : ℕ} → n < 0 → ⊥
too_few h = omega arith

module _ (head : ℕ) (from to : ℕ) (h : Heap) where
  next-node :
      (xs : List Block) (b : Block) (ys : List Block)
      → Holds head h from to (xs ++ b ∷ ys)
      → h.links.next (node b) ≡ first (map node ys) head
  next-node xs b ys a =
      next-Chain h.links (node b) (map node ys) head
        (Chain-split h.links head (map node xs) (node b) (map node ys) head
          (subst (IsRing h.links head) (map-append node xs (b ∷ ys)) a.ring).chain).1

  kmalloc_loop-head : (fuel len : ℕ) → kmalloc_loop head (suc fuel) h len head ≡ some (0, h)
  unfolding kmalloc_loop
  kmalloc_loop-head fuel len = rw (==_refl head) refl

  kmalloc_loop-eq :
      (fuel len le place used size next : ℕ)
      → (le == head) ≡ false
      → le_to_block le ≡ place
      → h.allocated place ≡ used
      → h.length place ≡ size
      → h.links.next le ≡ next
      → kmalloc_loop head (suc fuel) h len le ≡ (
          if (used == 0) && ltb len size
          then some ((place + 12) % 2 ^ 32, split_chunk h place len)
          else kmalloc_loop head fuel h len next)
  unfolding kmalloc_loop
  kmalloc_loop-eq fuel len le place used size next e p u s n = rw (e, p, u, s, n) refl

  -- The loop from the block behind `xs` on does what `first_fit` says.
  pub record IsFit (xs : List Block) (spec : ℕ × List Block) (result : Option (ℕ × Heap))
      : Type 0 where
    pub heap : Heap
    pub returns : result ≡ some (spec.0, heap)
    pub holds : Holds head heap from to (xs ++ spec.1)

  kmalloc_loop-IsFit :
      (fuel len : ℕ) (xs ys : List Block)
      → 12 ≤ len
      → Holds head h from to (xs ++ ys)
      → length ys < fuel
      → IsFit xs (first_fit len ys) (kmalloc_loop head fuel h len (first (map node ys) head))
  unfolding first_fit
  kmalloc_loop-IsFit zero len xs ys low a enough = elim (too_few enough) [ ]
  kmalloc_loop-IsFit (suc fuel) len xs [] low a enough = record {
    heap = h;
    returns = kmalloc_loop-head fuel len;
    holds = a;
  }
  kmalloc_loop-IsFit (suc fuel) len xs (b ∷ ys) low a enough =
      let f = Fields-split h xs (b ∷ ys) a.fields in
      let t = Tiles-split from to xs (b ∷ ys) a.tiles in
      let small : (b.addr + 12) % 2 ^ 32 ≡ b.addr + 12 =
        omega (arith, a.top, t.2.0, Tiles-le (t.0 + (12 + b.len)) to ys t.2.1) in
      let e =
        kmalloc_loop-eq fuel len (node b) b.addr b.used b.len (first (map node ys) head)
          (node-ne-head head from to h xs b ys a)
          (le_to_block-node head from to b (addr-lt head from to h xs b ys a)) f.1.0 f.1.1
          (next-node xs b ys a) in
      rw e (elim (Bool-cases (fits len b)) [
        | inl hit ↦
            rw (hit, small)
              (record {
                heap = split_chunk h b.addr len;
                returns = refl;
                holds = split_chunk-Holds head from to h len xs b ys a low (ground arith);
              })
        | inr miss ↦
            let rest =
              kmalloc_loop-IsFit fuel len (xs ++ b ∷ []) ys low
                (subst (Holds head h from to) (sym (append_assoc xs (b ∷ []) ys)) a)
                (omega arith) in
            rw miss (record {
              heap = rest.heap;
              returns = rest.returns;
              holds =
                  subst (Holds head rest.heap from to)
                    (append_assoc xs (b ∷ []) (first_fit len ys).1) rest.holds;
            })
      ])

  kmalloc-eq :
      (fuel size len next : ℕ)
      → len ≡ chunk_len size
      → len < 2 ^ 32
      → h.links.next head ≡ next
      → kmalloc head fuel h size ≡ kmalloc_loop head fuel h len next
  unfolding kmalloc
  kmalloc-eq fuel size len next e lt n =
      let same : chunk_len size % 2 ^ 32 ≡ len = omega (arith, e) in rw (same, n) refl

  -- If the heap stands for a list of blocks, the size with the header does not wrap and the fuel
  -- is more than the number of blocks, kmalloc returns: the address and the blocks afterwards are
  -- those that first fit gives, with the first free block longer than asked split into a used and
  -- a free part where a further block fits, and the address is 0 where no block is long enough.
  pub kmalloc-Refines :
      (fuel size : ℕ) (bs : List Block)
      → Holds head h from to bs
      → chunk_len size < 2 ^ 32
      → length bs < fuel
      → IsFit [] (first_fit (chunk_len size) bs) (kmalloc head fuel h size)
  kmalloc-Refines fuel size bs a lt enough =
      rw
        (kmalloc-eq fuel size (chunk_len size) (first (map node bs) head) refl lt
          (next-Chain h.links head (map node bs) head a.ring.chain))
        (kmalloc_loop-IsFit fuel (chunk_len size) [] bs (ground arith) a enough)

  kmalloc_loop-not_taken :
      (fuel len : ℕ) (ws xs : List Block) (b : Block) (ys : List Block)
      → Holds head h from to (ws ++ (xs ++ b ∷ ys))
      → any_fits len xs ≡ false
      → b.used ≡ 0
      → len < b.len
      → b.len < len + 44
      → length xs < fuel
      → kmalloc_loop head fuel h len (first (map node (xs ++ b ∷ ys)) head) ≡ some (b.addr + 12, h)
  kmalloc_loop-not_taken zero len ws xs b ys a before free fit short enough =
      elim (too_few enough) [ ]
  kmalloc_loop-not_taken (suc fuel) len ws [] b ys a before free fit short enough =
      let f = Fields-split h ws (b ∷ ys) a.fields in
      let lt = addr-lt head from to h ws b ys a in
      let t = Tiles-split from to ws (b ∷ ys) a.tiles in
      let above = Tiles-le (t.0 + (12 + b.len)) to ys t.2.1 in
      let hit : fits len b ≡ true = ground arith in
      let few : ltb (b.len - len) 44 ≡ true = ground arith in
      let small : (b.addr + 12) % 2 ^ 32 ≡ b.addr + 12 = omega (arith, a.top, t.2.0, above) in
      kmalloc_loop-eq fuel len (node b) b.addr b.used b.len (first (map node ys) head)
        (node-ne-head head from to h ws b ys a) (le_to_block-node head from to b lt) f.1.0 f.1.1
        (next-node ws b ys a)
      ∙ rw
          (
            hit,
            small,
            split_chunk-eq head from to h b.addr len b.len f.1.1 (omega (arith, a.top, above))
                (omega arith),
            few,
          )
          refl
  kmalloc_loop-not_taken (suc fuel) len ws (x ∷ xs) b ys a before free fit short enough =
      let f = Fields-split h ws (x ∷ xs ++ b ∷ ys) a.fields in
      let miss : fits len x ≡ false = ground arith in
      kmalloc_loop-eq fuel len (node x) x.addr x.used x.len (first (map node (xs ++ b ∷ ys)) head)
        (node-ne-head head from to h ws x (xs ++ b ∷ ys) a)
        (le_to_block-node head from to x (addr-lt head from to h ws x (xs ++ b ∷ ys) a)) f.1.0 f.1.1
        (next-node ws x (xs ++ b ∷ ys) a)
      ∙ rw miss (
          kmalloc_loop-not_taken fuel len (ws ++ x ∷ []) xs b ys
            (subst (Holds head h from to) (sym (append_assoc ws (x ∷ []) (xs ++ b ∷ ys))) a)
            (ground arith) free fit short (omega arith))

  -- If the first free block that is longer than asked is too short to be split, fewer than 44
  -- bytes longer, kmalloc returns its address and leaves the heap as it was, so that the block
  -- still counts as free.
  pub kmalloc-not_taken :
      (fuel size : ℕ) (xs : List Block) (b : Block) (ys : List Block)
      → Holds head h from to (xs ++ b ∷ ys)
      → any_fits (chunk_len size) xs ≡ false
      → b.used ≡ 0
      → chunk_len size < b.len
      → b.len < chunk_len size + 44
      → length xs < fuel
      → kmalloc head fuel h size ≡ some (b.addr + 12, h)
  kmalloc-not_taken fuel size xs b ys a before free fit short enough =
      let t = Tiles-split from to xs (b ∷ ys) a.tiles in
      let above = Tiles-le (t.0 + (12 + b.len)) to ys t.2.1 in
      kmalloc-eq fuel size (chunk_len size) (first (map node (xs ++ b ∷ ys)) head) refl
        (omega (arith, a.top, above, fit))
        (next-Chain h.links head (map node (xs ++ b ∷ ys)) head a.ring.chain)
      ∙ kmalloc_loop-not_taken fuel (chunk_len size) [] xs b ys a before free fit short enough
