-- ===== src/Slob/Free.antt =====
-- `kfree`.
use mathlib.Core.List.{map-append}
use hlos.Base.{
  ℕ, ◌+◌, ◌-◌, ◌%◌, ◌^◌, ◌<◌, ◌≡◌, ◌≢◌, refl, ap, sym, subst, ◌∙◌, false, List, [], ◌∷◌, ◌++◌, map,
  arith, ◌==◌, if◌then◌else◌,
}
use hlos.Links.Chain.{IsRing, last, first, next-Chain, prev-Chain, Chain-split}
use hlos.Slob.{Heap, glue_prev, glue_next, glue_chunk, kfree, set_allocated}
use hlos.Slob.Blocks.{
  Block, node, Tiles-append, Tiles-split, Fields-same, Fields-append, Fields-split, Holds, used_of,
}
use hlos.Slob.Settled.{IsSettled, IsSettled-left, IsSettled-right}
use hlos.Slob.Glue.{IsFreed, IsFreed-weaken, addr-lt, glue_prev-IsGlued, glue_next-IsFreed}

abbrev freed : Block → Block
freed b = record { addr = b.addr; len = b.len; used = 0 }

map-freed :
    (xs : List Block) (b : Block) (ys : List Block)
    → map node (xs ++ b ∷ ys) ≡ map node (xs ++ freed b ∷ ys)
map-freed [] b ys = refl
map-freed (x ∷ xs) b ys = ap (λ t. node x ∷ t) (map-freed xs b ys)

module _ (head : ℕ) (from to : ℕ) (h : Heap) where
  set_free-Holds :
      (xs : List Block) (b : Block) (ys : List Block)
      → Holds head h from to (xs ++ b ∷ ys)
      → Holds head (set_allocated h b.addr 0) from to (xs ++ freed b ∷ ys)
  set_free-Holds xs b ys a =
      let g = set_allocated h b.addr 0 in
      let t = Tiles-split from to xs (b ∷ ys) a.tiles in
      let f = Fields-split h xs (b ∷ ys) a.fields in
      record {
        ring = subst (IsRing h.links head) (map-freed xs b ys) a.ring;
        tiles = Tiles-append from t.0 to xs (freed b ∷ ys) t.1 (t.2.0, t.2.1);
        fields =
            Fields-append g xs (freed b ∷ ys)
              (Fields-same h g from t.0 xs t.1 (λ x lo hi. (ground (arith, t.2.0), refl)) f.0)
              (
                ground arith,
                f.1.1,
                Fields-same h g (t.0 + (12 + b.len)) to ys t.2.1
                    (λ x lo hi. (ground (arith, t.2.0), refl)) f.1.2,
              );
        top = a.top;
        size = a.size;
        apart = a.apart;
      }

  glue_chunk-eq :
      (g : Heap) (block p n : ℕ)
      → g.links.prev (block + 4) ≡ p
      → g.links.next (block + 4) ≡ n
      → glue_chunk head g block
        ≡ glue_next head (glue_prev head g block p).0 (glue_prev head g block p).1 n
  unfolding glue_chunk
  glue_chunk-eq g block p n e f = rw (e, f) refl

  kfree-eq :
      (block used : ℕ)
      → block < 2 ^ 32
      → h.allocated block ≡ used
      → kfree head h (block + 12)
        ≡ (if used == 1 then glue_chunk head (set_allocated h block 0) block else h)
  unfolding kfree
  kfree-eq block used lt e =
      let same : (block + 12 + 2 ^ 32 - 12) % 2 ^ 32 ≡ block = omega arith in rw (same, e) refl

  -- kfree of the address of a used block leaves a heap that stands for a list of blocks again,
  -- which fill the same area without gaps, and whose used blocks are those of before, less this
  -- one. If no two neighbours were free before, none are afterwards.
  pub kfree-IsFreed :
      (xs : List Block) (b : Block) (ys : List Block)
      → Holds head h from to (xs ++ b ∷ ys)
      → b.used ≡ 1
      → IsFreed head from to
          (IsSettled (xs ++ b ∷ ys))
          (used_of xs ++ used_of ys)
          (kfree head h (b.addr + 12))
  kfree-IsFreed xs b ys a used =
      let g = set_allocated h b.addr 0 in
      let c = freed b in
      let a' = set_free-Holds xs b ys a in
      let s =
        Chain-split g.links head (map node xs) (node c) (map node ys) head
          (subst (IsRing g.links head) (map-append node xs (c ∷ ys)) a'.ring).chain in
      let step = glue_prev-IsGlued head from to g xs c ys a' refl in
      let out = glue_prev head g b.addr (last head (map node xs)) in
      let done =
        IsFreed-weaken head from to
          (λ s. (step.settled (IsSettled-left xs (b ∷ ys) s), (IsSettled-right xs (b ∷ ys) s).1))
          (glue_next-IsFreed head from to out.0 step.blocks step.chunk ys step.holds step.free) in
      let e =
        kfree-eq b.addr 1 (addr-lt head from to h xs b ys a)
          ((Fields-split h xs (b ∷ ys) a.fields).1.0 ∙ used)
        ∙ glue_chunk-eq g b.addr _ _ (prev-Chain g.links head (map node xs) (node c) s.0)
            (next-Chain g.links (node c) (map node ys) head s.1) in
      subst (IsFreed head from to (IsSettled (xs ++ b ∷ ys)) (used_of xs ++ used_of ys)) (sym e) (
        subst
          (λ x.
            IsFreed head from to (IsSettled (xs ++ b ∷ ys)) (used_of xs ++ used_of ys)
              (glue_next head out.0 x (first (map node ys) head)))
          step.place
          (subst
            (λ us.
              IsFreed head from to (IsSettled (xs ++ b ∷ ys)) (us ++ used_of ys)
                (glue_next head out.0 step.chunk.addr (first (map node ys) head)))
            step.same_used done))

  -- `kfree` of the address of a block that is not in use changes nothing.
  pub kfree-not_used :
      (xs : List Block) (b : Block) (ys : List Block)
      → Holds head h from to (xs ++ b ∷ ys)
      → b.used ≢ 1
      → kfree head h (b.addr + 12) ≡ h
  kfree-not_used xs b ys a free =
      let no : (b.used == 1) ≡ false = ground arith in
      kfree-eq b.addr b.used (addr-lt head from to h xs b ys a)
        (Fields-split h xs (b ∷ ys) a.fields).1.0
      ∙ rw no
