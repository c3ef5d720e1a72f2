-- ===== src/Slob/Glue.antt =====
-- `kfree` with `glue_chunk`.
use mathlib.Core.List.{map-append, append_assoc, append-nil}
use hlos.Base.{
  ℕ, ◌+◌, ◌%◌, ◌^◌, ◌<◌, ◌≡◌, ◌⊎◌, inl, inr, refl, ap, sym, subst, ◌∙◌, true, false, Bool-cases,
  List, [], ◌∷◌, ◌++◌, map, arith, ◌==◌, ==_iff, ==_refl, if◌then◌else◌,
}
use hlos.Links.{list_del}
use hlos.Links.Chain.{IsRing, last, first}
use hlos.Links.Remove.{list_del-IsRing}
use hlos.Slob.{Heap, le_to_block, absorb, glue_prev, glue_next}
use hlos.Slob.Settled.{IsSettled, IsSettled-join, IsSettled-after_used}
use hlos.Slob.Blocks.{
  Block, node, Tiles, Tiles-le, Tiles-append, Tiles-split, Fields-same, Fields-append, Fields-split,
  Holds, used_of, used_of-append,
}

-- Two neighbours as one block.
abbrev joined : Block → Block → Block
joined p q = record { addr = p.addr; len = p.len + (q.len + 12); used = p.used }

regroup :
    (us vs : List Block) (p : Block)
    → (map node us ++ node p ∷ []) ++ map node vs ≡ map node (us ++ p ∷ vs)
regroup us vs p = simp (map-append, append_assoc)

unsnoc : (xs : List Block) → (xs ≡ []) ⊎ ((us : List Block) × (p : Block) × (xs ≡ us ++ p ∷ []))
unsnoc [] = inl refl
unsnoc (x ∷ xs) = elim (unsnoc xs) [
  | inl e ↦ inr ([], x, ap (λ t. x ∷ t) e)
  | inr (us, p, e) ↦ inr (x ∷ us, p, ap (λ t. x ∷ t) e)
]

module _ (head : ℕ) (from to : ℕ) where
  absorb-Holds :
      (h : Heap) (us : List Block) (p q : Block) (vs : List Block)
      → Holds head h from to (us ++ p ∷ q ∷ vs)
      → Holds head (absorb h p.addr q.addr) from to (us ++ joined p q ∷ vs)
  unfolding absorb
  absorb-Holds h us p q vs a =
      let t = Tiles-split from to us (p ∷ q ∷ vs) a.tiles in
      let f = Fields-split h us (p ∷ q ∷ vs) a.fields in
      let below = Tiles-le from t.0 us t.1 in
      let above = Tiles-le (t.0 + (12 + p.len) + (12 + q.len)) to vs t.2.1.1 in
      let sum : (h.length p.addr + (h.length q.addr + 12)) % 2 ^ 31 ≡ p.len + (q.len + 12) =
        omega (arith, f.1.1, f.1.2.1, a.size, below, above) in
      record {
        ring =
            subst (IsRing (list_del h.links (node q)) head) (regroup us vs (joined p q))
              (list_del-IsRing h.links head (map node us ++ node p ∷ []) (node q) (map node vs)
                (subst (IsRing h.links head) (sym (regroup us (q ∷ vs) p)) a.ring)).0;
        tiles =
            Tiles-append from t.0 to us (joined p q ∷ vs) t.1
              (t.2.0, subst (λ m. Tiles m to vs) (omega arith) t.2.1.1);
        fields =
            Fields-append (absorb h p.addr q.addr) us (joined p q ∷ vs)
              (Fields-same h (absorb h p.addr q.addr) from t.0 us t.1
                (λ x lo hi. (refl, ground (arith, t.2.0))) f.0)
              (
                f.1.0,
                ground (arith, sum),
                Fields-same h (absorb h p.addr q.addr) (t.0 + (12 + p.len) + (12 + q.len)) to vs
                    t.2.1.1 (λ x lo hi. (refl, ground (arith, t.2.0))) f.1.2.2,
              );
        top = a.top;
        size = a.size;
        apart = a.apart;
      }

  pub le_to_block-node : (b : Block) → b.addr < 2 ^ 32 → le_to_block (node b) ≡ b.addr
  le_to_block-node b h = omega arith

  -- What a step of `glue_chunk` leaves: the chunk may have grown to the left.
  pub record IsGlued (xs ys : List Block) (result : Heap × ℕ) : Type 0 where
    pub blocks : List Block
    pub chunk : Block
    pub holds : Holds head result.0 from to (blocks ++ chunk ∷ ys)
    pub place : chunk.addr ≡ result.1
    pub free : chunk.used ≡ 0
    pub same_used : used_of blocks ≡ used_of xs
    pub settled : IsSettled xs → IsSettled (blocks ++ chunk ∷ [])

  -- Where the parts of the area end.
  pub addr-lt :
      (h : Heap) (us : List Block) (p : Block) (vs : List Block)
      → Holds head h from to (us ++ p ∷ vs)
      → p.addr < 2 ^ 32
  addr-lt h us p vs a =
      let t = Tiles-split from to us (p ∷ vs) a.tiles in
      omega (arith, t.2.0, Tiles-le (t.0 + (12 + p.len)) to vs t.2.1, a.top)

  pub node-ne-head :
      (h : Heap) (us : List Block) (p : Block) (vs : List Block)
      → Holds head h from to (us ++ p ∷ vs)
      → (node p == head) ≡ false
  node-ne-head h us p vs a =
      let t = Tiles-split from to us (p ∷ vs) a.tiles in
      ground
        (arith, t.2.0, Tiles-le from t.0 us t.1, Tiles-le (t.0 + (12 + p.len)) to vs t.2.1, a.apart)

  used-at :
      (h : Heap) (us : List Block) (p : Block) (vs : List Block)
      → Holds head h from to (us ++ p ∷ vs)
      → h.allocated p.addr ≡ p.used
  used-at h us p vs a = (Fields-split h us (p ∷ vs) a.fields).1.0

  glue_prev-eq :
      (h : Heap) (block prev place used : ℕ)
      → (prev == head) ≡ false
      → le_to_block prev ≡ place
      → h.allocated place ≡ used
      → glue_prev head h block prev
        ≡ (if used == 0 then (absorb h place block, place) else (h, block))
  unfolding glue_prev
  glue_prev-eq h block prev place used e p u = rw (e, p, u) refl

  glue_prev-head : (h : Heap) (block : ℕ) → glue_prev head h block head ≡ (h, block)
  unfolding glue_prev
  glue_prev-head h block = rw (==_refl head) refl

  glue_prev-node :
      (h : Heap) (us : List Block) (p b : Block) (ys : List Block)
      → Holds head h from to (us ++ p ∷ b ∷ ys)
      → b.used ≡ 0
      → IsGlued (us ++ p ∷ []) ys (glue_prev head h b.addr (node p))
  glue_prev-node h us p b ys a free =
      let small = addr-lt h us p (b ∷ ys) a in
      let e =
        glue_prev-eq h b.addr (node p) p.addr p.used (node-ne-head h us p (b ∷ ys) a)
          (le_to_block-node p small) (used-at h us p (b ∷ ys) a) in
      subst (IsGlued (us ++ p ∷ []) ys) (sym e) (elim (Bool-cases (p.used == 0)) [
        | inl yes_free ↦ rw yes_free (record {
          blocks = us;
          chunk = joined p b;
          holds = absorb-Holds h us p b ys a;
          place = refl;
          free = (==_iff p.used 0).0 yes_free;
          same_used = sym (
              used_of-append us (p ∷ [])
              ∙ unfold used_of in (rw (yes_free, append-nil (used_of us)) refl));
          settled = λ s. IsSettled-join us p (joined p b) [] refl s (ground arith, tt);
        })
        | inr taken ↦ rw taken (record {
          blocks = us ++ p ∷ [];
          chunk = b;
          holds = subst (Holds head h from to) (sym (append_assoc us (p ∷ []) (b ∷ ys))) a;
          place = refl;
          free = free;
          same_used = refl;
          settled = λ s. IsSettled-after_used us p (b ∷ []) taken s (ground arith, tt);
        })
      ])

  last-snoc : (us : List Block) (p : Block) → last head (map node (us ++ p ∷ [])) ≡ node p
  last-snoc us p = last-from head us
    where
      last-from : (e : ℕ) (us : List Block) → last e (map node (us ++ p ∷ [])) ≡ node p
      last-from e [] = refl
      last-from e (u ∷ us) = last-from (node u) us

  pub glue_prev-IsGlued :
      (h : Heap) (xs : List Block) (b : Block) (ys : List Block)
      → Holds head h from to (xs ++ b ∷ ys)
      → b.used ≡ 0
      → IsGlued xs ys (glue_prev head h b.addr (last head (map node xs)))
  glue_prev-IsGlued h xs b ys a free = elim (unsnoc xs) [
    | inl e ↦
        subst
          (λ zs.
            Holds head h from to (zs ++ b ∷ ys)
            → IsGlued zs ys (glue_prev head h b.addr (last head (map node zs))))
          (sym e)
          (λ a. subst (IsGlued [] ys) (sym (glue_prev-head h b.addr)) (record {
            blocks = [];
            chunk = b;
            holds = a;
            place = refl;
            free = free;
            same_used = refl;
            settled = λ _. (ground arith, tt);
          }))
          a
    | inr (us, p, e) ↦
        subst
          (λ zs.
            Holds head h from to (zs ++ b ∷ ys)
            → IsGlued zs ys (glue_prev head h b.addr (last head (map node zs))))
          (sym e)
          (λ a.
            subst (λ n. IsGlued (us ++ p ∷ []) ys (glue_prev head h b.addr n))
              (sym (last-snoc us p))
              (glue_prev-node h us p b ys
                (subst (Holds head h from to) (append_assoc us (p ∷ []) (b ∷ ys)) a) free))
          a
  ]

  glue_next-eq :
      (h : Heap) (block next place used : ℕ)
      → (next == head) ≡ false
      → le_to_block next ≡ place
      → h.allocated place ≡ used
      → glue_next head h block next ≡ (if used == 0 then absorb h block place else h)
  unfolding glue_next
  glue_next-eq h block next place used e p u = rw (e, p, u) refl

  glue_next-head : (h : Heap) (block : ℕ) → glue_next head h block head ≡ h
  unfolding glue_next
  glue_next-head h block = rw (==_refl head) refl

  -- The blocks in use are `used`, the memory stands for a list of blocks again, and if `quiet` held
  -- before, no two neighbours of them are free.
  pub record IsFreed (quiet : Type 0) (used : List Block) (result : Heap) : Type 0 where
    pub blocks : List Block
    pub holds : Holds head result from to blocks
    pub same_used : used_of blocks ≡ used
    pub settled : quiet → IsSettled blocks

  pub IsFreed-weaken :
      {quiet quiet' : Type 0} {used : List Block} {g : Heap}
      → (quiet' → quiet)
      → IsFreed quiet used g
      → IsFreed quiet' used g
  IsFreed-weaken f freed = record {
    blocks = freed.blocks;
    holds = freed.holds;
    same_used = freed.same_used;
    settled = λ q. freed.settled (f q);
  }

  pub glue_next-IsFreed :
      (h : Heap) (us : List Block) (c : Block) (ys : List Block)
      → Holds head h from to (us ++ c ∷ ys)
      → c.used ≡ 0
      → IsFreed
          (IsSettled (us ++ c ∷ []) × IsSettled ys)
          (used_of us ++ used_of ys)
          (glue_next head h c.addr (first (map node ys) head))
  unfolding used_of
  glue_next-IsFreed h us c [] a free =
      let no_use : (c.used == 0) ≡ true = rw free in
      subst (IsFreed _ (used_of us ++ [])) (sym (glue_next-head h c.addr)) (record {
        blocks = us ++ c ∷ [];
        holds = a;
        same_used = used_of-append us (c ∷ []) ∙ rw no_use;
        settled = λ s. s.0;
      })
  glue_next-IsFreed h us c (q ∷ ys) a free =
      let assoc = append_assoc us (c ∷ []) (q ∷ ys) in
      let a' : Holds head h from to ((us ++ c ∷ []) ++ q ∷ ys) =
        subst (Holds head h from to) (sym assoc) a in
      let no_use : (c.used == 0) ≡ true = rw free in
      let e =
        glue_next-eq h c.addr (node q) q.addr q.used (node-ne-head h (us ++ c ∷ []) q ys a')
          (le_to_block-node q (addr-lt h (us ++ c ∷ []) q ys a'))
          (used-at h (us ++ c ∷ []) q ys a') in
      subst (IsFreed _ (used_of us ++ used_of (q ∷ ys))) (sym e) (elim (Bool-cases (q.used == 0)) [
        | inl yes_free ↦ rw yes_free (record {
          blocks = us ++ joined c q ∷ ys;
          holds = absorb-Holds h us c q ys a;
          same_used = used_of-append us (joined c q ∷ ys) ∙ rw no_use refl;
          settled = λ s. IsSettled-join us c (joined c q) ys refl s.0 (ground (arith, s.1), s.1.1);
        })
        | inr taken ↦ rw taken (record {
          blocks = us ++ c ∷ q ∷ ys;
          holds = a;
          same_used = used_of-append us (c ∷ q ∷ ys) ∙ rw (no_use, taken) refl;
          settled =
              λ s. IsSettled-join us c c (q ∷ ys) refl s.0 (ground arith, (ground arith, s.1.1));
        })
      ])
