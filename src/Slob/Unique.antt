-- ===== src/Slob/Unique.antt =====
-- The blocks in use determine the blocks of a heap without neighbouring free blocks, so that `kfree`
-- is known by what it leaves in use.
use hlos.Base.{
  ℕ, ◌+◌, ◌≤◌, ◌≡◌, inl, inr, refl, ap, sym, subst, ◌∙◌, true, false, Bool-cases, List, [], ◌∷◌,
  arith, ◌==◌,
}
use hlos.Slob.Blocks.{Block, Tiles, Tiles-le, used_of}
use hlos.Slob.Settled.{IsSettled, starts_free}

-- Where the first of some blocks stands, or else the end of the area.
abbrev start_of : (to : ℕ) → List Block → ℕ
start_of to [] = to
start_of to (b ∷ bs) = b.addr

start_of-used :
    (from to : ℕ) (bs : List Block)
    → Tiles from to bs
    → starts_free bs ≡ false
    → start_of to (used_of bs) ≡ from
unfolding used_of
start_of-used from to [] t e = sym t
start_of-used from to (b ∷ bs) t e = rw e t.0

start_of-low : (from to : ℕ) (bs : List Block) → Tiles from to bs → from ≤ start_of to (used_of bs)
unfolding used_of
start_of-low from to [] t = omega (arith, t)
start_of-low from to (b ∷ bs) t = elim (Bool-cases (b.used == 0)) [
  | inl free ↦ rw free omega (arith, start_of-low (from + (12 + b.len)) to bs t.1)
  | inr used ↦ rw used omega (arith, t.0)
]

abbrev first_or : Block → List Block → Block
first_or d [] = d
first_or d (b ∷ bs) = b

used_of-free : (b : Block) (bs : List Block) → (b.used == 0) ≡ true → used_of bs ≡ used_of (b ∷ bs)
unfolding used_of
used_of-free b bs e = rw e refl

used_of-used :
    (b : Block) (bs : List Block) → (b.used == 0) ≡ false → used_of (b ∷ bs) ≡ b ∷ used_of bs
unfolding used_of
used_of-used b bs e = rw e refl

abbrev tail_of : List Block → List Block
tail_of [] = []
tail_of (b ∷ bs) = bs

-- Two lists of blocks that fill the same area, without neighbouring free blocks and with the same
-- blocks in use, are the same.
pub settled_unique :
    (from to : ℕ) (bs cs : List Block)
    → Tiles from to bs
    → Tiles from to cs
    → IsSettled bs
    → IsSettled cs
    → used_of bs ≡ used_of cs
    → bs ≡ cs
settled_unique from to [] [] t u s r e = refl
settled_unique from to [] (c ∷ cs) t u s r e =
    absurd (omega (arith, t, Tiles-le (from + (12 + c.len)) to cs u.1))
settled_unique from to (b ∷ bs) [] t u s r e =
    absurd (omega (arith, u, Tiles-le (from + (12 + b.len)) to bs t.1))
settled_unique from to (b ∷ bs) (c ∷ cs) t u s r e = elim (Bool-cases (b.used == 0)) [
  | inl f ↦ elim (Bool-cases (c.used == 0)) [
    | inl g ↦
        let e' : used_of bs ≡ used_of cs = used_of-free b bs f ∙ e ∙ sym (used_of-free c cs g) in
        let low = start_of-used (from + (12 + b.len)) to bs t.1 (ground (arith, s.0)) in
        let low' = start_of-used (from + (12 + c.len)) to cs u.1 (ground (arith, r.0)) in
        let addr : b.addr ≡ c.addr = t.0 ∙ sym u.0 in
        let len : b.len ≡ c.len = omega (arith, low, low', ap (start_of to) e') in
        let used : b.used ≡ c.used = ground arith in
        let same : b ≡ c = λ i. record { addr = addr i; len = len i; used = used i } in
        let u' = subst (λ d. Tiles (from + (12 + d.len)) to cs) (sym same) u.1 in
        let rest = settled_unique (from + (12 + b.len)) to bs cs t.1 u' s.1 r.1 e' in
        λ i. same i ∷ rest i
    | inr g ↦
        let e' = used_of-free b bs f ∙ e ∙ used_of-used c cs g in
        let low = start_of-low (from + (12 + b.len)) to bs t.1 in
        absurd (omega (arith, low, ap (start_of to) e', u.0))
  ]
  | inr f ↦ elim (Bool-cases (c.used == 0)) [
    | inl g ↦
        let e' = used_of-free c cs g ∙ sym e ∙ used_of-used b bs f in
        let low = start_of-low (from + (12 + c.len)) to cs u.1 in
        absurd (omega (arith, low, ap (start_of to) e', t.0))
    | inr g ↦
        let e' = sym (used_of-used b bs f) ∙ e ∙ used_of-used c cs g in
        let same : b ≡ c = ap (first_or b) e' in
        let u' = subst (λ d. Tiles (from + (12 + d.len)) to cs) (sym same) u.1 in
        let rest = settled_unique (from + (12 + b.len)) to bs cs t.1 u' s.1 r.1 (ap tail_of e') in
        λ i. same i ∷ rest i
  ]
]
