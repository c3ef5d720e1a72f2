-- ===== src/Buddy/Blocks.antt =====
-- Blocks and free lists: alignment, unused blocks, and how adding or removing one changes the cover.
use hlos.Base.{
  ℕ, ◌+◌, ◌*◌, ◌^◌, ◌<◌, ◌≤◌, ◌≡◌, ◌≢◌, sym, ap, ◌∙◌, true, ◌||◌, List, [], ◌∷◌, ◌++◌, arith, ◌==◌,
  Bool-cases, inl, inr, ==_iff,
}
use hlos.Links.Chain.{has, has-append}
use hlos.Buddy.{page_buddy_mapcount_value, Layout, Memory}
use hlos.Buddy.Spec.{
  FreeLists, with_order, with_order-cases, in_block, covers, covers_list, covers-with_order,
  covers_list-split, in_block_self, in_block-le-covers,
}
use hlos.Buddy.Refine.{Refines}

-- Every free block starts at a multiple of its size.
abbrev pub IsAligned : FreeLists → Type 0
IsAligned f = (o p : ℕ) → o < 11 → has p (f o) ≡ true → (q : ℕ) × (p ≡ q * 2 ^ o)

-- No page is free twice.
abbrev pub IsOnce : FreeLists → Type 0
IsOnce f = (x : ℕ) → covers 11 f x ≤ 1

-- No page of the block is free already, and no page is free twice.
abbrev pub IsUnused : FreeLists → (page order : ℕ) → Type 0
IsUnused f page order = (x : ℕ) → covers 11 f x + in_block page order x ≤ 1

pub has-split :
    (p : ℕ) (zs : List ℕ) → has p zs ≡ true → (xs : List ℕ) × (ys : List ℕ) × (zs ≡ xs ++ p ∷ ys)
has-split p [] h = absurd (cc)
has-split p (z ∷ zs) h = elim (Bool-cases (p == z)) [
  | inl e ↦ ([], zs, ap (λ t. t ∷ zs) (sym ((==_iff p z).0 e)))
  | inr e ↦ let r = has-split p zs (ground arith) in (z ∷ r.0, r.1, ap (λ t. z ∷ t) r.2)
]

module _ (l : Layout) where
  -- The first page of an unused block is not marked as a free block.
  pub unused-unmarked :
      (m : Memory) (f : FreeLists) (page o x : ℕ)
      → Refines l m f
      → in_block page o x ≡ 1
      → IsUnused f page o
      → m.mapcount x ≢ page_buddy_mapcount_value
  unused-unmarked m f page o x r inside unused e =
      let k = r.marked x e in
      absurd (
        omega (
          arith,
          in_block-le-covers 11 f (m.private x) x x k.0 k.1,
          in_block_self x (m.private x),
          unused x,
        ))

  pub IsAligned-add :
      (f : FreeLists) (p o q : ℕ)
      → IsAligned f
      → p ≡ q * 2 ^ o
      → IsAligned (with_order f o (p ∷ f o))
  IsAligned-add f p o q a e j r h i =
      with_order-cases (λ j xs. j < 11 → has r xs ≡ true → (q : ℕ) × (r ≡ q * 2 ^ j)) f o (p ∷ f o)
        (λ hj k. elim (Bool-cases (r == p)) [
          | inl same ↦ (q, (==_iff r p).0 same ∙ e)
          | inr other ↦ a o r hj (ground arith)
        ])
        (λ j ne hj k. a j r hj k) j h i

  pub IsAligned-del :
      (f : FreeLists) (p o : ℕ) (xs ys : List ℕ)
      → IsAligned f
      → f o ≡ xs ++ p ∷ ys
      → IsAligned (with_order f o (xs ++ ys))
  IsAligned-del f p o xs ys a e j r h i =
      with_order-cases (λ j zs. j < 11 → has r zs ≡ true → (q : ℕ) × (r ≡ q * 2 ^ j)) f o (xs ++ ys)
        (λ hj k.
          a o r hj
            (rw (e, has-append r xs (p ∷ ys)) (kept r xs ys p (sym (has-append r xs ys) ∙ k))))
        (λ j ne hj k. a j r hj k) j h i
    where
      kept :
          (r : ℕ) (xs ys : List ℕ) (p : ℕ)
          → (has r xs || has r ys) ≡ true
          → (has r xs || ((r == p) || has r ys)) ≡ true
      kept r xs ys p h = ground arith

  pub covers-add :
      (f : FreeLists) (p o x : ℕ)
      → o < 11
      → covers 11 (with_order f o (p ∷ f o)) x ≡ covers 11 f x + in_block p o x
  unfolding covers_list
  covers-add f p o x h = omega (arith, covers-with_order 11 f o (p ∷ f o) x h)

  pub covers-del :
      (f : FreeLists) (p o : ℕ) (xs ys : List ℕ) (x : ℕ)
      → o < 11
      → f o ≡ xs ++ p ∷ ys
      → covers 11 (with_order f o (xs ++ ys)) x + in_block p o x ≡ covers 11 f x
  covers-del f p o xs ys x h e = omega (
    arith,
    covers-with_order 11 f o (xs ++ ys) x h,
    covers_list-split o xs p ys x,
    ap (λ t. covers_list o t x) e,
  )
