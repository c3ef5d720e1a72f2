-- ===== src/Slob/Settled.antt =====
-- Heaps in which no two neighbouring blocks are free, as `glue_chunk` leaves them.
use mathlib.Core.List.{append_assoc}
use hlos.Base.{
  ◌≡◌, ◌≢◌, inl, inr, refl, sym, subst, ◌∙◌, Bool, ◌&&◌, true, false, Bool-cases, List, [], ◌∷◌,
  ◌++◌, arith, ◌==◌, ==_iff,
}
use hlos.Slob.Blocks.{Block, used_of}

abbrev pub starts_free : List Block → Bool
starts_free [] = false
starts_free (b ∷ bs) = b.used == 0

-- No two neighbours are free.
abbrev pub IsSettled : List Block → Type 0
IsSettled [] = Unit
IsSettled (b ∷ bs) = (((b.used == 0) && starts_free bs) ≡ false) × IsSettled bs

pub IsSettled-left : (xs ys : List Block) → IsSettled (xs ++ ys) → IsSettled xs
IsSettled-left [] ys s = tt
IsSettled-left (x ∷ []) ys s = (ground arith, tt)
IsSettled-left (x ∷ y ∷ xs) ys s = (s.0, IsSettled-left (y ∷ xs) ys s.1)

pub IsSettled-right : (xs ys : List Block) → IsSettled (xs ++ ys) → IsSettled ys
IsSettled-right [] ys s = s
IsSettled-right (x ∷ xs) ys s = IsSettled-right xs ys s.1

-- Two settled parts that meet in a block, which the first part may see changed.
pub IsSettled-join :
    (us : List Block) (c d : Block) (vs : List Block)
    → c.used ≡ d.used
    → IsSettled (us ++ c ∷ [])
    → IsSettled (d ∷ vs)
    → IsSettled (us ++ d ∷ vs)
IsSettled-join [] c d vs e s t = t
IsSettled-join (u ∷ []) c d vs e s t = (ground (arith, s.0), t)
IsSettled-join (u ∷ w ∷ us) c d vs e s t = (s.0, IsSettled-join (w ∷ us) c d vs e s.1 t)

-- A used block may be followed by any settled part.
pub IsSettled-after_used :
    (us : List Block) (p : Block) (vs : List Block)
    → (p.used == 0) ≡ false
    → IsSettled (us ++ p ∷ [])
    → IsSettled vs
    → IsSettled ((us ++ p ∷ []) ++ vs)
IsSettled-after_used us p vs taken s t =
    subst IsSettled (sym (append_assoc us (p ∷ []) vs))
      (IsSettled-join us p p vs refl s (ground arith, t))

used_of-free : (b : Block) (bs : List Block) → (b.used == 0) ≡ true → used_of (b ∷ bs) ≡ used_of bs
unfolding used_of
used_of-free b bs e = rw e

used_of-taken :
    (b : Block) (bs : List Block) → (b.used == 0) ≡ false → used_of (b ∷ bs) ≡ b ∷ used_of bs
unfolding used_of
used_of-taken b bs e = rw e

cons-ne-nil : {b : Block} {bs : List Block} → b ∷ bs ≢ []
cons-ne-nil e = ground arith

-- With no block in use a settled heap is a single free block, if it has any.
pub no_use-single :
    (b : Block) (bs : List Block)
    → IsSettled (b ∷ bs)
    → used_of (b ∷ bs) ≡ []
    → (bs ≡ []) × (b.used ≡ 0)
unfolding used_of
no_use-single b [] s e = elim (Bool-cases (b.used == 0)) [
  | inl free ↦ (refl, (==_iff b.used 0).0 free)
  | inr taken ↦ absurd (cons-ne-nil (sym (used_of-taken b [] taken) ∙ e))
]
no_use-single b (c ∷ bs) s e = elim (Bool-cases (b.used == 0)) [
  | inl free ↦
      let later = no_use-single c bs s.1 (sym (used_of-free b (c ∷ bs) free) ∙ e) in
      absurd (ground (arith, s.0, later.1, free))
  | inr taken ↦ absurd (cons-ne-nil (sym (used_of-taken b (c ∷ bs) taken) ∙ e))
]
