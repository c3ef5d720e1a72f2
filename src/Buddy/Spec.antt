-- ===== src/Buddy/Spec.antt =====
-- The abstract view of the zone: for each order the first pages of its free blocks. How often the
-- blocks cover a page is the measure that every operation accounts for.
use native.Mathlib.Nat.{pow-suc, one-le-pow}
use hlos.Base.{
  ℕ, zero, suc, ◌+◌, ◌^◌, ◌≤◌, ◌<◌, ◌≡◌, ◌≢◌, refl, ap, subst, true, ◌&&◌, List, [], ◌∷◌, ◌++◌,
  arith, ◌==◌, ltb, leb, if◌then◌else◌, Bool-cases, inl, inr, ==_iff, ==_refl,
}
use hlos.Links.Chain.{has}

abbrev pub FreeLists : Type 0
FreeLists = ℕ → List ℕ

abbrev pub with_order : FreeLists → ℕ → List ℕ → FreeLists
with_order f o xs j = if o == j then xs else f j

-- 1 if the block of order `o` at page `p` holds page `x`, else 0
abbrev pub in_block : (p o x : ℕ) → ℕ
in_block p o x = if leb p x && ltb x (p + 2 ^ o) then 1 else 0

unfoldable pub covers_list : ℕ → List ℕ → ℕ → ℕ
covers_list o [] x = 0
covers_list o (p ∷ ps) x = in_block p o x + covers_list o ps x

-- How many free blocks of the orders below `k` hold page `x`.
unfoldable pub covers : ℕ → FreeLists → ℕ → ℕ
covers zero f x = 0
covers (suc k) f x = covers_list k (f k) x + covers k f x

-- A property of a list in its order, after one list has changed.
pub with_order-cases {ℓ} :
    (P : ℕ → List ℕ → Type ℓ) (f : FreeLists) (o : ℕ) (xs : List ℕ)
    → P o xs
    → ((j : ℕ) → o ≢ j → P j (f j))
    → (j : ℕ) → P j (with_order f o xs j)
with_order-cases P f o xs here there j = elim (Bool-cases (o == j)) [
  | inl e ↦ rw e (subst (λ k. P k xs) ((==_iff o j).0 e) here)
  | inr e ↦ rw e (there j (ground arith))
]

pub with_order_self : (f : FreeLists) (o : ℕ) (xs : List ℕ) → with_order f o xs o ≡ xs
with_order_self f o xs = rw (==_refl o)

covers-with_order_ge :
    (k : ℕ) (f : FreeLists) (o : ℕ) (xs : List ℕ) (x : ℕ)
    → k ≤ o
    → covers k (with_order f o xs) x ≡ covers k f x
unfolding covers
covers-with_order_ge zero f o xs x h = refl
covers-with_order_ge (suc k) f o xs x h = ground (arith, covers-with_order_ge k f o xs x)

pub covers-with_order :
    (k : ℕ) (f : FreeLists) (o : ℕ) (xs : List ℕ) (x : ℕ)
    → o < k
    → covers k (with_order f o xs) x + covers_list o (f o) x ≡ covers k f x + covers_list o xs x
unfolding covers
covers-with_order zero f o xs x h = absurd (omega arith)
covers-with_order (suc k) f o xs x h = elim (Bool-cases (o == k)) [
  | inl e ↦
      let q : o ≡ k = (==_iff o k).0 e in
      let here : with_order f o xs k ≡ xs = rw e in
      omega (
        arith,
        ap (λ t. covers_list k t x) here,
        ap (λ t. covers_list t xs x) q,
        ap (λ t. covers_list t (f t) x) q,
        covers-with_order_ge k f o xs x (omega arith),
      )
  | inr e ↦
      let there : with_order f o xs k ≡ f k = rw e in
      let ne : o ≢ k = ground arith in
      omega (arith, ap (λ t. covers_list k t x) there, covers-with_order k f o xs x (omega arith))
]

pub covers_list-split :
    (o : ℕ) (xs : List ℕ) (p : ℕ) (ys : List ℕ) (x : ℕ)
    → covers_list o (xs ++ p ∷ ys) x ≡ covers_list o (xs ++ ys) x + in_block p o x
unfolding covers_list
covers_list-split o [] p ys x = omega arith
covers_list-split o (q ∷ xs) p ys x = omega (arith, covers_list-split o xs p ys x)

pub in_block-pair : (p o x : ℕ) → in_block p o x + in_block (p + 2 ^ o) o x ≡ in_block p (suc o) x
in_block-pair p o x = ground (arith, pow-suc 2 o)

pub in_block_self : (p o : ℕ) → in_block p o p ≡ 1
in_block_self p o = ground (arith, one-le-pow o 2)

in_block-le-list :
    (o p : ℕ) (xs : List ℕ) (x : ℕ) → has p xs ≡ true → in_block p o x ≤ covers_list o xs x
unfolding covers_list
in_block-le-list o p [] x h = absurd (cc)
in_block-le-list o p (q ∷ xs) x h = elim (Bool-cases (p == q)) [
  | inl e ↦ omega (arith, ap (λ t. in_block t o x) ((==_iff p q).0 e))
  | inr e ↦ omega (arith, in_block-le-list o p xs x (ground arith))
]

covers_list-le : (k : ℕ) (f : FreeLists) (o x : ℕ) → o < k → covers_list o (f o) x ≤ covers k f x
unfolding covers
covers_list-le zero f o x h = absurd (omega arith)
covers_list-le (suc k) f o x h = elim (Bool-cases (o == k)) [
  | inl e ↦ omega (arith, ap (λ t. covers_list t (f t) x) ((==_iff o k).0 e))
  | inr e ↦ let ne : o ≢ k = ground arith in omega (arith, covers_list-le k f o x (omega arith))
]

-- Every page of a listed block is covered.
pub in_block-le-covers :
    (k : ℕ) (f : FreeLists) (o p x : ℕ) → o < k → has p (f o) ≡ true → in_block p o x ≤ covers k f x
in_block-le-covers k f o p x h m =
    omega (arith, in_block-le-list o p (f o) x m, covers_list-le k f o x h)
