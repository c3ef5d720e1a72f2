-- ===== src/Str/Search.antt =====
-- `strchr`, `strrchr`, `strspn` and `strcspn`.
use hlos.Base.{
  ℕ, zero, suc, ◌+◌, ◌%◌, ◌<◌, ◌≤◌, ◌≡◌, ◌≢◌, ap, ◌∙◌, Bool, false, not, Bool-cases, inl, inr, ◌⊎◌,
  List, [], ◌∷◌, some, arith, length, ◌==◌, if◌then◌else◌,
}
use mathlib.Core.Option
use hlos.Bytes.{Mem, null}
use hlos.Links.Chain.{has}
use hlos.Str.{strchr, strrchr, strrchr_loop, in_set, strspn, strspn_loop, strcspn, strcspn_loop}
use hlos.Str.Text.{IsStr}
use hlos.Str.Length.{strlen-length}

-- The place of the first `c` in `xs` followed by NUL.
unfoldable pub first_at : (s c : ℕ) → List ℕ → ℕ
first_at s c [] = if c == 0 then s else null
first_at s c (x ∷ xs) = if c == x then s else first_at (s + 1) c xs

-- With more fuel than the string has bytes, `strchr` ends and returns the place of the first
-- byte that equals the character cut to a char, the NUL included, or null.
pub strchr-first_at :
    (fuel : ℕ) (m : Mem) (s c : ℕ) (xs : List ℕ)
    → IsStr m s xs
    → length xs < fuel
    → strchr fuel m s c ≡ some (first_at s (c % 256) xs)
unfolding strchr first_at
strchr-first_at zero m s c xs h l = absurd (omega arith)
strchr-first_at (suc fuel) m s c [] h l = ground arith
strchr-first_at (suc fuel) m s c (x ∷ xs) h l =
    ground (arith, h.0, h.1, strchr-first_at fuel m (s + 1) c xs h.2)

-- `p` is the last of the `k + 1` bytes from `s` on that holds `c`, or null if none does.
pub record IsLast (m : Mem) (s c k p : ℕ) : Type 0 where
  pub found : (p ≡ null) ⊎ ((s ≤ p) × (p ≤ s + k) × (m p ≡ c))
  pub later : (i : ℕ) → i ≤ k → p < s + i → m (s + i) ≢ c

strrchr_loop-IsLast : (m : Mem) (s c k : ℕ) → IsLast m s (c % 256) k (strrchr_loop m s c k)
unfolding strrchr_loop
strrchr_loop-IsLast m s c zero = record { found = ground arith; later = λ i le lt. ground arith }
strrchr_loop-IsLast m s c (suc k) =
    let rest = strrchr_loop-IsLast m s c k in
    elim (Bool-cases (m (s + suc k) == c % 256)) [
      | inl hit ↦ rw hit (record {
        found = inr (omega arith, omega arith, ground arith);
        later = λ i le lt. absurd (omega arith);
      })
      | inr miss ↦ rw miss (record {
        found = ground (arith, rest.found);
        later = λ i le lt. ground (arith, rest.later i);
      })
    ]

-- With more fuel than the string has bytes, `strrchr` ends and returns the place of the last
-- byte that equals the character cut to a char, the NUL included, or null if there is none.
pub strrchr-IsLast :
    (fuel : ℕ) (m : Mem) (s c : ℕ) (xs : List ℕ)
    → IsStr m s xs
    → length xs < fuel
    → (p : ℕ) × (strrchr fuel m s c ≡ some p) × IsLast m s (c % 256) (length xs) p
unfolding strrchr
strrchr-IsLast fuel m s c xs h l = (
  strrchr_loop m s c (length xs),
  ap (Option.map (strrchr_loop m s c)) (strlen-length fuel m s xs h l),
  strrchr_loop-IsLast m s c (length xs),
)

-- How long the longest start of `xs` is whose bytes all pass the test.
unfoldable pub run_length : (ℕ → Bool) → List ℕ → ℕ
run_length p [] = 0
run_length p (x ∷ xs) = if p x then suc (run_length p xs) else 0

in_set-has :
    (fuel : ℕ) (m : Mem) (a c : ℕ) (ys : List ℕ)
    → IsStr m a ys
    → length ys < fuel
    → in_set fuel m a c ≡ some (has c ys)
unfolding in_set
in_set-has zero m a c ys h l = absurd (omega arith)
in_set-has (suc fuel) m a c [] h l = ground arith
in_set-has (suc fuel) m a c (y ∷ ys) h l =
    ground (arith, h.0, h.1, in_set-has fuel m (a + 1) c ys h.2)

module _ (inner : ℕ) (m : Mem) (set : ℕ) (ys : List ℕ) (k : IsStr m set ys)
    (enough : length ys < inner) where
  strspn_loop_lem :
      (fuel p count : ℕ) (xs : List ℕ)
      → IsStr m p xs
      → length xs < fuel
      → strspn_loop inner fuel m p set count ≡ some (count + run_length (λ x. has x ys) xs)
  unfolding strspn_loop run_length
  strspn_loop_lem zero p count xs h l = absurd (omega arith)
  strspn_loop_lem (suc fuel) p count [] h l = ground arith
  strspn_loop_lem (suc fuel) p count (x ∷ xs) h l =
      let present : (m p == 0) ≡ false = ground (arith, h.0, h.1) in
      let test : in_set inner m set (m p) ≡ some (has x ys) =
        in_set-has inner m set (m p) ys k enough ∙ ap (λ t. some (has t ys)) h.0 in
      let rest = strspn_loop_lem fuel (p + 1) (count + 1) xs h.2 (omega arith) in
      elim (Bool-cases (has x ys)) [
        | inl inside ↦ rw (present, test, inside) (ground (arith, rest))
        | inr outside ↦ rw (present, test, outside) (ground arith)
      ]

  strcspn_loop_lem :
      (fuel p count : ℕ) (xs : List ℕ)
      → IsStr m p xs
      → length xs < fuel
      → strcspn_loop inner fuel m p set count ≡ some (count + run_length (λ x. not (has x ys)) xs)
  unfolding strcspn_loop run_length
  strcspn_loop_lem zero p count xs h l = absurd (omega arith)
  strcspn_loop_lem (suc fuel) p count [] h l = ground arith
  strcspn_loop_lem (suc fuel) p count (x ∷ xs) h l =
      let present : (m p == 0) ≡ false = ground (arith, h.0, h.1) in
      let test : in_set inner m set (m p) ≡ some (has x ys) =
        in_set-has inner m set (m p) ys k enough ∙ ap (λ t. some (has t ys)) h.0 in
      let rest = strcspn_loop_lem fuel (p + 1) (count + 1) xs h.2 (omega arith) in
      elim (Bool-cases (has x ys)) [
        | inl inside ↦ rw (present, test, inside) (ground arith)
        | inr outside ↦ rw (present, test, outside) (ground (arith, rest))
      ]

  -- With more fuel than the string and the set have bytes, `strspn` measures the longest start
  -- of the string made of bytes of the set, and `strcspn` the longest one made of bytes outside
  -- it.
  pub strspn-run_length :
      (fuel s : ℕ) (xs : List ℕ)
      → IsStr m s xs
      → length xs < fuel
      → (strspn inner fuel m s set ≡ some (run_length (λ x. has x ys) xs))
        × (strcspn inner fuel m s set ≡ some (run_length (λ x. not (has x ys)) xs))
  unfolding strspn strcspn
  strspn-run_length fuel s xs h l = (
    ground (arith, strspn_loop_lem fuel s 0 xs h l),
    ground (arith, strcspn_loop_lem fuel s 0 xs h l),
  )
