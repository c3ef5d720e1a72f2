-- ===== src/Str/Compare.antt =====
-- `strcmp` and `strncmp` against the lexicographic order of texts.
use hlos.Base.{
  ℕ, zero, suc, ◌+◌, ◌<◌, ◌≡◌, ◌↔◌, refl, sym, ap, ap₂, ◌∙◌, List, [], ◌∷◌, some, arith, length,
  ltb, ◌==◌, if◌then◌else◌,
}
use hlos.Base.Int.{ℤ, pos, negsuc}
use hlos.Bytes.{Mem}
use hlos.Str.{strcmp, strncmp}
use hlos.Str.Text.{IsStr}

-- -1, 0 or 1 as `xs` is less than, equal to or greater than `ys`, byte by byte.
unfoldable pub order_of : List ℕ → List ℕ → ℤ
order_of [] [] = pos 0
order_of [] (y ∷ ys) = negsuc 0
order_of (x ∷ xs) [] = pos 1
order_of (x ∷ xs) (y ∷ ys) = if x == y then order_of xs ys else if ltb x y then negsuc 0 else pos 1

pub order_of-zero : (xs ys : List ℕ) → order_of xs ys ≡ pos 0 → xs ≡ ys
unfolding order_of
order_of-zero [] [] e = refl
order_of-zero [] (y ∷ ys) e = absurd (cc)
order_of-zero (x ∷ xs) [] e = absurd (ground arith)
order_of-zero (x ∷ xs) (y ∷ ys) e =
    let same : (x ≡ y) × (order_of xs ys ≡ pos 0) = ground arith in
    ap₂ (λ a b. a ∷ b) same.0 (order_of-zero xs ys same.1)

pub order_of_self : (xs : List ℕ) → order_of xs xs ≡ pos 0
unfolding order_of
order_of_self [] = refl
order_of_self (x ∷ xs) = ground (arith, order_of_self xs)

-- With more fuel than the first string has bytes, `strcmp` of two strings ends and returns
-- their lexicographic order as -1, 0 or 1.
pub strcmp-order_of :
    (fuel : ℕ) (m : Mem) (cs ct : ℕ) (xs ys : List ℕ)
    → IsStr m cs xs
    → IsStr m ct ys
    → length xs < fuel
    → strcmp fuel m cs ct ≡ some (order_of xs ys)
unfolding strcmp order_of
strcmp-order_of zero m cs ct xs ys h k l = absurd (omega arith)
strcmp-order_of (suc fuel) m cs ct [] [] h k l = ground arith
strcmp-order_of (suc fuel) m cs ct [] (y ∷ ys) h k l = ground (arith, k.0, k.1)
strcmp-order_of (suc fuel) m cs ct (x ∷ xs) [] h k l = ground (arith, h.0, h.1)
strcmp-order_of (suc fuel) m cs ct (x ∷ xs) (y ∷ ys) h k l =
    ground (arith, h.0, h.1, k.0, strcmp-order_of fuel m (cs + 1) (ct + 1) xs ys h.2 k.2)

-- So `strcmp` is 0 exactly for equal strings.
pub strcmp-eq-zero_iff :
    (fuel : ℕ) (m : Mem) (cs ct : ℕ) (xs ys : List ℕ)
    → IsStr m cs xs
    → IsStr m ct ys
    → length xs < fuel
    → (strcmp fuel m cs ct ≡ some (pos 0)) ↔ (xs ≡ ys)
strcmp-eq-zero_iff fuel m cs ct xs ys h k l =
    let e = strcmp-order_of fuel m cs ct xs ys h k l in
    (
      (λ z. order_of-zero xs ys (ground (arith, e))),
      (λ z. e ∙ ap some (ap (order_of xs) (sym z) ∙ order_of_self xs)),
    )

abbrev pub take : ℕ → List ℕ → List ℕ
take zero xs = []
take (suc n) [] = []
take (suc n) (x ∷ xs) = x ∷ take n xs

-- `strncmp` returns the lexicographic order of the first count bytes of two strings.
pub strncmp-order_of :
    (m : Mem) (cs ct count : ℕ) (xs ys : List ℕ)
    → IsStr m cs xs
    → IsStr m ct ys
    → strncmp m cs ct count ≡ order_of (take count xs) (take count ys)
unfolding strncmp order_of
strncmp-order_of m cs ct zero xs ys h k = refl
strncmp-order_of m cs ct (suc count) [] [] h k = ground arith
strncmp-order_of m cs ct (suc count) [] (y ∷ ys) h k = ground (arith, k.0, k.1)
strncmp-order_of m cs ct (suc count) (x ∷ xs) [] h k = ground (arith, h.0, h.1)
strncmp-order_of m cs ct (suc count) (x ∷ xs) (y ∷ ys) h k =
    ground (arith, h.0, h.1, k.0, strncmp-order_of m (cs + 1) (ct + 1) count xs ys h.2 k.2)
