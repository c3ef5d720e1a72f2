-- ===== src/Str/Find.antt =====
-- `strstr` and `strnstr`, against the first match.
use hlos.Base.{
  ℕ, zero, suc, ◌+◌, ◌<◌, ◌≤◌, ◌≡◌, ◌⊎◌, refl, subst, true, false, Bool-cases, inl, inr, List, [],
  ◌∷◌, some, arith, length, leb, leb→le, ◌==◌,
}
use hlos.Base.Int.{ℤ, pos, negsuc}
use hlos.Bytes.{Mem, null, memcmp}
use hlos.Bytes.Compare.{memcmp-eq-zero_iff}
use hlos.Str.{strstr, strstr_loop, strnstr, is_zero}
use hlos.Str.Text.{IsStr}
use hlos.Str.Length.{strlen-length}

-- The `count` bytes at `p` and at `q` are the same.
abbrev pub IsSame : Mem → (p q count : ℕ) → Type 0
IsSame m p q count = (i : ℕ) → i < count → m (p + i) ≡ m (q + i)

-- `p` is the first place among the `l1` bytes at `s1` where the `l2` bytes at `s2` stand, or null if
-- there is none.
pub record IsMatch (m : Mem) (s1 l1 s2 l2 p : ℕ) : Type 0 where
  pub found : (p ≡ null) ⊎ ((s1 ≤ p) × (p + l2 ≤ s1 + l1) × IsSame m p s2 l2)
  pub earlier : (q : ℕ) → s1 ≤ q → q + l2 ≤ s1 + l1 → (p ≡ null) ⊎ (q < p) → IsSame m q s2 l2 → ⊥

is_zero→eq : (z : ℤ) → is_zero z ≡ true → z ≡ pos 0
is_zero→eq (pos n) h = ground arith
is_zero→eq (negsuc n) h = absurd (cc)

module _ (m : Mem) (s2 l2 : ℕ) (some_bytes : 0 < l2) where
  memcmp-IsSame : (p : ℕ) → is_zero (memcmp m p s2 l2) ≡ true → IsSame m p s2 l2
  memcmp-IsSame p h = (memcmp-eq-zero_iff m p s2 l2).0 (is_zero→eq _ h)

  memcmp-differs : (p : ℕ) → is_zero (memcmp m p s2 l2) ≡ false → IsSame m p s2 l2 → ⊥
  memcmp-differs p h same = absurd (ground (arith, (memcmp-eq-zero_iff m p s2 l2).1 same))

  strstr_loop-IsMatch : (l1 s1 : ℕ) → 0 < s1 → IsMatch m s1 l1 s2 l2 (strstr_loop m s1 s2 l2 l1)
  unfolding strstr_loop
  strstr_loop-IsMatch zero s1 top = record {
    found = inl refl;
    earlier = λ q a b c same. absurd (omega arith);
  }
  strstr_loop-IsMatch (suc l1) s1 top =
      let rest = strstr_loop-IsMatch l1 (s1 + 1) (omega arith) in
      elim (Bool-cases (leb l2 (suc l1))) [
        | inl fits ↦ elim (Bool-cases (is_zero (memcmp m s1 s2 l2))) [
          | inl hit ↦
              rw (fits, hit)
                (record {
                  found = inr (omega arith, omega (arith, leb→le _ _ fits), memcmp-IsSame s1 hit);
                  earlier = λ q a b c same. absurd (omega arith);
                })
          | inr miss ↦
              rw (fits, miss)
                (record {
                  found = elim rest.found [
                    | inl e ↦ inl e
                    | inr f ↦ inr (omega (arith, f.0), omega (arith, f.1), f.2)
                  ];
                  earlier = λ q a b c same. elim (Bool-cases (q == s1)) [
                    | inl here ↦
                        memcmp-differs s1 miss (subst (λ t. IsSame m t s2 l2) (ground arith) same)
                    | inr on ↦ rest.earlier q (ground arith) (omega arith) c same
                  ];
                })
        ]
        | inr short ↦
            rw short (record { found = inl refl; earlier = λ q a b c same. absurd (ground arith) })
      ]

-- With more fuel than either string has bytes, and the first one not at null, `strstr` ends and
-- returns the first place where the second string stands in the first one, or null if there is
-- none.
pub strstr-IsMatch :
    (fuel : ℕ) (m : Mem) (s1 s2 : ℕ) (xs ys : List ℕ)
    → IsStr m s1 xs
    → IsStr m s2 ys
    → 0 < s1
    → length xs < fuel
    → length ys < fuel
    → (p : ℕ) × (strstr fuel m s1 s2 ≡ some p) × IsMatch m s1 (length xs) s2 (length ys) p
unfolding strstr
strstr-IsMatch fuel m s1 s2 xs [] h k top l1 l2 = (
  s1,
  rw (strstr, strlen-length fuel m s2 [] k l2) refl,
  record {
    found = inr (omega arith, omega arith, λ i lt. absurd (omega arith));
    earlier = λ q a b c same. absurd (omega arith);
  },
)
strstr-IsMatch fuel m s1 s2 xs (y ∷ ys) h k top l1 l2 = (
  strstr_loop m s1 s2 (length (y ∷ ys)) (length xs),
  rw (strstr, strlen-length fuel m s2 (y ∷ ys) k l2, strlen-length fuel m s1 xs h l1)
      (ground arith),
  strstr_loop-IsMatch m s2 (length (y ∷ ys)) (omega arith) (length xs) s1 top,
)

-- `strnstr` does the same in the first `len` bytes, which it reads past a NUL.
pub strnstr-IsMatch :
    (fuel : ℕ) (m : Mem) (s1 s2 len : ℕ) (ys : List ℕ)
    → IsStr m s2 ys
    → 0 < s1
    → length ys < fuel
    → (p : ℕ) × (strnstr fuel m s1 s2 len ≡ some p) × IsMatch m s1 len s2 (length ys) p
unfolding strnstr
strnstr-IsMatch fuel m s1 s2 len [] k top l2 = (
  s1,
  rw (strnstr, strlen-length fuel m s2 [] k l2) refl,
  record {
    found = inr (omega arith, omega arith, λ i lt. absurd (omega arith));
    earlier = λ q a b c same. absurd (omega arith);
  },
)
strnstr-IsMatch fuel m s1 s2 len (y ∷ ys) k top l2 = (
  strstr_loop m s1 s2 (length (y ∷ ys)) len,
  rw (strnstr, strlen-length fuel m s2 (y ∷ ys) k l2) (ground arith),
  strstr_loop-IsMatch m s2 (length (y ∷ ys)) (omega arith) len s1 top,
)
