-- ===== src/Vsprintf/Decimal.antt =====
-- `put_dec` prints a number in decimal.
use hlos.Base.{
  ℕ, zero, suc, ◌+◌, ◌-◌, ◌*◌, ◌/◌, ◌%◌, ◌^◌, ◌<◌, ◌≤◌, ◌≡◌, ◌≢◌, inl, inr, refl, true, false,
  Bool-cases, List, [], ◌∷◌, none, some, arith, ◌==◌, ltb, leb, All, length,
}
use hlos.Vsprintf.Number.{put_dec_low, put_dec_trunc8, put_dec}

-- The number that digit characters stand for, the lowest digit first.
abbrev pub value : List ℕ → ℕ
value [] = 0
value (c ∷ cs) = (c - 48) + 10 * value cs

abbrev pub IsDigit : ℕ → Type 0
IsDigit c = (48 ≤ c) × (c < 58)

-- The highest digit is not 0, unless it is the only one.
abbrev pub NoLeadingZero : List ℕ → Type 0
NoLeadingZero [] = Unit
NoLeadingZero (c ∷ []) = Unit
NoLeadingZero (c ∷ d ∷ cs) = (value (d ∷ cs) ≢ 0) × NoLeadingZero (d ∷ cs)

-- The characters of the decimal notation of `n`, the lowest digit first.
pub record IsDecimal (n : ℕ) (cs : List ℕ) : Type 0 where
  pub value : value cs ≡ n
  pub char_codes : All IsDigit cs
  pub short : NoLeadingZero cs

put_dec_low-IsDecimal : (r : ℕ) → r < 10000 → IsDecimal r (put_dec_low r)
unfolding put_dec_low
put_dec_low-IsDecimal r h =
    let q : r * 0x199a / 2 ^ 16 ≡ r / 10 = omega arith in
    let r1 : r / 10 * 0xcd / 2 ^ 11 ≡ r / 100 = omega arith in
    let q2 : r / 100 * 0xcd / 2 ^ 11 ≡ r / 1000 = omega arith in
    rw (q, r1, q2)
      (elim (Bool-cases (r / 10 == 0)) [
        | inl a ↦
            rw a (record { value = ground arith; char_codes = (ground arith, tt); short = tt })
        | inr a ↦ rw a (elim (Bool-cases (r / 100 == 0)) [
          | inl b ↦ rw b (record {
            value = ground arith;
            char_codes = (ground arith, (ground arith, tt));
            short = (ground arith, tt);
          })
          | inr b ↦ rw b (elim (Bool-cases (r / 1000 == 0)) [
            | inl c ↦ rw c (record {
              value = ground arith;
              char_codes = (ground arith, (ground arith, (ground arith, tt)));
              short = (ground arith, (ground arith, tt));
            })
            | inr c ↦ rw c (record {
              value = ground arith;
              char_codes = (ground arith, (ground arith, (ground arith, (ground arith, tt))));
              short = (ground arith, (ground arith, (ground arith, tt)));
            })
          ])
        ])
      ])

NoLeadingZero-cons :
    (c : ℕ) (cs : List ℕ) → value cs ≢ 0 → NoLeadingZero cs → NoLeadingZero (c ∷ cs)
NoLeadingZero-cons c [] ne short = tt
NoLeadingZero-cons c (d ∷ cs) ne short = (ne, short)

-- What `k` rounds of the loop get down to four digits.
abbrev limit : ℕ → ℕ
limit zero = 10000
limit (suc k) = 10 * limit k

put_dec_trunc8-high :
    (fuel r : ℕ) (cs : List ℕ)
    → 10000 ≤ r
    → r < 2 ^ 30
    → put_dec_trunc8 fuel (r / 10) ≡ some cs
    → put_dec_trunc8 (suc fuel) r ≡ some ((r % 10 + 48) ∷ cs)
unfolding put_dec_trunc8
put_dec_trunc8-high fuel r cs big lt e =
    let again : leb 10000 r ≡ true = ground arith in
    let q : r * 0x1999999a / 2 ^ 20 / 2 ^ 12 % 2 ^ 32 ≡ r / 10 = omega arith in
    let c : ((r + 48) % 2 ^ 32 + 2 ^ 64 - 10 * (r / 10)) % 256 ≡ r % 10 + 48 = omega arith in
    rw (again, q, c, e, put_dec_trunc8) refl

put_dec_trunc8-low : (fuel r : ℕ) → r < 10000 → put_dec_trunc8 (suc fuel) r ≡ some (put_dec_low r)
unfolding put_dec_trunc8
put_dec_trunc8-low fuel r lt =
    let stop : leb 10000 r ≡ false = ground arith in rw (stop, put_dec_trunc8) refl

IsDecimal-cons :
    (r : ℕ) (cs : List ℕ) → 10 ≤ r → IsDecimal (r / 10) cs → IsDecimal r ((r % 10 + 48) ∷ cs)
IsDecimal-cons r cs big d = record {
  value = omega (arith, d.value);
  char_codes = (omega arith, d.char_codes);
  short = NoLeadingZero-cons (r % 10 + 48) cs (omega (arith, d.value)) d.short;
}

put_dec_low-length : (r : ℕ) → length (put_dec_low r) ≤ 4
unfolding put_dec_low
put_dec_low-length r = ground arith

put_dec_trunc8-IsDecimal :
    (k r : ℕ)
    → r < 2 ^ 30
    → r < limit k
    → (cs : List ℕ) × (put_dec_trunc8 (suc k) r ≡ some cs) × IsDecimal r cs × (length cs ≤ k + 4)
put_dec_trunc8-IsDecimal zero r lt low = (
  put_dec_low r,
  put_dec_trunc8-low zero r low,
  put_dec_low-IsDecimal r low,
  put_dec_low-length r,
)
put_dec_trunc8-IsDecimal (suc k) r lt low = elim (Bool-cases (leb 10000 r)) [
  | inl big ↦
      let rest = put_dec_trunc8-IsDecimal k (r / 10) (omega arith) (omega arith) in
      (
        (r % 10 + 48) ∷ rest.0,
        put_dec_trunc8-high (suc k) r rest.0 (ground arith) lt rest.1,
        IsDecimal-cons r rest.0 (ground arith) rest.2,
        omega (arith, rest.3),
      )
  | inr little ↦
      let small : r < 10000 = ground arith in
      (
        put_dec_low r,
        put_dec_trunc8-low (suc k) r small,
        put_dec_low-IsDecimal r small,
        omega (arith, put_dec_low-length r),
      )
]

-- For a number below 100000000, `put_dec` ends and gives at most 11 decimal digits, the lowest
-- first, that stand for the number and have no leading zero.
pub put_dec-IsDecimal :
    (n : ℕ)
    → n < 100000000
    → (cs : List ℕ) × (put_dec n ≡ some cs) × IsDecimal n cs × (length cs ≤ 11)
unfolding put_dec
put_dec-IsDecimal n lt =
    let r = put_dec_trunc8-IsDecimal 7 n (omega arith) (omega arith) in
    let yes_small : ltb n 100000000 ≡ true = ground arith in
    (r.0, rw yes_small r.1, r.2, omega (arith, r.3))

pub put_dec-null : (n : ℕ) → 100000000 ≤ n → put_dec n ≡ none
unfolding put_dec
put_dec-null n le = let big : ltb n 100000000 ≡ false = ground arith in rw big refl
