-- ===== src/Vsprintf/Signed.antt =====
-- `number` in decimal, for every value of its argument.
use hlos.Base.{
  ℕ, ◌+◌, ◌^◌, ◌<◌, ◌≤◌, ◌≡◌, ◌⊎◌, inl, inr, refl, ap, ◌∙◌, true, false, Bool-cases, List, [], ◌∷◌,
  Option, none, some, arith, ◌==◌, ==_iff, ltb, length, bit_and, bit_or, get_or,
}
use hlos.Base.Finite.{all_codes, all_codes-at}
use hlos.Vsprintf.{PrintfSpec, small_flag, Out}
use hlos.Vsprintf.Number.{number, reversed, digits}
use hlos.Vsprintf.Layout.{put_all}
use hlos.Vsprintf.Expected.{
  digits_wanted, magnitude, expected, flags-IsRead, magnitude-eq, number-layout,
}
use hlos.Vsprintf.Decimal.{IsDecimal, put_dec-IsDecimal, put_dec-null}

digit_table :
    all_codes 256
      (λ f. all_codes 10 (λ n. bit_or (get_or digits n 0) (bit_and f small_flag) == 48 + n))
    ≡ true
unfolding all_codes
digit_table = refl

digit-lem :
    (flags n : ℕ)
    → flags < 256
    → n < 10
    → bit_or (get_or digits n 0) (bit_and flags small_flag) ≡ n + 48
digit-lem flags n byte lt =
    let row =
      all_codes-at 256
        (λ f. all_codes 10 (λ n. bit_or (get_or digits n 0) (bit_and f small_flag) == 48 + n)) flags
        byte digit_table in
    let e = (==_iff _ _).0 (
      all_codes-at 10 (λ n. bit_or (get_or digits n 0) (bit_and flags small_flag) == 48 + n) n lt
        row) in
    omega (arith, e)

module _ (flags n : ℕ) (byte : flags < 256) where
  reversed-IsDecimal :
      n < 100000000
      → (tmp : List ℕ) × (reversed 10 (bit_and flags small_flag) n ≡ some tmp)
        × IsDecimal n tmp
        × (length tmp ≤ 11)
  unfolding reversed
  reversed-IsDecimal lt = elim (Bool-cases (ltb n 10)) [
    | inl one ↦
        let few : n < 10 = ground arith in
        let c = digit-lem flags n byte few in
        (
          (n + 48) ∷ [],
          rw (one, c) refl,
          record { value = omega arith; char_codes = (omega arith, tt); short = tt },
          omega arith,
        )
    | inr more ↦ let d = put_dec-IsDecimal n lt in (d.0, rw (more, d.1) refl, d.2, d.3)
  ]

  reversed-null : 100000000 ≤ n → reversed 10 (bit_and flags small_flag) n ≡ none
  unfolding reversed
  reversed-null big =
      let more : ltb n 10 ≡ false = ground arith in rw (more, put_dec-null n big) refl

-- What `number` does in decimal: print the field, or use the null pointer.
pub record IsPrinted (end : ℕ) (o : Out) (num : ℕ) (spec : PrintfSpec) (result : Option Out)
    : Type 0 where
  pub tmp : List ℕ
  pub decimal : IsDecimal (magnitude spec.flags num) tmp
  pub prints : result ≡ some (put_all end o (expected num spec tmp))

module _ (end : ℕ) (o : Out) (num : ℕ) (spec : PrintfSpec) where
  number-null :
      spec.flags < 256
      → spec.base ≡ 10
      → num < 2 ^ 64
      → reversed 10 (bit_and spec.flags small_flag) (magnitude spec.flags num) ≡ none
      → number end o num spec ≡ none
  unfolding number
  number-null byte b lt e =
      let m = magnitude-eq spec.flags num spec.field_width (flags-IsRead spec.flags byte) lt in
      let null = ap (reversed 10 (bit_and spec.flags small_flag)) m ∙ e in rw (b, null) refl

  digits_wanted-lt :
      (tmp : List ℕ)
      → (spec.precision < 32000) ⊎ (spec.precision ≡ 0xffff)
      → length tmp ≤ 11
      → digits_wanted spec.precision (length tmp) < 32000
  digits_wanted-lt tmp precise few = ground arith

  -- In base 10, for a number below 2^64, flags of one byte and a field width and a precision that
  -- are not given or not negative, the precision below 32000: if the absolute value of the
  -- number, signed or not as the flags say, is below 100000000, number prints its field with the
  -- decimal digits of the absolute value, and else it fails, since `put_dec` returns the null
  -- pointer.
  pub number-decimal :
      spec.flags < 256
      → spec.base ≡ 10
      → (spec.field_width < 2 ^ 15) ⊎ (spec.field_width ≡ 0xffff)
      → (spec.precision < 32000) ⊎ (spec.precision ≡ 0xffff)
      → num < 2 ^ 64
      → (IsPrinted end o num spec (number end o num spec) × (magnitude spec.flags num < 100000000))
        ⊎ ((number end o num spec ≡ none) × (100000000 ≤ magnitude spec.flags num))
  number-decimal byte base wide precise in_64 =
      let n = magnitude spec.flags num in
      elim (Bool-cases (ltb n 100000000)) [
        | inl small ↦
            let lt : n < 100000000 = ground arith in
            let r = reversed-IsDecimal spec.flags n byte lt in
            inl (
              record {
                tmp = r.0;
                decimal = r.2;
                prints =
                    number-layout end o num spec r.0 byte wide (digits_wanted-lt r.0 precise r.3)
                      in_64 (rw base r.1);
              },
              lt,
            )
        | inr big ↦
            let le : 100000000 ≤ n = ground arith in
            inr (number-null byte base in_64 (reversed-null spec.flags n byte le), le)
      ]
