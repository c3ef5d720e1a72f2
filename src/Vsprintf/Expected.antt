-- ===== src/Vsprintf/Expected.antt =====
-- The field of a number as the flags, the base, the field width and the precision ask for it, said
-- without the tests and the tables of `number`; a flag is a bit of `flags`.
use hlos.Base.{
  ℕ, ◌+◌, ◌-◌, ◌/◌, ◌%◌, ◌^◌, ◌<◌, ◌≡◌, ◌⊎◌, inl, inr, refl, ap, ◌∙◌, Bool, true, not, ◌&&◌, ◌||◌,
  Bool-cases, List, [], ◌∷◌, ◌++◌, some, arith, ◌==◌, ==_iff, ltb, leb, if◌then◌else◌, length,
  bit_and, bit_or,
}
use hlos.Base.Finite.{all_codes, all_codes-at, bool_eq, bool_eq→eq}
use hlos.Vsprintf.{
  PrintfSpec, zeropad, sign_flag, plus_flag, space_flag, left_flag, small_flag, special_flag,
  has_flag, Out,
}
use hlos.Vsprintf.Number.{at_least, number, signed_part, reversed, effective_flags, needs_prefix}
use hlos.Vsprintf.Layout.{put_all, layout, sign_text, prefix_text}
use hlos.Vsprintf.Field.{left_over, field_text, number-field_text}

-- The bit `k` of the flags: 0 pads with zeros, 1 is for signed numbers, 2 is the flag +, 3 the space,
-- 4 the flag -, 5 is for lower case, 6 is the flag #.
abbrev pub is_set : (flags k : ℕ) → Bool
is_set flags k = flags / 2 ^ k % 2 == 1

-- A 64-bit pattern that is below 0 as a signed number.
abbrev pub below_zero : ℕ → Bool
below_zero num = not (ltb num (2 ^ 63))

abbrev pub sign_of : (flags num : ℕ) → List ℕ
sign_of flags num =
    if not (is_set flags 1)
    then []
    else if below_zero num
    then b'-' ∷ []
    else if is_set flags 2
    then b'+' ∷ []
    else if is_set flags 3
    then b' ' ∷ []
    else []

-- The absolute value.
abbrev pub magnitude : (flags num : ℕ) → ℕ
magnitude flags num = if is_set flags 1 && below_zero num then 2 ^ 64 - num else num

abbrev pub prefix_of : (flags base num : ℕ) → List ℕ
prefix_of flags base num =
    if not (is_set flags 6) || (base == 10)
    then []
    else if base == 16
    then b'0' ∷ (if is_set flags 5 then b'x' else b'X') ∷ []
    else if num == 0
    then []
    else b'0' ∷ []

-- The number of digits that the precision asks for, where there are `n`: a precision from 2^15 on is
-- negative, or not given.
abbrev pub digits_wanted : (precision n : ℕ) → ℕ
digits_wanted precision n = if ltb precision (2 ^ 15) && ltb n precision then precision else n

-- What is left of the field width.
abbrev pub room_left : (width used : ℕ) → ℕ
room_left width used = if ltb width (2 ^ 15) then width - used else 0

-- The field for the digits `tmp`, the lowest first.
abbrev pub expected : (num : ℕ) → PrintfSpec → (tmp : List ℕ) → List ℕ
expected num spec tmp =
    let n = length tmp in
    let p = digits_wanted spec.precision n in
    let head = sign_of spec.flags num ++ prefix_of spec.flags spec.base num in
    layout (is_set spec.flags 4) (is_set spec.flags 0 && not (is_set spec.flags 4)) head
      (room_left spec.field_width (length head + p)) (p - n) tmp

-- The tests that `number` makes are those of the bits.
pub record IsRead (f : ℕ) : Type 0 where
  sign : has_flag (effective_flags f) sign_flag ≡ is_set f 1
  plus : has_flag (effective_flags f) plus_flag ≡ is_set f 2
  space : has_flag (effective_flags f) space_flag ≡ is_set f 3
  left : has_flag (effective_flags f) left_flag ≡ is_set f 4
  zeros : has_flag (effective_flags f) zeropad ≡ (is_set f 0 && not (is_set f 4))
  special : has_flag f special_flag ≡ is_set f 6
  letter_x : bit_or b'X' (bit_and f small_flag) ≡ (if is_set f 5 then b'x' else b'X')

-- A property of all flags of one byte.
bit_table :
    (f g : ℕ → Bool)
    → all_codes 256 (λ n. bool_eq (f n) (g n)) ≡ true
    → (n : ℕ) → n < 256
    → f n ≡ g n
bit_table f g all n lt =
    bool_eq→eq (f n) (g n) (all_codes-at 256 (λ n. bool_eq (f n) (g n)) n lt all)

pub flags-IsRead : (f : ℕ) → f < 256 → IsRead f
unfolding all_codes bool_eq effective_flags
flags-IsRead f lt = record {
  sign = bit_table (λ f. has_flag (effective_flags f) sign_flag) (λ f. is_set f 1) refl f lt;
  plus = bit_table (λ f. has_flag (effective_flags f) plus_flag) (λ f. is_set f 2) refl f lt;
  space = bit_table (λ f. has_flag (effective_flags f) space_flag) (λ f. is_set f 3) refl f lt;
  left = bit_table (λ f. has_flag (effective_flags f) left_flag) (λ f. is_set f 4) refl f lt;
  zeros =
      bit_table (λ f. has_flag (effective_flags f) zeropad) (λ f. is_set f 0 && not (is_set f 4))
        refl f lt;
  special = bit_table (λ f. has_flag f special_flag) (λ f. is_set f 6) refl f lt;
  letter_x = (==_iff _ _).0 (
      all_codes-at 256
        (λ f. bit_or b'X' (bit_and f small_flag) == (if is_set f 5 then b'x' else b'X')) f lt refl);
}

below_zero-eq : (num : ℕ) → leb (2 ^ 63) num ≡ below_zero num
below_zero-eq num = ground arith

module _ (flags num width : ℕ) (r : IsRead flags) where
  sign_of-eq : sign_text (signed_part (effective_flags flags) num width).0 ≡ sign_of flags num
  unfolding signed_part
  sign_of-eq =
      rw (r.sign, r.plus, r.space, below_zero-eq num)
        (elim (Bool-cases (is_set flags 1)) [
          | inr a ↦ rw a refl
          | inl a ↦ rw a (elim (Bool-cases (below_zero num)) [
            | inl b ↦ rw b refl
            | inr b ↦ rw b (elim (Bool-cases (is_set flags 2)) [
              | inl c ↦ rw c refl
              | inr c ↦
                  rw c
                    (elim (Bool-cases (is_set flags 3)) [ inl d ↦ rw d refl | inr d ↦ rw d refl ])
            ])
          ])
        ])

  pub magnitude-eq :
      num < 2 ^ 64 → (signed_part (effective_flags flags) num width).1 ≡ magnitude flags num
  unfolding signed_part
  magnitude-eq lt =
      rw (r.sign, r.plus, r.space, below_zero-eq num)
        (elim (Bool-cases (is_set flags 1)) [
          | inr a ↦ rw a refl
          | inl a ↦ rw a (elim (Bool-cases (below_zero num)) [
            | inl b ↦ rw b (ground (arith, b))
            | inr b ↦ rw b (elim (Bool-cases (is_set flags 2)) [
              | inl c ↦ rw c refl
              | inr c ↦
                  rw c
                    (elim (Bool-cases (is_set flags 3)) [ inl d ↦ rw d refl | inr d ↦ rw d refl ])
            ])
          ])
        ])

prefix_of-eq :
    (num : ℕ) (spec : PrintfSpec)
    → IsRead spec.flags
    → prefix_text spec.base (bit_and spec.flags small_flag) (needs_prefix spec) (num == 0)
      ≡ prefix_of spec.flags spec.base num
unfolding needs_prefix
prefix_of-eq num spec r =
    rw (r.letter_x, r.special)
      (elim (Bool-cases (is_set spec.flags 6)) [
        | inr a ↦ rw a refl
        | inl a ↦ rw a (elim (Bool-cases (spec.base == 10)) [
          | inl b ↦ rw b refl
          | inr b ↦ rw b (elim (Bool-cases (spec.base == 16)) [
            | inl c ↦ rw c refl
            | inr c ↦ rw c (elim (Bool-cases (num == 0)) [ inl d ↦ rw d refl | inr d ↦ rw d refl ])
          ])
        ])
      ])

digits_wanted-eq : (precision n : ℕ) → at_least precision n ≡ digits_wanted precision n
digits_wanted-eq precision n = ground arith

room_left-eq : (width used : ℕ) → left_over width used ≡ room_left width used
room_left-eq width used = ground arith

module _ (end : ℕ) (o : Out) (num : ℕ) (spec : PrintfSpec) (tmp : List ℕ) where
  field_text-expected : spec.flags < 256 → field_text end o num spec tmp ≡ expected num spec tmp
  field_text-expected byte =
      let r = flags-IsRead spec.flags byte in
      rw
        (
          sign_of-eq spec.flags num spec.field_width r,
          prefix_of-eq num spec r,
          r.left,
          r.zeros,
          digits_wanted-eq spec.precision (length tmp),
        )
        (ap
          (λ fill.
            layout (is_set spec.flags 4) (is_set spec.flags 0 && not (is_set spec.flags 4))
              (sign_of spec.flags num ++ prefix_of spec.flags spec.base num) fill
              (digits_wanted spec.precision (length tmp) - length tmp) tmp)
          (room_left-eq spec.field_width _))

  -- For a number below 2^64, flags of one byte, a field width that is not given or not negative,
  -- a precision below 32000 after it is raised to the number of digits, and digits that the
  -- conversion of the absolute value gives, number prints this text: the sign, which is a minus
  -- for a signed number below 0 and else as the flags + and space ask, the prefix of the base
  -- under the flag #, the zeros of the precision and the digits, filled up to the field width by
  -- spaces behind them with the flag -, by zeros before the digits with the flag 0, and else by
  -- spaces in front.
  pub number-layout :
      spec.flags < 256
      → (spec.field_width < 2 ^ 15) ⊎ (spec.field_width ≡ 0xffff)
      → digits_wanted spec.precision (length tmp) < 32000
      → num < 2 ^ 64
      → reversed spec.base (bit_and spec.flags small_flag) (magnitude spec.flags num) ≡ some tmp
      → number end o num spec ≡ some (put_all end o (expected num spec tmp))
  number-layout byte wide lt small e =
      let r = flags-IsRead spec.flags byte in
      number-field_text end o num spec tmp byte wide
        (omega (arith, digits_wanted-eq spec.precision (length tmp), lt))
        (ap (reversed spec.base (bit_and spec.flags small_flag))
            (magnitude-eq spec.flags num spec.field_width r small)
          ∙ e)
      ∙ ap (λ text. some (put_all end o text)) (field_text-expected byte)
