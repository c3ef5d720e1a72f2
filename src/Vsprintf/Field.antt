-- ===== src/Vsprintf/Field.antt =====
-- `number` fills its field: the widths that it works out, and the text of the whole field.
use hlos.Base.{
  ℕ, ◌+◌, ◌-◌, ◌%◌, ◌^◌, ◌<◌, ◌≤◌, ◌≡◌, ◌⊎◌, inl, inr, refl, ap, Bool, true, false, not, ◌&&◌, ◌||◌,
  Bool-cases, List, [], ◌∷◌, ◌++◌, some, arith, ◌==◌, ltb, leb, if◌then◌else◌, length,
  length-append, bit_and, ltb→lt,
}
use hlos.Base.Finite.{all_codes, all_codes-at}
use hlos.Vsprintf.{
  PrintfSpec, zeropad, sign_flag, plus_flag, space_flag, left_flag, small_flag, has_flag,
  is_negative, Out,
}
use hlos.Vsprintf.Number.{
  at_least, number, signed_part, reversed, effective_flags, needs_prefix, prefix_width,
}
use hlos.Vsprintf.Parts.{print_parts-layout}
use hlos.Vsprintf.Layout.{IsFill, put_all, layout, sign_text, prefix_text}

signed_part-width :
    (flags num width : ℕ)
    → width < 2 ^ 16
    → (signed_part flags num width).2
      ≡ (width + 2 ^ 16 - length (sign_text (signed_part flags num width).0)) % 2 ^ 16
unfolding signed_part
signed_part-width flags num width lt = elim (Bool-cases (has_flag flags sign_flag)) [
  | inr plain ↦ rw plain (omega arith)
  | inl yes_sign ↦ rw yes_sign (elim (Bool-cases (leb (2 ^ 63) num)) [
    | inl a ↦ rw a (omega arith)
    | inr a ↦ rw a (elim (Bool-cases (has_flag flags plus_flag)) [
      | inl b ↦ rw b (omega arith)
      | inr b ↦ rw b (elim (Bool-cases (has_flag flags space_flag)) [
        | inl c ↦ rw c (omega arith)
        | inr c ↦ rw c (omega arith)
      ])
    ])
  ])
]

prefix_width-lem :
    (base locase : ℕ) (need_pfx is_zero : Bool) (width : ℕ)
    → width < 2 ^ 16
    → prefix_width base need_pfx is_zero width
      ≡ (width + 2 ^ 16 - length (prefix_text base locase need_pfx is_zero)) % 2 ^ 16
unfolding prefix_width
prefix_width-lem base locase false is_zero width lt = omega arith
prefix_width-lem base locase true is_zero width lt = elim (Bool-cases (base == 16)) [
  | inl hex ↦ rw hex (omega arith)
  | inr other ↦ rw other (small is_zero)
]
  where
    small :
        (z : Bool)
        → (if not z then (width + 0xffff) % 2 ^ 16 else width)
          ≡ (width + 2 ^ 16 - length {A = ℕ} ((if not z then b'0' ∷ [] else []) ++ [])) % 2 ^ 16
    small true = omega arith
    small false = omega arith

-- The field that is wider than `used` characters by `fill`.
abbrev pub left_over : (field_width used : ℕ) → ℕ
left_over field_width used = if is_negative field_width then 0 else field_width - used

left_over-IsFill :
    (width head precision : ℕ)
    → (width < 2 ^ 15) ⊎ (width ≡ 0xffff)
    → head < 4
    → precision < 32000
    → IsFill
        (((width + 2 ^ 16 - head) % 2 ^ 16 + 2 ^ 16 - precision) % 2 ^ 16)
        (left_over width (head + precision))
left_over-IsFill width head precision (inr e) few lt =
    let no_field : is_negative width ≡ true = ground (arith, e) in
    rw no_field (inr (omega (arith, e), refl))
left_over-IsFill width head precision (inl small) few lt =
    let field : is_negative width ≡ false = ground arith in
    rw field (elim (Bool-cases (ltb width (head + precision))) [
      | inl narrow ↦
          let n : width < head + precision = ground arith in inr (omega arith, omega arith)
      | inr wide ↦ let n : head + precision ≤ width = ground arith in inl (omega arith, omega arith)
    ])

sign_text-short : (sign : ℕ) → length (sign_text sign) < 2
sign_text-short sign = elim (Bool-cases (sign == 0)) [
  | inl a ↦ rw a (omega arith)
  | inr a ↦ rw a (omega arith)
]

prefix_text-short :
    (base locase : ℕ) (need_pfx is_zero : Bool)
    → length (prefix_text base locase need_pfx is_zero) < 3
prefix_text-short base locase need_pfx is_zero =
    elim (Bool-cases (need_pfx && ((base == 16) || not is_zero))) [
      | inl a ↦ rw a (elim (Bool-cases (need_pfx && (base == 16))) [
        | inl b ↦ rw b (omega arith)
        | inr b ↦ rw b (omega arith)
      ])
      | inr a ↦ rw a (elim (Bool-cases (need_pfx && (base == 16))) [
        | inl b ↦ rw b (omega arith)
        | inr b ↦ rw b (omega arith)
      ])
    ]

bytes_table : all_codes 256 (λ f. ltb (effective_flags f) 256) ≡ true
unfolding all_codes effective_flags
bytes_table = refl

effective_flags-lt : (flags : ℕ) → flags < 256 → effective_flags flags < 256
effective_flags-lt flags lt =
    ltb→lt _ _ (all_codes-at 256 (λ f. ltb (effective_flags f) 256) flags lt bytes_table)

module _ (end : ℕ) (o : Out) (num : ℕ) (spec : PrintfSpec) (tmp : List ℕ) where
  -- The text of the field for the digits `tmp`.
  abbrev pub field_text : List ℕ
  field_text =
      let flags = effective_flags spec.flags in
      let p = at_least spec.precision (length tmp) in
      let head =
        sign_text (signed_part flags num spec.field_width).0
        ++ prefix_text spec.base (bit_and spec.flags small_flag) (needs_prefix spec) (num == 0) in
      layout (has_flag flags left_flag) (has_flag flags zeropad) head
        (left_over spec.field_width (length head + p)) (p - length tmp) tmp

  -- The same by the tests that `number` makes itself.
  pub number-field_text :
      spec.flags < 256
      → (spec.field_width < 2 ^ 15) ⊎ (spec.field_width ≡ 0xffff)
      → at_least spec.precision (length tmp) < 32000
      → reversed spec.base
          (bit_and spec.flags small_flag)
          (signed_part (effective_flags spec.flags) num spec.field_width).1
        ≡ some tmp
      → number end o num spec ≡ some (put_all end o field_text)
  unfolding number
  number-field_text byte wide lt e =
      let flags = effective_flags spec.flags in
      let locase = bit_and spec.flags small_flag in
      let part = signed_part flags num spec.field_width in
      let pfx = needs_prefix spec in
      let p = at_least spec.precision (length tmp) in
      let w2 = prefix_width spec.base pfx (num == 0) part.2 in
      let ls = length (sign_text part.0) in
      let lp = length (prefix_text spec.base locase pfx (num == 0)) in
      let short_sign = sign_text-short part.0 in
      let short_prefix = prefix_text-short spec.base locase pfx (num == 0) in
      let w1 : part.2 ≡ (spec.field_width + 2 ^ 16 - ls) % 2 ^ 16 =
        signed_part-width flags num spec.field_width (omega (arith, wide)) in
      let w2_eq : w2 ≡ (part.2 + 2 ^ 16 - lp) % 2 ^ 16 =
        prefix_width-lem spec.base locase pfx (num == 0) part.2 (omega (arith, w1)) in
      let total : length (sign_text part.0 ++ prefix_text spec.base locase pfx (num == 0))
          ≡ ls + lp =
        length-append (sign_text part.0) (prefix_text spec.base locase pfx (num == 0)) in
      let w : w2 ≡ (spec.field_width + 2 ^ 16 - (ls + lp)) % 2 ^ 16 =
        omega (arith, w1, w2_eq, short_sign, short_prefix, wide) in
      let fill = left_over spec.field_width (ls + lp + p) in
      let f : IsFill ((w2 + 2 ^ 16 - p) % 2 ^ 16) fill = rw w (
        left_over-IsFill spec.field_width (ls + lp) p wide (omega (arith, short_sign, short_prefix))
          lt) in
      rw (e, total)
        (ap some (
          print_parts-layout end o flags spec.base part.0 locase pfx (num == 0) w2 spec.precision
            fill tmp (effective_flags-lt spec.flags byte) (omega (arith, lt)) f))
