-- ===== src/Vsprintf/Decode.antt =====
-- `skip_atoi` and `format_decode`. A stage of `format_decode` is a function of the pointer `fmt` and the
-- specification; a result is the new `fmt`, which the C function returns as the distance from `start`.
use hlos.Base.{
  ℕ, zero, suc, ◌+◌, ◌-◌, ◌*◌, ◌%◌, ◌^◌, ◌&&◌, ◌||◌, not, Option, none, some, bit_or, ◌==◌,
  if◌then◌else◌,
}
use hlos.Bytes.{Mem}
use hlos.Ctype.{isdigit, quick_tolower}
use hlos.Vsprintf.{
  ◌>>=◌, FormatType, format_none, format_width, format_precision, format_char, format_str,
  format_ptr, format_percent_char, format_invalid, format_long_long, format_ulong, format_long,
  format_ubyte, format_byte, format_ushort, format_short, format_uint, format_int, format_nrchars,
  format_size_t, format_ptrdiff, PrintfSpec, zeropad, sign_flag, plus_flag, space_flag, left_flag,
  small_flag, special_flag, has_flag, is_negative,
}

-- The number, an int as a bit pattern, and the pointer behind it.
unfoldable pub skip_atoi : (fuel : ℕ) → Mem → (s i : ℕ) → Option (ℕ × ℕ)
skip_atoi zero m s i = none
skip_atoi (suc fuel) m s i =
    let rest = skip_atoi fuel m (s + 1) ((i * 10 + m s + 2 ^ 32 - 48) % 2 ^ 32) in
    if isdigit (m s) then rest else some (i, s)

-- `for (; *fmt; ++fmt) if (*fmt == '%') break;`
unfoldable pub find_percent : (fuel : ℕ) → Mem → (fmt : ℕ) → Option ℕ
find_percent zero m fmt = none
find_percent (suc fuel) m fmt =
    let rest = find_percent fuel m (fmt + 1) in
    if (m fmt == 0) || (m fmt == b'%') then some fmt else rest

-- The `switch` of the loop over the flags; 0 is `found = false`.
unfoldable pub flag_of : ℕ → ℕ
flag_of c =
    if c == b'-'
    then left_flag
    else if c == b'+'
    then plus_flag
    else if c == b' '
    then space_flag
    else if c == b'#'
    then special_flag
    else if c == b'0'
    then zeropad
    else 0

unfoldable pub flags_loop : (fuel : ℕ) → Mem → (fmt flags : ℕ) → Option (ℕ × ℕ)
unfolding flag_of
flags_loop zero m fmt flags = none
flags_loop (suc fuel) m fmt flags =
    let flag = flag_of (m (fmt + 1)) in
    let rest = flags_loop fuel m (fmt + 1) (bit_or flags flag) in
    if flag == 0 then some (fmt + 1, flags) else rest

-- From `/* default base */` to the end: the type of an integer format.
unfoldable pub integer_type : (qualifier flags : ℕ) → FormatType
unfolding quick_tolower
integer_type qualifier flags =
    let signed = has_flag flags sign_flag in
    if qualifier == b'L'
    then format_long_long
    else if qualifier == b'l'
    then (if signed then format_long else format_ulong)
    else if quick_tolower qualifier == b'z'
    then format_size_t
    else if qualifier == b't'
    then format_ptrdiff
    else if qualifier == b'H'
    then (if signed then format_byte else format_ubyte)
    else if qualifier == b'h'
    then (if signed then format_short else format_ushort)
    else (if signed then format_int else format_uint)

-- An integer format: `flags` and `base` are set, and `fmt` stands at the conversion character.
unfoldable pub integer_format : (fmt : ℕ) → PrintfSpec → (base more_flags : ℕ) → ℕ × PrintfSpec
unfolding integer_type
integer_format fmt spec base more_flags =
    let flags = bit_or spec.flags more_flags in
    (fmt + 1, record spec { base = base; flags = flags; type = integer_type spec.qualifier flags })

unfoldable pub conversion : Mem → (fmt : ℕ) → PrintfSpec → ℕ × PrintfSpec
unfolding integer_format
conversion m fmt spec0 =
    let spec = record spec0 { base = 10 } in
    let c = m fmt in
    if c == b'c'
    then (fmt + 1, record spec { type = format_char })
    else if c == b's'
    then (fmt + 1, record spec { type = format_str })
    else if c == b'p'
    then (fmt, record spec { type = format_ptr })
    else if c == b'n'
    then (fmt + 1, record spec { type = format_nrchars })
    else if c == b'%'
    then (fmt + 1, record spec { type = format_percent_char })
    else if c == b'o'
    then integer_format fmt spec 8 0
    else if c == b'x'
    then integer_format fmt spec 16 small_flag
    else if c == b'X'
    then integer_format fmt spec 16 0
    else if (c == b'd') || (c == b'i')
    then integer_format fmt spec 10 sign_flag
    else if c == b'u'
    then integer_format fmt spec 10 0
    else (fmt, record spec { type = format_invalid })

-- The qualifier, with the pointer behind it.
unfoldable pub qualifier_stage : Mem → (fmt : ℕ) → ℕ × ℕ
unfolding quick_tolower
qualifier_stage m fmt =
    let c = m fmt in
    if (c == b'h') || (quick_tolower c == b'l') || (quick_tolower c == b'z') || (c == b't')
    then if not (c == m (fmt + 1)) && (c == b'l')
      then (fmt + 2, b'L')
      else if not (c == m (fmt + 1)) && (c == b'h')
      then (fmt + 2, b'H')
      else (fmt + 1, c)
    else (fmt, 0xff)

-- From the label `qualifier` on.
unfoldable pub from_qualifier : Mem → (fmt : ℕ) → PrintfSpec → ℕ × PrintfSpec
unfolding qualifier_stage conversion
from_qualifier m fmt spec =
    let (fmt', q) = qualifier_stage m fmt in conversion m fmt' (record spec { qualifier = q })

-- `spec->precision = skip_atoi(&fmt); if (spec->precision < 0) spec->precision = 0;`
abbrev read_precision : ℕ → PrintfSpec → PrintfSpec
read_precision n spec = record spec {
  precision = if is_negative (n % 2 ^ 16) then 0 else n % 2 ^ 16;
}

-- From the label `precision` on.
unfoldable pub from_precision : (fuel : ℕ) → Mem → (fmt : ℕ) → PrintfSpec → Option (ℕ × PrintfSpec)
unfolding skip_atoi from_qualifier
from_precision fuel m fmt spec0 =
    let spec = record spec0 { precision = 0xffff } in
    if m fmt == b'.'
    then if isdigit (m (fmt + 1))
      then (skip_atoi fuel m (fmt + 1) 0 >>= λ r.
          some (from_qualifier m r.1 (read_precision r.0 spec)))
      else if m (fmt + 1) == b'*'
      then some (fmt + 2, record spec { type = format_precision })
      else some (from_qualifier m (fmt + 1) spec)
    else some (from_qualifier m fmt spec)

-- The field width, and on.
unfoldable pub from_width : (fuel : ℕ) → Mem → (fmt : ℕ) → PrintfSpec → Option (ℕ × PrintfSpec)
unfolding skip_atoi from_precision
from_width fuel m fmt spec0 =
    let spec = record spec0 { field_width = 0xffff } in
    if isdigit (m fmt)
    then (skip_atoi fuel m fmt 0 >>= λ r.
        from_precision fuel m r.1 (record spec { field_width = r.0 % 2 ^ 16 }))
    else if m fmt == b'*'
    then some (fmt + 1, record spec { type = format_width })
    else from_precision fuel m fmt spec

-- The field width that an argument has given.
unfoldable pub given_width : PrintfSpec → PrintfSpec
given_width spec =
    let spec1 = record spec { type = format_none } in
    if is_negative spec.field_width
    then record spec1 {
      field_width = (2 ^ 16 - spec.field_width) % 2 ^ 16;
      flags = bit_or spec.flags left_flag;
    }
    else spec1

unfoldable pub given_precision : PrintfSpec → PrintfSpec
given_precision spec = record spec {
  type = format_none;
  precision = if is_negative spec.precision then 0 else spec.precision;
}

-- A call that does not go on from a width or a precision.
unfoldable pub from_start : (fuel : ℕ) → Mem → (fmt : ℕ) → PrintfSpec → Option (ℕ × PrintfSpec)
unfolding find_percent flags_loop from_width
from_start fuel m start spec0 = do
  let spec = record spec0 { type = format_none }
  fmt ← find_percent fuel m start
  if not (fmt == start) || (m fmt == 0)
      then some (fmt, spec)
      else (flags_loop fuel m fmt 0 >>= λ r. from_width fuel m r.0 (record spec { flags = r.1 }))

unfoldable pub format_decode : (fuel : ℕ) → Mem → (fmt : ℕ) → PrintfSpec → Option (ℕ × PrintfSpec)
unfolding given_width given_precision from_precision from_qualifier from_start
format_decode fuel m fmt spec = elim spec.type [
  | format_width ↦ from_precision fuel m fmt (given_width spec)
  | format_precision ↦ some (from_qualifier m fmt (given_precision spec))
  | _ ↦ from_start fuel m fmt spec
]
