-- ===== src/Vsprintf/Number.antt =====
-- `put_dec_trunc8`, `put_dec` and `number`. The local array `tmp` is the list of what it holds, from
-- `tmp[0]` on.
use hlos.Base.{
  ℕ, zero, suc, ◌+◌, ◌-◌, ◌*◌, ◌/◌, ◌%◌, ◌^◌, Bool, true, false, ◌&&◌, ◌||◌, not, List, [], ◌∷◌,
  Option, none, some, bit_and, bit_or, ◌==◌, ltb, leb, if◌then◌else◌, get_or, length,
}
use hlos.Vsprintf.{
  ◌>>=◌, PrintfSpec, zeropad, sign_flag, plus_flag, space_flag, left_flag, small_flag, special_flag,
  has_flag, is_negative, Out, put, pad, still,
}

-- `put_dec_trunc8` behind its loop: up to four digits.
unfoldable pub put_dec_low : ℕ → List ℕ
put_dec_low r0 =
    let q0 = r0 * 0x199a / 2 ^ 16 in
    let c0 = (r0 + 2 ^ 32 - 10 * q0 + 48) % 256 in
    let r1 = q0 * 0xcd / 2 ^ 11 in
    let c1 = (q0 + 2 ^ 32 - 10 * r1 + 48) % 256 in
    let q2 = r1 * 0xcd / 2 ^ 11 in
    let c2 = (r1 + 2 ^ 32 - 10 * q2 + 48) % 256 in
    let c3 = (q2 + 48) % 256 in
    if q0 == 0
    then c0 ∷ []
    else if r1 == 0
    then c0 ∷ c1 ∷ []
    else if q2 == 0
    then c0 ∷ c1 ∷ c2 ∷ []
    else c0 ∷ c1 ∷ c2 ∷ c3 ∷ []

-- The characters stored from `buf` on; the loop of the function takes fuel.
unfoldable pub put_dec_trunc8 : (fuel r : ℕ) → Option (List ℕ)
unfolding put_dec_low
put_dec_trunc8 zero r = none
put_dec_trunc8 (suc fuel) r =
    let q = (r + 48) % 2 ^ 32 in
    let r' = r * 0x1999999a / 2 ^ 20 / 2 ^ 12 % 2 ^ 32 in
    elim (leb 10000 r) [
      | true ↦ put_dec_trunc8 fuel r' >>= λ cs. some ((q + 2 ^ 64 - 10 * r') % 256 ∷ cs)
      | false ↦ some (put_dec_low r)
    ]

-- `none` is the null pointer.
unfoldable pub put_dec : ℕ → Option (List ℕ)
unfolding put_dec_trunc8
put_dec n = if ltb n 100000000 then put_dec_trunc8 8 n else none

abbrev pub digits : List ℕ
digits =
    b'0' ∷ b'1' ∷ b'2' ∷ b'3' ∷ b'4' ∷ b'5' ∷ b'6' ∷ b'7' ∷ b'8' ∷ b'9' ∷ b'A' ∷ b'B' ∷ b'C' ∷ b'D'
    ∷ b'E' ∷ b'F' ∷ []

-- The `do … while (num)` loop for the bases 8 and 16.
unfoldable pub put_pow2 : (fuel mask shift locase num : ℕ) → Option (List ℕ)
put_pow2 zero mask shift locase num = none
put_pow2 (suc fuel) mask shift locase num =
    let c = bit_or (get_or digits (bit_and (num % 256) mask) 0) locase in
    let num' = num / 2 ^ shift in
    elim (num' == 0) [
      | true ↦ some (c ∷ [])
      | false ↦ put_pow2 fuel mask shift locase num' >>= λ cs. some (c ∷ cs)
    ]

-- "generate full string in tmp[], in reverse order"
unfoldable pub reversed : (base locase num : ℕ) → Option (List ℕ)
unfolding put_pow2 put_dec
reversed base locase num =
    if ltb num base
    then some (bit_or (get_or digits num 0) locase ∷ [])
    else if not (base == 10)
    then put_pow2 22 (base - 1) (if base == 16 then 4 else 3) locase num
    else put_dec num

-- The sign character, `num` and `field_width` behind the first `if` of `number`.
unfoldable pub signed_part : (flags num width : ℕ) → ℕ × ℕ × ℕ
signed_part flags num width =
    let less = (width + 0xffff) % 2 ^ 16 in
    if has_flag flags sign_flag
    then if leb (2 ^ 63) num
      then (b'-', (2 ^ 64 - num) % 2 ^ 64, less)
      else if has_flag flags plus_flag
      then (b'+', num, less)
      else if has_flag flags space_flag
      then (b' ', num, less)
      else (0, num, width)
    else (0, num, width)

-- `need_pfx`
unfoldable pub needs_prefix : PrintfSpec → Bool
needs_prefix spec = has_flag spec.flags special_flag && not (spec.base == 10)

-- `if (spec.flags & LEFT) spec.flags &= ~ZEROPAD;`
unfoldable pub effective_flags : ℕ → ℕ
effective_flags flags = if has_flag flags left_flag then bit_and flags 0xfe else flags

-- `field_width` behind the `if (need_pfx)`.
unfoldable pub prefix_width : (base : ℕ) → (need_pfx is_zero : Bool) → (width : ℕ) → ℕ
prefix_width base need_pfx is_zero width =
    if need_pfx
    then if base == 16
      then (width + 0xfffe) % 2 ^ 16
      else if not is_zero
      then (width + 0xffff) % 2 ^ 16
      else width
    else width

-- `if (i > spec.precision) spec.precision = i;`
abbrev pub at_least : (precision i : ℕ) → ℕ
at_least precision i = if is_negative precision || ltb precision i then i else precision

module _ (end : ℕ) where
  -- `while (--i >= 0)`: `tmp` from its end.
  unfoldable pub put_digits : Out → List ℕ → Out
  unfolding put
  put_digits o [] = o
  put_digits o (c ∷ cs) = put end (put_digits o cs) c

  -- The sign, and the "0x" or "0" prefix.
  unfoldable pub put_head : Out → (sign base locase : ℕ) → (need_pfx is_zero : Bool) → Out
  unfolding put
  put_head o sign base locase need_pfx is_zero =
      let o1 = if sign == 0 then o else put end o sign in
      let o2 = if need_pfx && ((base == 16) || not is_zero) then put end o1 b'0' else o1 in
      if need_pfx && (base == 16) then put end o2 (bit_or b'X' locase) else o2

  -- "hmm even more zero padding?", and the digits.
  unfoldable pub put_number : Out → (precision : ℕ) → List ℕ → Out
  unfolding pad put_digits
  put_number o precision tmp =
      put_digits (pad end (λ w. leb (length tmp) w && still w) b'0' o precision).0 tmp

  -- What `number` prints behind the computation of `tmp`.
  unfoldable pub print_parts :
      Out
      → (flags base sign locase : ℕ) → (need_pfx is_zero : Bool) → (width precision : ℕ) → List ℕ
      → Out
  unfolding pad put_head put_number
  print_parts o flags base sign locase need_pfx is_zero width precision0 tmp =
      let precision = at_least precision0 (length tmp) in
      let width1 = (width + 2 ^ 16 - precision) % 2 ^ 16 in
      let (o1, width2) =
        if has_flag flags (zeropad + left_flag) then (o, width1) else pad end still b' ' o width1 in
      let o2 = put_head o1 sign base locase need_pfx is_zero in
      let (o3, width3) =
        if has_flag flags left_flag
        then (o2, width2)
        else pad end still (if has_flag flags zeropad then b'0' else b' ') o2 width2 in
      (pad end still b' ' (put_number o3 precision tmp) width3).0

  unfoldable pub number : Out → (num : ℕ) → PrintfSpec → Option Out
  unfolding reversed signed_part effective_flags prefix_width needs_prefix print_parts
  number o num spec =
      let need_pfx = needs_prefix spec in
      let flags = effective_flags spec.flags in
      let locase = bit_and spec.flags small_flag in
      let part = signed_part flags num spec.field_width in
      let width = prefix_width spec.base need_pfx (num == 0) part.2 in
      reversed spec.base locase part.1 >>= λ tmp.
      some
        (print_parts o flags spec.base part.0 locase need_pfx (num == 0) width spec.precision tmp)
