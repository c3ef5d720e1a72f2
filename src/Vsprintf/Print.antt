-- ===== src/Vsprintf/Print.antt =====
-- `vsnprintf`, and `snprintf`, `sprintf` and `vscnprintf`. `args` is the `va_list`: an address in
-- the area of the arguments, which `va_arg` reads and moves by words of four bytes.
use hlos.Base.{
  ℕ, zero, suc, ◌+◌, ◌-◌, ◌*◌, ◌/◌, ◌%◌, ◌^◌, Bool, true, false, ◌&&◌, not, Option, none, some,
  ◌==◌, ltb, leb, if◌then◌else◌, min,
}
use hlos.Bytes.{Mem, poke, memcpy}
use hlos.Vsprintf.{
  ◌>>=◌, FormatType, format_none, format_width, format_precision, format_char, format_str,
  format_ptr, format_percent_char, format_invalid, format_long_long, format_ulong, format_long,
  format_ubyte, format_byte, format_ushort, format_short, format_uint, format_int, format_nrchars,
  format_size_t, format_ptrdiff, PrintfSpec, left_flag, has_flag, Out, put, pad, string,
}
use hlos.Vsprintf.Number.{number}
use hlos.Vsprintf.Decode.{format_decode}

-- `va_arg(args, T)` for a `T` of four bytes is the word at `args`, which moves on by 4.
unfoldable pub word : Mem → ℕ → ℕ
word m p = m p + 2 ^ 8 * m (p + 1) + 2 ^ 16 * m (p + 2) + 2 ^ 24 * m (p + 3)

-- `*ip = v` for an `ip` that points to four bytes.
unfoldable pub store_word : Mem → (p v : ℕ) → Mem
store_word m p v =
    poke
      (poke (poke (poke m p (v % 2 ^ 8)) (p + 1) (v / 2 ^ 8 % 2 ^ 8)) (p + 2) (v / 2 ^ 16 % 2 ^ 8))
      (p + 3) (v / 2 ^ 24 % 2 ^ 8)

-- A number of `w` bits, cut to them and sign-extended to 64 bits.
unfoldable pub signed_to_u64 : (w v : ℕ) → ℕ
signed_to_u64 w v = let x = v % 2 ^ w in if ltb x (2 ^ (w - 1)) then x else x + (2 ^ 64 - 2 ^ w)

-- The local variables of `vsnprintf`.
pub record Printing : Type 0 where
  pub out : Out
  pub fmt : ℕ
  pub args : ℕ
  pub num : ℕ
  pub spec : PrintfSpec

-- The `switch` over the integer types: `num`, and the pointer `args` behind the argument.
unfoldable pub fetch : Mem → (args num : ℕ) → PrintfSpec → ℕ × ℕ
unfolding word signed_to_u64
fetch m args num spec = elim spec.type [
  | format_long_long ↦ (word m args + 2 ^ 32 * word m (args + 4), args + 8)
  | format_ulong ↦ (word m args, args + 4)
  | format_long ↦ (signed_to_u64 32 (word m args), args + 4)
  | format_size_t ↦ (word m args, args + 4)
  | format_ptrdiff ↦ (num, args)
  | format_ubyte ↦ (word m args % 2 ^ 8, args + 4)
  | format_byte ↦ (signed_to_u64 8 (word m args), args + 4)
  | format_ushort ↦ (word m args % 2 ^ 16, args + 4)
  | format_short ↦ (signed_to_u64 16 (word m args), args + 4)
  | format_int ↦ (signed_to_u64 32 (word m args), args + 4)
  | _ ↦ (word m args, args + 4)
]

-- `--field_width > 0`
abbrev pub above_one : ℕ → Bool
above_one w = ltb 0 w && ltb w 0x8000

module _ (end : ℕ) where
  -- The case FORMAT_TYPE_NONE, for a text of `read` characters at `old_fmt`, fewer than 2 ^ 31: for more,
  -- `without_overflow` below gives `none`.
  unfoldable pub put_text : Out → (old_fmt read : ℕ) → Out
  unfolding memcpy
  put_text o old_fmt read = record {
    mem = if ltb o.at end then memcpy o.mem o.at old_fmt (min read (end - o.at)) else o.mem;
    at = o.at + read;
  }

  -- The case FORMAT_TYPE_CHAR.
  unfoldable pub put_character : Out → (c : ℕ) → PrintfSpec → Out
  unfolding put pad
  put_character o c spec =
      let (o1, width) =
        if has_flag spec.flags left_flag
        then (o, spec.field_width)
        else pad end above_one b' ' o spec.field_width in
      (pad end above_one b' ' (put end o1 (c % 256)) width).0

  -- The integer types.
  unfoldable pub print_number : Printing → Option Printing
  unfolding fetch number
  print_number s =
      let f = fetch s.out.mem s.args s.num s.spec in
      number end s.out f.0 s.spec >>= λ o. some (record s { out = o; num = f.0; args = f.1 })

-- `str` is a 32-bit pointer, and the lengths `read`, `copy` and `len` are ints: a round that takes `str`
-- to the end of the address space or past it, or forward by 2^31 bytes or more, overflows them, which C
-- leaves undefined; it gives `none`. `at` is where `str` was before the round.
abbrev pub without_overflow : (at : ℕ) → Printing → Option Printing
without_overflow at s =
    if ltb s.out.at (2 ^ 32) && ltb (s.out.at - at) (2 ^ 31) then some s else none

module _ (end null_text buf : ℕ) where
  -- The `switch`, for one type: `old_fmt` is the `fmt` of the loop before `format_decode`.
  unfoldable pub print_as : (old_fmt : ℕ) → Printing → FormatType → Option Printing
  unfolding put_text put_character string word store_word print_number
  print_as old_fmt s format_none =
      some (record s { out = put_text end s.out old_fmt (s.fmt - old_fmt) })
  print_as old_fmt s format_width = some (record s {
    spec = record s.spec { field_width = word s.out.mem s.args % 2 ^ 16 };
    args = s.args + 4;
  })
  print_as old_fmt s format_precision = some (record s {
    spec = record s.spec { precision = word s.out.mem s.args % 2 ^ 16 };
    args = s.args + 4;
  })
  print_as old_fmt s format_char =
      some (record s {
        out = put_character end s.out (word s.out.mem s.args) s.spec;
        args = s.args + 4;
      })
  print_as old_fmt s format_str = some (record s {
    out = string end null_text s.out (word s.out.mem s.args) s.spec;
    args = s.args + 4;
  })
  print_as old_fmt s format_ptr = some s
  print_as old_fmt s format_percent_char = some (record s { out = put end s.out b'%' })
  print_as old_fmt s format_invalid = some (record s { out = put end s.out b'%' })
  print_as old_fmt s format_nrchars = some (record s {
    out = record s.out { mem = store_word s.out.mem (word s.out.mem s.args) (s.out.at - buf) };
    args = s.args + 4;
  })
  print_as old_fmt s format_long_long = print_number end s
  print_as old_fmt s format_ulong = print_number end s
  print_as old_fmt s format_long = print_number end s
  print_as old_fmt s format_ubyte = print_number end s
  print_as old_fmt s format_byte = print_number end s
  print_as old_fmt s format_ushort = print_number end s
  print_as old_fmt s format_short = print_number end s
  print_as old_fmt s format_uint = print_number end s
  print_as old_fmt s format_int = print_number end s
  print_as old_fmt s format_size_t = print_number end s
  print_as old_fmt s format_ptrdiff = print_number end s

  unfoldable pub print_one : (old_fmt : ℕ) → Printing → Option Printing
  unfolding print_as
  print_one old_fmt s = print_as old_fmt s s.spec.type >>= without_overflow s.out.at

  -- `while (*fmt)`
  unfoldable pub print_loop : (fuel : ℕ) → Printing → Option Printing
  unfolding format_decode print_one
  print_loop zero s = none
  print_loop (suc fuel) s =
      let m = s.out.mem in
      elim (m s.fmt == 0) [
        | true ↦ some s
        | false ↦ format_decode (suc fuel) m s.fmt s.spec >>= λ r.
            print_one s.fmt (record s { fmt = r.0; spec = r.1 }) >>= λ s'. print_loop fuel s'
      ]

-- The terminating NUL, for the `end` and the `size` that `vsnprintf` works with.
unfoldable pub terminate : (end size : ℕ) → Out → Mem
terminate end size o =
    if ltb 0 size then poke o.mem (if ltb o.at end then o.at else end - 1) 0 else o.mem

abbrev pub zero_spec : PrintfSpec
zero_spec = record {
  type = format_none;
  flags = 0;
  base = 0;
  qualifier = 0;
  field_width = 0;
  precision = 0;
}

abbrev pub at_start : (num : ℕ) → Mem → (buf fmt args : ℕ) → Printing
at_start num m buf fmt args = record {
  out = record { mem = m; at = buf };
  fmt = fmt;
  args = args;
  num = num;
  spec = zero_spec;
}

-- `num` is what the uninitialised variable of that name holds. The result is the returned int, as a
-- bit pattern, and the memory.
module _ (fuel null_text num : ℕ) (m : Mem) where
  unfoldable pub vsnprintf : (buf size fmt args : ℕ) → Option (ℕ × Mem)
  unfolding print_loop terminate
  vsnprintf buf size fmt args =
      let wraps = ltb ((buf + size) % 2 ^ 32) buf in
      let end = if wraps then 0xffffffff else (buf + size) % 2 ^ 32 in
      let size' = if wraps then end - buf else size in
      if leb (2 ^ 31) size
      then some (0, m)
      else (print_loop end null_text buf fuel (at_start num m buf fmt args) >>= λ s.
          some ((s.out.at - buf) % 2 ^ 32, terminate end size' s.out))

  -- The arguments stand behind the word of `fmt`, which is at `frame`.
  unfoldable pub snprintf : (buf size fmt frame : ℕ) → Option (ℕ × Mem)
  unfolding vsnprintf
  snprintf buf size fmt frame = vsnprintf buf size fmt (frame + 4)

  unfoldable pub sprintf : (buf fmt frame : ℕ) → Option (ℕ × Mem)
  unfolding vsnprintf
  sprintf buf fmt frame = vsnprintf buf (2 ^ 31 - 1) fmt (frame + 4)

  unfoldable pub vscnprintf : (buf size fmt args : ℕ) → Option (ℕ × Mem)
  unfolding vsnprintf
  vscnprintf buf size fmt args = vsnprintf buf size fmt args >>= λ r.
      some (if ltb r.0 size then r.0 else if not (size == 0) then size - 1 else 0, r.1)
