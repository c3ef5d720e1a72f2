-- ===== src/Vsprintf.antt =====
-- libs/vsprintf.c: formatted printing into a buffer. `fmt`, the buffer, the strings and the words of
-- the argument list stand in one memory of bytes. A `char *buf` with what it has written is an `Out`;
-- `field_width` and `precision`, of type s16, are bit patterns below 2^16. A loop without a bound takes
-- fuel; `none` is a loop cut short, or the use of the null pointer that `put_dec` returns.
pub mod Number
pub mod Decode
pub mod Print
pub mod Decimal
pub mod Bounds
pub mod Writes
pub mod Loop
pub mod Buffer
pub mod Layout
pub mod Parts
pub mod Field
pub mod Expected
pub mod Signed
pub mod Roundtrip
pub mod Plain
pub mod Power
pub mod Cut
pub mod Directive
pub mod Render
pub mod Round
pub mod Text
mod Tests
pub use hlos.Base.{◌>>=◌}
use hlos.Base.{
  ℕ, zero, suc, ◌+◌, ◌-◌, ◌*◌, ◌/◌, ◌%◌, ◌^◌, Bool, true, false, ◌&&◌, ◌||◌, not, List, [], ◌∷◌,
  Option, none, some, bit_and, bit_or, ◌==◌, ltb, leb, if◌then◌else◌,
}
use hlos.Bytes.{Mem, poke}
use hlos.Str.{strnlen}

pub data FormatType : Type 0 where
  format_none : FormatType
  format_width : FormatType
  format_precision : FormatType
  format_char : FormatType
  format_str : FormatType
  format_ptr : FormatType
  format_percent_char : FormatType
  format_invalid : FormatType
  format_long_long : FormatType
  format_ulong : FormatType
  format_long : FormatType
  format_ubyte : FormatType
  format_byte : FormatType
  format_ushort : FormatType
  format_short : FormatType
  format_uint : FormatType
  format_int : FormatType
  format_nrchars : FormatType
  format_size_t : FormatType
  format_ptrdiff : FormatType

pub record PrintfSpec : Type 0 where
  pub type : FormatType
  pub flags : ℕ
  pub base : ℕ
  pub qualifier : ℕ
  pub field_width : ℕ
  pub precision : ℕ

abbrev pub zeropad : ℕ
zeropad = 1

abbrev pub sign_flag : ℕ
sign_flag = 2

abbrev pub plus_flag : ℕ
plus_flag = 4

abbrev pub space_flag : ℕ
space_flag = 8

abbrev pub left_flag : ℕ
left_flag = 16

abbrev pub small_flag : ℕ
small_flag = 32

abbrev pub special_flag : ℕ
special_flag = 64

-- `flags & mask`, as a condition
abbrev pub has_flag : (flags mask : ℕ) → Bool
has_flag flags mask = not (bit_and flags mask == 0)

-- `w < 0` for an s16
abbrev pub is_negative : ℕ → Bool
is_negative w = leb 0x8000 w

-- An s16 as a `size_t`.
abbrev pub extend_s16 : ℕ → ℕ
extend_s16 w = if is_negative w then w + (2 ^ 32 - 2 ^ 16) else w

-- `str` or `buf`, and the memory. `at` does not wrap: `vsnprintf` gives `none` for a round that takes it
-- to 2 ^ 32 or past it.
pub record Out : Type 0 where
  pub mem : Mem
  pub at : ℕ

-- `--w >= 0`
abbrev pub still : ℕ → Bool
still w = not (is_negative w)

-- `len < w--`, of the value that `w` then has
abbrev pub wider : (len : ℕ) → ℕ → Bool
wider len w = ltb w 0x7fff && leb len w

module _ (end : ℕ) where
  -- `if (buf < end) *buf = c; ++buf;`
  unfoldable pub put : Out → ℕ → Out
  put o c = record { mem = if ltb o.at end then poke o.mem o.at c else o.mem; at = o.at + 1 }

  -- `while (test(--w)) put(c)`: with the value of `w` at the end. The tests used here refuse -1.
  unfoldable pub pad : (ℕ → Bool) → (c : ℕ) → Out → ℕ → Out × ℕ
  unfolding put
  pad test c o zero = (o, 0xffff)
  pad test c o (suc w) = elim (test w) [ true ↦ pad test c (put o c) w | false ↦ (o, w) ]

  -- `for (i = 0; i < len; ++i) { if (buf < end) *buf = *s; ++buf; ++s; }`
  unfoldable pub put_string : Out → (s len : ℕ) → Out
  unfolding put
  put_string o s zero = o
  put_string o s (suc len) = put_string (put o (o.mem s)) (s + 1) len

  -- `null_text` is the address of the literal "(null)". `len` is an `int`: `vsnprintf` gives `none` for a
  -- string of 2 ^ 31 characters and more.
  unfoldable pub string : (null_text : ℕ) → Out → (s : ℕ) → PrintfSpec → Out
  unfolding pad put_string
  string null_text o s spec =
      let s' = if ltb s 4096 then null_text else s in
      let len = strnlen o.mem s' (extend_s16 spec.precision) in
      let (o1, width1) =
        if has_flag spec.flags left_flag
        then (o, spec.field_width)
        else pad (wider len) b' ' o spec.field_width in
      let o2 = put_string o1 s' len in (pad (wider len) b' ' o2 width1).0
