-- ===== src/Vsprintf/Tests.antt =====
-- Runs of the formatted printing.
use hlos.Base.{
  ℕ, zero, suc, ◌+◌, ◌-◌, ◌<◌, ◌≤◌, ◌≡◌, ◌⊎◌, inl, inr, refl, List, [], ◌∷◌, Option, none, some,
  if◌then◌else◌, get_or, leb, arith, length,
}
use hlos.Bytes.{Mem, memcpy}
use hlos.Str.{strnlen}
use hlos.Ctype.{isdigit, quick_tolower}
use hlos.Vsprintf.{◌>>=◌, PrintfSpec, format_int, Out, put, pad, string, put_string}
use hlos.Vsprintf.Number.{
  number, put_dec, put_dec_low, put_dec_trunc8, put_pow2, reversed, signed_part, effective_flags,
  needs_prefix, prefix_width, put_digits, put_head, put_number, print_parts,
}
use hlos.Vsprintf.Decode.{
  skip_atoi, find_percent, flag_of, flags_loop, integer_type, integer_format, conversion,
  qualifier_stage, from_qualifier, from_precision, from_width, given_width, given_precision,
  from_start, format_decode,
}
use hlos.Vsprintf.Print.{
  word, store_word, signed_to_u64, fetch, put_text, put_character, print_number, print_as,
  print_one, print_loop, terminate, vsnprintf, vscnprintf,
}
use hlos.Vsprintf.Loop.{no_count}
use hlos.Vsprintf.Buffer.{vsnprintf-outside, vsnprintf_terminated, vscnprintf-lt}
use hlos.Vsprintf.Layout.{layout, put_all}
use hlos.Vsprintf.Expected.{magnitude, expected, number-layout}
use hlos.Vsprintf.Decimal.{IsDecimal, put_dec-IsDecimal}
use hlos.Vsprintf.Signed.{IsPrinted, number-decimal}
use hlos.Vsprintf.Directive.{text_at, percent}
use hlos.Vsprintf.Cut.{IsCut}
use hlos.Vsprintf.Render.{vsnprintf-rendered}
use hlos.Vsprintf.Plain.{IsText, vsnprintf-IsText}
use hlos.Vsprintf.Power.{IsPowerPrinted, number-IsPowerPrinted}
use hlos.Vsprintf.Roundtrip.{skip_atoi-put_dec}

-- The format at 16, the arguments at 8192, a string at 9000.
abbrev area : (format args : List ℕ) → Mem
area format args p =
    if leb 9000 p
    then get_or (b'h' ∷ b'i' ∷ []) (p - 9000) 0
    else if leb 8192 p
    then get_or args (p - 8192) 0
    else if leb 16 p
    then get_or format (p - 16) 0
    else 0

abbrev bytes : Mem → (from count : ℕ) → List ℕ
bytes m p zero = []
bytes m p (suc n) = m p ∷ bytes m (p + 1) n

-- What a call with a buffer of `size` bytes at 64 returns and leaves in 12 bytes there.
printed : (size : ℕ) → (format args : List ℕ) → Option (ℕ × List ℕ)
unfolding vsnprintf
printed size format args =
    vsnprintf 40 7 0 (area format args) 64 size 16 8192 >>= λ r. some (r.0, bytes r.1 64 12)

-- a plain number
decimal_run :
    printed 12 (b'a' ∷ b'%' ∷ b'd' ∷ b'b' ∷ []) (42 ∷ 0 ∷ 0 ∷ 0 ∷ [])
    ≡ some (4, 97 ∷ 52 ∷ 50 ∷ 98 ∷ 0 ∷ 0 ∷ 0 ∷ 0 ∷ 0 ∷ 0 ∷ 0 ∷ 0 ∷ [])
unfolding printed vsnprintf print_loop terminate format_decode skip_atoi find_percent flag_of
    flags_loop integer_type integer_format conversion qualifier_stage from_qualifier from_precision
    from_width given_width given_precision from_start isdigit quick_tolower word store_word
    signed_to_u64 fetch put_text put_character print_number print_as print_one memcpy put pad string
    put_string strnlen number put_dec put_dec_low put_dec_trunc8 put_pow2 reversed signed_part
    effective_flags needs_prefix prefix_width put_digits put_head put_number print_parts
decimal_run = refl

-- a prefix, and a string in a field of five
hex_run :
    printed 12 (b'%' ∷ b'#' ∷ b'x' ∷ b'%' ∷ b'5' ∷ b's' ∷ []) (255 ∷ 255 ∷ 0 ∷ 0 ∷ 40 ∷ 35 ∷ [])
    ≡ some (11, 48 ∷ 120 ∷ 102 ∷ 102 ∷ 102 ∷ 102 ∷ 32 ∷ 32 ∷ 32 ∷ 104 ∷ 105 ∷ 0 ∷ [])
unfolding printed vsnprintf print_loop terminate format_decode skip_atoi find_percent flag_of
    flags_loop integer_type integer_format conversion qualifier_stage from_qualifier from_precision
    from_width given_width given_precision from_start isdigit quick_tolower word store_word
    signed_to_u64 fetch put_text put_character print_number print_as print_one memcpy put pad string
    put_string strnlen number put_dec put_dec_low put_dec_trunc8 put_pow2 reversed signed_part
    effective_flags needs_prefix prefix_width put_digits put_head put_number print_parts
hex_run = refl

-- a buffer of four bytes cuts the text
short_run :
    printed 4 (b'a' ∷ b'%' ∷ b'd' ∷ b'b' ∷ []) (42 ∷ 0 ∷ 0 ∷ 0 ∷ [])
    ≡ some (4, 97 ∷ 52 ∷ 50 ∷ 0 ∷ 0 ∷ 0 ∷ 0 ∷ 0 ∷ 0 ∷ 0 ∷ 0 ∷ 0 ∷ [])
unfolding printed vsnprintf print_loop terminate format_decode skip_atoi find_percent flag_of
    flags_loop integer_type integer_format conversion qualifier_stage from_qualifier from_precision
    from_width given_width given_precision from_start isdigit quick_tolower word store_word
    signed_to_u64 fetch put_text put_character print_number print_as print_one memcpy put pad string
    put_string strnlen number put_dec put_dec_low put_dec_trunc8 put_pow2 reversed signed_part
    effective_flags needs_prefix prefix_width put_digits put_head put_number print_parts
short_run = refl

-- `format_decode` skips the character behind a single 'l'
long_run :
    printed 12 (b'%' ∷ b'l' ∷ b'd' ∷ b'u' ∷ b'k' ∷ []) (42 ∷ 0 ∷ 0 ∷ 0 ∷ [])
    ≡ some (3, 52 ∷ 50 ∷ 107 ∷ 0 ∷ 0 ∷ 0 ∷ 0 ∷ 0 ∷ 0 ∷ 0 ∷ 0 ∷ 0 ∷ [])
unfolding printed vsnprintf print_loop terminate format_decode skip_atoi find_percent flag_of
    flags_loop integer_type integer_format conversion qualifier_stage from_qualifier from_precision
    from_width given_width given_precision from_start isdigit quick_tolower word store_word
    signed_to_u64 fetch put_text put_character print_number print_as print_one memcpy put pad string
    put_string strnlen number put_dec put_dec_low put_dec_trunc8 put_pow2 reversed signed_part
    effective_flags needs_prefix prefix_width put_digits put_head put_number print_parts
long_run = refl

-- the letter of "%p" is printed
pointer_run :
    printed 12 (b'%' ∷ b'p' ∷ []) (42 ∷ 0 ∷ 0 ∷ 0 ∷ [])
    ≡ some (1, 112 ∷ 0 ∷ 0 ∷ 0 ∷ 0 ∷ 0 ∷ 0 ∷ 0 ∷ 0 ∷ 0 ∷ 0 ∷ 0 ∷ [])
unfolding printed vsnprintf print_loop terminate format_decode skip_atoi find_percent flag_of
    flags_loop integer_type integer_format conversion qualifier_stage from_qualifier from_precision
    from_width given_width given_precision from_start isdigit quick_tolower word store_word
    signed_to_u64 fetch put_text put_character print_number print_as print_one memcpy put pad string
    put_string strnlen number put_dec put_dec_low put_dec_trunc8 put_pow2 reversed signed_part
    effective_flags needs_prefix prefix_width put_digits put_head put_number print_parts
pointer_run = refl

-- The number 17 as "%+5d".
abbrev plus_five : PrintfSpec
plus_five = record {
  type = format_int;
  flags = 6;
  base = 10;
  qualifier = 0xff;
  field_width = 5;
  precision = 0xffff;
}

abbrev blank : Out
blank = record { mem = λ a. 0; at = 64 }

put_dec-IsDecimal_example :
    (cs : List ℕ) × (put_dec 1234567 ≡ some cs) × IsDecimal 1234567 cs × (length cs ≤ 11)
put_dec-IsDecimal_example = put_dec-IsDecimal 1234567 (omega arith)

number-layout_example :
    number 76 blank 17 plus_five ≡ some (put_all 76 blank (expected 17 plus_five (55 ∷ 49 ∷ [])))
unfolding reversed put_dec put_dec_trunc8 put_dec_low
number-layout_example =
    number-layout 76 blank 17 plus_five (55 ∷ 49 ∷ []) (omega arith) (inl (omega arith))
      (omega arith) (omega arith) refl

number-layout_text : expected 17 plus_five (55 ∷ 49 ∷ []) ≡ 32 ∷ 32 ∷ 43 ∷ 49 ∷ 55 ∷ []
unfolding layout
number-layout_text = refl

number-decimal_example :
    (IsPrinted 76 blank 17 plus_five (number 76 blank 17 plus_five)
      × (magnitude plus_five.flags 17 < 100000000))
    ⊎ ((number 76 blank 17 plus_five ≡ none) × (100000000 ≤ magnitude plus_five.flags 17))
number-decimal_example =
    number-decimal 76 blank 17 plus_five (omega arith) refl (inl (omega arith)) (inr refl)
      (omega arith)

-- The text "42 " at 16.
abbrev text : Mem
text = area (52 ∷ 50 ∷ 32 ∷ []) []

skip_atoi-put_dec_example : skip_atoi 5 text 16 0 ≡ some (42, 18)
unfolding put_dec put_dec_trunc8 put_dec_low isdigit
skip_atoi-put_dec_example =
    skip_atoi-put_dec 5 42 text 16 (50 ∷ 52 ∷ []) (omega arith) refl
      (refl, (omega arith, omega arith), (refl, (omega arith, omega arith), refl)) (omega arith)

-- The call of `short_run`, and its result.
abbrev ready : Mem
ready = area (b'a' ∷ b'%' ∷ b'd' ∷ b'b' ∷ []) (42 ∷ 0 ∷ 0 ∷ 0 ∷ [])

abbrev short : Option (ℕ × Mem)
short = vsnprintf 40 7 0 ready 64 4 16 8192

abbrev memory : Option (ℕ × Mem) → Mem
memory none = ready
memory (some r) = r.1

vsnprintf-outside_example : memory short 100 ≡ ready 100
unfolding vsnprintf print_loop terminate format_decode skip_atoi find_percent flag_of flags_loop
    integer_type integer_format conversion qualifier_stage from_qualifier from_precision from_width
    given_width given_precision from_start isdigit quick_tolower word store_word signed_to_u64 fetch
    put_text put_character print_number print_as print_one memcpy put pad string put_string strnlen
    number put_dec put_dec_low put_dec_trunc8 put_pow2 reversed signed_part effective_flags
    needs_prefix prefix_width put_digits put_head put_number print_parts no_count
vsnprintf-outside_example =
    vsnprintf-outside 40 7 0 ready 64 4 16 8192 4 (memory short) 100 (omega arith) (omega arith)
      refl refl (inr (omega arith))

vsnprintf_terminated_example : (p : ℕ) × (64 ≤ p) × (p < 68) × (memory short p ≡ 0)
unfolding vsnprintf print_loop terminate format_decode skip_atoi find_percent flag_of flags_loop
    integer_type integer_format conversion qualifier_stage from_qualifier from_precision from_width
    given_width given_precision from_start isdigit quick_tolower word store_word signed_to_u64 fetch
    put_text put_character print_number print_as print_one memcpy put pad string put_string strnlen
    number put_dec put_dec_low put_dec_trunc8 put_pow2 reversed signed_part effective_flags
    needs_prefix prefix_width put_digits put_head put_number print_parts
vsnprintf_terminated_example =
    vsnprintf_terminated 40 7 0 ready 64 4 16 8192 4 (memory short) (omega arith) (omega arith)
      (omega arith) refl

vscnprintf-lt_run : (3 < 4) ⊎ ((◌≡◌ {A = ℕ} 4 0) × (◌≡◌ {A = ℕ} 3 0))
unfolding vscnprintf vsnprintf print_loop terminate format_decode skip_atoi find_percent flag_of
    flags_loop integer_type integer_format conversion qualifier_stage from_qualifier from_precision
    from_width given_width given_precision from_start isdigit quick_tolower word store_word
    signed_to_u64 fetch put_text put_character print_number print_as print_one memcpy put pad string
    put_string strnlen number put_dec put_dec_low put_dec_trunc8 put_pow2 reversed signed_part
    effective_flags needs_prefix prefix_width put_digits put_head put_number print_parts
vscnprintf-lt_run = vscnprintf-lt 40 7 0 ready 64 4 16 8192 3 (memory short) refl

-- The format "hi".
abbrev greeting : Mem
greeting = area (b'h' ∷ b'i' ∷ []) []

vsnprintf-IsText_run :
    (m' : Mem) × (vsnprintf 9 7 0 greeting 64 12 16 8192 ≡ some (2, m'))
    × IsText greeting 64 12 16 2 m'
vsnprintf-IsText_run =
    vsnprintf-IsText 7 0 greeting 64 12 16 8192 9 (b'h' ∷ b'i' ∷ [])
      (refl, omega arith, (refl, omega arith, refl)) (omega arith, (omega arith, tt)) (omega arith)
      (omega arith) (omega arith) (omega arith) (omega arith) (inr (omega arith)) (omega arith)

-- The number 255 as "%#x".
abbrev hex_field : PrintfSpec
hex_field = record {
  type = format_int;
  flags = 96;
  base = 16;
  qualifier = 0xff;
  field_width = 0xffff;
  precision = 0xffff;
}

number-IsPowerPrinted_example :
    IsPowerPrinted 76 blank 255 hex_field (number 76 blank 255 hex_field)
number-IsPowerPrinted_example =
    number-IsPowerPrinted 76 blank 255 hex_field (omega arith) (inr refl) (inr refl) (inr refl)
      (omega arith)

-- The format "a%s%%!" with the string "hi".
abbrev welcome : Mem
welcome = area (b'a' ∷ b'%' ∷ b's' ∷ b'%' ∷ b'%' ∷ b'!' ∷ []) (40 ∷ 35 ∷ 0 ∷ 0 ∷ [])

abbrev welcome_text : List ℕ
welcome_text = b'a' ∷ b'h' ∷ b'i' ∷ b'%' ∷ b'!' ∷ []

vsnprintf-rendered_example :
    (m' : Mem) × (vsnprintf 9 7 0 welcome 64 12 16 8192 ≡ some (5, m'))
    × IsCut 64 12 welcome_text welcome m'
vsnprintf-rendered_example =
    vsnprintf-rendered 9 7 0 welcome 64 12 16 8192
      (((b'a' ∷ []), text_at 9000 (b'h' ∷ b'i' ∷ [])) ∷ ([], percent) ∷ []) (b'!' ∷ [])
      (omega arith) (omega arith)
      (
        ((inl (omega arith), refl), omega arith, omega arith, tt),
        (inl (omega arith), refl),
        (inl (omega arith), refl),
        (
          tt,
          (inl (omega arith), refl),
          (inl (omega arith), refl),
          (((inl (omega arith), refl), omega arith, omega arith, tt), (inl (omega arith), refl)),
        ),
      )
      (
        (
          inr (omega arith),
          (unfold word in refl),
          ((refl, omega arith, (refl, omega arith, refl)), inr (omega arith)),
          omega arith,
          omega arith,
        ),
        (tt, tt),
      )
      (omega arith) (omega arith) (omega arith)
