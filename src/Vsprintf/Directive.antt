-- ===== src/Vsprintf/Directive.antt =====
-- Formats of text and the directives %%, %c and %s, without flags, widths and precisions, and how
-- `format_decode` reads a directive.
use hlos.Base.{
  ℕ, suc, ◌+◌, ◌%◌, ◌≡◌, refl, ap, sym, ◌∙◌, subst, true, false, ◌||◌, List, [], ◌∷◌, ◌++◌, some,
  arith, ◌==◌, length,
}
use hlos.Bytes.{Mem}
use hlos.Ctype.{isdigit, quick_tolower}
use hlos.Vsprintf.{
  FormatType, format_none, format_char, format_str, format_percent_char, PrintfSpec,
}
use hlos.Vsprintf.Decode.{
  find_percent, flag_of, flags_loop, conversion, qualifier_stage, from_qualifier, from_precision,
  from_width, from_start, format_decode,
}
use hlos.Vsprintf.Print.{Printing, zero_spec}
use hlos.Vsprintf.Layout.{put_all}
use hlos.Vsprintf.Text.{plain_spec}

-- A directive with the value of its argument: `%%`, `%c` of a character and `%s` of a string.
pub data Directive : Type 0 where
  percent : Directive
  char_of : (c : ℕ) → Directive
  text_at : (p : ℕ) → (xs : List ℕ) → Directive

abbrev pub letter : Directive → ℕ
letter percent = b'%'
letter (char_of c) = b'c'
letter (text_at p xs) = b's'

abbrev pub type_of : Directive → FormatType
type_of percent = format_percent_char
type_of (char_of c) = format_char
type_of (text_at p xs) = format_str

abbrev pub arg_size : Directive → ℕ
arg_size percent = 0
arg_size _ = 4

-- What a directive prints.
abbrev pub shown : Directive → List ℕ
shown percent = b'%' ∷ []
shown (char_of c) = c % 256 ∷ []
shown (text_at p xs) = xs

pub find_percent-stop :
    (fuel : ℕ) (m : Mem) (p : ℕ)
    → ((m p == 0) || (m p == b'%')) ≡ true
    → find_percent (suc fuel) m p ≡ some p
unfolding find_percent
find_percent-stop fuel m p e = rw e refl

-- A character behind % that is no flag, no digit, no qualifier, and neither * nor a point.
abbrev IsConversion : ℕ → Type 0
IsConversion c =
    (flag_of c ≡ 0)
    × (isdigit c ≡ false)
    × ((c == b'*') ≡ false)
    × ((c == b'.') ≡ false)
    × (((c == b'h') || (quick_tolower c == b'l') || (quick_tolower c == b'z') || (c == b't'))
        ≡ false)

letter-IsConversion : (d : Directive) → IsConversion (letter d)
unfolding flag_of isdigit quick_tolower
letter-IsConversion percent = (refl, refl, refl, refl, refl)
letter-IsConversion (char_of c) = (refl, refl, refl, refl, refl)
letter-IsConversion (text_at p xs) = (refl, refl, refl, refl, refl)

module _ (m : Mem) where
  flags_loop-none :
      (fuel fmt flags : ℕ)
      → flag_of (m (fmt + 1)) ≡ 0
      → flags_loop (suc fuel) m fmt flags ≡ some (fmt + 1, flags)
  unfolding flags_loop
  flags_loop-none fuel fmt flags e = rw e refl

  from_qualifier-none :
      (fmt : ℕ) (spec : PrintfSpec)
      → IsConversion (m fmt)
      → from_qualifier m fmt spec ≡ conversion m fmt (record spec { qualifier = 0xff })
  unfolding from_qualifier qualifier_stage
  from_qualifier-none fmt spec k = rw k.4 refl

  from_precision-none :
      (fuel fmt : ℕ) (spec : PrintfSpec)
      → IsConversion (m fmt)
      → from_precision fuel m fmt spec
        ≡ some (conversion m fmt (record spec { precision = 0xffff; qualifier = 0xff }))
  unfolding from_precision
  from_precision-none fuel fmt spec k =
      rw k.3 (ap some (from_qualifier-none fmt (record spec { precision = 0xffff }) k))

  from_width-none :
      (fuel fmt : ℕ) (spec : PrintfSpec)
      → IsConversion (m fmt)
      → from_width fuel m fmt spec
        ≡ some (
            conversion m fmt
              (record spec { field_width = 0xffff; precision = 0xffff; qualifier = 0xff }))
  unfolding from_width
  from_width-none fuel fmt spec k =
      rw (k.1, k.2) (from_precision-none fuel fmt (record spec { field_width = 0xffff }) k)

  conversion-letter :
      (fmt : ℕ) (d : Directive) (spec : PrintfSpec)
      → m fmt ≡ letter d
      → conversion m fmt spec ≡ (fmt + 1, record spec { base = 10; type = type_of d })
  unfolding conversion
  conversion-letter fmt percent spec e = rw e refl
  conversion-letter fmt (char_of c) spec e = rw e refl
  conversion-letter fmt (text_at p xs) spec e = rw e refl

  -- A directive at `start`.
  pub from_start-directive :
      (fuel start : ℕ) (d : Directive) (spec : PrintfSpec)
      → m start ≡ b'%'
      → m (start + 1) ≡ letter d
      → from_start (suc fuel) m start spec ≡ some (start + 2, plain_spec (type_of d))
  unfolding from_start
  from_start-directive fuel start d spec e k =
      let here = find_percent-stop fuel m start (rw e refl) in
      let is : IsConversion (m (start + 1)) = subst IsConversion (sym k) (letter-IsConversion d) in
      let flags = flags_loop-none fuel start 0 is.0 in
      let width =
        from_width-none (suc fuel) (start + 1) (record spec { type = format_none; flags = 0 }) is in
      let place : start + 1 + 1 ≡ start + 2 = omega arith in
      let more : (start == start) ≡ true = ground arith in
      rw (here, e, more, flags, width)
        (ap some (
          conversion-letter (start + 1) d
            (record spec {
              type = format_none;
              flags = 0;
              field_width = 0xffff;
              precision = 0xffff;
              qualifier = 0xff;
            })
            k
          ∙ ap (λ n. (n, plain_spec (type_of d))) place))

-- A specification that is not waiting for a width or a precision.
abbrev pub IsOrdinary : PrintfSpec → Type 0
IsOrdinary spec =
    (fuel : ℕ) (m : Mem) (fmt : ℕ) → format_decode fuel m fmt spec ≡ from_start fuel m fmt spec

pub plain_spec-IsOrdinary : (d : Directive) → IsOrdinary (plain_spec (type_of d))
unfolding format_decode
plain_spec-IsOrdinary percent fuel m fmt = refl
plain_spec-IsOrdinary (char_of c) fuel m fmt = refl
plain_spec-IsOrdinary (text_at p xs) fuel m fmt = refl

pub text_spec-IsOrdinary : (spec : PrintfSpec) → IsOrdinary (record spec { type = format_none })
unfolding format_decode
text_spec-IsOrdinary spec fuel m fmt = refl

-- A format: pieces of text with a directive behind each, and a last text.
abbrev pub Pieces : Type 0
Pieces = List (List ℕ × Directive)

-- What the format prints.
abbrev pub rendered : Pieces → List ℕ → List ℕ
rendered [] last = last
rendered (p ∷ ps) last = p.0 ++ (shown p.1 ++ rendered ps last)

abbrev pub format_length : Pieces → List ℕ → ℕ
format_length [] last = length last
format_length (p ∷ ps) last = length p.0 + 2 + format_length ps last

-- The state behind a directive.
abbrev pub after : (end : ℕ) → Printing → Directive → Printing
after end s d = record s {
  out = put_all end s.out (shown d);
  fmt = s.fmt + 2;
  args = s.args + arg_size d;
  spec = plain_spec (type_of d);
}

pub zero_spec-IsOrdinary : IsOrdinary zero_spec
unfolding format_decode
zero_spec-IsOrdinary fuel m fmt = refl
