-- ===== src/Vsprintf/Writes.antt =====
-- Where `vsnprintf` writes.
use hlos.Base.{
  ℕ, zero, suc, ◌+◌, ◌-◌, ◌%◌, ◌^◌, ◌<◌, ◌≤◌, ◌≡◌, ◌⊎◌, inl, inr, refl, ap, ◌∙◌, subst, Bool, true,
  false, ◌&&◌, Bool-cases, Option, none, some, arith, ltb, if◌then◌else◌, min,
}
use mathlib.Core.Option.{some-injective}
use hlos.Bytes.{Mem, poke, memcpy}
use hlos.Vsprintf.{
  ◌>>=◌, FormatType, format_none, format_width, format_precision, format_char, format_str,
  format_ptr, format_percent_char, format_invalid, format_long_long, format_ulong, format_long,
  format_ubyte, format_byte, format_ushort, format_short, format_uint, format_int, format_nrchars,
  format_size_t, format_ptrdiff, PrintfSpec, left_flag, has_flag, Out, put, pad,
}
use hlos.Vsprintf.Number.{number}
use hlos.Vsprintf.Print.{
  word, fetch, above_one, Printing, put_text, put_character, print_number, print_as, print_one,
  without_overflow,
}
use hlos.Vsprintf.Bounds.{
  IsInside, IsInside-none, IsInside-then, put-IsInside, pad-IsInside, pad_if-IsInside,
  string-IsInside, number-IsInside,
}

memcpy-outside :
    (m : Mem) (dest src count a : ℕ)
    → (a < dest) ⊎ (dest + count ≤ a)
    → memcpy m dest src count a ≡ m a
unfolding memcpy
memcpy-outside m dest src zero a h = refl
memcpy-outside m dest src (suc count) a h =
    ground (arith, memcpy-outside (poke m dest (m src)) (dest + 1) (src + 1) count a)

pub bind-some :
    {A B : Type 0} (o : Option A) (f : A → Option B) (b : B)
    → (o >>= f) ≡ some b
    → (a : A) × (o ≡ some a) × (f a ≡ some b)
bind-some none f b e = cc
bind-some (some a) f b e = (a, refl, e)

module _ (end : ℕ) where
  put_text-IsInside : (o : Out) (old_fmt read : ℕ) → IsInside end o (put_text end o old_fmt read)
  unfolding put_text
  put_text-IsInside o old_fmt read = elim (Bool-cases (ltb o.at end)) [
    | inl room ↦ rw room (record {
      later = omega arith;
      outside = λ a h. memcpy-outside o.mem o.at old_fmt (min read (end - o.at)) a (ground arith);
    })
    | inr full ↦ rw full (record { later = omega arith; outside = λ a h. refl })
  ]

  put_character-IsInside :
      (o : Out) (c : ℕ) (spec : PrintfSpec) → IsInside end o (put_character end o c spec)
  unfolding put_character
  put_character-IsInside o c spec =
      let b = has_flag spec.flags left_flag in
      let r = if b then (o, spec.field_width) else pad end above_one b' ' o spec.field_width in
      let p = put end r.0 (c % 256) in
      IsInside-then end o r.0 _ (pad_if-IsInside end b above_one b' ' o spec.field_width) (
        IsInside-then end r.0 p _ (put-IsInside end r.0 (c % 256))
          (pad-IsInside end above_one b' ' p r.1))

  out-IsInside :
      (o : Out) (s s' : Printing) → IsInside end o s.out → some s ≡ some s' → IsInside end o s'.out
  out-IsInside o s s' i e = subst (λ t. IsInside end o t.out) (some-injective s s' e) i

  print_number-IsInside :
      (s s' : Printing) → print_number end s ≡ some s' → IsInside end s.out s'.out
  unfolding print_number
  print_number-IsInside s s' e =
      let f = fetch s.out.mem s.args s.num s.spec in
      let r =
        bind-some (number end s.out f.0 s.spec)
          (λ o. some (record s { out = o; num = f.0; args = f.1 })) s' e in
      out-IsInside s.out _ s' (number-IsInside end s.out f.0 s.spec r.0 r.1) r.2

-- The type of "%n".
abbrev pub is_count : FormatType → Bool
is_count format_nrchars = true
is_count _ = false

without_overflow-same : (at : ℕ) (t s : Printing) → without_overflow at t ≡ some s → t ≡ s
without_overflow-same at t s =
    elim (Bool-cases (ltb t.out.at (2 ^ 32) && ltb (t.out.at - at) (2 ^ 31))) [
      | inl fits ↦ rw fits (λ e. some-injective t s e)
      | inr wraps ↦ rw wraps (λ e. cc)
    ]

module _ (end null_text buf old_fmt : ℕ) (s s' : Printing) where
  -- The cases of the `switch`, for the type `t` of the specification.
  print_as-IsInside :
      (t : FormatType)
      → is_count t ≡ false
      → print_as end null_text buf old_fmt s t ≡ some s'
      → IsInside end s.out s'.out
  unfolding print_as
  print_as-IsInside format_none ne =
      out-IsInside end s.out _ s' (put_text-IsInside end s.out old_fmt (s.fmt - old_fmt))
  print_as-IsInside format_width ne = out-IsInside end s.out _ s' (IsInside-none end s.out)
  print_as-IsInside format_precision ne = out-IsInside end s.out _ s' (IsInside-none end s.out)
  print_as-IsInside format_char ne =
      out-IsInside end s.out _ s' (put_character-IsInside end s.out (word s.out.mem s.args) s.spec)
  print_as-IsInside format_str ne =
      out-IsInside end s.out _ s'
        (string-IsInside end null_text s.out (word s.out.mem s.args) s.spec)
  print_as-IsInside format_ptr ne = out-IsInside end s.out s s' (IsInside-none end s.out)
  print_as-IsInside format_percent_char ne =
      out-IsInside end s.out _ s' (put-IsInside end s.out b'%')
  print_as-IsInside format_invalid ne = out-IsInside end s.out _ s' (put-IsInside end s.out b'%')
  print_as-IsInside format_nrchars ne = cc
  print_as-IsInside format_long_long ne = print_number-IsInside end s s'
  print_as-IsInside format_ulong ne = print_number-IsInside end s s'
  print_as-IsInside format_long ne = print_number-IsInside end s s'
  print_as-IsInside format_ubyte ne = print_number-IsInside end s s'
  print_as-IsInside format_byte ne = print_number-IsInside end s s'
  print_as-IsInside format_ushort ne = print_number-IsInside end s s'
  print_as-IsInside format_short ne = print_number-IsInside end s s'
  print_as-IsInside format_uint ne = print_number-IsInside end s s'
  print_as-IsInside format_int ne = print_number-IsInside end s s'
  print_as-IsInside format_size_t ne = print_number-IsInside end s s'
  print_as-IsInside format_ptrdiff ne = print_number-IsInside end s s'

  -- A round that does not overflow.
  pub print_one-as :
      print_one end null_text buf old_fmt s ≡ some s'
      → print_as end null_text buf old_fmt s s.spec.type ≡ some s'
  unfolding print_one
  print_one-as e =
      let a =
        bind-some (print_as end null_text buf old_fmt s s.spec.type) (without_overflow s.out.at) s'
          e in
      a.1 ∙ ap some (without_overflow-same s.out.at a.0 s' a.2)

  pub print_one-eq :
      print_as end null_text buf old_fmt s s.spec.type ≡ some s'
      → s'.out.at < 2 ^ 32
      → s'.out.at - s.out.at < 2 ^ 31
      → print_one end null_text buf old_fmt s ≡ some s'
  unfolding print_one
  print_one-eq e below short =
      let fits : (ltb s'.out.at (2 ^ 32) && ltb (s'.out.at - s.out.at) (2 ^ 31)) ≡ true =
        ground arith in
      rw (e, fits) refl

  pub print_one-IsInside :
      is_count s.spec.type ≡ false
      → print_one end null_text buf old_fmt s ≡ some s'
      → IsInside end s.out s'.out
  print_one-IsInside ne e = print_as-IsInside s.spec.type ne (print_one-as e)

  pub print_as-later :
      (t : FormatType) → print_as end null_text buf old_fmt s t ≡ some s' → s.out.at ≤ s'.out.at
  unfolding print_as
  print_as-later format_nrchars e =
      subst (λ t. s.out.at ≤ t.out.at) (some-injective _ s' e) (omega arith)
  print_as-later format_none e = (print_as-IsInside format_none refl e).later
  print_as-later format_width e = (print_as-IsInside format_width refl e).later
  print_as-later format_precision e = (print_as-IsInside format_precision refl e).later
  print_as-later format_char e = (print_as-IsInside format_char refl e).later
  print_as-later format_str e = (print_as-IsInside format_str refl e).later
  print_as-later format_ptr e = (print_as-IsInside format_ptr refl e).later
  print_as-later format_percent_char e = (print_as-IsInside format_percent_char refl e).later
  print_as-later format_invalid e = (print_as-IsInside format_invalid refl e).later
  print_as-later format_long_long e = (print_as-IsInside format_long_long refl e).later
  print_as-later format_ulong e = (print_as-IsInside format_ulong refl e).later
  print_as-later format_long e = (print_as-IsInside format_long refl e).later
  print_as-later format_ubyte e = (print_as-IsInside format_ubyte refl e).later
  print_as-later format_byte e = (print_as-IsInside format_byte refl e).later
  print_as-later format_ushort e = (print_as-IsInside format_ushort refl e).later
  print_as-later format_short e = (print_as-IsInside format_short refl e).later
  print_as-later format_uint e = (print_as-IsInside format_uint refl e).later
  print_as-later format_int e = (print_as-IsInside format_int refl e).later
  print_as-later format_size_t e = (print_as-IsInside format_size_t refl e).later
  print_as-later format_ptrdiff e = (print_as-IsInside format_ptrdiff refl e).later
