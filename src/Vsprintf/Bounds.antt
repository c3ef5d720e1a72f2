-- ===== src/Vsprintf/Bounds.antt =====
-- What the parts of the printing write, and where.
use hlos.Base.{
  ℕ, zero, suc, ◌+◌, ◌-◌, ◌%◌, ◌^◌, ◌<◌, ◌≤◌, ◌≡◌, ◌⊎◌, inl, inr, refl, subst, ◌∙◌, Bool, true,
  false, ◌||◌, ◌&&◌, not, Bool-cases, List, [], ◌∷◌, Option, none, some, arith, ◌==◌, ltb, leb,
  if◌then◌else◌, length, bit_and, bit_or,
}
use mathlib.Core.Option.{some-injective}
use hlos.Str.{strnlen}
use hlos.Vsprintf.{
  ◌>>=◌, PrintfSpec, zeropad, left_flag, small_flag, has_flag, extend_s16, Out, put, pad, still,
  wider, put_string, string,
}
use hlos.Vsprintf.Number.{
  at_least, put_digits, put_head, put_number, print_parts, number, signed_part, reversed,
  effective_flags, needs_prefix, prefix_width,
}

-- From `o` to `o'` the pointer did not go back, and only bytes from the first pointer on and below
-- `end` changed.
pub record IsInside (end : ℕ) (o o' : Out) : Type 0 where
  pub later : o.at ≤ o'.at
  pub outside : (a : ℕ) → (a < o.at) ⊎ (end ≤ a) → o'.mem a ≡ o.mem a

module _ (end : ℕ) where
  pub IsInside-none : (o : Out) → IsInside end o o
  IsInside-none o = record { later = omega arith; outside = λ a h. refl }

  pub IsInside-then : (o p q : Out) → IsInside end o p → IsInside end p q → IsInside end o q
  IsInside-then o p q s t = record {
    later = omega (arith, s.later, t.later);
    outside = λ a h.
        t.outside a (elim h [ inl x ↦ inl (omega (arith, s.later)) | inr y ↦ inr y ])
        ∙ s.outside a h;
  }

  IsInside-if :
      (b : Bool) (o p q : Out)
      → IsInside end o p
      → IsInside end o q
      → IsInside end o (if b then p else q)
  IsInside-if true o p q s t = s
  IsInside-if false o p q s t = t

  pub put-IsInside : (o : Out) (c : ℕ) → IsInside end o (put end o c)
  unfolding put
  put-IsInside o c = record { later = omega arith; outside = λ a h. ground arith }

  pub pad-IsInside :
      (test : ℕ → Bool) (c : ℕ) (o : Out) (w : ℕ) → IsInside end o (pad end test c o w).0
  unfolding pad
  pad-IsInside test c o zero = IsInside-none o
  pad-IsInside test c o (suc w) = elim (Bool-cases (test w)) [
    | inl go ↦
        rw (go, pad)
          (IsInside-then o (put end o c) _ (put-IsInside o c) (pad-IsInside test c (put end o c) w))
    | inr stop ↦ rw (stop, pad) (IsInside-none o)
  ]

  pub put_string-IsInside : (o : Out) (s len : ℕ) → IsInside end o (put_string end o s len)
  unfolding put_string
  put_string-IsInside o s zero = IsInside-none o
  put_string-IsInside o s (suc len) =
      IsInside-then o (put end o (o.mem s)) _ (put-IsInside o (o.mem s))
        (put_string-IsInside (put end o (o.mem s)) (s + 1) len)

  pub put_digits-IsInside : (o : Out) (cs : List ℕ) → IsInside end o (put_digits end o cs)
  unfolding put_digits
  put_digits-IsInside o [] = IsInside-none o
  put_digits-IsInside o (c ∷ cs) =
      IsInside-then o (put_digits end o cs) _ (put_digits-IsInside o cs)
        (put-IsInside (put_digits end o cs) c)

  -- A padding that only one value of a flag asks for.
  pub pad_if-IsInside :
      (b : Bool) (test : ℕ → Bool) (c : ℕ) (o : Out) (w : ℕ)
      → IsInside end o (if b then (o, w) else pad end test c o w).0
  pad_if-IsInside true test c o w = IsInside-none o
  pad_if-IsInside false test c o w = pad-IsInside test c o w

  pub string-IsInside :
      (null_text : ℕ) (o : Out) (s : ℕ) (spec : PrintfSpec)
      → IsInside end o (string end null_text o s spec)
  unfolding string
  string-IsInside null_text o s spec =
      let s' = if ltb s 4096 then null_text else s in
      let len = strnlen o.mem s' (extend_s16 spec.precision) in
      let r =
        if has_flag spec.flags left_flag
        then (o, spec.field_width)
        else pad end (wider len) b' ' o spec.field_width in
      let o2 = put_string end r.0 s' len in
      IsInside-then o r.0 _
        (pad_if-IsInside (has_flag spec.flags left_flag) (wider len) b' ' o spec.field_width)
        (IsInside-then r.0 o2 _ (put_string-IsInside r.0 s' len)
          (pad-IsInside (wider len) b' ' o2 r.1))

  put_head-IsInside :
      (o : Out) (sign base locase : ℕ) (need_pfx is_zero : Bool)
      → IsInside end o (put_head end o sign base locase need_pfx is_zero)
  unfolding put_head
  put_head-IsInside o sign base locase need_pfx is_zero =
      let o1 = if sign == 0 then o else put end o sign in
      let o2 = if need_pfx && ((base == 16) || not is_zero) then put end o1 b'0' else o1 in
      IsInside-then o o1 _
        (IsInside-if (sign == 0) o o (put end o sign) (IsInside-none o) (put-IsInside o sign))
        (IsInside-then o1 o2 _
          (IsInside-if (need_pfx && ((base == 16) || not is_zero)) o1 (put end o1 b'0') o1
            (put-IsInside o1 b'0') (IsInside-none o1))
          (IsInside-if (need_pfx && (base == 16)) o2 (put end o2 (bit_or b'X' locase)) o2
            (put-IsInside o2 (bit_or b'X' locase)) (IsInside-none o2)))

  put_number-IsInside :
      (o : Out) (precision : ℕ) (tmp : List ℕ) → IsInside end o (put_number end o precision tmp)
  unfolding put_number
  put_number-IsInside o precision tmp =
      let test : ℕ → Bool = λ w. leb (length tmp) w && still w in
      let p = (pad end test b'0' o precision).0 in
      IsInside-then o p _ (pad-IsInside test b'0' o precision) (put_digits-IsInside p tmp)

  print_parts-IsInside :
      (o : Out) (flags base sign locase : ℕ) (need_pfx is_zero : Bool) (width precision : ℕ)
      (tmp : List ℕ)
      → IsInside end o
          (print_parts end o flags base sign locase need_pfx is_zero width precision tmp)
  unfolding print_parts
  print_parts-IsInside o flags base sign locase need_pfx is_zero width precision0 tmp =
      let precision = at_least precision0 (length tmp) in
      let width1 = (width + 2 ^ 16 - precision) % 2 ^ 16 in
      let r =
        if has_flag flags (zeropad + left_flag) then (o, width1) else pad end still b' ' o width1 in
      let o2 = put_head end r.0 sign base locase need_pfx is_zero in
      let c = if has_flag flags zeropad then b'0' else b' ' in
      let q = if has_flag flags left_flag then (o2, r.1) else pad end still c o2 r.1 in
      let o3 = put_number end q.0 precision tmp in
      IsInside-then o r.0 _
        (pad_if-IsInside (has_flag flags (zeropad + left_flag)) still b' ' o width1)
        (IsInside-then r.0 o2 _ (put_head-IsInside r.0 sign base locase need_pfx is_zero) (
          IsInside-then o2 q.0 _ (pad_if-IsInside (has_flag flags left_flag) still c o2 r.1) (
            IsInside-then q.0 o3 _ (put_number-IsInside q.0 precision tmp)
              (pad-IsInside still b' ' o3 q.1))))

  bind-IsInside :
      (o : Out) (tmp : Option (List ℕ)) (f : List ℕ → Out)
      → ((cs : List ℕ) → IsInside end o (f cs))
      → (o' : Out) → (tmp >>= λ cs. some (f cs)) ≡ some o'
      → IsInside end o o'
  bind-IsInside o none f k o' e = cc
  bind-IsInside o (some cs) f k o' e = subst (IsInside end o) (some-injective (f cs) o' e) (k cs)

  pub number-IsInside :
      (o : Out) (num : ℕ) (spec : PrintfSpec) (o' : Out)
      → number end o num spec ≡ some o'
      → IsInside end o o'
  unfolding number
  number-IsInside o num spec o' e =
      let flags = effective_flags spec.flags in
      let locase = bit_and spec.flags small_flag in
      let part = signed_part flags num spec.field_width in
      let pfx = needs_prefix spec in
      let width = prefix_width spec.base pfx (num == 0) part.2 in
      bind-IsInside o (reversed spec.base locase part.1)
        (print_parts end o flags spec.base part.0 locase pfx (num == 0) width spec.precision)
        (print_parts-IsInside o flags spec.base part.0 locase pfx (num == 0) width spec.precision)
        o' e
