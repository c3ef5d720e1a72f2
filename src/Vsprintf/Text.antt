-- ===== src/Vsprintf/Text.antt =====
-- The texts of directives: what stands outside the buffer, and the writes of a text, a character and a
-- string without a field width.
use hlos.Base.{
  ℕ, suc, ◌+◌, ◌-◌, ◌%◌, ◌^◌, ◌<◌, ◌≤◌, ◌≡◌, ◌≢◌, ◌⊎◌, inl, inr, refl, ap, sym, ◌∙◌, true, false,
  Bool-cases, List, [], ◌∷◌, ◌++◌, arith, ltb, length, min,
}
use hlos.Bytes.{Mem, poke, memcpy}
use hlos.Str.{strnlen}
use hlos.Str.Text.{IsStr}
use hlos.Str.Length.{strnlen-length}
use hlos.Vsprintf.{FormatType, format_char, format_str, PrintfSpec, Out, put, put_string, string}
use hlos.Vsprintf.Print.{put_text, put_character}
use hlos.Vsprintf.Layout.{put_all}

module _ (end : ℕ) where
  pub put_all-at : (o : Out) (cs : List ℕ) → (put_all end o cs).at ≡ o.at + length cs
  unfolding put_all put
  put_all-at o [] = omega arith
  put_all-at o (c ∷ cs) = omega (arith, put_all-at (put end o c) cs)

  pub put_all-append :
      (o : Out) (cs ds : List ℕ) → put_all end o (cs ++ ds) ≡ put_all end (put_all end o cs) ds
  unfolding put_all
  put_all-append o [] ds = refl
  put_all-append o (c ∷ cs) ds = put_all-append (put end o c) cs ds

  put-room :
      (m : Mem) (at c : ℕ)
      → ltb at end ≡ true
      → put end (record { mem = m; at = at }) c ≡ record { mem = poke m at c; at = at + 1 }
  unfolding put
  put-room m at c e = rw e refl

  put-full :
      (m : Mem) (at c : ℕ)
      → ltb at end ≡ false
      → put end (record { mem = m; at = at }) c ≡ record { mem = m; at = at + 1 }
  unfolding put
  put-full m at c e = rw e refl

out_eq :
    {m n : Mem} {a b : ℕ}
    → m ≡ n
    → a ≡ b
    → ◌≡◌ {A = Out} (record { mem = m; at = a }) (record { mem = n; at = b })
out_eq e f = λ i. record { mem = e i; at = f i }

module _ (buf end : ℕ) (m0 : Mem) where
  -- The memory still is as it was outside the buffer.
  abbrev pub Agrees : Mem → Type 0
  Agrees m = (a : ℕ) → (a < buf) ⊎ (end ≤ a) → m a ≡ m0 a

  -- The byte `v` at `a`, outside the buffer.
  abbrev pub Byte : (a v : ℕ) → Type 0
  Byte a v = ((a < buf) ⊎ (end ≤ a)) × (m0 a ≡ v)

  -- At `p` stand the bytes `xs`, none of them NUL or %.
  abbrev pub Reads : ℕ → List ℕ → Type 0
  Reads p [] = Unit
  Reads p (x ∷ xs) = Byte p x × (x ≢ 0) × (x ≢ b'%') × Reads (p + 1) xs

  put-Agrees : (o : Out) (c : ℕ) → buf ≤ o.at → Agrees o.mem → Agrees (put end o c).mem
  unfolding put
  put-Agrees o c low same a out = ground (arith, same a)

  pub put_all-Agrees :
      (o : Out) (cs : List ℕ) → buf ≤ o.at → Agrees o.mem → Agrees (put_all end o cs).mem
  unfolding put_all
  put_all-Agrees o [] low same = same
  put_all-Agrees o (c ∷ cs) low same =
      put_all-Agrees (put end o c) cs (unfold put in omega arith) (put-Agrees o c low same)

  put_all-memcpy :
      (m : Mem) (at p : ℕ) (xs : List ℕ)
      → buf ≤ at
      → Agrees m
      → Reads p xs
      → put_all end (record { mem = m; at = at }) xs
        ≡ record { mem = memcpy m at p (min (length xs) (end - at)); at = at + length xs }
  unfolding put_all put memcpy
  put_all-memcpy m at p [] low same r =
      let nothing : 0 ≡ min 0 (end - at) = omega arith in
      out_eq (ap (memcpy m at p) nothing) (omega arith)
  put_all-memcpy m at p (x ∷ xs) low same r = elim (Bool-cases (ltb at end)) [
    | inl room ↦
        let value : x ≡ m p = sym (same p r.0.0 ∙ r.0.1) in
        let k = min (length xs) (end - (at + 1)) in
        let count : suc k ≡ min (suc (length xs)) (end - at) = ground arith in
        let later : Agrees (poke m at x) = λ a out. ground (arith, same a) in
        ap (λ o. put_all end o xs) (put-room end m at x room)
        ∙ put_all-memcpy (poke m at x) (at + 1) (p + 1) xs (omega arith) later r.3
        ∙ out_eq
            (ap (λ v. memcpy (poke m at v) (at + 1) (p + 1) k) value ∙ ap (memcpy m at p) count)
            (omega arith)
    | inr full ↦
        let count : 0 ≡ min (suc (length xs)) (end - at) = ground arith in
        let none_left : min (length xs) (end - (at + 1)) ≡ 0 = ground arith in
        ap (λ o. put_all end o xs) (put-full end m at x full)
        ∙ put_all-memcpy m (at + 1) (p + 1) xs (omega arith) same r.3
        ∙ out_eq (ap (memcpy m (at + 1) (p + 1)) none_left ∙ ap (memcpy m at p) count) (omega arith)
  ]

  memcpy_nothing : (m : Mem) (at p : ℕ) → memcpy m at p 0 ≡ m
  unfolding memcpy
  memcpy_nothing m at p = refl

  pub put_text-put_all :
      (m : Mem) (at p : ℕ) (xs : List ℕ)
      → buf ≤ at
      → Agrees m
      → Reads p xs
      → put_text end (record { mem = m; at = at }) p (length xs)
        ≡ put_all end (record { mem = m; at = at }) xs
  unfolding put_text
  put_text-put_all m at p xs low same r = elim (Bool-cases (ltb at end)) [
    | inl room ↦ rw room (sym (put_all-memcpy m at p xs low same r))
    | inr full ↦
        let count : min (length xs) (end - at) ≡ 0 = ground arith in
        rw full (
          sym (
            put_all-memcpy m at p xs low same r
            ∙ out_eq (ap (memcpy m at p) count ∙ memcpy_nothing m at p) refl))
  ]

  -- A string in the memory as it was, with its NUL, outside the buffer.
  abbrev pub Holds : ℕ → List ℕ → Type 0
  Holds p xs = IsStr m0 p xs × ((p + length xs < buf) ⊎ (end ≤ p))

  put_string-put_all :
      (o : Out) (p : ℕ) (xs : List ℕ)
      → buf ≤ o.at
      → Agrees o.mem
      → Holds p xs
      → put_string end o p (length xs) ≡ put_all end o xs
  unfolding put_string put_all
  put_string-put_all o p [] low same h = refl
  put_string-put_all o p (x ∷ xs) low same h =
      let value : o.mem p ≡ x = same p (omega (arith, h.1)) ∙ h.0.0 in
      ap (λ v. put_string end (put end o v) (p + 1) (length xs)) value
      ∙ put_string-put_all (put end o x) (p + 1) xs (unfold put in omega arith)
          (put-Agrees o x low same) (h.0.2, omega (arith, h.1))

  Holds-IsStr : (m : Mem) (p : ℕ) (xs : List ℕ) → Agrees m → Holds p xs → IsStr m p xs
  Holds-IsStr m p [] same h = same p (omega (arith, h.1)) ∙ h.0
  Holds-IsStr m p (x ∷ xs) same h = (
    same p (omega (arith, h.1)) ∙ h.0.0,
    h.0.1,
    Holds-IsStr m (p + 1) xs same (h.0.2, omega (arith, h.1)),
  )

-- The specification of a directive without flags, width, precision and qualifier.
abbrev pub plain_spec : FormatType → PrintfSpec
plain_spec type = record {
  type = type;
  flags = 0;
  base = 10;
  qualifier = 0xff;
  field_width = 0xffff;
  precision = 0xffff;
}

string-eq :
    (end null_text : ℕ) (o : Out) (p len : ℕ)
    → ltb p 4096 ≡ false
    → strnlen o.mem p 0xffff_ffff ≡ len
    → string end null_text o p (plain_spec format_str) ≡ put_string end o p len
unfolding string
string-eq end null_text o p len low n = rw (low, n) refl

pub put_character-plain :
    (end : ℕ) (o : Out) (c : ℕ)
    → put_character end o c (plain_spec format_char) ≡ put end o (c % 256)
unfolding put_character
put_character-plain end o c = refl

pub string-plain :
    (buf end : ℕ) (m0 : Mem) (null_text : ℕ) (o : Out) (p : ℕ) (xs : List ℕ)
    → buf ≤ o.at
    → Agrees buf end m0 o.mem
    → Holds buf end m0 p xs
    → 4096 ≤ p
    → length xs < 2 ^ 32
    → string end null_text o p (plain_spec format_str) ≡ put_all end o xs
string-plain buf end m0 null_text o p xs low same h high short =
    let full : min (length xs) 0xffff_ffff ≡ length xs = omega arith in
    string-eq end null_text o p (length xs) (ground arith)
      (strnlen-length o.mem p 0xffff_ffff xs (Holds-IsStr buf end m0 o.mem p xs same h) ∙ full)
    ∙ put_string-put_all buf end m0 o p xs low same h
