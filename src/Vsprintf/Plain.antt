-- ===== src/Vsprintf/Plain.antt =====
-- `vsnprintf` of a format without a conversion.
use hlos.Base.{
  ℕ, zero, suc, ◌+◌, ◌-◌, ◌%◌, ◌^◌, ◌<◌, ◌≤◌, ◌≡◌, ◌≢◌, ◌⊎◌, refl, ◌∙◌, true, false, List, [], ◌∷◌,
  some, arith, ◌==◌, ltb, length, All, min,
}
use hlos.Bytes.{Mem, memcpy}
use hlos.Bytes.Move.{memcpy-IsCopied}
use hlos.Str.Text.{IsStr, IsStr-end}
use hlos.Vsprintf.{PrintfSpec}
use hlos.Vsprintf.Decode.{find_percent, from_start, format_decode}
use hlos.Vsprintf.Print.{
  Printing, put_text, print_as, print_one, print_loop, terminate, zero_spec, at_start, vsnprintf,
}
use hlos.Vsprintf.Buffer.{vsnprintf-eq}

find_percent-length :
    (fuel : ℕ) (m : Mem) (p : ℕ) (xs : List ℕ)
    → IsStr m p xs
    → All (λ c. c ≢ b'%') xs
    → length xs < fuel
    → find_percent fuel m p ≡ some (p + length xs)
unfolding find_percent
find_percent-length zero m p xs t plain lt = absurd (omega arith)
find_percent-length (suc fuel) m p [] t plain lt = ground (arith, t)
find_percent-length (suc fuel) m p (x ∷ xs) t plain lt =
    ground (arith, t.0, t.1, plain.0, find_percent-length fuel m (p + 1) xs t.2 plain.1)

format_decode-plain :
    (fuel : ℕ) (m : Mem) (fmt : ℕ) (x : ℕ) (xs : List ℕ)
    → IsStr m fmt (x ∷ xs)
    → All (λ c. c ≢ b'%') (x ∷ xs)
    → length (x ∷ xs) < fuel
    → format_decode fuel m fmt zero_spec ≡ some (fmt + length (x ∷ xs), zero_spec)
unfolding format_decode from_start
format_decode-plain fuel m fmt x xs t plain lt =
    let far : (fmt + length (x ∷ xs) == fmt) ≡ false = ground arith in
    rw (find_percent-length fuel m fmt (x ∷ xs) t plain lt, far) refl

module _ (end null_text buf : ℕ) where
  pub print_loop-next :
      (fuel : ℕ) (s : Printing) (r : ℕ × PrintfSpec) (t : Printing)
      → (s.out.mem s.fmt == 0) ≡ false
      → format_decode (suc fuel) s.out.mem s.fmt s.spec ≡ some r
      → print_one end null_text buf s.fmt (record s { fmt = r.0; spec = r.1 }) ≡ some t
      → print_loop end null_text buf (suc fuel) s ≡ print_loop end null_text buf fuel t
  unfolding print_loop
  print_loop-next fuel s r t more d p = rw (more, d, p, print_loop) refl

  pub print_loop-stop :
      (fuel : ℕ) (s : Printing)
      → (s.out.mem s.fmt == 0) ≡ true
      → print_loop end null_text buf (suc fuel) s ≡ some s
  unfolding print_loop
  print_loop-stop fuel s done = rw (done, print_loop) refl

-- The memory `m'` holds at `buf` what fits of the text at `fmt`, and a NUL behind it.
pub record IsText (m : Mem) (buf size fmt : ℕ) (count : ℕ) (m' : Mem) : Type 0 where
  pub text : (i : ℕ) → i < min count (size - 1) → m' (buf + i) ≡ m (fmt + i)
  pub nul : m' (buf + min count (size - 1)) ≡ 0

module _ (null_text num : ℕ) (m : Mem) (buf size fmt args : ℕ) where
  -- The state behind the text.
  abbrev behind : ℕ → Mem → Printing
  behind count m1 = record {
    out = record { mem = m1; at = buf + count };
    fmt = fmt + count;
    args = args;
    num = num;
    spec = zero_spec;
  }

  abbrev copied : ℕ → Mem
  copied count = memcpy m buf fmt (min count size)

  print_text :
      (count : ℕ)
      → 0 < size
      → count < 2 ^ 31
      → buf + count < 2 ^ 32
      → print_one
          (buf + size)
          null_text
          buf
          fmt
          (record (at_start num m buf fmt args) { fmt = fmt + count })
        ≡ some (behind count (copied count))
  unfolding print_one print_as put_text
  print_text count room int_range fits =
      let inside : ltb buf (buf + size) ≡ true = ground arith in
      let read : fmt + count - fmt ≡ count = omega arith in
      let space : buf + size - buf ≡ size = omega arith in
      let in_memory : ltb (buf + count) (2 ^ 32) ≡ true = ground arith in
      let short : ltb (buf + count - buf) (2 ^ 31) ≡ true = ground arith in
      rw (inside, read, space, in_memory, short) refl

  terminate-IsText :
      (count : ℕ)
      → 0 < size
      → (buf + size ≤ fmt) ⊎ (fmt + count < buf)
      → IsText m buf size fmt count (terminate (buf + size) size (behind count (copied count)).out)
  unfolding terminate
  terminate-IsText count room apart =
      let c = memcpy-IsCopied m buf fmt (min count size) (omega arith) in
      record { text = λ i lt. ground (arith, c.inside i (omega arith)); nul = ground arith }

  empty-IsText :
      0 < size
      → IsText m buf size fmt 0 (terminate (buf + size) size (at_start num m buf fmt args).out)
  unfolding terminate
  empty-IsText room = record { text = λ i lt. absurd (omega arith); nul = ground arith }

  -- For a format that holds no %, a buffer apart from it that does not wrap around the address
  -- space, of a size above 0 and below 2^31, a text of fewer than 2^31 characters that would not run past the end of the address space, and more fuel than the format has characters and
  -- one, vsnprintf returns the length of the format; the buffer then holds its text, cut to one
  -- byte less than the size, and a NUL behind it.
  pub vsnprintf-IsText :
      (fuel : ℕ) (xs : List ℕ)
      → IsStr m fmt xs
      → All (λ c. c ≢ b'%') xs
      → 0 < size
      → size < 2 ^ 31
      → buf + size < 2 ^ 32
      → length xs < 2 ^ 31
      → buf + length xs < 2 ^ 32
      → (buf + size ≤ fmt) ⊎ (fmt + length xs < buf)
      → length xs + 1 < fuel
      → (m' : Mem) × (vsnprintf fuel null_text num m buf size fmt args ≡ some (length xs, m'))
        × IsText m buf size fmt (length xs) m'
  vsnprintf-IsText zero xs t plain room small fits short below apart enough = absurd (omega arith)
  vsnprintf-IsText (suc zero) xs t plain room small fits short below apart enough =
      absurd (omega arith)
  vsnprintf-IsText (suc (suc fuel)) [] t plain room small fits short below apart enough =
      let start = at_start num m buf fmt args in
      let done : (m fmt == 0) ≡ true = ground (arith, t) in
      let loop = print_loop-stop (buf + size) null_text buf (suc fuel) start done in
      let count : (buf - buf) % 2 ^ 32 ≡ 0 = omega arith in
      (
        terminate (buf + size) size start.out,
        vsnprintf-eq (suc (suc fuel)) null_text num m buf size fmt args fits small
            ∙ rw (loop, count) refl,
        empty-IsText room,
      )
  vsnprintf-IsText (suc (suc fuel)) (x ∷ xs) t plain room small fits short below apart enough =
      let n = length (x ∷ xs) in
      let c = memcpy-IsCopied m buf fmt (min n size) (omega arith) in
      let more : (m fmt == 0) ≡ false = ground (arith, t.0, t.1) in
      let kept : copied n (fmt + n) ≡ 0 =
        c.outside (fmt + n) (omega arith) ∙ IsStr-end m fmt (x ∷ xs) t in
      let done : (copied n (fmt + n) == 0) ≡ true = ground (arith, kept) in
      let loop =
        print_loop-next (buf + size) null_text buf (suc fuel) (at_start num m buf fmt args)
          (fmt + n, zero_spec) (behind n (copied n)) more
          (format_decode-plain (suc (suc fuel)) m fmt x xs t plain (omega arith))
          (print_text n room short below)
        ∙ print_loop-stop (buf + size) null_text buf fuel (behind n (copied n)) done in
      let count : (buf + n - buf) % 2 ^ 32 ≡ n = omega arith in
      (
        terminate (buf + size) size (behind n (copied n)).out,
        vsnprintf-eq (suc (suc fuel)) null_text num m buf size fmt args fits small
            ∙ rw (loop, count) refl,
        terminate-IsText n room apart,
      )
