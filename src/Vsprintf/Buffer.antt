-- ===== src/Vsprintf/Buffer.antt =====
-- What a caller of `vsnprintf` and `vscnprintf` may rely on.
use hlos.Base.{
  ℕ, ◌+◌, ◌-◌, ◌%◌, ◌^◌, ◌<◌, ◌≤◌, ◌≡◌, ◌⊎◌, inl, inr, refl, ap, sym, subst, ◌∙◌, true, false, not,
  Bool-cases, some, arith, ◌==◌, ltb, leb, if◌then◌else◌,
}
use mathlib.Core.Option.{some-injective}
use hlos.Bytes.{Mem}
use hlos.Vsprintf.{◌>>=◌, Out}
use hlos.Vsprintf.Print.{Printing, print_loop, terminate, vsnprintf, vscnprintf, at_start}
use hlos.Vsprintf.Writes.{bind-some}
use hlos.Vsprintf.Loop.{no_count, print_loop-IsInside, print_loop-later}

terminate-outside :
    (buf size : ℕ) (o : Out) (a : ℕ)
    → buf ≤ o.at
    → (a < buf) ⊎ (buf + size ≤ a)
    → terminate (buf + size) size o a ≡ o.mem a
unfolding terminate
terminate-outside buf size o a later out = ground arith

terminate_in_buffer :
    (buf size : ℕ) (o : Out)
    → buf ≤ o.at
    → 0 < size
    → (p : ℕ) × (buf ≤ p) × (p < buf + size) × (terminate (buf + size) size o p ≡ 0)
unfolding terminate
terminate_in_buffer buf size o later some_room = elim (Bool-cases (ltb o.at (buf + size))) [
  | inl room ↦ (o.at, later, ground arith, ground arith)
  | inr full ↦ (buf + size - 1, omega arith, omega arith, ground arith)
]

module _ (fuel null_text num : ℕ) (m : Mem) (buf size fmt args : ℕ) where
  pub vsnprintf-eq :
      buf + size < 2 ^ 32
      → size < 2 ^ 31
      → vsnprintf fuel null_text num m buf size fmt args ≡ (
          print_loop (buf + size) null_text buf fuel (at_start num m buf fmt args) >>= λ s.
          some ((s.out.at - buf) % 2 ^ 32, terminate (buf + size) size s.out))
  unfolding vsnprintf
  vsnprintf-eq fits small =
      let whole : (buf + size) % 2 ^ 32 ≡ buf + size = omega arith in
      let no_wrap : ltb (buf + size) buf ≡ false = ground arith in
      let int_size : leb (2 ^ 31) size ≡ false = ground arith in rw (whole, no_wrap, int_size) refl

  -- What a run that returns has done.
  vsnprintf-run :
      (r : ℕ) (m' : Mem)
      → buf + size < 2 ^ 32
      → size < 2 ^ 31
      → vsnprintf fuel null_text num m buf size fmt args ≡ some (r, m')
      → (s : Printing) × (print_loop (buf + size) null_text buf fuel (at_start num m buf fmt args)
          ≡ some s)
        × (terminate (buf + size) size s.out ≡ m')
  vsnprintf-run r m' fits small e =
      let a =
        bind-some (print_loop (buf + size) null_text buf fuel (at_start num m buf fmt args))
          (λ s. some ((s.out.at - buf) % 2 ^ 32, terminate (buf + size) size s.out)) (r, m')
          (sym (vsnprintf-eq fits small) ∙ e) in
      (a.0, a.1, ap (λ (x : ℕ × Mem). x.1) (some-injective _ (r, m') a.2))

  -- If the buffer does not wrap around the address space, its size is below 2^31, and the run
  -- carries out no %n, then a call of vsnprintf that returns, with no round of its loop that
  -- takes str to the end of the address space or past it, or forward by 2^31 bytes or more,
  -- leaves every byte outside the buffer as it was, whatever the format and the arguments.
  pub vsnprintf-outside :
      (r : ℕ) (m' : Mem) (a : ℕ)
      → buf + size < 2 ^ 32
      → size < 2 ^ 31
      → no_count (buf + size) null_text buf fuel (at_start num m buf fmt args) ≡ true
      → vsnprintf fuel null_text num m buf size fmt args ≡ some (r, m')
      → (a < buf) ⊎ (buf + size ≤ a)
      → m' a ≡ m a
  vsnprintf-outside r m' a fits small n e out =
      let (s, loop, end) = vsnprintf-run r m' fits small e in
      let i =
        print_loop-IsInside (buf + size) null_text buf fuel (at_start num m buf fmt args) s n
          loop in
      sym (ap (λ (f : Mem). f a) end)
      ∙ terminate-outside buf size s.out a i.later out
      ∙ i.outside a out

  -- If the buffer does not wrap around the address space and its size is above 0 and below 2^31,
  -- then a call of vsnprintf that returns, with no round of its loop that takes str to the end of
  -- the address space or past it, or forward by 2^31 bytes or more, leaves a NUL inside the
  -- buffer, whatever the format and the arguments.
  pub vsnprintf_terminated :
      (r : ℕ) (m' : Mem)
      → buf + size < 2 ^ 32
      → size < 2 ^ 31
      → 0 < size
      → vsnprintf fuel null_text num m buf size fmt args ≡ some (r, m')
      → (p : ℕ) × (buf ≤ p) × (p < buf + size) × (m' p ≡ 0)
  vsnprintf_terminated r m' fits small room e =
      let (s, loop, end) = vsnprintf-run r m' fits small e in
      let later =
        print_loop-later (buf + size) null_text buf fuel (at_start num m buf fmt args) s loop in
      let (p, low, high, nul) = terminate_in_buffer buf size s.out later room in
      (p, low, high, sym (ap (λ (f : Mem). f p) end) ∙ nul)

  -- What vscnprintf returns is less than the size of the buffer, or is 0 for the size 0.
  pub vscnprintf-lt :
      (r : ℕ) (m' : Mem)
      → vscnprintf fuel null_text num m buf size fmt args ≡ some (r, m')
      → (r < size) ⊎ ((size ≡ 0) × (r ≡ 0))
  unfolding vscnprintf
  vscnprintf-lt r m' e =
      let a =
        bind-some (vsnprintf fuel null_text num m buf size fmt args)
          (λ (x : ℕ × Mem).
            some (if ltb x.0 size then x.0 else if not (size == 0) then size - 1 else 0, x.1))
          (r, m') e in
      let same = ap (λ (x : ℕ × Mem). x.0) (some-injective _ (r, m') a.2) in
      subst (λ x. (x < size) ⊎ ((size ≡ 0) × (x ≡ 0))) same (ground arith)
