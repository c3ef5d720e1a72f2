-- ===== src/Printk/Safety.antt =====
-- `printk` stays in its buffer and on the screen.
use hlos.Base.{
  ℕ, ◌+◌, ◌-◌, ◌^◌, ◌<◌, ◌≤◌, ◌≡◌, ◌≢◌, ◌⊎◌, refl, ap, subst, ◌∙◌, true, not, List, some, arith,
  ◌==◌, ltb, if◌then◌else◌, length, All, min,
}
use mathlib.Core.Option.{some-injective}
use hlos.Bytes.{Mem}
use hlos.Str.Text.{IsStr}
use hlos.Console.{Screen, console_vga_write}
use hlos.Console.Bounds.{IsOnScreen, IsWithin, console_vga_write-IsWithin}
use hlos.Vsprintf.Print.{at_start, vsnprintf, vscnprintf}
use hlos.Vsprintf.Writes.{bind-some}
use hlos.Vsprintf.Loop.{no_count}
use hlos.Vsprintf.Buffer.{vsnprintf-outside, vscnprintf-lt}
use hlos.Vsprintf.Plain.{IsText, vsnprintf-IsText}
use hlos.Printk.{log_line_max, printk}

-- What a run has done that returned `r`.
pub record IsSafe (textbuf : ℕ) (m : Mem) (s : Screen) (r : ℕ) (m' : Mem) (s' : Screen)
    : Type 0 where
  pub count : r < log_line_max
  pub outside : (a : ℕ) → (a < textbuf) ⊎ (textbuf + log_line_max ≤ a) → m' a ≡ m a
  pub screen : IsWithin s s'

module _ (fuel null_text num textbuf : ℕ) (m : Mem) (s : Screen) (fmt frame : ℕ) where
  -- The run of `vsnprintf` in one of `vscnprintf`.
  vscnprintf-run :
      (r : ℕ) (m' : Mem)
      → vscnprintf fuel null_text num m textbuf log_line_max fmt (frame + 4) ≡ some (r, m')
      → (k : ℕ) × (vsnprintf fuel null_text num m textbuf log_line_max fmt (frame + 4)
          ≡ some (k, m'))
  unfolding vscnprintf
  vscnprintf-run r m' e =
      let a =
        bind-some (vsnprintf fuel null_text num m textbuf log_line_max fmt (frame + 4))
          (λ (x : ℕ × Mem). some (
            if ltb x.0 log_line_max
                then x.0
                else if not (log_line_max == 0)
                then log_line_max - 1
                else 0,
            x.1,
          ))
          (r, m') e in
      let same = ap (λ (x : ℕ × Mem). x.1) (some-injective _ (r, m') a.2) in
      (a.0.0, a.1 ∙ ap (λ (t : Mem). some (a.0.0, t)) same)

  -- If the buffer of printk does not wrap around the address space, its run carries out no %n and
  -- the cursor is on the screen or on the line below it, then a call of printk that returns, with
  -- no round of the formatting that takes str to the end of the address space or past it, or
  -- forward by 2^31 bytes or more, gives a number below 1024, and leaves every byte outside its
  -- buffer, and every cell outside the screen, as it was, with the cursor in place again,
  -- whatever the format and the arguments.
  pub printk-IsSafe :
      (r : ℕ) (m' : Mem) (s' : Screen)
      → textbuf + log_line_max < 2 ^ 32
      → no_count
          (textbuf + log_line_max)
          null_text
          textbuf
          fuel
          (at_start num m textbuf fmt (frame + 4))
        ≡ true
      → IsOnScreen s
      → printk fuel null_text num textbuf m s fmt frame ≡ some (r, m', s')
      → IsSafe textbuf m s r m' s'
  unfolding printk
  printk-IsSafe r m' s' fits n on e =
      let a =
        bind-some (vscnprintf fuel null_text num m textbuf log_line_max fmt (frame + 4))
          (λ (x : ℕ × Mem). some (x.0, x.1, console_vga_write x.1 s textbuf x.0)) (r, m', s') e in
      let out = some-injective _ (r, m', s') a.2 in
      let run = vscnprintf-run a.0.0 a.0.1 a.1 in
      let bound =
        vscnprintf-lt fuel null_text num m textbuf log_line_max fmt (frame + 4) a.0.0 a.0.1 a.1 in
      let safe : IsSafe textbuf m s a.0.0 a.0.1 (console_vga_write a.0.1 s textbuf a.0.0) = record {
        count = omega (arith, bound);
        outside = λ b h.
            vsnprintf-outside fuel null_text num m textbuf log_line_max fmt (frame + 4) run.0 a.0.1
              b fits (omega arith) n run.1 h;
        screen = console_vga_write-IsWithin a.0.1 s textbuf a.0.0 on;
      } in
      subst (λ (t : ℕ × Mem × Screen). IsSafe textbuf m s t.0 t.1 t.2) out safe

  -- For a format that holds no %, of fewer than 2^31 characters, apart from the buffer of printk,
  -- where both the buffer and a text of that length at its address end before the address space
  -- does, and more fuel than the format has characters and one, printk returns: the number is the
  -- length of the format, at most 1023, the buffer holds the text, cut to 1023 bytes, with a NUL
  -- behind it, and that many bytes of the buffer go to the screen.
  pub printk-IsText :
      (xs : List ℕ)
      → IsStr m fmt xs
      → All (λ c. c ≢ b'%') xs
      → textbuf + log_line_max < 2 ^ 32
      → length xs < 2 ^ 31
      → textbuf + length xs < 2 ^ 32
      → (textbuf + log_line_max ≤ fmt) ⊎ (fmt + length xs < textbuf)
      → length xs + 1 < fuel
      → (m' : Mem) × (printk fuel null_text num textbuf m s fmt frame
          ≡ some (min (length xs) 1023, m', console_vga_write m' s textbuf (min (length xs) 1023)))
        × IsText m textbuf log_line_max fmt (length xs) m'
  unfolding printk vscnprintf
  printk-IsText xs t plain fits short below apart enough =
      let r =
        vsnprintf-IsText null_text num m textbuf log_line_max fmt (frame + 4) fuel xs t plain
          (omega arith) (omega arith) fits short below apart enough in
      let count : (if ltb (length xs) log_line_max then length xs else log_line_max - 1)
          ≡ min (length xs) 1023 =
        ground arith in
      (r.0, rw (r.1, count) refl, r.2)
