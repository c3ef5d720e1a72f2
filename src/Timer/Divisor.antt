-- ===== src/Timer/Divisor.antt =====
-- What the timer chip is told.
use native.Mathlib.Nat.{div-lt_iff_lt-mul}
use hlos.Base.{ℕ, ◌+◌, ◌*◌, ◌/◌, ◌%◌, ◌^◌, ◌<◌, ◌≤◌, ◌≡◌, refl, false, arith, some, bit_and, ◌==◌}
use hlos.Base.Bits.{bit_and-mask}
use hlos.Io.{outb}
use hlos.Idt.{Interrupts, register_interrupt_handler}
use hlos.Timer.{init_timer}

divisor-fits : (f : ℕ) → 19 ≤ f → 1193180 / f < 2 ^ 16
divisor-fits f h = (div-lt_iff_lt-mul (omega arith)).1 (omega arith)

-- From 19 interrupts a second on `init_timer` registers the callback for request 0 and sends the
-- mode and then two bytes that together are the whole divisor.
pub init_timer-divisor :
    (callback f : ℕ) (s : Interrupts)
    → 19 ≤ f
    → (low : ℕ) × (high : ℕ) × (init_timer callback f s
        ≡ some (record (register_interrupt_handler s 32 callback) {
          log = outb (outb (outb s.log 0x43 0x36) 0x40 low) 0x40 high;
        }))
      × (low < 256)
      × (high < 256)
      × (low + 256 * high ≡ 1193180 / f)
unfolding init_timer
init_timer-divisor callback f s h =
    let d = 1193180 / f in
    let some_frequency : (f == 0) ≡ false = ground arith in
    let low : bit_and d 0xff ≡ d % 2 ^ 8 = bit_and-mask 8 d in
    let high : bit_and (d / 2 ^ 8) 0xff ≡ d / 2 ^ 8 % 2 ^ 8 = bit_and-mask 8 (d / 2 ^ 8) in
    (
      bit_and d 0xff,
      bit_and (d / 2 ^ 8) 0xff,
      rw some_frequency refl,
      omega (arith, low),
      omega (arith, high),
      omega (arith, low, high, divisor-fits f h),
    )
