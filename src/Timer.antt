-- ===== src/Timer.antt =====
-- drivers/timer.c: the interval timer. `none` is the division by zero at frequency 0, which faults;
-- `callback` is the address of `timer_callback`.
pub mod Divisor
mod Tests
use hlos.Base.{ℕ, ◌+◌, ◌/◌, ◌%◌, ◌^◌, bit_and, Option, none, some, ◌==◌, if◌then◌else◌}
use hlos.Io.{outb}
use hlos.Idt.{Interrupts, register_interrupt_handler}

unfoldable pub init_timer : (callback frequency : ℕ) → Interrupts → Option Interrupts
init_timer callback frequency s =
    let registered = register_interrupt_handler s 32 callback in
    let divisor = 1193180 / frequency in
    let low = bit_and divisor 0xff in
    let high = bit_and (divisor / 2 ^ 8) 0xff in
    if frequency == 0
    then none
    else some (record registered { log = outb (outb (outb s.log 0x43 0x36) 0x40 low) 0x40 high })

-- The next value of `tick`, and the number that `printk` shows.
unfoldable pub timer_callback : ℕ → ℕ × ℕ
timer_callback tick = ((tick + 1) % 2 ^ 32, tick)
