-- ===== src/Timer/Tests.antt =====
-- A hundred interrupts a second, and none.
use hlos.Base.{ℕ, ◌+◌, ◌*◌, ◌<◌, ◌≡◌, refl, none, some, arith, []}
use hlos.Io.{outb}
use hlos.Idt.{Interrupts, blank_entry, register_interrupt_handler}
use hlos.Timer.{init_timer}
use hlos.Timer.Divisor.{init_timer-divisor}

abbrev quiet : Interrupts
quiet = record {
  entries = λ i. blank_entry;
  ptr_limit = 0;
  ptr_base = 0;
  handlers = λ i. 0;
  log = [];
}

never : init_timer 0x5000 0 quiet ≡ none
unfolding init_timer
never = refl

init_timer-divisor_run :
    (low : ℕ) × (high : ℕ) × (init_timer 0x5000 100 quiet
      ≡ some (record (register_interrupt_handler quiet 32 0x5000) {
        log = outb (outb (outb quiet.log 0x43 0x36) 0x40 low) 0x40 high;
      }))
    × (low < 256)
    × (high < 256)
    × (low + 256 * high ≡ 11931)
init_timer-divisor_run = init_timer-divisor 0x5000 100 quiet (omega arith)
