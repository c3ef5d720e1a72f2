-- ===== src/Idt/Tests.antt =====
-- Interrupts before and after a handler is registered.
use hlos.Base.{ℕ, ◌≡◌, ◌≢◌, refl, arith, [], ◌∷◌, ◌++◌}
use hlos.Io.{Event, outb}
use hlos.Idt.{
  Interrupts, blank_entry, register_interrupt_handler, isr_handler, irq_handler, init_idt,
}
use hlos.Idt.Gates.{IsReady, init_idt-IsReady}
use hlos.Idt.Dispatch.{register_interrupt_handler-dispatch}

abbrev quiet : Interrupts
quiet = record {
  entries = λ i. blank_entry;
  ptr_limit = 0;
  ptr_base = 0;
  handlers = λ i. 0;
  log = [];
}

abbrev keyboard : Interrupts
keyboard = register_interrupt_handler quiet 33 0x5000

slave_request :
    (irq_handler (register_interrupt_handler quiet 44 0x6000) 44).log
    ≡ Event.out 0xa0 0x20 ∷ Event.out 0x20 0x20 ∷ Event.call 0x6000 44 ∷ []
unfolding irq_handler register_interrupt_handler outb
slave_request = refl

init_idt-IsReady_example :
    IsReady
      (λ i. 0x1000)
      (λ i. 0x2000)
      0x3000
      (init_idt (λ i. 0x1000) (λ i. 0x2000) 0x3000 0x9000 quiet)
init_idt-IsReady_example =
    init_idt-IsReady (λ i. 0x1000) (λ i. 0x2000) 0x3000 0x9000 quiet (λ i. omega arith)
      (λ i. omega arith) (omega arith)

register_interrupt_handler-dispatch_run :
    ((isr_handler keyboard 33).log ≡ Event.call 0x5000 33 ∷ [])
    × ((irq_handler keyboard 33).log ≡ outb [] 0x20 0x20 ++ Event.call 0x5000 33 ∷ [])
    × ((i : ℕ)
        → i ≢ 33
        → ((isr_handler keyboard i).log ≡ (isr_handler quiet i).log)
          × ((irq_handler keyboard i).log ≡ (irq_handler quiet i).log))
register_interrupt_handler-dispatch_run =
    register_interrupt_handler-dispatch quiet 33 0x5000 (omega arith)
