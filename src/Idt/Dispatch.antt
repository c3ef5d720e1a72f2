-- ===== src/Idt/Dispatch.antt =====
-- `register_interrupt_handler` with `isr_handler` and `irq_handler`.
use hlos.Base.{
  ℕ, ◌≡◌, ◌≢◌, refl, true, false, Bool-cases, inl, inr, arith, [], ◌∷◌, ◌++◌, ◌==◌, leb, ne→==,
  if◌then◌else◌,
}
use hlos.Bytes.{null}
use hlos.Io.{Event, outb}
use hlos.Idt.{Interrupts, register_interrupt_handler, isr_handler, irq_handler}

-- After a handler other than null is registered, its interrupt calls it as a fault, and as a
-- request after the controllers are told, the second one from 40 on; every other interrupt goes
-- as before.
pub register_interrupt_handler-dispatch :
    (s : Interrupts) (n h : ℕ)
    → h ≢ null
    → ((isr_handler (register_interrupt_handler s n h) n).log ≡ s.log ++ Event.call h n ∷ [])
      × ((irq_handler (register_interrupt_handler s n h) n).log
          ≡ outb (if leb 40 n then outb s.log 0xa0 0x20 else s.log) 0x20 0x20
            ++ Event.call h n ∷ [])
      × ((i : ℕ)
          → i ≢ n
          → ((isr_handler (register_interrupt_handler s n h) i).log ≡ (isr_handler s i).log)
            × ((irq_handler (register_interrupt_handler s n h) i).log ≡ (irq_handler s i).log))
unfolding register_interrupt_handler isr_handler irq_handler
register_interrupt_handler-dispatch s n h ne =
    let self : (n == n) ≡ true = ground arith in
    let filled : (h == null) ≡ false = ne→== h null ne in
    (
      rw (self, filled) refl,
      rw (self, filled) refl,
      λ i other.
          let miss : (i == n) ≡ false = ne→== i n other in
          elim (Bool-cases (s.handlers i == null)) [
            | inl e ↦ (rw (miss, e) refl, rw (miss, e) refl)
            | inr e ↦ (rw (miss, e) refl, rw (miss, e) refl)
          ],
    )
