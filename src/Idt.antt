-- ===== src/Idt.antt =====
-- idt/idt.c: the interrupt gates and the handler functions. A handler is its address, null if there is
-- none; the entry stubs are assembly, and their addresses `isr`, `irq` and `isr255` are arguments.
-- `idt_flush`, which is assembly, is left out.
pub mod Gates
pub mod Dispatch
mod Tests
use hlos.Base.{
  ℕ, zero, suc, ◌+◌, ◌-◌, ◌*◌, ◌/◌, ◌^◌, bit_and, List, [], ◌∷◌, ◌++◌, not, ◌==◌, ltb, leb,
  if◌then◌else◌,
}
use hlos.Links.{update}
use hlos.Bytes.{null}
use hlos.Io.{Log, Event, outb}

pub record IdtEntry : Type 0 where
  pub base_lo : ℕ
  pub sel : ℕ
  pub always0 : ℕ
  pub flags : ℕ
  pub base_hi : ℕ

pub record Interrupts : Type 0 where
  pub entries : ℕ → IdtEntry
  pub ptr_limit : ℕ
  pub ptr_base : ℕ
  pub handlers : ℕ → ℕ
  pub log : Log

unfoldable pub idt_set_gate : Interrupts → (num base sel flags : ℕ) → Interrupts
idt_set_gate s num base sel flags = record s {
  entries = λ i.
      if i == num
      then record {
        base_lo = bit_and base 0xffff;
        base_hi = bit_and (base / 2 ^ 16) 0xffff;
        sel = sel;
        always0 = 0;
        flags = flags;
      }
      else s.entries i;
}

-- The calls of `idt_set_gate` for a run of `count` stubs, from gate `num` and stub `i` on.
unfoldable pub set_gates : ℕ → (ℕ → ℕ) → Interrupts → (num i : ℕ) → Interrupts
set_gates zero stub s num i = s
set_gates (suc count) stub s num i =
    set_gates count stub (idt_set_gate s num (stub i) 0x08 0x8e) (num + 1) (i + 1)

abbrev pub blank_entry : IdtEntry
blank_entry = record { base_lo = 0; sel = 0; always0 = 0; flags = 0; base_hi = 0 }

-- The port writes that set up the two interrupt controllers.
unfoldable pub remap_irqs : Log → Log
remap_irqs log =
    let l1 = outb (outb log 0x20 0x11) 0xa0 0x11 in
    let l2 = outb (outb l1 0x21 0x20) 0xa1 0x28 in
    let l3 = outb (outb l2 0x21 0x04) 0xa1 0x02 in
    let l4 = outb (outb l3 0x21 0x01) 0xa1 0x01 in outb (outb l4 0x21 0x0) 0xa1 0x0

-- `address` is that of `idt_entries`; a gate has 8 bytes.
unfoldable pub init_idt : (isr irq : ℕ → ℕ) → (isr255 address : ℕ) → Interrupts → Interrupts
init_idt isr irq isr255 address s =
    let cleared = record s {
      log = remap_irqs s.log;
      handlers = λ i. if ltb i 256 then null else s.handlers i;
      ptr_limit = 8 * 256 - 1;
      ptr_base = address;
      entries = λ i. if ltb i 256 then blank_entry else s.entries i;
    } in
    let faults = set_gates 32 isr cleared 0 0 in
    let requests = set_gates 16 irq faults 32 0 in idt_set_gate requests 255 isr255 0x08 0x8e

unfoldable pub register_interrupt_handler : Interrupts → (n h : ℕ) → Interrupts
register_interrupt_handler s n h = record s { handlers = update s.handlers n h }

-- A call of the handler `h`
abbrev pub call_handler : Interrupts → (h int_no : ℕ) → Interrupts
call_handler s h int_no = record s { log = s.log ++ Event.call h int_no ∷ [] }

unfoldable pub isr_handler : Interrupts → ℕ → Interrupts
isr_handler s int_no =
    if not (s.handlers int_no == null)
    then call_handler s (s.handlers int_no) int_no
    else record s { log = s.log ++ Event.unhandled int_no ∷ [] }

unfoldable pub irq_handler : Interrupts → ℕ → Interrupts
irq_handler s int_no =
    let slave = if leb 40 int_no then outb s.log 0xa0 0x20 else s.log in
    let acknowledged = record s { log = outb slave 0x20 0x20 } in
    if not (s.handlers int_no == null)
    then call_handler acknowledged (s.handlers int_no) int_no
    else acknowledged
