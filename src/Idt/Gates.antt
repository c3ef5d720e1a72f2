-- ===== src/Idt/Gates.antt =====
-- The gates after `init_idt`.
use hlos.Base.{
  ℕ, zero, suc, ◌+◌, ◌*◌, ◌/◌, ◌^◌, ◌<◌, ◌≤◌, ◌≡◌, ◌≢◌, refl, sym, ap, ◌∙◌, true, ◌⊎◌, arith, ◌==◌,
  subst,
}
use hlos.Base.Bits.{bit_and-mask}
use hlos.Bytes.{null}
use hlos.Idt.{IdtEntry, Interrupts, blank_entry, idt_set_gate, set_gates, init_idt}

unfoldable pub target : IdtEntry → ℕ
target e = e.base_lo + e.base_hi * 2 ^ 16

-- A present kernel-mode interrupt gate in the code segment that leads to `base`.
abbrev pub LeadsTo : ℕ → IdtEntry → Type 0
LeadsTo base e = (target e ≡ base) × (e.sel ≡ 0x08) × (e.flags ≡ 0x8e) × (e.always0 ≡ 0)

idt_set_gate_self :
    (s : Interrupts) (num base : ℕ)
    → base < 2 ^ 32
    → LeadsTo base ((idt_set_gate s num base 0x08 0x8e).entries num)
unfolding idt_set_gate target
idt_set_gate_self s num base small =
    let self : (num == num) ≡ true = ground arith in
    rw self (omega (arith, bit_and-mask 16 base, bit_and-mask 16 (base / 2 ^ 16)), refl, refl, refl)

idt_set_gate-other :
    (s : Interrupts) (num base i : ℕ)
    → i ≢ num
    → (idt_set_gate s num base 0x08 0x8e).entries i ≡ s.entries i
unfolding idt_set_gate
idt_set_gate-other s num base i ne = ground arith

set_gates-other :
    (count : ℕ) (stub : ℕ → ℕ) (s : Interrupts) (num j i : ℕ)
    → (i < num) ⊎ (num + count ≤ i)
    → (set_gates count stub s num j).entries i ≡ s.entries i
unfolding set_gates
set_gates-other zero stub s num j i out = refl
set_gates-other (suc count) stub s num j i out =
    set_gates-other count stub (idt_set_gate s num (stub j) 0x08 0x8e) (num + 1) (j + 1) i
      (omega arith)
    ∙ idt_set_gate-other s num (stub j) i (omega arith)

set_gates-LeadsTo :
    (count : ℕ) (stub : ℕ → ℕ) (s : Interrupts) (num j k : ℕ)
    → ((i : ℕ) → stub i < 2 ^ 32)
    → k < count
    → LeadsTo (stub (j + k)) ((set_gates count stub s num j).entries (num + k))
unfolding set_gates
set_gates-LeadsTo zero stub s num j k small lt = absurd (omega arith)
set_gates-LeadsTo (suc count) stub s num j zero small lt =
    let t = idt_set_gate s num (stub j) 0x08 0x8e in
    let kept : (set_gates count stub t (num + 1) (j + 1)).entries num ≡ t.entries num =
      set_gates-other count stub t (num + 1) (j + 1) num (omega arith) in
    let here : num ≡ num + 0 = omega arith in
    let first : j ≡ j + 0 = omega arith in
    subst (λ p. LeadsTo (stub p) ((set_gates count stub t (num + 1) (j + 1)).entries (num + 0)))
      first
      (subst (λ n. LeadsTo (stub j) ((set_gates count stub t (num + 1) (j + 1)).entries n)) here
        (subst (LeadsTo (stub j)) (sym kept) (idt_set_gate_self s num (stub j) (small j))))
set_gates-LeadsTo (suc count) stub s num j (suc k) small lt =
    let t = idt_set_gate s num (stub j) 0x08 0x8e in
    let g = set_gates count stub t (num + 1) (j + 1) in
    let place : num + 1 + k ≡ num + suc k = omega arith in
    let from : j + 1 + k ≡ j + suc k = omega arith in
    subst (λ p. LeadsTo (stub p) (g.entries (num + suc k))) from
      (subst (λ n. LeadsTo (stub (j + 1 + k)) (g.entries n)) place
        (set_gates-LeadsTo count stub t (num + 1) (j + 1) k small (omega arith)))

-- What `init_idt` leaves: each of the stubs 0 to 31, of the request stubs 32 to 47 and stub 255 has its
-- gate, the other gates are blank, and no interrupt has a handler.
pub record IsReady (isr irq : ℕ → ℕ) (isr255 : ℕ) (s : Interrupts) : Type 0 where
  pub faults : (i : ℕ) → i < 32 → LeadsTo (isr i) (s.entries i)
  pub requests : (i : ℕ) → i < 16 → LeadsTo (irq i) (s.entries (32 + i))
  pub system_call : LeadsTo isr255 (s.entries 255)
  pub others : (i : ℕ) → 48 ≤ i → i < 255 → s.entries i ≡ blank_entry
  pub unhandled : (i : ℕ) → i < 256 → s.handlers i ≡ null

set_gates-handlers :
    (count : ℕ) (stub : ℕ → ℕ) (s : Interrupts) (num j : ℕ)
    → (set_gates count stub s num j).handlers ≡ s.handlers
unfolding set_gates idt_set_gate
set_gates-handlers zero stub s num j = refl
set_gates-handlers (suc count) stub s num j =
    set_gates-handlers count stub (idt_set_gate s num (stub j) 0x08 0x8e) (num + 1) (j + 1)

idt_set_gate-handlers :
    (s : Interrupts) (num base : ℕ) → (idt_set_gate s num base 0x08 0x8e).handlers ≡ s.handlers
unfolding idt_set_gate
idt_set_gate-handlers s num base = refl

module _ (isr irq : ℕ → ℕ) (isr255 : ℕ) where
  gates-IsReady :
      (c : Interrupts)
      → ((i : ℕ) → isr i < 2 ^ 32)
      → ((i : ℕ) → irq i < 2 ^ 32)
      → isr255 < 2 ^ 32
      → ((i : ℕ) → i < 256 → (c.entries i ≡ blank_entry) × (c.handlers i ≡ null))
      → IsReady isr irq isr255
          (idt_set_gate (set_gates 16 irq (set_gates 32 isr c 0 0) 32 0) 255 isr255 0x08 0x8e)
  gates-IsReady c small_isr small_irq small blank =
      let f = set_gates 32 isr c 0 0 in
      let r = set_gates 16 irq f 32 0 in
      record {
        faults = λ i lt.
            subst (LeadsTo (isr i))
              (sym (
                idt_set_gate-other r 255 isr255 i (omega arith)
                ∙ set_gates-other 16 irq f 32 0 i (omega arith)))
              (moved i (set_gates-LeadsTo 32 isr c 0 0 i small_isr lt));
        requests = λ i lt.
            subst (LeadsTo (irq i)) (sym (idt_set_gate-other r 255 isr255 (32 + i) (omega arith)))
              (started _ i (set_gates-LeadsTo 16 irq f 32 0 i small_irq lt));
        system_call = idt_set_gate_self r 255 isr255 small;
        others = λ i low high.
            idt_set_gate-other r 255 isr255 i (omega arith)
            ∙ set_gates-other 16 irq f 32 0 i (omega arith)
            ∙ set_gates-other 32 isr c 0 0 i (omega arith)
            ∙ (blank i (omega arith)).0;
        unhandled = λ i lt.
            ap (λ g. g i)
              (idt_set_gate-handlers r 255 isr255
                ∙ set_gates-handlers 16 irq f 32 0
                ∙ set_gates-handlers 32 isr c 0 0)
            ∙ (blank i lt).1;
      }
    where
      started : (e : IdtEntry) (i : ℕ) → LeadsTo (irq (0 + i)) e → LeadsTo (irq i) e
      started e i =
          let same : 0 + i ≡ i = omega arith in
          subst (λ n. LeadsTo (irq (0 + i)) e → LeadsTo (irq n) e) same (λ h. h)

      moved :
          (i : ℕ)
          → LeadsTo (isr (0 + i)) ((set_gates 32 isr c 0 0).entries (0 + i))
          → LeadsTo (isr i) ((set_gates 32 isr c 0 0).entries i)
      moved i =
          let same : 0 + i ≡ i = omega arith in
          subst
            (λ n.
              LeadsTo (isr (0 + i)) ((set_gates 32 isr c 0 0).entries (0 + i))
              → LeadsTo (isr n) ((set_gates 32 isr c 0 0).entries n))
            same (λ h. h)

  -- If the stubs have 32-bit addresses, after `init_idt` the gates 0 to 47 and 255 lead to their
  -- stubs, the other gates are blank, and no interrupt has a handler.
  pub init_idt-IsReady :
      (address : ℕ) (s : Interrupts)
      → ((i : ℕ) → isr i < 2 ^ 32)
      → ((i : ℕ) → irq i < 2 ^ 32)
      → isr255 < 2 ^ 32
      → IsReady isr irq isr255 (init_idt isr irq isr255 address s)
  unfolding init_idt
  init_idt-IsReady address s small_isr small_irq small =
      gates-IsReady _ small_isr small_irq small (λ i lt. (ground arith, ground arith))
