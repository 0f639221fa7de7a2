-- ===== src/Irq/Vectors.antt =====
-- arch/X86_64/interrupts/interrupts.c: which handler a vector leads to after `idt_map`, and when
-- `interrupt_init` goes through.
use synos.Prelude.{
  ℕ, zero, suc, ◌+◌, ◌-◌, ◌*◌, ◌%◌, ◌^◌, ◌≤◌, ◌<◌, ◌≡◌, ◌≢◌, refl, sym, ◌∙◌, Bool, true, false,
  ◌&&◌, ◌||◌, ◌⊎◌, inl, inr, ltb, leb, ◌==◌, ==→eq, if◌then◌else◌, Bool-cases, List, [], ◌∷◌, arith,
  mask, bit_and-Masked, ==_refl, ne→==,
}
use synos.Io.{Device}
use synos.Irq.Gates.{
  IdtEntry, Idt, Handlers, int_gate_fault, irq_start, idt_entry, idt_set, exception_attr,
  exceptions, map_exceptions, map_irqs, idt_map,
}
use synos.Irq.Apic.{Interrupts}
use synos.Irq.Pic.{Pic}
use synos.Irq.Control.{
  Processor, Started, irq_conflict, exception_conflict, started, interrupt_init, interrupt_setup,
  ic_configure, nmi_disable, serial_init, pic_configure_checked,
}

-- The address that the processor reads from a gate, less the bits above 48.
abbrev pub gate_address : IdtEntry → ℕ
gate_address e = e.offset_1 + e.offset_2 * 2 ^ 16 + e.offset_3 * 2 ^ 32

-- A gate holds the low 48 bits of the address of its handler.
pub gate_address-idt_entry :
    (address attributes : ℕ) → gate_address (idt_entry address attributes) ≡ address % 2 ^ 48
unfolding idt_entry mask
gate_address-idt_entry address attributes =
    let a = bit_and-Masked 0 16 address in
    let b = bit_and-Masked 16 16 address in
    let c = bit_and-Masked 32 16 address in
    omega (
      arith, a.parts, a.below_lt, a.kept_lt, a.value_eq, b.parts, b.below_lt, b.kept_lt, b.value_eq,
      c.parts, c.below_lt, c.kept_lt, c.value_eq,
    )

pub contains : List ℕ → ℕ → Bool
contains [] v = false
contains (n ∷ ns) v = n == v || contains ns v

-- One gate is written.
idt_set-own :
    (n address attributes : ℕ) (idt : Idt) (v : ℕ)
    → (n == v) ≡ true
    → idt_set n address attributes idt v ≡ idt_entry address attributes
unfolding idt_set
idt_set-own n address attributes idt v e = rw e refl

idt_set-other :
    (n address attributes : ℕ) (idt : Idt) (v : ℕ)
    → (n == v) ≡ false
    → idt_set n address attributes idt v ≡ idt v
unfolding idt_set
idt_set-other n address attributes idt v e = rw e refl

map_exceptions_lem :
    (h : Handlers) (ns : List ℕ) (idt : Idt) (v : ℕ)
    → map_exceptions h ns idt v
      ≡ (if contains ns v then idt_entry (h.exc v) (exception_attr v) else idt v)
unfolding map_exceptions contains
map_exceptions_lem h [] idt v = refl
map_exceptions_lem h (n ∷ ns) idt v = map_exceptions_lem h ns _ v ∙ elim (Bool-cases (n == v)) [
  | inl e ↦
      rw (idt_set-own n (h.exc n) (exception_attr n) idt v e, e, ==→eq _ _ e)
        (elim (Bool-cases (contains ns v)) [ inl c ↦ rw c refl | inr c ↦ rw c refl ])
  | inr e ↦ rw (idt_set-other n (h.exc n) (exception_attr n) idt v e, e) refl
]

pub irq_vector : ℕ → ℕ → Bool
irq_vector n v = leb irq_start v && ltb v (irq_start + n)

map_irqs_lem :
    (h : Handlers) (n : ℕ) (idt : Idt) (v : ℕ)
    → map_irqs h n idt v
      ≡ (if irq_vector n v then idt_entry (h.irq (v - irq_start)) int_gate_fault else idt v)
unfolding map_irqs
map_irqs_lem h zero idt v =
    let out : irq_vector 0 v ≡ false = unfold irq_vector in ground arith in rw out refl
map_irqs_lem h (suc n) idt v = elim (Bool-cases (irq_start + n == v)) [
  | inl e ↦
      let own : irq_vector (suc n) v ≡ true = unfold irq_vector in ground (arith, ==→eq _ _ e) in
      let index : v - irq_start ≡ n = omega (arith, ==→eq _ _ e) in
      idt_set-own (irq_start + n) (h.irq n) int_gate_fault (map_irqs h n idt) v e
      ∙ rw (own, index) refl
  | inr e ↦
      let same : irq_vector (suc n) v ≡ irq_vector n v = unfold irq_vector in ground (arith, e) in
      idt_set-other (irq_start + n) (h.irq n) int_gate_fault (map_irqs h n idt) v e
      ∙ map_irqs_lem h n idt v
      ∙ rw same refl
]

-- What the table shall hold.
abbrev pub vector_entry : Handlers → ℕ → Idt → ℕ → IdtEntry
vector_entry h syscall_isr idt v =
    if syscall_isr == v
    then idt_entry h.syscall_fn int_gate_fault
    else if irq_vector 16 v
    then idt_entry (h.irq (v - irq_start)) int_gate_fault
    else if contains exceptions v
    then idt_entry (h.exc v) (exception_attr v)
    else idt v

-- The table before the gate of the system call.
abbrev mapped : Handlers → Idt → Idt
mapped h idt = map_irqs h 16 (map_exceptions h exceptions idt)

idt_map_lem :
    (h : Handlers) (syscall_isr : ℕ) (idt : Idt) (v : ℕ)
    → idt_map h syscall_isr idt v ≡ vector_entry h syscall_isr idt v
unfolding idt_map
idt_map_lem h syscall_isr idt v = elim (Bool-cases (syscall_isr == v)) [
  | inl e ↦ idt_set-own syscall_isr h.syscall_fn int_gate_fault (mapped h idt) v e ∙ rw e refl
  | inr e ↦
      idt_set-other syscall_isr h.syscall_fn int_gate_fault (mapped h idt) v e
      ∙ map_irqs_lem h 16 (map_exceptions h exceptions idt) v
      ∙ rw e (elim (Bool-cases (irq_vector 16 v)) [
        | inl c ↦ rw c refl
        | inr c ↦ rw c (map_exceptions_lem h exceptions idt v)
      ])
]

-- Each exception with a handler, each IRQ and the system call has a gate of its own, and the other
-- gates are as before.
pub record OwnGates (h : Handlers) (syscall_isr : ℕ) (before idt : Idt) : Type 0 where
  pub exception :
      (v : ℕ) → contains exceptions v ≡ true → idt v ≡ idt_entry (h.exc v) (exception_attr v)
  pub irq : (k : ℕ) → k < 16 → idt (irq_start + k) ≡ idt_entry (h.irq k) int_gate_fault
  pub syscall : idt syscall_isr ≡ idt_entry h.syscall_fn int_gate_fault
  pub other :
      (v : ℕ)
      → contains exceptions v ≡ false
      → v < irq_start ⊎ (irq_start + 16 ≤ v)
      → v ≢ syscall_isr
      → idt v ≡ before v

-- The number for system calls that `interrupt_init` accepts.
abbrev pub accepted : ℕ → Bool
accepted syscall_isr = leb 32 syscall_isr && (ltb syscall_isr 100 || leb 116 syscall_isr)

exceptions_lt : (v : ℕ) → contains exceptions v ≡ true → v < 32
unfolding contains
exceptions_lt v h = ground arith

idt_map-OwnGates :
    (h : Handlers) (syscall_isr : ℕ) (idt : Idt)
    → accepted syscall_isr ≡ true
    → OwnGates h syscall_isr idt (idt_map h syscall_isr idt)
unfolding irq_vector
idt_map-OwnGates h syscall_isr idt ok = record {
  exception = λ v c.
      let no_syscall : (syscall_isr == v) ≡ false = ground (arith, ok, exceptions_lt v c) in
      let no_irq : irq_vector 16 v ≡ false = ground (arith, exceptions_lt v c) in
      idt_map_lem h syscall_isr idt v ∙ rw (no_syscall, no_irq, c) refl;
  irq = λ k lt.
      let no_syscall : (syscall_isr == irq_start + k) ≡ false = ground (arith, ok, lt) in
      let is_irq : irq_vector 16 (irq_start + k) ≡ true = ground (arith, lt) in
      let index : irq_start + k - irq_start ≡ k = omega arith in
      idt_map_lem h syscall_isr idt (irq_start + k) ∙ rw (no_syscall, is_irq, index) refl;
  syscall = idt_map_lem h syscall_isr idt syscall_isr ∙ rw (==_refl syscall_isr) refl;
  other = λ v c out ne.
      let no_syscall : (syscall_isr == v) ≡ false = ne→== syscall_isr v (λ e. ne (sym e)) in
      let no_irq : irq_vector 16 v ≡ false = ground (arith, out) in
      idt_map_lem h syscall_isr idt v ∙ rw (no_syscall, no_irq, c) refl;
}

-- The start-up is through, with the gates written.
pub record Ready (h : Handlers) (syscall_isr : ℕ) (before : Interrupts) (outcome : Started)
    : Type 0 where
  pub after : Interrupts
  pub through : outcome ≡ started after
  pub gates : OwnGates h syscall_isr before.idt after.idt

module _ (processor : Processor) (device : Device) (h : Handlers) (syscall_isr : ℕ)
    (before : Interrupts) where
  -- The controllers afterwards.
  pic_after : Pic
  pic_after =
      let quiet = record before.pic { trace = nmi_disable device before.pic.trace } in
      let p = pic_configure_checked processor device irq_start (irq_start + 8) quiet in
      record p { trace = serial_init p.trace }

  -- `interrupt_init` panics for a number of the system call below 32 or within the IRQs; for every
  -- other number it goes through, and each exception that has a handler, each IRQ and the system
  -- call has a gate of its own, the remaining gates being as before.
  pub interrupt_init-Ready :
      (accepted syscall_isr ≡ true
        → Ready h syscall_isr before (interrupt_init processor device h syscall_isr before))
      × (accepted syscall_isr ≡ false
          → (interrupt_init processor device h syscall_isr before ≡ irq_conflict)
            ⊎ (interrupt_init processor device h syscall_isr before ≡ exception_conflict))
  unfolding interrupt_init interrupt_setup ic_configure pic_after
  interrupt_init-Ready = (
    λ ok.
        let no_irq : (leb irq_start syscall_isr && ltb syscall_isr (irq_start + 16)) ≡ false =
          ground (arith, ok) in
        let no_exception : leb syscall_isr 31 ≡ false = ground (arith, ok) in
        record {
          after = record {
            idt = idt_map h syscall_isr before.idt;
            pic = pic_after;
            idtr_limit = 0x1000;
            idtr_offset = h.table;
          };
          through = rw (no_irq, no_exception) refl;
          gates = idt_map-OwnGates h syscall_isr before.idt ok;
        },
    λ refused. elim (Bool-cases (leb irq_start syscall_isr && ltb syscall_isr (irq_start + 16))) [
      | inl e ↦ inl (rw e refl)
      | inr e ↦
          let low : leb syscall_isr 31 ≡ true = ground (arith, e, refused) in inr (rw (e, low) refl)
    ],
  )
