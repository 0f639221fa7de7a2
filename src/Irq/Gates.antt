-- ===== src/Irq/Gates.antt =====
-- arch/X86_64/interrupts/interrupts.c: the interrupt descriptor table. The addresses of the handlers
-- are a parameter.
use Prim.Native.Nat.{bit_and}
use synos.Prelude.{ℕ, zero, suc, ◌+◌, ◌/◌, ◌^◌, ◌==◌, if◌then◌else◌, update, List, [], ◌∷◌}

-- `struct IDT_Entry`
pub record IdtEntry : Type 0 where
  pub offset_1 : ℕ
  pub selector : ℕ
  pub zero0 : ℕ
  pub type_attr : ℕ
  pub offset_2 : ℕ
  pub offset_3 : ℕ
  pub zero1 : ℕ

abbrev pub Idt : Type 0
Idt = ℕ → IdtEntry

-- INT_GATE_FAULT, INT_GATE_INTERRUPT and INT_GATE_ABORT.
abbrev pub int_gate_fault : ℕ
int_gate_fault = 0x8E

abbrev pub int_gate_trap : ℕ
int_gate_trap = 0x8F

-- IRQ_start
abbrev pub irq_start : ℕ
irq_start = 100

unfoldable pub idt_entry : ℕ → ℕ → IdtEntry
idt_entry address attributes = record {
  offset_1 = bit_and address 0xFFFF;
  offset_2 = bit_and address 0xFFFF0000 / 2 ^ 16;
  offset_3 = bit_and address 0xFFFF00000000 / 2 ^ 32;
  selector = 8;
  type_attr = attributes;
  zero0 = 0;
  zero1 = 0;
}

unfoldable pub idt_set : ℕ → ℕ → ℕ → Idt → Idt
unfolding idt_entry
idt_set index address attributes idt = update idt index (idt_entry address attributes)

-- `exc_<n>`, `irq_<n>`, `syscall_fn` and `isr_spurious`, and where the table `IDT` stands.
pub record Handlers : Type 0 where
  pub exc : ℕ → ℕ
  pub irq : ℕ → ℕ
  pub syscall_fn : ℕ
  pub isr_spurious : ℕ
  pub table : ℕ

-- The attribute of the gate of an exception.
unfoldable pub exception_attr : ℕ → ℕ
exception_attr n =
    if n == 1 then int_gate_trap else if n == 3 then int_gate_trap else int_gate_fault

-- `idt_set` for the exceptions of a list, in its order.
unfoldable pub map_exceptions : Handlers → List ℕ → Idt → Idt
unfolding idt_set exception_attr
map_exceptions h [] idt = idt
map_exceptions h (n ∷ ns) idt = map_exceptions h ns (idt_set n (h.exc n) (exception_attr n) idt)

-- `idt_set` for the first `n` IRQs.
unfoldable pub map_irqs : Handlers → ℕ → Idt → Idt
unfolding idt_set
map_irqs h zero idt = idt
map_irqs h (suc n) idt = idt_set (irq_start + n) (h.irq n) int_gate_fault (map_irqs h n idt)

-- The exceptions that have a handler.
abbrev pub exceptions : List ℕ
exceptions =
    0 ∷ 1 ∷ 2 ∷ 3 ∷ 4 ∷ 5 ∷ 6 ∷ 7 ∷ 8 ∷ 9 ∷ 10 ∷ 11 ∷ 12 ∷ 13 ∷ 14 ∷ 16 ∷ 17 ∷ 18 ∷ 19 ∷ 20 ∷ 30
    ∷ []

unfoldable pub idt_map : Handlers → ℕ → Idt → Idt
unfolding map_exceptions map_irqs idt_set
idt_map h syscall_isr idt =
    idt_set syscall_isr h.syscall_fn int_gate_fault
      (map_irqs h 16 (map_exceptions h exceptions idt))
