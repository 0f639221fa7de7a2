-- ===== src/Irq/Apic.antt =====
-- arch/X86_64/interrupts/apic.c: the local APIC.
use Prim.Native.Nat.{bit_and, bit_or}
use synos.Prelude.{ℕ, ◌+◌, ◌-◌, ◌^◌, ◌∷◌}
use synos.Io.{Trace, store, write_msr, read_msr}
use synos.Irq.Pic.{Pic, pic_disable}
use synos.Irq.Gates.{Idt, Handlers, idt_set, int_gate_fault}

abbrev pub apic_base : ℕ
apic_base = 0x1000

abbrev pub irq_spurious_vector : ℕ
irq_spurious_vector = 0xFF

abbrev pub base_msr : ℕ
base_msr = 0x1B

abbrev pub base_msr_enable : ℕ
base_msr_enable = 0x800

unfoldable pub set_apic_base : ℕ → Trace → Trace
set_apic_base apic t = write_msr base_msr (bit_or (bit_and apic 0xFFFFF000) base_msr_enable) 0 ∷ t

-- What the interrupts consist of: the table of gates, the controllers, and `IDTR`.
pub record Interrupts : Type 0 where
  pub idt : Idt
  pub pic : Pic
  pub idtr_limit : ℕ
  pub idtr_offset : ℕ

unfoldable pub apic_spurious_set : Handlers → Interrupts → Interrupts
unfolding idt_set
apic_spurious_set h s = record s {
  idt = idt_set irq_spurious_vector h.isr_spurious int_gate_fault s.idt;
  pic = record s.pic {
    trace =
        store (apic_base + 0xF0) (bit_or (bit_or irq_spurious_vector (2 ^ 8)) (2 ^ 12))
        ∷ s.pic.trace;
  };
}

unfoldable pub apic_configure : Handlers → Interrupts → Interrupts
unfolding pic_disable set_apic_base apic_spurious_set
apic_configure h s =
    let masked = pic_disable s.pic in
    apic_spurious_set h
      (record s { pic = record masked { trace = set_apic_base apic_base masked.trace } })

unfoldable pub apic_eoi : Trace → Trace
apic_eoi t = store (apic_base + 0xB0) 0 ∷ t

-- `msr_low` is what the low word of a register of the processor holds.
unfoldable pub apic_disable : (Trace → ℕ → ℕ) → Trace → Trace
apic_disable msr_low t =
    write_msr base_msr (bit_and (msr_low t base_msr) (2 ^ 32 - 1 - 2 ^ 11)) 0
    ∷ read_msr base_msr
    ∷ t
