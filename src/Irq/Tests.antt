-- ===== src/Irq/Tests.antt =====
-- The theorems on the interrupt controllers and gates, applied to controllers that answer like those of
-- a machine after its start.
use synos.Prelude.{ℕ, ◌+◌, ◌≤◌, ◌≡◌, ◌≢◌, refl, true, false, [], ◌==◌, if◌then◌else◌, ◌%◌, ◌⊎◌}
use synos.Io.{Device, outb}
use synos.Irq.Gates.{Handlers}
use synos.Irq.Pic.{
  Pic, returned, left_interrupt, pic1_command, pic2_command, pic1_data, pic2_data, pic_isr, pic_soi,
  count_spurious, pic_irq_save, pic_irq_kill, pic_irq_restore,
}
use synos.Irq.Apic.{Interrupts}
use synos.Irq.Control.{Processor, interrupt_init, irq_conflict, exception_conflict}
use synos.Irq.Spurious.{in_service, asked, pic_soi-Spurious}
use synos.Irq.Masks.{Chip, Answers, chip, pic_irq_restore-pic_irq_save}
use synos.Irq.Vectors.{accepted, Ready, interrupt_init-Ready}

abbrev idle : Chip
idle = record { expects = 0; vector = 8; cascade = 4; mode = 1; masked = 0xB8 }

-- The data ports answer the masks, the command ports the highest bit.
abbrev machine : Device
machine t port =
    if port == pic1_data
    then (chip pic1_command idle t).masked
    else if port == pic2_data
    then (chip pic2_command idle t).masked
    else 0x80

machine-Answers : Answers machine idle idle
machine-Answers = record { master = λ t. refl; slave = λ t. refl }

abbrev at_start : Pic
at_start = record { irq_spurious = 0; irq1 = 0; irq2 = 0; trace = [] }

pic_soi-Spurious_example :
    (pic_soi machine 15 at_start
      ≡ left_interrupt (record (count_spurious (asked machine at_start)) {
        trace = outb pic1_command 0x20 (pic_isr machine []).1;
      }))
    × (in_service machine at_start % 256 ≡ 7
        → pic_soi machine 7 at_start ≡ returned (asked machine at_start))
    × (128 ≤ in_service machine at_start % 256
        → pic_soi machine 7 at_start ≡ left_interrupt (count_spurious (asked machine at_start)))
    × ((irq : ℕ) → irq ≢ 7 → irq ≢ 15 → pic_soi machine irq at_start ≡ returned at_start)
pic_soi-Spurious_example = pic_soi-Spurious machine at_start

pic_irq_restore-pic_irq_save_example :
    ((chip pic1_command idle (pic_irq_kill (pic_irq_save machine at_start)).trace).masked ≡ 255)
    × ((chip pic2_command idle (pic_irq_kill (pic_irq_save machine at_start)).trace).masked ≡ 255)
    × (chip pic1_command idle (pic_irq_restore (pic_irq_kill (pic_irq_save machine at_start))).trace
        ≡ chip pic1_command idle [])
    × (chip pic2_command idle (pic_irq_restore (pic_irq_kill (pic_irq_save machine at_start))).trace
        ≡ chip pic2_command idle [])
unfolding chip
pic_irq_restore-pic_irq_save_example =
    pic_irq_restore-pic_irq_save machine idle idle machine-Answers at_start refl refl

abbrev handlers : Handlers
handlers = record {
  exc = λ n. 0x100000 + n;
  irq = λ n. 0x100100 + n;
  syscall_fn = 0x100200;
  isr_spurious = 0x100300;
  table = 0x110000;
}

abbrev blank : Interrupts
blank = record {
  idt = λ v. record {
    offset_1 = 0;
    selector = 0;
    zero0 = 0;
    type_attr = 0;
    offset_2 = 0;
    offset_3 = 0;
    zero1 = 0;
  };
  pic = at_start;
  idtr_limit = 0;
  idtr_offset = 0;
}

abbrev plain : Processor
plain = record { has_apic = true; msr_low = λ t msr. 0xFEE00900 }

interrupt_init-Ready_example :
    (accepted 0x80 ≡ true
      → Ready handlers 0x80 blank (interrupt_init plain machine handlers 0x80 blank))
    × (accepted 0x80 ≡ false
        → (interrupt_init plain machine handlers 0x80 blank ≡ irq_conflict)
          ⊎ (interrupt_init plain machine handlers 0x80 blank ≡ exception_conflict))
interrupt_init-Ready_example = interrupt_init-Ready plain machine handlers 0x80 blank
