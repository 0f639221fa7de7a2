-- ===== src/Irq/Control.antt =====
-- arch/X86_64/interrupts/irq.c: the calls that go to the controller in use, built with APIC_ENABLE.
use Prim.Native.Nat.{bit_and, bit_or}
use synos.Prelude.{ℕ, ◌+◌, Option, none, some, Bool, ◌&&◌, ltb, leb, if◌then◌else◌}
use synos.Io.{Trace, Device, outb, inb}
use synos.Irq.Pic.{
  Pic, Ended, returned, pic_configure, pic_soi, pic_eoi, pic_irq_save, pic_irq_kill,
  pic_irq_restore,
}
use synos.Irq.Gates.{Handlers, irq_start, idt_map}
use synos.Irq.Apic.{Interrupts, apic_configure, apic_eoi, apic_disable}

-- `enum IRQ_CONTROLLERS` and the numbers that name none of them.
pub data Controller : Type 0 where
  pic : Controller
  apic : Controller
  invalid : Controller

-- IC_Controller
abbrev pub ic_controller : Controller
ic_controller = pic

-- `x64ID.APIC`, and the low words of the registers of the processor.
pub record Processor : Type 0 where
  pub has_apic : Bool
  pub msr_low : Trace → ℕ → ℕ

-- `PIC_Configure` with its test for the APIC.
unfoldable pub pic_configure_checked : Processor → Device → ℕ → ℕ → Pic → Pic
unfolding apic_disable
pic_configure_checked processor device offset1 offset2 p =
    pic_configure device offset1 offset2 (
      if processor.has_apic then record p { trace = apic_disable processor.msr_low p.trace } else p)

-- `none` in each of these: the panic on a controller that is none.
unfoldable pub ic_configure :
    Processor → Device → Handlers → Controller → Interrupts → Option Interrupts
unfolding pic_configure_checked apic_configure
ic_configure processor device h pic s =
    some (record s { pic = pic_configure_checked processor device irq_start (irq_start + 8) s.pic })
ic_configure processor device h apic s = some (apic_configure h s)
ic_configure processor device h invalid s = none

unfoldable pub ic_soi : Device → Controller → ℕ → Pic → Option Ended
unfolding pic_soi
ic_soi device pic irq p = some (pic_soi device irq p)
ic_soi device apic irq p = some (returned p)
ic_soi device invalid irq p = none

unfoldable pub ic_eoi : Controller → ℕ → Pic → Option Pic
unfolding pic_eoi apic_eoi
ic_eoi pic irq p = some (pic_eoi irq p)
ic_eoi apic irq p = some (record p { trace = apic_eoi p.trace })
ic_eoi invalid irq p = none

unfoldable pub irq_save : Device → Controller → Pic → Option Pic
unfolding pic_irq_save
irq_save device pic p = some (pic_irq_save device p)
irq_save device apic p = some p
irq_save device invalid p = none

unfoldable pub irq_kill : Controller → Pic → Option Pic
unfolding pic_irq_kill
irq_kill pic p = some (pic_irq_kill p)
irq_kill apic p = some p
irq_kill invalid p = none

unfoldable pub irq_restore : Controller → Pic → Option Pic
unfolding pic_irq_restore
irq_restore pic p = some (pic_irq_restore p)
irq_restore apic p = some p
irq_restore invalid p = none

-- `serial_init` of serial.c.
unfoldable pub serial_init : Trace → Trace
serial_init t =
    let com1 : ℕ = 0x3F8 in
    outb (com1 + 4) 0x0B (
      outb (com1 + 2) 0xC7 (
        outb (com1 + 3) 0x03
          (outb (com1 + 1) 0x00 (outb com1 0x03 (outb (com1 + 3) 0x80 (outb (com1 + 1) 0x00 t))))))

-- `serial_received` and `read_serial`
unfoldable pub serial_received : Device → Trace → ℕ × Trace
serial_received device t = let (b, t1) = inb device 0x3FD t in (bit_and b 1, t1)

unfoldable pub read_serial : Device → Trace → ℕ × Trace
read_serial device t = inb device 0x3F8 t

-- `nmi_disable` of arch/X86_64/cmos.c.
unfoldable pub nmi_disable : Device → Trace → Trace
nmi_disable device t = let (b, t1) = inb device 0x70 t in outb 0x70 (bit_or b 0x80) t1

-- How `interrupt_init` ends.
pub data Started : Type 0 where
  -- `panic("Syscall ISR in conflict with IRQ values")`
  irq_conflict : Started
  -- `panic("Conflict between syscall_isr value and exception")`
  exception_conflict : Started
  -- The panic of `IC_Configure`.
  no_controller : Started
  started : Interrupts → Started

unfoldable pub interrupt_setup : Processor → Device → Handlers → ℕ → Interrupts → Started
unfolding idt_map ic_configure serial_init
interrupt_setup processor device h syscall_isr s =
    elim (ic_configure processor device h ic_controller
      (record s { idt = idt_map h syscall_isr s.idt })) [
        | none ↦ no_controller
        | some s' ↦ started (record s' {
          pic = record s'.pic { trace = serial_init s'.pic.trace };
          idtr_limit = 0x1000;
          idtr_offset = h.table;
        })
      ]

-- Less the load of `IDTR` into the processor.
unfoldable pub interrupt_init : Processor → Device → Handlers → ℕ → Interrupts → Started
unfolding nmi_disable
interrupt_init processor device h syscall_isr s =
    let quiet = record s { pic = record s.pic { trace = nmi_disable device s.pic.trace } } in
    if leb irq_start syscall_isr && ltb syscall_isr (irq_start + 16)
    then irq_conflict
    else if leb syscall_isr 31
    then exception_conflict
    else interrupt_setup processor device h syscall_isr quiet
