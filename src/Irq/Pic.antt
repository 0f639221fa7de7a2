-- ===== src/Irq/Pic.antt =====
-- arch/X86_64/interrupts/pic.c: the two 8259 controllers.
use Prim.Native.Nat.{bit_and, bit_or}
use synos.Prelude.{ℕ, ◌+◌, ◌*◌, ◌^◌, ◌%◌, ◌&&◌, not, leb, ◌==◌, if◌then◌else◌, add64}
use synos.Io.{Trace, Device, outb, inb, io_wait}

abbrev pub pic1_command : ℕ
pic1_command = 0x20

abbrev pub pic1_data : ℕ
pic1_data = pic1_command + 1

abbrev pub pic2_command : ℕ
pic2_command = 0xA0

abbrev pub pic2_data : ℕ
pic2_data = pic2_command + 1

-- The globals of the file, and the accesses so far.
pub record Pic : Type 0 where
  pub irq_spurious : ℕ
  pub irq1 : ℕ
  pub irq2 : ℕ
  pub trace : Trace

-- A write followed by `io_wait`.
abbrev pub out_wait : ℕ → ℕ → Trace → Trace
out_wait port value t = io_wait (outb port value t)

-- The four initialization words of the two controllers.
unfoldable pub initialization_words : ℕ → ℕ → Trace → Trace
initialization_words offset1 offset2 t =
    let t1 = out_wait pic2_command 0x11 (out_wait pic1_command 0x11 t) in
    let t2 = out_wait pic2_data offset2 (out_wait pic1_data offset1 t1) in
    let t3 = out_wait pic2_data 2 (out_wait pic1_data 4 t2) in
    out_wait pic2_data 1 (out_wait pic1_data 1 t3)

-- Past the test for the APIC.
unfoldable pub pic_configure : Device → ℕ → ℕ → Pic → Pic
unfolding initialization_words
pic_configure device offset1 offset2 p =
    let (a1, t1) = inb device pic1_data p.trace in
    let (a2, t2) = inb device pic2_data t1 in
    record p {
      trace = outb pic2_data a2 (outb pic1_data a1 (initialization_words offset1 offset2 t2));
    }

-- `_pic_read`. The slave is read first; the order of the operands of `|` is left to the compiler.
unfoldable pub pic_read : Device → ℕ → Trace → ℕ × Trace
pic_read device ocw3 t =
    let (high, t1) = inb device pic2_command (outb pic2_command ocw3 (outb pic1_command ocw3 t)) in
    let (low, t2) = inb device pic1_command t1 in (bit_or (high * 2 ^ 8) low % 2 ^ 16, t2)

unfoldable pub pic_isr : Device → Trace → ℕ × Trace
unfolding pic_read
pic_isr device t = pic_read device 0x0B t

abbrev pub isr_master : ℕ → ℕ
isr_master isr = bit_and isr 0xFF

abbrev pub isr_slave : ℕ → ℕ
isr_slave isr = bit_and isr 0xFF00

-- How a function that may execute `iretq` ends.
pub data Ended : Type 0 where
  -- It returns to its caller.
  returned : Pic → Ended
  -- It leaves the interrupt.
  left_interrupt : Pic → Ended

unfoldable pub count_spurious : Pic → Pic
count_spurious p = record p { irq_spurious = add64 p.irq_spurious 1 }

unfoldable pub pic_soi : Device → ℕ → Pic → Ended
unfolding pic_isr count_spurious
pic_soi device irq p =
    let (isr, t) = pic_isr device p.trace in
    let read : Pic = record p { trace = t } in
    let spurious = count_spurious read in
    if not (irq == 7) && not (irq == 15)
    then returned p
    else if irq == 7 && not (isr_master isr == 7)
    then left_interrupt spurious
    else if irq == 15 && not (isr_slave isr == 15)
    then left_interrupt (record spurious { trace = outb pic1_command 0x20 t })
    else returned read

unfoldable pub pic_eoi : ℕ → Pic → Pic
pic_eoi irq p = record p {
  trace = outb pic1_command 0x20 (if leb 8 irq then outb pic2_command 0x20 p.trace else p.trace);
}

unfoldable pub pic_irq_save : Device → Pic → Pic
pic_irq_save device p =
    let (irq1, t1) = inb device pic1_data p.trace in
    let (irq2, t2) = inb device pic2_data t1 in record p { irq1 = irq1; irq2 = irq2; trace = t2 }

unfoldable pub pic_irq_kill : Pic → Pic
pic_irq_kill p = record p { trace = outb pic2_data 0xFF (outb pic1_data 0xFF p.trace) }

unfoldable pub pic_irq_restore : Pic → Pic
pic_irq_restore p = record p { trace = outb pic2_data p.irq2 (outb pic1_data p.irq1 p.trace) }

unfoldable pub pic_disable : Pic → Pic
unfolding pic_irq_kill
pic_disable p = pic_irq_kill p
