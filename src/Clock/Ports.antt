-- ===== src/Clock/Ports.antt =====
-- arch/X86_64/cmos.c: the clock as it is read and set up through its ports.
use Prim.Native.Nat.{bit_and, bit_or}
use synos.Prelude.{ℕ, zero, suc, Bool, ◌==◌, if◌then◌else◌, Option, none, some}
use synos.Io.{Trace, Device, outb, inb}
use synos.Clock.{Time, arch_time_init, ms_update}

-- CMOS_REG_PORT and CMOS_RW_PORT
abbrev pub cmos_reg_port : ℕ
cmos_reg_port = 0x70

abbrev pub cmos_rw_port : ℕ
cmos_rw_port = 0x71

abbrev pub cmos_read : Device → ℕ → ℕ → Trace → ℕ × Trace
cmos_read device nmi_state reg t =
    inb device cmos_rw_port (outb cmos_reg_port (bit_or reg nmi_state) t)

abbrev pub cmos_write : ℕ → ℕ → ℕ → Trace → Trace
cmos_write nmi_state reg value t =
    outb cmos_rw_port value (outb cmos_reg_port (bit_or reg nmi_state) t)

-- `irqCount`, whether interrupts are enabled, and the accesses so far.
pub record Rtc : Type 0 where
  pub irq_count : ℕ
  pub interrupts : Bool
  pub trace : Trace

-- Register B gets bit 6 and register A the rate; the read of register C ends it. Interrupts are
-- disabled in between and enabled again when they were.
unfoldable pub rtc_irq_init : Device → ℕ → Rtc → Rtc
rtc_irq_init device nmi_state r =
    let (b, t1) = inb device cmos_rw_port (outb cmos_reg_port 0x8B r.trace) in
    let t2 = outb cmos_rw_port (bit_or b 0x40) (outb cmos_reg_port 0x8B t1) in
    let (a, t3) = inb device cmos_rw_port (outb cmos_reg_port 0x8A t2) in
    let t4 = outb cmos_rw_port (bit_or (bit_and a 0xF0) 3) (outb cmos_reg_port 0x8A t3) in
    let (c, t5) = inb device cmos_rw_port (outb cmos_reg_port (bit_or 0x0C nmi_state) t4) in
    record { irq_count = 0; interrupts = r.interrupts; trace = t5 }

-- `while (cmos_read(CMOS_STATUS_A) & 0x80);` with a number of turns.
unfoldable pub wait_update : ℕ → Device → ℕ → Trace → Option Trace
wait_update zero device nmi_state t = none
wait_update (suc turns) device nmi_state t =
    let (a, t') = cmos_read device nmi_state 0x0A t in
    let rest = wait_update turns device nmi_state t' in
    if bit_and a 0x80 == 0 then some t' else rest

-- The reads of `arch_time_init`, in their order.
unfoldable pub read_time : Device → ℕ → Trace → Time × Trace
read_time device nmi_state t =
    let (seconds, t1) = cmos_read device nmi_state 0x00 t in
    let (minutes, t2) = cmos_read device nmi_state 0x02 t1 in
    let (hours, t3) = cmos_read device nmi_state 0x04 t2 in
    let (day, t4) = cmos_read device nmi_state 0x07 t3 in
    let (month, t5) = cmos_read device nmi_state 0x08 t4 in
    let (year, t6) = cmos_read device nmi_state 0x09 t5 in
    (arch_time_init seconds minutes hours day month year, t6)

-- `arch_time_init` with its ports, less the message at its end, which is with `ktime_init`: `nmi_state`,
-- the time and the state of the interrupts.
unfoldable pub time_init : ℕ → Device → Rtc → Option (ℕ × Time × Rtc)
unfolding wait_update read_time rtc_irq_init
time_init turns device r =
    let (held, t) = inb device cmos_reg_port r.trace in
    let nmi_state = bit_and held 0x80 in
    elim (wait_update turns device nmi_state t) [
      | none ↦ none
      | some t1 ↦
          let (time, t2) = read_time device nmi_state t1 in
          some (nmi_state, time, rtc_irq_init device nmi_state (record r { trace = t2 }))
    ]

unfoldable pub nmi_enable : Device → Trace → Trace
nmi_enable device t =
    let (b, t1) = inb device cmos_reg_port t in outb cmos_reg_port (bit_and b 0x7F) t1

-- `ms_update` with the read of register C that ends it.
unfoldable pub tick_done : Device → ℕ → ℕ → Time → Trace → ℕ × Time × Trace
tick_done device nmi_state irq_count t trace =
    let (irq_count', t') = ms_update irq_count t in
    let (c, trace') = cmos_read device nmi_state 0x0C trace in (irq_count', t', trace')
