-- ===== src/Io.antt =====
-- arch/include/synos/arch/io.h: the accesses to the ports of devices, which assembly performs, as a
-- trace. What a device answers may depend on everything that was done before.
use synos.Prelude.{ℕ, List, ◌∷◌}

pub data Access : Type 0 where
  -- `outb(port, value)`
  output : (port value : ℕ) → Access
  -- `inb(port)`
  input : (port : ℕ) → Access
  -- `io_wait()`
  wait : Access
  -- A word written into a device's memory.
  store : (address value : ℕ) → Access
  -- `wrmsr` with the low and the high word, and `rdmsr`.
  write_msr : (msr low high : ℕ) → Access
  read_msr : (msr : ℕ) → Access

-- The accesses so far, the last one first.
abbrev pub Trace : Type 0
Trace = List Access

-- What a port answers after the accesses so far.
abbrev pub Device : Type 0
Device = Trace → ℕ → ℕ

abbrev pub outb : ℕ → ℕ → Trace → Trace
outb port value t = output port value ∷ t

abbrev pub inb : Device → ℕ → Trace → ℕ × Trace
inb device port t = (device t port, input port ∷ t)

abbrev pub io_wait : Trace → Trace
io_wait t = wait ∷ t
