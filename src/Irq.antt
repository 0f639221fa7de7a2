-- ===== src/Irq.antt =====
-- arch/X86_64/interrupts: the interrupt controllers.
pub mod Gates
pub mod Pic
pub mod Apic
pub mod Control
pub mod Vectors
pub mod Spurious
pub mod Masks
mod Tests
