-- ===== src/Processor.antt =====
-- arch/X86_64/cpu.c and gdt.c: the identification of the processor, and the descriptor of the task state.
pub mod Vendor
pub mod Gdt
mod Tests
