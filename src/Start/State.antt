-- ===== src/Start/State.antt =====
-- kernel/system.c: the state of the kernel while it starts, its messages and `panic`, with
-- `PrintStackTrace` of arch/X86_64/stack.c.
use Prim.Native.String.{String}
use synos.Prelude.{
  ℕ, suc, ◌+◌, ◌-◌, ◌%◌, ◌^◌, Bool, Option, none, some, List, [], ◌∷◌, if◌then◌else◌, bytes_of,
}
use synos.Page.State.{Region}
use synos.Page.Regions.{Ending, returns, hangs, faults}
use synos.Paging.{Write}
use synos.Paging.Virtual.{Virtual}
use synos.Heap.{Header, MemStack}
use synos.Symbols.{Symbol, trace_name}
use synos.Multiboot.Init.{MbootInfo, BootInfo, MemId}
use synos.Processor.Vendor.{Cpuid, CpuInfo}
use synos.Processor.Gdt.{GdtEntry}
use synos.Screen.{Screen}
use synos.Log.{Log, Arg, number, chars, printk}
use synos.Io.{Device}
use synos.Irq.Gates.{Handlers}
use synos.Irq.Control.{Processor}
use synos.Irq.Apic.{Interrupts}
use synos.Syscall.{SyscallEntry}
use synos.Clock.{Time}

-- `enum Log_Level`
pub data LogLevel : Type 0 where
  fatal : LogLevel
  critical : LogLevel
  error : LogLevel
  warning : LogLevel
  info : LogLevel
  debug : LogLevel

unfoldable pub level_code : LogLevel → ℕ
level_code fatal = 0
level_code critical = 1
level_code error = 2
level_code warning = 3
level_code info = 4
level_code debug = 5

-- `System`, `X64.symbols` and the rest of the boot information, and the states of the components.
-- `iflag` is the processor's interrupt flag.
pub record Kernel : Type 0 where
  pub cpuinfo : CpuInfo
  pub memid : MemId
  pub interrupt_enabled : Bool
  pub mmu_enabled : Bool
  pub iflag : Bool
  pub boot : BootInfo
  pub gdt : ℕ → GdtEntry
  pub virtual : Virtual
  pub heap : List Header
  pub memstack : MemStack
  pub screen : Screen
  pub log : Log
  pub interrupts : Interrupts
  pub syscalls : List SyscallEntry
  pub time : Option Time

-- What the build and the machine give: the texts of the version and KDEBUG, what new memory holds,
-- where the boot loader left what, the answers of the devices and of the processor, the addresses of
-- the handlers, and the number of turns for the searches that the code does not bound. `frames` are
-- the return addresses on the stack.
pub record Machine : Type 0 where
  pub version : String
  pub version_name : String
  pub version_domain : String
  pub kdebug : Bool
  pub loglevel : ℕ
  pub fresh : ℕ → ℕ
  pub frame : ℕ
  pub frames : List ℕ
  pub elf_sym : List Symbol
  pub elf_str : ℕ → ℕ
  pub elf_str_size : ℕ
  pub alloc : ℕ → ℕ → ℕ
  pub held : Region
  pub mbm : ℕ
  pub mbp : ℕ
  pub mboot_info : MbootInfo
  pub tss_addr : ℕ
  pub turns : ℕ
  pub write : Write
  pub pml4 : ℕ
  pub tables : ℕ → ℕ → ℕ
  pub cells : ℕ → ℕ → ℕ
  pub cpuid : Cpuid
  pub processor : Processor
  pub device : Device
  pub handlers : Handlers
  pub syscall_int : ℕ
  pub sc_fnc : ℕ

-- How a part of the start ends: it goes on, the kernel is halted, it waits without end, or it reads
-- through the null pointer or beyond a text.
pub data Run : Type 0 where
  going : Kernel → Run
  halted : Kernel → Run
  waiting : Run
  crashed : Run

infixl 5 ◌>>=◌
abbrev pub ◌>>=◌ : Run → (Kernel → Run) → Run
going k >>= f = f k
halted k >>= f = halted k
waiting >>= f = waiting
crashed >>= f = crashed

abbrev pub of_ending {ℓ} : {A : Type ℓ} → Ending A → (A → Run) → Run
of_ending (returns a) f = f a
of_ending hangs f = waiting
of_ending faults f = crashed

-- The number of bytes of a text.
unfoldable pub text_length : String → ℕ
text_length String.[] = 0
text_length (String.◌∷◌ c s) = suc (text_length s)

-- A text as an argument, with the zero byte behind it.
abbrev pub text : String → Arg
text s = chars (bytes_of s) (suc (text_length s))

-- `printk`; an argument of 64 bits is read as an `unsigned int`.
abbrev pub word : ℕ → Arg
word n = number (n % 2 ^ 32)

unfoldable pub say : Machine → LogLevel → String → List Arg → Kernel → Run
unfolding printk
say m level str args k =
    elim (printk m.fresh m.loglevel m.frame (level_code level) (bytes_of str) (text_length str) args
      k.log) [ none ↦ crashed | some log ↦ going (record k { log = log }) ]

-- The name of the function at an address.
unfoldable pub name_at : Machine → ℕ → Arg
unfolding trace_name
name_at m rip = elim (trace_name rip m.elf_sym) [
  | none ↦ text ""
  | some st_name ↦ chars (λ i. m.elf_str (st_name + i)) (m.elf_str_size - st_name)
]

-- The frames from one on.
unfoldable pub print_frames : Machine → List ℕ → Kernel → Run
unfolding say name_at
print_frames m [] k = going k
print_frames m (rip ∷ frames) k =
    say m fatal "\t0x%X    %s" (word rip ∷ name_at m rip ∷ []) k >>= λ k'. print_frames m frames k'

unfoldable pub print_stack_trace : Machine → Kernel → Run
unfolding say print_frames
print_stack_trace m k =
    let shown = say m fatal "Stack trace (most recent call first):" [] k >>= λ k'.
    print_frames m m.frames k' in
    if m.kdebug then shown else say m debug "\tStack trace not shown (debugging disabled)" [] k

-- `halt`, which does not return.
abbrev pub halt : Kernel → Run
halt k = halted k

unfoldable pub panic : Machine → Arg → Kernel → Run
unfolding say print_stack_trace
panic m message k =
    say m fatal "The system kernel has encountered a panic!" [] k
    >>= (λ k1. say m fatal "Error message: %s" (message ∷ []) k1)
    >>= (λ k2. print_stack_trace m k2)
    >>= (λ k3. say m debug "Suspending all processes..." [] k3)
    >>= (λ k4. say m debug "Shutting down cores..." [] k4)
    >>= (λ k5. say m debug "All cores except core 0 disabled." [] k5)
    >>= (λ k6. say m debug "Process scheduler disabled, core passed to kernel." [] k6)
    >>= (λ k7. say m warning "System suspended" [] k7)
    >>= halt
