-- ===== src/Start.antt =====
-- kernel/system.c: `startup`, with `arch_init` of arch/X86_64/arch.c, `mm_init` of kernel/mm.c,
-- `printk_init` of kernel/printk.c and `ktime_init` of kernel/time.c.
pub mod State
pub mod Silent
pub mod Ensures
pub mod Stages
pub mod Order
mod Tests
use Prim.Native.String.{String}
use synos.Prelude.{
  ℕ, ◌+◌, ◌-◌, ◌/◌, Bool, true, false, Option, none, some, List, [], ◌∷◌, if◌then◌else◌, sub64,
  add64,
}
use synos.Page.State.{Region}
use synos.Page.Regions.{Ending, returns, hangs, faults}
use synos.Paging.Virtual.{Virtual, vpage_init}
use synos.Paging.Setup.{ppage_init, change_regions}
use synos.Heap.Pages.{heap_init}
use synos.Multiboot.Init.{BootInfo, mboot_init, get_memid}
use synos.Processor.Vendor.{get_cpuinfo, Manufacturer, unknown}
use synos.Processor.Gdt.{gdt_entry_map}
use synos.Screen.Init.{arch_printk_init}
use synos.Irq.Control.{
  Started, irq_conflict, exception_conflict, no_controller, started, interrupt_init,
}
use synos.Syscall.{syscall_init}
use synos.Clock.{Time}
use synos.Clock.Ports.{Rtc, time_init}
use synos.Start.State.{
  LogLevel, debug, info, warning, Kernel, Machine, Run, going, crashed, waiting, ◌>>=◌, of_ending,
  text, word, say, panic,
}

-- `get_regions`
unfoldable pub get_regions : BootInfo → List Region
get_regions b = elim b.mmap [ none ↦ [] | some (regions, length) ↦ regions ]

unfoldable pub load_sys_detect : Machine → Kernel → Run
unfolding panic
load_sys_detect m k = elim (mboot_init m.alloc m.held m.mbm m.mboot_info k.boot) [
  | none ↦
      panic m
        (text "System booted with invalid load system. Please make sure you boot with multiboot") k
  | some boot ↦ going (record k { boot = boot })
]

-- `initGDT`, less the load of the table into the processor.
unfoldable pub init_gdt : Machine → Kernel → Run
unfolding panic
init_gdt m k = elim (gdt_entry_map m.tss_addr k.gdt) [
  | none ↦ panic m (text "GDT entry index out of range") k
  | some gdt ↦ going (record k { gdt = gdt })
]

-- `initTSS` does nothing.
unfoldable pub arch_init : Machine → Kernel → Run
unfolding load_sys_detect init_gdt
arch_init m k = load_sys_detect m k >>= init_gdt m

unfoldable pub read_memid : Kernel → Run
read_memid k = elim (get_memid k.boot k.memid) [
  | none ↦ crashed
  | some memid ↦ going (record k { memid = memid })
]

-- The heap's first page, in `mm_init`.
unfoldable pub heap_page : Machine → Kernel → Virtual → Run
unfolding panic
heap_page m k v = of_ending (heap_init m.turns m.write v k.memstack) λ found. elim found [
  | none ↦
      panic m (text "No more memory to allocate the kernel heap to!") (record k { virtual = v })
  | some (header, v', memstack) ↦
      going (record k { virtual = v'; heap = header ∷ []; memstack = memstack; mmu_enabled = true })
]

-- The physical pages, in `mm_init`.
unfoldable pub physical_pages : Machine → Kernel → Virtual → Run
unfolding heap_page panic
physical_pages m k v = elim (ppage_init m.turns m.write m.mbp m.tables k.memid.total_size v) [
  | none ↦
      panic m (text "No available memory to allocate initial memory tables!")
        (record k { virtual = v })
  | some ready ↦ of_ending ready (heap_page m k)
]

unfoldable pub mm_init : Machine → Kernel → Run
unfolding physical_pages get_regions
mm_init m k =
    of_ending (vpage_init m.turns m.write m.pml4 k.virtual.memory)
      λ v. physical_pages m k (change_regions (λ r. record r { regions = get_regions k.boot }) v)

-- `logs` is a new array.
unfoldable pub printk_init : Machine → Kernel → Run
unfolding panic
printk_init m k =
    of_ending (arch_printk_init m.turns m.write m.cells k.boot.framebuffer k.screen k.virtual)
      λ found.
        let (done, screen, v) = found in
        let k' = record k { screen = screen; virtual = v } in
        let enabled = going (record k' { log = record k'.log { enabled = true; logs = [] } }) in
        if done then enabled else panic m (text "arch_printk_init could not initialize") k'

unfoldable pub is_unknown : Manufacturer → Bool
is_unknown unknown = true
is_unknown _ = false

-- `getCPUINFO` and the two tests behind it.
unfoldable pub check_cpu : Machine → Kernel → Run
unfolding say panic is_unknown
check_cpu m k =
    let cpu = get_cpuinfo m.cpuid k.cpuinfo in
    let k' = record k { cpuinfo = cpu } in
    let warned =
      say m warning "Couldn't detect CPU vendor! Disabling all vendor specific features." [] k' in
    let named = if is_unknown cpu.vendor then warned else going k' in
    if cpu.enabled then named else panic m (text "CPUID not supported on target system!") k'

-- The message on each region.
unfoldable pub say_regions : Machine → List Region → Kernel → Run
unfolding say
say_regions m [] k = going k
say_regions m (r ∷ rs) k =
    say m debug "\t0x%X-0x%X %u KiB"
      (word r.start ∷ word (sub64 (add64 r.start r.size) 1) ∷ word (r.size / 1024) ∷ []) k
    >>= λ k'. say_regions m rs k'

unfoldable pub say_memory : Machine → Kernel → Run
unfolding say say_regions
say_memory m k =
    say m info "Detected memory: %u sections, %u MiB total"
      (word k.memid.n_entries ∷ word (k.memid.total_size / 1048576) ∷ []) k
    >>= λ k'. say_regions m k'.virtual.memory.regions.regions k'

unfoldable pub interrupts_up : Machine → Kernel → Run
unfolding panic
interrupts_up m k =
    elim (interrupt_init m.processor m.device m.handlers m.syscall_int k.interrupts) [
      | irq_conflict ↦ panic m (text "Syscall ISR in conflict with IRQ values") k
      | exception_conflict ↦ panic m (text "Conflict between syscall_isr value and exception") k
      | no_controller ↦ panic m (text "Invalid irq controller type") k
      | started interrupts ↦ going (record k { interrupts = interrupts })
    ]

-- `interrupt_disable` and `interrupt_enable`
abbrev pub set_iflag : Bool → Kernel → Kernel
set_iflag flag k = record k { iflag = flag }

-- `ktime_init`, with the message at the end of `arch_time_init`; the clock's accesses follow those of
-- the interrupts.
unfoldable pub ktime_init : Machine → Kernel → Run
unfolding say
ktime_init m k =
    elim (time_init m.turns m.device
      (record { irq_count = 0; interrupts = k.iflag; trace = k.interrupts.pic.trace })) [
        | none ↦ waiting
        | some (nmi_state, time, rtc) ↦ say m debug "RTC initialized" [] (record k {
          time = some time;
          iflag = rtc.interrupts;
          interrupts = record k.interrupts { pic = record k.interrupts.pic { trace = rtc.trace } };
        })
      ]

-- `startup` up to the line before `interrupt_enable`.
unfoldable pub before_interrupts : Machine → Kernel → Run
unfolding arch_init read_memid mm_init printk_init say check_cpu say_memory interrupts_up
    syscall_init
before_interrupts m k =
    arch_init m (set_iflag false (record k { interrupt_enabled = false }))
    >>= read_memid
    >>= mm_init m
    >>= printk_init m
    >>= say m info "Starting version %s %s-%s"
        (text m.version ∷ text m.version_name ∷ text m.version_domain ∷ [])
    >>= check_cpu m
    >>= say_memory m
    >>= interrupts_up m
    >>= λ k'. going (record k' { syscalls = syscall_init m.sc_fnc })

unfoldable pub startup : Machine → Kernel → Run
unfolding before_interrupts ktime_init panic
startup m k =
    before_interrupts m k
    >>= (λ k'. going (set_iflag true k'))
    >>= ktime_init m
    >>= panic m (text "System reached end of startup function!")
