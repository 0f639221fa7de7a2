-- ===== src/Start/Stages.antt =====
-- kernel/system.c: what each part of the start adds, with interrupts off.
use Prim.Native.String.{String}
use synos.Prelude.{ℕ, ◌≡◌, refl, ◌∙◌, Bool, true, false, List, [], ◌∷◌, arith}
use synos.Page.State.{Region}
use synos.Log.{Log, Arg}
use synos.Processor.Vendor.{get_cpuinfo}
use synos.Paging.Virtual.{Virtual, vpage_init}
use synos.Heap.Pages.{heap_init}
use synos.Screen.Init.{arch_printk_init}
use synos.Irq.Control.{
  Started, irq_conflict, exception_conflict, no_controller, started, interrupt_init,
  interrupt_setup, ic_configure,
}
use synos.Irq.Apic.{Interrupts}
use synos.Start.State.{LogLevel, Kernel, Machine, going, say, panic, text}
use synos.Start.{
  load_sys_detect, init_gdt, arch_init, read_memid, heap_page, physical_pages, mm_init, printk_init,
  check_cpu, say_regions, say_memory, interrupts_up, is_unknown,
}
use synos.Start.Ensures.{
  Ensures, Ensures-bind, Ensures-if, Ensures-of_ending, Ensures-option, Ensures-test, Off, crashes,
  goes, panic-Ensures, say-Reached,
}

-- How far the start has come, with interrupts off, by the values that matter.
pub record Progress (mmu log cpu gates : Bool) (m : Machine)
    (iflag mmu_enabled log_enabled cpu_enabled : Bool) (idtr_limit idtr_offset : ℕ) : Type 0 where
  pub off : iflag ≡ false
  pub memory : mmu ≡ true → mmu_enabled ≡ true
  pub messages : log ≡ true → log_enabled ≡ true
  pub processor : cpu ≡ true → cpu_enabled ≡ true
  pub table : gates ≡ true → (idtr_limit ≡ 0x1000) × (idtr_offset ≡ m.handlers.table)

abbrev pub Now : (mmu log cpu gates : Bool) → Machine → Kernel → Type 0
Now mmu log cpu gates m k =
    Progress mmu log cpu gates m k.iflag k.mmu_enabled k.log.enabled k.cpuinfo.enabled
      k.interrupts.idtr_limit k.interrupts.idtr_offset

module _ (mmu log cpu gates : Bool) (m : Machine) where
  abbrev Here : Kernel → Type 0
  Here = Now mmu log cpu gates m

  Now-log :
      (k : Kernel) (l : Log) → l.enabled ≡ k.log.enabled → Here k → Here (record k { log = l })
  Now-log k l e r = record {
    off = r.off;
    memory = r.memory;
    messages = λ on. e ∙ r.messages on;
    processor = r.processor;
    table = r.table;
  }

  pub say-Now :
      (level : LogLevel) (str : String) (args : List Arg) (k : Kernel)
      → Here k
      → Ensures Here Off (say m level str args k)
  say-Now = say-Reached Here Off m Now-log (λ k r. r.off)

  panic-Now :
      (P : Kernel → Type 0) (message : Arg) (k : Kernel)
      → Here k
      → Ensures P Off (panic m message k)
  panic-Now = panic-Ensures Here Off m Now-log (λ k r. r.off)

  load_sys_detect-Now : (k : Kernel) → Here k → Ensures Here Off (load_sys_detect m k)
  unfolding load_sys_detect
  load_sys_detect-Now k r = Ensures-option Here Off _ _ _ (panic-Now Here _ k r) (λ boot. goes _ r)

  init_gdt-Now : (k : Kernel) → Here k → Ensures Here Off (init_gdt m k)
  unfolding init_gdt
  init_gdt-Now k r = Ensures-option Here Off _ _ _ (panic-Now Here _ k r) (λ gdt. goes _ r)

  pub arch_init-Now : (k : Kernel) → Here k → Ensures Here Off (arch_init m k)
  unfolding arch_init
  arch_init-Now k r =
      Ensures-bind Here Here Off (load_sys_detect m k) (init_gdt m) (load_sys_detect-Now k r)
        init_gdt-Now

  pub read_memid-Now : (k : Kernel) → Here k → Ensures Here Off (read_memid k)
  unfolding read_memid
  read_memid-Now k r = Ensures-option Here Off _ _ _ crashes (λ memid. goes _ r)

  abbrev Mapped : Kernel → Type 0
  Mapped = Now true log cpu gates m

  heap_page-Now : (k : Kernel) (v : Virtual) → Here k → Ensures Mapped Off (heap_page m k v)
  unfolding heap_page
  heap_page-Now k v r =
      Ensures-of_ending Mapped Off (heap_init m.turns m.write v k.memstack) _ λ found.
        Ensures-option Mapped Off found _ _ (panic-Now Mapped _ (record k { virtual = v }) r)
          λ page. goes _ (record {
            off = r.off;
            memory = λ _. refl;
            messages = r.messages;
            processor = r.processor;
            table = r.table;
          })

  physical_pages-Now :
      (k : Kernel) (v : Virtual) → Here k → Ensures Mapped Off (physical_pages m k v)
  unfolding physical_pages
  physical_pages-Now k v r =
      Ensures-option Mapped Off _ _ _ (panic-Now Mapped _ (record k { virtual = v }) r)
        λ ready. Ensures-of_ending Mapped Off ready (heap_page m k) λ v'. heap_page-Now k v' r

  pub mm_init-Now : (k : Kernel) → Here k → Ensures Mapped Off (mm_init m k)
  unfolding mm_init
  mm_init-Now k r =
      Ensures-of_ending Mapped Off (vpage_init m.turns m.write m.pml4 k.virtual.memory) _
        λ v. physical_pages-Now k _ r

  abbrev Speaking : Kernel → Type 0
  Speaking = Now mmu true cpu gates m

  pub printk_init-Now : (k : Kernel) → Here k → Ensures Speaking Off (printk_init m k)
  unfolding printk_init
  printk_init-Now k r =
      Ensures-of_ending Speaking Off
        (arch_printk_init m.turns m.write m.cells k.boot.framebuffer k.screen k.virtual) _
        λ found.
          Ensures-if Speaking Off found.0 _ _
            (goes _ (record {
              off = r.off;
              memory = r.memory;
              messages = λ _. refl;
              processor = r.processor;
              table = r.table;
            }))
            (panic-Now Speaking _ (record k { screen = found.1; virtual = found.2 }) r)

  say_regions-Now : (rs : List Region) (k : Kernel) → Here k → Ensures Here Off (say_regions m rs k)
  unfolding say_regions
  say_regions-Now [] k r = goes k r
  say_regions-Now (region ∷ rs) k r =
      Ensures-bind Here Here Off _ _ (say-Now _ _ _ k r) (λ k' r'. say_regions-Now rs k' r')

  pub say_memory-Now : (k : Kernel) → Here k → Ensures Here Off (say_memory m k)
  unfolding say_memory
  say_memory-Now k r =
      Ensures-bind Here Here Off _ _ (say-Now _ _ _ k r) (λ k' r'. say_regions-Now _ k' r')

interrupt_init-started :
    (m : Machine) (i i' : Interrupts)
    → interrupt_init m.processor m.device m.handlers m.syscall_int i ≡ started i'
    → (i'.idtr_limit ≡ 0x1000) × (i'.idtr_offset ≡ m.handlers.table)
unfolding interrupt_init interrupt_setup ic_configure
interrupt_init-started m i i' h = ground arith

module _ (mmu log cpu gates : Bool) (m : Machine) (k : Kernel) (r : Now mmu log cpu gates m k) where
  abbrev Gated : Kernel → Type 0
  Gated = Now mmu log cpu true m

  by_end :
      (s : Started)
      → interrupt_init m.processor m.device m.handlers m.syscall_int k.interrupts ≡ s
      → Ensures Gated Off (elim s [
        | irq_conflict ↦ panic m (text "Syscall ISR in conflict with IRQ values") k
        | exception_conflict ↦ panic m (text "Conflict between syscall_isr value and exception") k
        | no_controller ↦ panic m (text "Invalid irq controller type") k
        | started interrupts ↦ going (record k { interrupts = interrupts })
      ])
  by_end irq_conflict e = panic-Now mmu log cpu gates m Gated _ k r
  by_end exception_conflict e = panic-Now mmu log cpu gates m Gated _ k r
  by_end no_controller e = panic-Now mmu log cpu gates m Gated _ k r
  by_end (started i) e = goes _ (record {
    off = r.off;
    memory = r.memory;
    messages = r.messages;
    processor = r.processor;
    table = λ _. interrupt_init-started m k.interrupts i e;
  })

  pub interrupts_up-Now : Ensures Gated Off (interrupts_up m k)
  unfolding interrupts_up
  interrupts_up-Now = by_end _ refl

  abbrev Asked : Kernel → Type 0
  Asked = Now mmu log true gates m

  abbrev with_cpu : Kernel
  with_cpu = record k { cpuinfo = get_cpuinfo m.cpuid k.cpuinfo }

  forgotten : Now mmu log false gates m with_cpu
  forgotten = record {
    off = r.off;
    memory = r.memory;
    messages = r.messages;
    processor = λ e. cc;
    table = r.table;
  }

  answered : with_cpu.cpuinfo.enabled ≡ true → Asked with_cpu
  answered e = record {
    off = r.off;
    memory = r.memory;
    messages = r.messages;
    processor = λ _. e;
    table = r.table;
  }

  pub check_cpu-Now : Ensures Asked Off (check_cpu m k)
  unfolding check_cpu
  check_cpu-Now =
      Ensures-test Asked Off with_cpu.cpuinfo.enabled _ _
        (λ e.
          Ensures-if Asked Off (is_unknown with_cpu.cpuinfo.vendor) _ _
            (say-Now mmu log true gates m _ _ _ with_cpu (answered e)) (goes _ (answered e)))
        (λ e. panic-Now mmu log false gates m Asked _ with_cpu forgotten)
