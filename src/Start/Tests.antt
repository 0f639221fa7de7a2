-- ===== src/Start/Tests.antt =====
-- A machine for kernel/system.c, and one that another boot loader has started.
use synos.Prelude.{
  ℕ, ◌+◌, ◌≡◌, refl, Bool, true, false, none, [], ◌∷◌, ltb, if◌then◌else◌, update, bytes_of, arith,
}
use synos.Page.State.{Region}
use synos.Symbols.{no_table}
use synos.Multiboot.Init.{MbootInfo, framebuffer_type_length}
use synos.Processor.Vendor.{unknown}
use synos.Processor.Gdt.{GdtEntry}
use synos.Screen.Init.{screen_at_start}
use synos.Irq.Gates.{IdtEntry, Handlers}
use synos.Start.State.{Kernel, Machine, Run, going, halted, waiting, crashed}
use synos.Start.Silent.{begun, other_loader, startup-Early}
use synos.Start.Order.{Prepared, startup-Prepared}
use synos.Start.{startup}
use synos.Multiboot.Init.{mboot_init, get_memid}
use synos.Processor.Gdt.{gdt_entry_map}
use synos.Multiboot.{chain_length, mmap_regions, attrib_of}
use synos.Paging.Virtual.{vpage_init, vpage_map}
use synos.Paging.{page_ispresent, get_table_address, pga_ispresent, mem_p_protect}
use synos.Paging.Setup.{ppage_init}
use synos.Page.Regions.{
  find_next_region, region_at, count, put_region, alloc_page, find_free_region,
}
use synos.Page.Map.{region_map, free_area_map, free_area_map_rounds, blank_map, map_free_areas}
use synos.Heap.Pages.{heap_init}
use synos.Page.Buddy.{page_alloc}
use synos.Page.Order.{order_max, free_area_length}
use synos.Page.State.{blocks_clear, bit_at, drop_bit, put_bit}
use synos.Prelude.{test_bit, set_bit, clear_bit}
use synos.Screen.Init.{arch_printk_init}
use synos.Start.State.{text_length}
use synos.Log.{convert}
use synos.Str.{
  strlen_from, strcmp_from, c_str, c_str_loop, string_append, string_put, new_string, reverse,
  hex_str, hex_str_loop, reverse_loop, xor_swap,
}
use synos.Processor.Vendor.{get_cpuinfo, vendorcmp}
use synos.Irq.Control.{interrupt_init, interrupt_setup}
use synos.Clock.Ports.{time_init}

abbrev held : Region
held = record {
  start = 0;
  size = 0;
  attrib = 0;
  pages_total = 0;
  pages_free = 0;
  mem_full = false;
  page_alloc_si = record {
    pages = 0;
    free_area_size = 0;
    free_area = λ i. 0;
    pages_free = λ i. 0;
    next_free_page = λ i. 0;
    table = λ i. 0;
  };
  lock = 0;
}

-- 64 KiB of memory at 4 MiB, and a screen in text mode.
abbrev small_info : MbootInfo
small_info = record {
  flags = 0x1040;
  elf_sec = [];
  mmap = record { addr = 0x400000; len = 0x10000; type = 1 } ∷ [];
  framebuffer_type = 2;
  framebuffer_addr = 0xB8000;
  framebuffer_width = 80;
  framebuffer_height = 25;
}

abbrev no_gate : IdtEntry
no_gate = record {
  offset_1 = 0;
  selector = 0;
  zero0 = 0;
  type_attr = 0;
  offset_2 = 0;
  offset_3 = 0;
  zero1 = 0;
}

abbrev no_segment : GdtEntry
no_segment = record {
  limit_low = 0;
  base_low = 0;
  base_middle = 0;
  access = 0;
  granularity = 0;
  base_high = 0;
}

abbrev powered_on : Kernel
powered_on = record {
  cpuinfo = record {
    enabled = false;
    vendor = unknown;
    is_vm = false;
    vendor_string = λ i. 0;
    apic = 0;
    fi_edx = 0;
    fi_ecx = 0;
  };
  memid = record { enabled = false; n_entries = 0; total_size = 0 };
  interrupt_enabled = false;
  mmu_enabled = false;
  iflag = false;
  boot = record {
    symbols = record { elf_sym = no_table; elf_str = no_table };
    sections = [];
    framebuffer = record { type = framebuffer_type_length; address = 0; width = 0; height = 0 };
    mmap = none;
  };
  gdt = λ i. no_segment;
  virtual = record {
    memory = record {
      words = λ a. if ltb a 0xFFFFFFFFC0000000 then 0 else 3;
      regions = record { regions = []; next_region = none; out_of_mem = false };
    };
    next_free_vpage = 0x100000;
  };
  heap = [];
  memstack = record { init = false; enable = true; top = 0 };
  screen = screen_at_start;
  log = record { enabled = false; logs = []; printed = [] };
  interrupts = record {
    idt = λ i. no_gate;
    pic = record { irq_spurious = 0; irq1 = 0; irq2 = 0; trace = [] };
    idtr_limit = 0;
    idtr_offset = 0;
  };
  syscalls = [];
  time = none;
}

abbrev addresses : Handlers
addresses = record {
  exc = λ i. 0x1000 + i;
  irq = λ i. 0x2000 + i;
  syscall_fn = 0x3000;
  isr_spurious = 0x3100;
  table = 0x5000;
}

abbrev small_machine : ℕ → Machine
small_machine magic = record {
  version = "0.1";
  version_name = "test";
  version_domain = "none";
  kdebug = false;
  loglevel = 4;
  fresh = λ i. 0;
  frame = 0x7000;
  frames = [];
  elf_sym = [];
  elf_str = λ i. 0;
  elf_str_size = 0;
  alloc = λ turn size. 0x180000 + turn;
  held = held;
  mbm = magic;
  mbp = 0x10000;
  mboot_info = small_info;
  tss_addr = 0x6000;
  turns = 4;
  write = update;
  pml4 = 0x3000;
  tables = λ i j. 0;
  cells = λ a i. 0;
  cpuid = record { supported = true; manufacturer = bytes_of "AuthenticAMD"; edx = 0; ecx = 0 };
  processor = record { has_apic = false; msr_low = λ t msr. 0 };
  device = λ t port. 0;
  handlers = addresses;
  syscall_int = 0x80;
  sc_fnc = 0x8000;
}

startup-Early_example : startup (small_machine 0x36D76289) powered_on ≡ halted (begun powered_on)
startup-Early_example =
    startup-Early (small_machine 0x36D76289) powered_on refl (other_loader (λ e. omega (arith, e)))

abbrev is_halted : Run → Bool
is_halted (halted k) = true
is_halted (going k) = false
is_halted waiting = false
is_halted crashed = false

abbrev end_of : Run → Kernel
end_of (halted k) = k
end_of (going k) = k
end_of waiting = powered_on
end_of crashed = powered_on

abbrev small_run : Run
small_run = startup (small_machine 0x2BADB002) powered_on

small_end : (is_halted small_run ≡ true) × ((end_of small_run).iflag ≡ true)
unfolding startup mboot_init gdt_entry_map get_memid chain_length mmap_regions vpage_init
    page_ispresent get_table_address pga_ispresent ppage_init find_next_region attrib_of region_at
    region_map mem_p_protect count put_region heap_init alloc_page find_free_region page_alloc
    free_area_map free_area_map_rounds order_max blank_map free_area_length blocks_clear bit_at
    test_bit drop_bit map_free_areas put_bit set_bit clear_bit vpage_map arch_printk_init
    text_length bytes_of convert strlen_from get_cpuinfo vendorcmp strcmp_from c_str c_str_loop
    string_append string_put new_string reverse hex_str hex_str_loop reverse_loop xor_swap
    interrupt_init interrupt_setup time_init
small_end = (refl, refl)

halted-end_of : (r : Run) → is_halted r ≡ true → r ≡ halted (end_of r)
halted-end_of (halted k) e = refl
halted-end_of (going k) e = cc
halted-end_of waiting e = cc
halted-end_of crashed e = cc

startup-Prepared_example : Prepared (small_machine 0x2BADB002) (end_of small_run)
startup-Prepared_example =
    startup-Prepared (small_machine 0x2BADB002) powered_on (halted-end_of small_run small_end.0)
      small_end.1
