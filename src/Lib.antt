-- ===== src/Lib.antt =====
-- synos: the memory manager of the synos kernel and the parts beside it, in the order in which
-- they depend on each other.
--
-- - Prelude: names that all modules share, Boolean tests, 64-bit words, bits of a byte.
-- - Spinlock: mutils/impl/spinlock.c. A lock that another caller holds is waited for without end:
--   `none`.
-- - Page: the buddy allocator of kernel/page.c for one region, with the records of
--   kernel/include/synos/mm.h. Page/Order holds the arithmetic of orders, Page/State the bitmaps,
--   Page/Buddy `block_split`, `zblock_split`, `block_merge`, `pages_alloc`, `pages_reserve` and
--   `pages_free`, Page/Map `region_map`. The other modules of Page are proofs: Page/Inv the
--   invariant and the set of free pages, Page/Split and Page/Alloc allocation, Page/Merge merging,
--   Page/Free what `page_free` gives back, its early returns and its round trip with `page_alloc`,
--   Page/Reserve what `pages_reserve` sets aside, Page/Runs sequences of calls. Page/Regions is
--   the list of regions with `alloc_page`, `alloc_pages`, `free_page` and `free_pages`:
--   Page/Regions/Search what its searches find, Page/Regions/Alloc where `alloc_page` takes a
--   page, Page/Regions/Places the list when a region is exchanged, Page/Regions/Blocks that
--   `alloc_pages` ends, Page/Regions/RoundTrip how `free_page` brings a page back,
--   Page/Regions/Failure what happens when memory runs out.
-- - Memory: reads of little-endian words from a memory of bytes, as X86_64 does them.
-- - Elf: mutils/elf/header.c and mutils/elf/elf.c. Elf/Swap has the laws of the byte swaps,
--   Elf/Mismatch what becomes of a file in the other byte order. A header record stands for the
--   struct that the function allocates and returns.
-- - Array: mutils/impl/array.c. An operation takes the contents of the memory that it may
--   allocate. Array/Inv has the room that the operations keep, with push and pop, Array/Shift
--   insert and pull.
-- - Heap: kernel/mm.c. Heap/Place is where `kmalloc` puts a block among pointers, Heap/Blocks and
--   Heap/Whole what becomes of the blocks in use, Heap/Overrun what it does with new pages,
--   Heap/Free the search of `kfree`, Heap/Stack the memory stack, Heap/Pages the pages that the
--   kernel takes and returns. A list of headers or pointers in memory is a list of records with
--   their addresses, and the pages for a new header are a parameter.
-- - Str: mutils/impl/string.c and mutils/string. Str/Append has appending, Str/Contents the bytes
--   of a string as a list, Str/Sound when the bytes of a string lie within its memory, Str/Reverse
--   `reverse`, Str/Put the loops that append digits, Str/Numerals and Str/Digits what the digits
--   stand for.
-- - Syscall: kernel/syscall.c. Syscall/Table reads the table as a map.
-- - Screen: arch/X86_64/printk.c. Screen/Init sets it up, Screen/Cursor has where the cursor
--   stays, Screen/Scroll what `scroll` leaves, Screen/Text what printable text leaves,
--   Screen/Hardware the registers of the display.
-- - Paging: arch/X86_64/memory.c, reading and clearing page tables, and `mem_p_protect`.
--   Paging/Table has `page_table_alloc` and `pga_map`, Paging/Virtual the virtual pages of
--   kernel/page.c, Paging/Places where they are placed, Paging/Unmap what `pga_unmap` leaves, for
--   pages outside the window in which the tables are seen, Paging/Overwrite what `vpage_map` does
--   to a page of `vpage_smap`, Paging/Setup `ppage_init`.
-- - Multiboot: arch/X86_64/multiboot.c. Multiboot/Init is `mbootInit` with `getMEMID` of memory.c,
--   Multiboot/Regions the regions that it leaves.
-- - Clock: arch/X86_64/cmos.c. Clock/Ports is how the clock is read and set up through its ports.
-- - Io: accesses to ports, as a trace.
-- - Irq: arch/X86_64/interrupts. Irq/Gates the table of gates, Irq/Pic, Irq/Apic and Irq/Control
--   the controllers and `interrupt_init`; Irq/Vectors which handler a vector leads to,
--   Irq/Spurious the test for spurious interrupts, Irq/Masks the 8259 as its documentation
--   describes it.
-- - Processor: arch/X86_64/cpu.c and gdt.c.
-- - Log: kernel/printk.c. Log/Convert is what a conversion appends, Log/Expand what a format
--   stands for.
-- - Symbols: `tab_search` of arch/X86_64/arch.c (Symbols/Tables) and `TraceName` of stack.c
--   (Symbols/Nearest).
-- - Start: kernel/system.c, `startup` and `panic`, with `arch_init`, `mm_init`, `printk_init`,
--   `ktime_init` and `PrintStackTrace`: Start/State is what the kernel and the machine consist of,
--   Start/Silent has the starts that end before messages are on, Start/Ensures and Start/Stages
--   what each part adds, Start/Order what is ready when interrupts are enabled.
--
-- Pointers into the table of bitmaps are offsets, memory is a function from addresses to bytes,
-- and `size_t` arithmetic is modulo 2 ^ 64. Loops and recursion that climb the orders take
-- MAX_ORDER rounds, which is enough because each round goes up one order. The table of a region
-- must be long enough for its ten bitmaps (`Fits`), which `region_map` does not check.
--
-- Accesses to ports are recorded in a trace; what a device answers is a function of the trace. A
-- search that the code does not bound, for a free virtual page or for the end of an update of the
-- clock, takes a number of turns, and `none` or `hangs` stands for too few of them. Not modelled:
-- concurrent callers, assembly, and the drivers, which are an interface only.
pub mod Prelude
pub mod Io
pub mod Irq
pub mod Memory
pub mod Spinlock
pub mod Page
pub mod Heap
pub mod Elf
pub mod Array
pub mod Str
pub mod Syscall
pub mod Screen
pub mod Paging
pub mod Multiboot
pub mod Clock
pub mod Processor
pub mod Log
pub mod Symbols
pub mod Start
