-- ===== src/Multiboot/Regions.antt =====
-- arch/X86_64/multiboot.c and memory.c: the regions that `mbootInit` leaves, and their total.
use synos.Prelude.{
  ℕ, ◌+◌, ◌%◌, ◌^◌, ◌<◌, ◌≡◌, refl, ap, ◌∙◌, true, add64, some, List, [], ◌∷◌, arith, Bool-cases,
  inl, inr,
}
use synos.Page.State.{Region}
use synos.Multiboot.{MmapEntry, region_of, regions_of, mmap_regions, chain_length}
use synos.Multiboot.Init.{
  MbootInfo, BootInfo, MemId, has_flag, init_sections, init_mmap, init_framebuffer, mboot_init,
  sizes, get_memid,
}

-- The sum of the lengths of the entries of a memory map.
unfoldable pub sum_of : List MmapEntry → ℕ
sum_of [] = 0
sum_of (e ∷ es) = e.len + sum_of es

sizes-regions_of :
    (held : Region) (es : List MmapEntry) (total : ℕ)
    → total < 2 ^ 64
    → sizes (chain_length es) (regions_of held es) total ≡ some ((total + sum_of es) % 2 ^ 64)
unfolding sizes chain_length regions_of region_of sum_of
sizes-regions_of held [] total small = ap (λ n. some n) (omega arith)
sizes-regions_of held (e ∷ es) total small =
    sizes-regions_of held es (add64 total e.len) (omega arith) ∙ ap (λ n. some n) (omega arith)

sizes-mmap_regions :
    (held : Region) (es : List MmapEntry)
    → sizes (chain_length es) (mmap_regions held es) 0 ≡ some (sum_of es % 2 ^ 64)
unfolding sizes chain_length mmap_regions sum_of
sizes-mmap_regions held [] = refl
sizes-mmap_regions held (e ∷ es) =
    sizes-regions_of held (e ∷ es) 0 (omega arith) ∙ ap (λ n. some (n % 2 ^ 64)) (omega arith)

mmap-init_framebuffer : (info : MbootInfo) (b : BootInfo) → (init_framebuffer info b).mmap ≡ b.mmap
unfolding init_framebuffer
mmap-init_framebuffer info b = elim (Bool-cases (has_flag info 0x1000)) [
  | inl e ↦ rw e refl
  | inr e ↦ rw e refl
]

mmap-init_mmap :
    (held : Region) (info : MbootInfo) (b : BootInfo)
    → has_flag info 0x40 ≡ true
    → (init_mmap held info b).mmap ≡ some (mmap_regions held info.mmap, chain_length info.mmap)
unfolding init_mmap
mmap-init_mmap held info b e = rw e refl

get_memid_lem :
    (b : BootInfo) (mem : MemId) (rs : List Region) (n total : ℕ)
    → b.mmap ≡ some (rs, n)
    → sizes n rs 0 ≡ some total
    → get_memid b mem ≡ some (record mem { n_entries = n; total_size = total })
unfolding get_memid
get_memid_lem b mem rs n total e f = rw (get_memid, e, f) refl

-- With the right magic number `mbootInit` goes through, and when the boot information has a memory map,
-- `getMEMID` then counts its entries and finds the sum of their lengths, modulo 2 ^ 64, without reading
-- through a null pointer.
pub get_memid-mboot_init :
    (alloc : ℕ → ℕ → ℕ) (held : Region) (info : MbootInfo) (b : BootInfo) (mem : MemId)
    → has_flag info 0x40 ≡ true
    → (after : BootInfo) × (mboot_init alloc held 0x2BADB002 info b ≡ some after)
      × (get_memid after mem
          ≡ some (record mem {
            n_entries = chain_length info.mmap;
            total_size = sum_of info.mmap % 2 ^ 64;
          }))
unfolding mboot_init
get_memid-mboot_init alloc held info b mem flag = (
  init_framebuffer info (init_mmap held info (init_sections alloc info b)),
  refl,
  get_memid_lem _ mem _ _ _
      (mmap-init_framebuffer info (init_mmap held info (init_sections alloc info b))
        ∙ mmap-init_mmap held info (init_sections alloc info b) flag)
      (sizes-mmap_regions held info.mmap),
)
