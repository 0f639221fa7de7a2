-- ===== src/Processor/Gdt.antt =====
-- arch/X86_64/gdt.c, with `struct GDT_entry` of arch/X86_64/memory.h.
use Prim.Native.Nat.{bit_and}
use synos.Prelude.{
  ℕ, ◌+◌, ◌*◌, ◌/◌, ◌%◌, ◌^◌, ◌≡◌, ◌≢◌, refl, Option, none, some, leb, if◌then◌else◌, update, arith,
  mask, bit_and-Masked, ne→==, sym,
}

pub record GdtEntry : Type 0 where
  pub limit_low : ℕ
  pub base_low : ℕ
  pub base_middle : ℕ
  pub access : ℕ
  pub granularity : ℕ
  pub base_high : ℕ

-- GDT_LEN
abbrev pub gdt_len : ℕ
gdt_len = 6

-- GDT_TSS_SELECTOR
abbrev pub tss_selector : ℕ
tss_selector = 0x28

-- sizeof(struct TSS), which is packed.
abbrev pub tss_size : ℕ
tss_size = 104

unfoldable pub get_gdt_entry : (ℕ → GdtEntry) → ℕ → Option GdtEntry
get_gdt_entry gdt index = if leb gdt_len index then none else some (gdt index)

-- `none`: the panic "GDT entry index out of range".
unfoldable pub gdt_entry_map : ℕ → (ℕ → GdtEntry) → Option (ℕ → GdtEntry)
unfolding get_gdt_entry
gdt_entry_map tss_addr gdt = elim (get_gdt_entry gdt (tss_selector / 8)) [
  | none ↦ none
  | some gdt_ent ↦ some (
      update gdt (tss_selector / 8) (record gdt_ent {
        base_low = bit_and tss_addr 0xFFFF;
        base_middle = bit_and tss_addr 0xFF0000 / 2 ^ 16;
        base_high = bit_and tss_addr 0xFF000000 / 2 ^ 24;
        limit_low = tss_size;
        access = 0x89;
        granularity = 0x40;
      }))
]

-- The base address that the processor reads from an entry.
abbrev pub base_of : GdtEntry → ℕ
base_of e = e.base_low + e.base_middle * 2 ^ 16 + e.base_high * 2 ^ 24

-- `gdt_entry_map` does not panic; the descriptor of the task state then holds the low 32 bits of its
-- address and its size, and the other entries are as before.
gdt_entry_map-base_of :
    (tss_addr : ℕ) (gdt : ℕ → GdtEntry)
    → (after : ℕ → GdtEntry) × (gdt_entry_map tss_addr gdt ≡ some after)
      × (base_of (after 5) ≡ tss_addr % 2 ^ 32)
      × ((after 5).limit_low ≡ 104)
      × ((i : ℕ) → i ≢ 5 → after i ≡ gdt i)
unfolding gdt_entry_map mask
gdt_entry_map-base_of tss_addr gdt =
    let a = bit_and-Masked 0 16 tss_addr in
    let b = bit_and-Masked 16 8 tss_addr in
    let c = bit_and-Masked 24 8 tss_addr in
    (
      _,
      refl,
      omega (
        arith, a.parts, a.below_lt, a.kept_lt, a.value_eq, b.parts, b.below_lt, b.kept_lt,
        b.value_eq, c.parts, c.below_lt, c.kept_lt, c.value_eq,
      ),
      refl,
      λ i ne. rw (ne→== 5 i (λ e. ne (sym e))) refl,
    )
