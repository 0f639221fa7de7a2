-- ===== src/Paging/Overwrite.antt =====
-- kernel/page.c: a page that `vpage_smap` has mapped is mapped over by `vpage_map`.
use synos.Prelude.{
  ℕ, ◌*◌, ◌^◌, ◌<◌, ◌≡◌, sym, ap, ◌∙◌, subst, add64, if◌then◌else◌, Option-cases, inl, inr, arith,
}
use synos.Page.Order.{page_size}
use synos.Page.Regions.{Ending, returns, hangs, faults}
use synos.Paging.{Write, get_table_address, page_ispresent}
use synos.Paging.Table.{Memory, pga_map, map_pages, page_table_alloc, next_entry, entry_flags}
use synos.Paging.Virtual.{Virtual, fnfp, move_next, vpage_map, vpages_smap, vpage_smap}
use synos.Paging.Places.{returns-injective, Ending-cases, move_next-addr}
use synos.Paging.Unmap.{Outside}

-- What the processor documents: a lowest entry that is written is read back, for a page outside the
-- window in which the tables are seen.
abbrev pub ReadsBack : Write → Type 0
ReadsBack write =
    (words : ℕ → ℕ) (v entry : ℕ)
    → Outside v
    → write words (get_table_address v 1) entry (get_table_address v 1) ≡ entry

-- The lowest entry of an address.
abbrev pub entry_of : Virtual → ℕ → ℕ
entry_of v vaddress = v.memory.words (get_table_address vaddress 1)

move_next-words :
    (turns from addr place : ℕ) (m : Memory) (after : Virtual)
    → move_next turns from place m ≡ returns (addr, after)
    → after.memory.words ≡ m.words
unfolding move_next
move_next-words turns from addr place m after e = elim (Option-cases (fnfp turns m.words from)) [
  | inl f ↦ absurd (cc (rw (f, move_next) at e))
  | inr (next, f) ↦
      sym (ap (λ r. r.1.memory.words) (returns-injective _ _ (rw (f, move_next) at e)))
]

module _ (write : Write) (reads : ReadsBack write) (vaddress : ℕ) (small : vaddress < 2 ^ 64)
    (out : Outside vaddress) where
  -- The entry after the tables above it were made ready.
  entry_written :
      (page entry : ℕ) (r : Ending Memory) (after : Memory)
      → page ≡ vaddress
      → elim r [
        | returns m ↦ returns (record m { words = write m.words (get_table_address page 1) entry })
        | hangs ↦ hangs
        | faults ↦ faults
      ]
        ≡ returns after
      → after.words (get_table_address vaddress 1) ≡ entry
  entry_written page entry (returns m) after here e =
      sym (ap (λ r. r.words (get_table_address vaddress 1)) (returns-injective _ _ e))
      ∙ subst
          (λ a. write m.words (get_table_address a 1) entry (get_table_address vaddress 1) ≡ entry)
          (sym here) (reads m.words vaddress entry out)
  entry_written page entry hangs after here e = absurd (cc e)
  entry_written page entry faults after here e = absurd (cc e)

  pga_map-entry :
      (paddress flags : ℕ) (m after : Memory)
      → pga_map write vaddress paddress 0 flags m ≡ returns after
      → after.words (get_table_address vaddress 1) ≡ next_entry paddress 0 (entry_flags flags)
  unfolding pga_map map_pages
  pga_map-entry paddress flags m after e =
      let page : ℕ = add64 vaddress (page_size * 0) in
      entry_written page (next_entry paddress 0 (entry_flags flags))
        (if page_ispresent m.words page 2 then returns m else page_table_alloc 2 write page m) after
        (omega arith) e

  vpage_smap-entry :
      (paddress flags addr : ℕ) (v after : Virtual)
      → vpage_smap write paddress vaddress flags v ≡ returns (addr, after)
      → (v.next_free_vpage ≡ after.next_free_vpage)
        × (entry_of after vaddress ≡ next_entry paddress 0 (entry_flags flags))
  unfolding vpage_smap vpages_smap
  vpage_smap-entry paddress flags addr v after e =
      elim (Ending-cases (pga_map write vaddress paddress 0 flags v.memory)) [
        | inl (m, g) ↦
            let made : (vaddress, record v { memory = m }) ≡ (addr, after) =
              returns-injective _ _ (rw (g, vpage_smap, vpages_smap) at e) in
            (
              ap (λ r. r.1.next_free_vpage) made,
              sym (ap (λ r. entry_of r.1 vaddress) made)
                  ∙ pga_map-entry paddress flags v.memory m g,
            )
        | inr (inl g) ↦ absurd (cc (rw (g, vpage_smap, vpages_smap) at e))
        | inr (inr g) ↦ absurd (cc (rw (g, vpage_smap, vpages_smap) at e))
      ]

  vpage_map-entry :
      (turns paddress flags addr : ℕ) (v after : Virtual)
      → v.next_free_vpage ≡ vaddress
      → vpage_map turns write paddress flags v ≡ returns (addr, after)
      → (vaddress ≡ addr) × (entry_of after vaddress ≡ next_entry paddress 0 (entry_flags flags))
  unfolding vpage_map
  vpage_map-entry turns paddress flags addr v after at e =
      elim (Ending-cases (pga_map write v.next_free_vpage paddress 0 flags v.memory)) [
        | inl (m, g) ↦
            let moved : move_next turns v.next_free_vpage v.next_free_vpage m
                ≡ returns (addr, after) =
              rw (g, vpage_map) at e in
            let g' : pga_map write vaddress paddress 0 flags v.memory ≡ returns m =
              subst (λ a. pga_map write a paddress 0 flags v.memory ≡ returns m) at g in
            (
              sym at ∙ move_next-addr turns v.next_free_vpage addr v.next_free_vpage m after moved,
              ap (λ w. w (get_table_address vaddress 1))
                    (move_next-words turns v.next_free_vpage addr v.next_free_vpage m after moved)
                  ∙ pga_map-entry paddress flags v.memory m g',
            )
        | inr (inl g) ↦ absurd (cc (rw (g, vpage_map) at e))
        | inr (inr g) ↦ absurd (cc (rw (g, vpage_map) at e))
      ]

-- When `vpage_smap` has mapped a page at the next free virtual page, which is below 2 ^ 64 and outside
-- the window in which the tables are seen, so that its entry refers to that page, the next `vpage_map`
-- that returns returns the same virtual address, and the entry refers to its own page instead. The
-- condition on the processor is that an entry that is written there is read back (`ReadsBack`).
pub vpage_map-vpage_smap :
    (write : Write)
    → ReadsBack write
    → (turns p q flags flags' addr addr' : ℕ) (v mapped after : Virtual)
    → v.next_free_vpage < 2 ^ 64
    → Outside v.next_free_vpage
    → vpage_smap write p v.next_free_vpage flags v ≡ returns (addr, mapped)
    → vpage_map turns write q flags' mapped ≡ returns (addr', after)
    → (addr' ≡ v.next_free_vpage)
      × (entry_of mapped v.next_free_vpage ≡ next_entry p 0 (entry_flags flags))
      × (entry_of after v.next_free_vpage ≡ next_entry q 0 (entry_flags flags'))
vpage_map-vpage_smap write reads turns p q flags flags' addr addr' v mapped after small out e e' =
    let (stays, first) =
      vpage_smap-entry write reads v.next_free_vpage small out p flags addr v mapped e in
    let (again, second) =
      vpage_map-entry write reads v.next_free_vpage small out turns q flags' addr' mapped after
        (sym stays) e' in
    (sym again, first, second)
