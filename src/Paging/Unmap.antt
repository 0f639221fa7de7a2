-- ===== src/Paging/Unmap.antt =====
-- arch/X86_64/memory.c: what `pga_unmap` leaves.
use synos.Prelude.{
  ℕ, zero, suc, ◌-◌, ◌/◌, ◌%◌, ◌^◌, ◌≤◌, ◌<◌, ◌≡◌, ◌≢◌, refl, sym, ◌∙◌, subst, Bool, true, false,
  ◌==◌, ◌&&◌, if◌then◌else◌, Bool-cases, inl, inr, ◌⊎◌, add64, arith, ne→==,
}
use synos.Page.Order.{page_size}
use synos.Paging.{
  Write, get_table_address, entry_present, present_down, page_ispresent, pga_ispresent, unmap_pages,
  pga_unmap,
}
use synos.Paging.Places.{page_at, page_at-suc}

-- An address outside the window in which the tables are seen, that of the last entry of the top table.
abbrev pub Outside : ℕ → Type 0
Outside v = v / 2 ^ 39 % 512 ≢ 511

-- What the processor documents of tables none of which is used at two places: when the lowest entry of a
-- page outside the window is cleared, then of the entries of the addresses outside the window that one
-- becomes 0, and the others stay.
abbrev pub ClearsEntry : Write → Type 0
ClearsEntry write =
    (words : ℕ → ℕ) (v w level : ℕ)
    → Outside v
    → Outside w
    → 0 < level
    → level ≤ 4
    → write words (get_table_address v 1) 0 (get_table_address w level) ≡ (
        if get_table_address v 1 == get_table_address w level
        then 0
        else words (get_table_address w level))

-- Every entry of an address outside the window is as before or 0.
abbrev pub Cleared : (words after : ℕ → ℕ) → Type 0
Cleared words after =
    (w level : ℕ)
    → Outside w
    → 0 < level
    → level ≤ 4
    → (after (get_table_address w level) ≡ words (get_table_address w level))
      ⊎ (after (get_table_address w level) ≡ 0)

entry_present-Cleared :
    (words after : ℕ → ℕ) (v level : ℕ)
    → Cleared words after
    → Outside v
    → 0 < level
    → level ≤ 4
    → entry_present words v level ≡ false
    → entry_present after v level ≡ false
entry_present-Cleared words after v level c out low high absent = elim (c v level out low high) [
  | inl e ↦ rw e absent
  | inr e ↦ rw e refl
]

and_right : (a : Bool) → (a && false) ≡ false
and_right true = refl
and_right false = refl

present_down-Cleared :
    (rounds : ℕ) (words after : ℕ → ℕ) (v : ℕ)
    → rounds ≤ 3
    → Cleared words after
    → Outside v
    → present_down rounds words v ≡ false
    → present_down rounds after v ≡ false
unfolding present_down
present_down-Cleared zero words after v few c out absent =
    entry_present-Cleared words after v 4 c out (omega arith) (omega arith) absent
present_down-Cleared (suc rounds) words after v few c out absent =
    elim (Bool-cases (present_down rounds words v)) [
      | inr above ↦ rw (present_down-Cleared rounds words after v (omega arith) c out above) refl
      | inl above ↦
          let here : entry_present words v (4 - suc rounds) ≡ false = rw above at absent in
          rw
            (entry_present-Cleared words after v (4 - suc rounds) c out (omega arith) (omega arith)
              here)
            (and_right _)
    ]

page_ispresent-Cleared :
    (words after : ℕ → ℕ) (v : ℕ)
    → Cleared words after
    → Outside v
    → page_ispresent words v 1 ≡ false
    → page_ispresent after v 1 ≡ false
unfolding page_ispresent
page_ispresent-Cleared words after v c out absent =
    present_down-Cleared 3 words after v (omega arith) c out absent

Cleared-trans :
    (words middle after : ℕ → ℕ) → Cleared words middle → Cleared middle after → Cleared words after
Cleared-trans words middle after c d w level out low high = elim (d w level out low high) [
  | inr e ↦ inr e
  | inl e ↦ elim (c w level out low high) [ inl e' ↦ inl (e ∙ e') | inr e' ↦ inr (e ∙ e') ]
]

zero_entry-absent :
    (words : ℕ → ℕ) (v : ℕ) → words (get_table_address v 1) ≡ 0 → page_ispresent words v 1 ≡ false
unfolding page_ispresent present_down
zero_entry-absent words v zero_entry = rw zero_entry (and_right _)

-- The pages of the loop lie outside the window.
abbrev AllOutside : ℕ → ℕ → Type 0
AllOutside n v = (k : ℕ) → k < n → Outside (page_at v k)

first-Outside : (n v : ℕ) → v < 2 ^ 64 → AllOutside (suc n) v → Outside v
first-Outside n v small all =
    let here : page_at v 0 ≡ v = omega arith in subst Outside here (all 0 (omega arith))

rest-Outside : (n v : ℕ) → AllOutside (suc n) v → AllOutside n (add64 v page_size)
rest-Outside n v all k lt = subst Outside (sym (page_at-suc v k)) (all (suc k) (omega arith))

module _ (write : Write) (clears : ClearsEntry write) where
  -- One turn of the loop.
  abbrev clear_one : (ℕ → ℕ) → ℕ → ℕ → ℕ
  clear_one words v =
      if page_ispresent words v 1 then write words (get_table_address v 1) 0 else words

  clear_one-Cleared : (words : ℕ → ℕ) (v : ℕ) → Outside v → Cleared words (clear_one words v)
  clear_one-Cleared words v out w level out' low high =
      elim (Bool-cases (page_ispresent words v 1)) [
        | inr e ↦ rw e (inl refl)
        | inl e ↦
            rw (e, clears words v w level out out' low high)
              (elim (Bool-cases (get_table_address v 1 == get_table_address w level)) [
                | inl here ↦ rw here (inr refl)
                | inr other ↦ rw other (inl refl)
              ])
      ]

  clear_one-absent :
      (words : ℕ → ℕ) (v : ℕ) → Outside v → page_ispresent (clear_one words v) v 1 ≡ false
  clear_one-absent words v out = elim (Bool-cases (page_ispresent words v 1)) [
    | inr e ↦
        let same : clear_one words v ≡ words = rw e refl in
        subst (λ w. page_ispresent w v 1 ≡ false) (sym same) e
    | inl e ↦
        let self : (get_table_address v 1 == get_table_address v 1) ≡ true = ground arith in
        zero_entry-absent (clear_one words v) v
          (rw (e, clears words v v 1 out out (omega arith) (omega arith), self) refl)
  ]

  unmap_pages-Cleared :
      (n : ℕ) (words : ℕ → ℕ) (v : ℕ)
      → v < 2 ^ 64
      → AllOutside n v
      → Cleared words (unmap_pages n write words v)
  unfolding unmap_pages
  unmap_pages-Cleared zero words v small all = λ w level out low high. inl refl
  unmap_pages-Cleared (suc n) words v small all =
      Cleared-trans words (clear_one words v)
        (unmap_pages n write (clear_one words v) (add64 v page_size))
        (clear_one-Cleared words v (first-Outside n v small all))
        (unmap_pages-Cleared n (clear_one words v) (add64 v page_size) (omega arith)
          (rest-Outside n v all))

  unmap_pages-absent :
      (n : ℕ) (words : ℕ → ℕ) (v k : ℕ)
      → v < 2 ^ 64
      → AllOutside n v
      → k < n
      → page_ispresent (unmap_pages n write words v) (page_at v k) 1 ≡ false
  unfolding unmap_pages
  unmap_pages-absent zero words v k small all lt = absurd (omega arith)
  unmap_pages-absent (suc n) words v zero small all lt =
      let here : page_at v 0 ≡ v = omega arith in
      let out = first-Outside n v small all in
      rw here (
        page_ispresent-Cleared (clear_one words v)
          (unmap_pages n write (clear_one words v) (add64 v page_size)) v
          (unmap_pages-Cleared n (clear_one words v) (add64 v page_size) (omega arith)
            (rest-Outside n v all))
          out (clear_one-absent words v out))
  unmap_pages-absent (suc n) words v (suc k) small all lt =
      subst
        (λ p.
          page_ispresent (unmap_pages n write (clear_one words v) (add64 v page_size)) p 1 ≡ false)
        (page_at-suc v k)
        (unmap_pages-absent n (clear_one words v) (add64 v page_size) k (omega arith)
          (rest-Outside n v all) (omega arith))

  clear_one-other :
      (words : ℕ → ℕ) (v w level : ℕ)
      → Outside v
      → Outside w
      → 0 < level
      → level ≤ 4
      → get_table_address v 1 ≢ get_table_address w level
      → clear_one words v (get_table_address w level) ≡ words (get_table_address w level)
  clear_one-other words v w level out out' low high other =
      elim (Bool-cases (page_ispresent words v 1)) [
        | inl e ↦ rw (e, clears words v w level out out' low high, ne→== _ _ other) refl
        | inr e ↦ rw e refl
      ]

  unmap_pages-other :
      (n : ℕ) (words : ℕ → ℕ) (v w level : ℕ)
      → v < 2 ^ 64
      → AllOutside n v
      → Outside w
      → 0 < level
      → level ≤ 4
      → ((k : ℕ) → k < n → get_table_address (page_at v k) 1 ≢ get_table_address w level)
      → unmap_pages n write words v (get_table_address w level) ≡ words (get_table_address w level)
  unfolding unmap_pages
  unmap_pages-other zero words v w level small all out low high other = refl
  unmap_pages-other (suc n) words v w level small all out low high other =
      let here : page_at v 0 ≡ v = omega arith in
      unmap_pages-other n (clear_one words v) (add64 v page_size) w level (omega arith)
        (rest-Outside n v all) out low high
        (λ k lt.
          subst (λ p. get_table_address p 1 ≢ get_table_address w level) (sym (page_at-suc v k))
            (other (suc k) (omega arith)))
      ∙ clear_one-other words v w level (first-Outside n v small all) out low high (
          subst (λ p. get_table_address p 1 ≢ get_table_address w level) here
            (other 0 (omega arith)))

-- `after` has none of the pages from `vaddress` on, outside the window no page that was not there before,
-- and every entry of an address outside the window, other than the lowest ones of those pages, as it
-- was.
pub record Unmapped (words : ℕ → ℕ) (vaddress order : ℕ) (after : ℕ → ℕ) : Type 0 where
  pub gone : (k : ℕ) → k < 2 ^ order → pga_ispresent after (page_at vaddress k) ≡ false
  pub no_more : (v : ℕ) → Outside v → pga_ispresent words v ≡ false → pga_ispresent after v ≡ false
  pub kept :
      (w level : ℕ)
      → Outside w
      → 0 < level
      → level ≤ 4
      → ((k : ℕ)
          → k < 2 ^ order
          → get_table_address (page_at vaddress k) 1 ≢ get_table_address w level)
      → after (get_table_address w level) ≡ words (get_table_address w level)

pga_ispresent_lem : (words : ℕ → ℕ) (v : ℕ) → pga_ispresent words v ≡ page_ispresent words v 1
unfolding pga_ispresent
pga_ispresent_lem words v = elim (Bool-cases (page_ispresent words v 1)) [
  | inl e ↦ rw e refl
  | inr e ↦ rw e refl
]

-- After `pga_unmap` at an address below 2 ^ 64, for an order below 64 and pages outside the window in
-- which the tables are seen, none of the 2 ^ `order` pages from the address on is present, whatever the
-- tables held; outside the window no page is present that was not before, and every entry other than
-- the lowest ones of those pages is as before. The condition on the processor is that an entry that is
-- cleared there becomes 0 and no other entry of an address outside the window changes (`ClearsEntry`).
pub pga_unmap-Unmapped :
    (write : Write)
    → ClearsEntry write
    → (words : ℕ → ℕ) (vaddress order : ℕ) → vaddress < 2 ^ 64
    → order < 64
    → ((k : ℕ) → k < 2 ^ order → Outside (page_at vaddress k))
    → Unmapped words vaddress order (pga_unmap write words vaddress order)
unfolding pga_unmap
pga_unmap-Unmapped write clears words vaddress order small shift all =
    let after : ℕ → ℕ = unmap_pages (2 ^ order) write words vaddress in
    record {
      gone = λ k lt.
          pga_ispresent_lem after (page_at vaddress k)
          ∙ unmap_pages-absent write clears (2 ^ order) words vaddress k small all lt;
      no_more = λ v out absent.
          pga_ispresent_lem after v
          ∙ page_ispresent-Cleared words after v
              (unmap_pages-Cleared write clears (2 ^ order) words vaddress small all) out
              (sym (pga_ispresent_lem words v) ∙ absent);
      kept = λ w level out low high other.
          unmap_pages-other write clears (2 ^ order) words vaddress w level small all out low high
            other;
    }
