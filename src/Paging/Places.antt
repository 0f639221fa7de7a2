-- ===== src/Paging/Places.antt =====
-- kernel/page.c: where virtual pages are placed.
use synos.Prelude.{
  ℕ, zero, suc, ◌+◌, ◌-◌, ◌*◌, ◌%◌, ◌^◌, ◌<◌, ◌≡◌, ◌≢◌, refl, sym, ap, ◌∙◌, subst, true, false, ltb,
  ◌==◌, Bool-cases, Option-cases, inl, inr, ◌⊎◌, add64, none, some, some-injective, arith, ltb→lt,
}
use synos.Page.Order.{page_size}
use synos.Page.Regions.{Ending, returns, hangs, faults}
use synos.Paging.{pga_ispresent}
use synos.Paging.{Write}
use synos.Paging.Table.{Memory, pga_map}
use synos.Paging.Virtual.{Virtual, fnfp, move_next, all_absent, find_place, after_map, vpages_map}

-- Page `k` behind an address.
abbrev pub page_at : ℕ → ℕ → ℕ
page_at addr k = (addr + page_size * k) % 2 ^ 64

pub page_at-suc : (addr k : ℕ) → page_at (add64 addr page_size) k ≡ page_at addr (suc k)
page_at-suc addr k = omega arith

-- `fnfp` ends at the first page that is not present, when one is among the pages of its turns.
pub fnfp-IsFirst :
    (turns : ℕ) (words : ℕ → ℕ) (addr k : ℕ)
    → k < turns
    → addr < 2 ^ 64
    → ((j : ℕ) → j < k → pga_ispresent words (page_at addr j) ≡ true)
    → pga_ispresent words (page_at addr k) ≡ false
    → fnfp turns words addr ≡ some (page_at addr k)
unfolding fnfp
fnfp-IsFirst zero words addr k lt small present absent = absurd (omega arith)
fnfp-IsFirst (suc turns) words addr zero lt small present absent =
    let here : page_at addr 0 ≡ addr = omega arith in
    let absent' : pga_ispresent words addr ≡ false =
      subst (λ a. pga_ispresent words a ≡ false) here absent in
    rw (here, absent') refl
fnfp-IsFirst (suc turns) words addr (suc k) lt small present absent =
    let here : page_at addr 0 ≡ addr = omega arith in
    let present' : pga_ispresent words addr ≡ true =
      subst (λ a. pga_ispresent words a ≡ true) here (present 0 (omega arith)) in
    rw present' (
      fnfp-IsFirst turns words (add64 addr page_size) k (omega arith) (omega arith)
        (λ j lt.
          subst (λ a. pga_ispresent words a ≡ true) (sym (page_at-suc addr j))
            (present (suc j) (omega arith)))
        (subst (λ a. pga_ispresent words a ≡ false) (sym (page_at-suc addr k)) absent)
      ∙ ap (λ a. some a) (page_at-suc addr k))

all_absent-page :
    (n : ℕ) (words : ℕ → ℕ) (addr k : ℕ)
    → addr < 2 ^ 64
    → all_absent n words addr ≡ true
    → k < n
    → pga_ispresent words (page_at addr k) ≡ false
unfolding all_absent
all_absent-page zero words addr k small all lt = absurd (omega arith)
all_absent-page (suc n) words addr zero small all lt =
    let here : page_at addr 0 ≡ addr = omega arith in rw here (ground (arith, all))
all_absent-page (suc n) words addr (suc k) small all lt =
    subst (λ a. pga_ispresent words a ≡ false) (page_at-suc addr k)
      (all_absent-page n words (add64 addr page_size) k (omega arith) (ground (arith, all))
        (omega arith))

find_place-absent :
    (turns : ℕ) (words : ℕ → ℕ) (start order place : ℕ)
    → find_place turns words start order ≡ some (some place)
    → (place < 2 ^ 64) × (all_absent (2 ^ order) words place ≡ true)
unfolding find_place
find_place-absent zero words start order place e = absurd (cc e)
find_place-absent (suc turns) words start order place e =
    elim (Bool-cases (ltb start (2 ^ 64 - 1))) [
      | inr out ↦ absurd (cc (rw out at e))
      | inl inside ↦ elim (Bool-cases (all_absent (2 ^ order) words start)) [
        | inl all ↦
            let same : start ≡ place =
              some-injective _ _ (some-injective _ _ (rw (inside, all) at e)) in
            (
              omega (arith, same, ltb→lt start (2 ^ 64 - 1) inside),
              subst (λ a. all_absent (2 ^ order) words a ≡ true) same all,
            )
        | inr not_all ↦
            find_place-absent turns words (add64 start page_size) order place
              (rw (inside, not_all) at e)
      ]
    ]

pub returns-injective : {A : Type 0} (a b : A) → returns a ≡ returns b → a ≡ b
returns-injective a b e = ap (value a) e
  where
    value : {A : Type 0} → A → Ending A → A
    value a (returns b) = b
    value a hangs = a
    value a faults = a

pub move_next-addr :
    (turns from addr place : ℕ) (m : Memory) (after : Virtual)
    → move_next turns from place m ≡ returns (addr, after)
    → place ≡ addr
unfolding move_next
move_next-addr turns from addr place m after e = elim (Option-cases (fnfp turns m.words from)) [
  | inl f ↦ absurd (cc (rw (f, move_next) at e))
  | inr (next, f) ↦ ap (λ r. r.0) (returns-injective _ _ (rw (f, move_next) at e))
]

after_map-start :
    (turns start order addr : ℕ) (v after : Virtual) (m : Memory)
    → after_map turns start order v m ≡ returns (addr, after)
    → start ≡ addr
unfolding after_map
after_map-start turns start order addr v after m e =
    elim (Bool-cases (start == v.next_free_vpage)) [
      | inl same ↦ move_next-addr turns _ addr start m after (rw same at e)
      | inr other ↦ ap (λ r. r.0) (returns-injective _ _ (rw other at e))
    ]

pub Ending-cases :
    {A : Type 0} (r : Ending A) → ((a : A) × (r ≡ returns a)) ⊎ ((r ≡ hangs) ⊎ (r ≡ faults))
Ending-cases (returns a) = inl (a, refl)
Ending-cases hangs = inr (inl refl)
Ending-cases faults = inr (inr refl)

-- When `vpages_map` returns an address other than 0, none of the pages from there on that it maps was
-- present before.
pub vpages_map-absent :
    (turns : ℕ) (write : Write) (paddress order flags addr : ℕ) (v after : Virtual)
    → vpages_map turns write paddress order flags v ≡ returns (addr, after)
    → addr ≢ 0
    → (k : ℕ) → k < 2 ^ order
    → pga_ispresent v.memory.words (page_at addr k) ≡ false
unfolding vpages_map
vpages_map-absent turns write paddress order flags addr v after e ne k lt =
    elim (Option-cases (find_place turns v.memory.words v.next_free_vpage order)) [
      | inl f ↦ absurd (cc (rw (f, vpages_map) at e))
      | inr (none, f) ↦
          absurd (ne (sym (ap (λ r. r.0) (returns-injective _ _ (rw (f, vpages_map) at e)))))
      | inr (some start, f) ↦
          elim (Ending-cases (pga_map write start paddress order flags v.memory)) [
            | inl (m, g) ↦
                let place =
                  find_place-absent turns v.memory.words v.next_free_vpage order start f in
                let same : start ≡ addr =
                  after_map-start turns start order addr v after m (rw (f, g, vpages_map) at e) in
                subst (λ a. pga_ispresent v.memory.words (page_at a k) ≡ false) same
                  (all_absent-page (2 ^ order) v.memory.words start k place.0 place.1 lt)
            | inr (inl g) ↦ absurd (cc (rw (f, g, vpages_map) at e))
            | inr (inr g) ↦ absurd (cc (rw (f, g, vpages_map) at e))
          ]
    ]
