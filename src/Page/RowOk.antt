-- ===== src/Page/RowOk.antt =====
-- The bookkeeping of one order, `pages_free[order]` and `next_free_page[order]`, against its bitmap,
-- and how it follows the changes that kernel/page.c makes to one or two bits.
use synos.Prelude.{
  ℕ, ◌+◌, ◌-◌, ◌≤◌, ◌<◌, ◌≡◌, refl, Bool, true, false, ◌||◌, Option, none, some, inl, inr, arith,
  ltb, ◌==◌, if◌then◌else◌, Bool-cases, ==→eq,
}
use synos.Page.State.{first_clear}
use synos.Page.Row.{
  clear_count, clear_count-congr, clear_count-set, clear_count-clear, clear_count_zero,
  clear_count_pos, IsFirst, Found, first_clear-Found,
}

-- The count is the number of clear bits, and the next free block is the first of them.
pub record RowOk (row : ℕ → Bool) (len count next : ℕ) : Type 0 where
  pub counted : count ≡ clear_count row len
  pub first : 0 < count → IsFirst row 0 len next

pub RowOk-eq :
    {row : ℕ → Bool} {len count next count' next' : ℕ}
    → count' ≡ count
    → next' ≡ next
    → RowOk row len count next
    → RowOk row len count' next'
RowOk-eq p q v = rw (p, q) v

pub RowOk-congr :
    (f g : ℕ → Bool) (len count next : ℕ)
    → ((j : ℕ) → j < len → g j ≡ f j)
    → RowOk f len count next
    → RowOk g len count next
RowOk-congr f g len count next same v = record {
  counted = omega (arith, v.counted, clear_count-congr f g len same);
  first = λ h.
      let w = v.first h in
      record {
        above = w.above;
        below = w.below;
        clear = same next w.below ∙' w.clear;
        before = λ x a b. same x (omega (arith, w.below)) ∙' w.before x a b;
      };
}
  where
    infixr 30 ◌∙'◌
    ◌∙'◌ : {a b c : Bool} → a ≡ b → b ≡ c → a ≡ c
    p ∙' q = cc

-- What a search that skips a set prefix finds.
abbrev pub search_next : (ℕ → Bool) → ℕ → ℕ → ℕ
search_next row len start = elim (first_clear row (len - start) start) [ none ↦ 0 | some i ↦ i ]

Found-IsFirst :
    (g : ℕ → Bool) (len start : ℕ) (o : Option ℕ)
    → start ≤ len
    → ((x : ℕ) → x < start → g x ≡ true)
    → 0 < clear_count g len
    → Found g (len - start) start o
    → (i : ℕ) × (o ≡ some i) × IsFirst g 0 len i
Found-IsFirst g len start none le full pos h = absurd (
    omega (
      arith,
      clear_count_zero g len λ x lt. elim (Bool-cases (ltb x start)) [
        | inl e ↦ full x (ground arith)
        | inr e ↦ h x (ground arith) (omega arith)
      ],
    ))
Found-IsFirst g len start (some i) le full pos h = (
  i,
  refl,
  record {
    above = omega arith;
    below = omega (arith, h.below);
    clear = h.clear;
    before = λ x a b. elim (Bool-cases (ltb x start)) [
      | inl e ↦ full x (ground arith)
      | inr e ↦ h.before x (ground arith) b
    ];
  },
)

-- If every bit below `start` is set and one further up is clear, the search finds the first.
pub first_clear-IsFirst :
    (g : ℕ → Bool) (len start : ℕ)
    → start ≤ len
    → ((x : ℕ) → x < start → g x ≡ true)
    → 0 < clear_count g len
    → (i : ℕ) × (first_clear g (len - start) start ≡ some i) × IsFirst g 0 len i
first_clear-IsFirst g len start le full pos =
    Found-IsFirst g len start (first_clear g (len - start) start) le full pos
      (first_clear-Found g (len - start) start)

module _ (f g : ℕ → Bool) (len count next : ℕ) (v : RowOk f len count next) where
  -- A free block is taken.
  pub RowOk-set :
      (n k : ℕ)
      → n < len
      → f n ≡ false
      → ((j : ℕ) → j < len → g j ≡ (if n == j then true else f j))
      → (0 < count - 1 → IsFirst g 0 len k)
      → RowOk g len (count - 1) k
  RowOk-set n k below clear same first = record {
    counted = omega (arith, v.counted, clear_count-set f g n len below clear same);
    first = first;
  }

  -- The first free block is taken.
  pub RowOk-take :
      (k : ℕ)
      → 0 < count
      → ((j : ℕ) → j < len → g j ≡ (if next == j then true else f j))
      → (0 < count - 1 → IsFirst g 0 len k)
      → RowOk g len (count - 1) k
  RowOk-take k pos same first = let w = v.first pos in RowOk-set next k w.below w.clear same first

  full_of_zero : (x : ℕ) → count ≡ 0 → x < len → f x ≡ true
  full_of_zero x empty lt = elim (Bool-cases (f x)) [
    | inl full ↦ full
    | inr clear ↦ absurd (omega (arith, v.counted, clear_count_pos f x len lt clear))
  ]

  -- Below a block that is to become the first one, every bit is set.
  full_below : (a x : ℕ) → a < len → (ltb a next || count == 0) ≡ true → x < a → f x ≡ true
  full_below a x lt new below = elim (Bool-cases (count == 0)) [
    | inl empty ↦ full_of_zero x (==→eq _ _ empty) (omega arith)
    | inr some_free ↦ (v.first (ground arith)).before x (omega arith) (ground arith)
  ]

  -- One set bit is cleared.
  pub RowOk-add :
      (a : ℕ)
      → a < len
      → f a ≡ true
      → ((j : ℕ) → j < len → g j ≡ (if a == j then false else f j))
      → RowOk g len (count + 1) (if ltb a next || count == 0 then a else next)
  RowOk-add a lt full same = record {
    counted = omega (arith, v.counted, clear_count-clear f g a len lt full same);
    first = λ pos. elim (Bool-cases (ltb a next || count == 0)) [
      | inl new ↦ rw new (record {
        above = omega arith;
        below = lt;
        clear = ground (arith, same a lt);
        before = λ x p below. ground (arith, same x, full_below a x lt new below);
      })
      | inr old ↦ rw old (keeps old (v.first (ground arith)))
    ];
  }
    where
      keeps : (ltb a next || count == 0) ≡ false → IsFirst f 0 len next → IsFirst g 0 len next
      keeps old w = record {
        above = w.above;
        below = w.below;
        clear = ground (arith, same next w.below, w.clear);
        before = λ x p below. ground (arith, same x, w.before x p below, w.below);
      }

-- Two set bits side by side are cleared.
pub RowOk-add_pair :
    (f g : ℕ → Bool) (len count next a : ℕ)
    → RowOk f len count next
    → a + 1 < len
    → f a ≡ true
    → f (a + 1) ≡ true
    → ((j : ℕ) → j < len → g j ≡ (if a + 1 == j then false else if a == j then false else f j))
    → RowOk g len (count + 2) (if ltb a next || count == 0 then a else next)
RowOk-add_pair f g len count next a v lt full full' same = rw (← next_lem) (rw (← add_two) second)
  where
    mid : ℕ → Bool
    mid j = if a == j then false else f j

    next1 : ℕ
    next1 = if ltb a next || count == 0 then a else next

    first : RowOk mid len (count + 1) next1
    first = RowOk-add f mid len count next v a (omega arith) full (λ j h. refl)

    second :
        RowOk g len (count + 1 + 1) (if ltb (a + 1) next1 || count + 1 == 0 then a + 1 else next1)
    second = RowOk-add mid g len (count + 1) next1 first (a + 1) lt (ground (arith, full')) same

    add_two : count + 1 + 1 ≡ count + 2
    add_two = omega arith

    next_lem : (if ltb (a + 1) next1 || count + 1 == 0 then a + 1 else next1) ≡ next1
    next_lem = ground arith
