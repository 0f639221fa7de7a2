-- ===== src/Page/Merge/Rounds.antt =====
-- kernel/page.c: `block_merge` from a free block with a free buddy, over all the orders above it.
use synos.Prelude.{
  ℕ, zero, suc, ◌+◌, ◌-◌, ◌*◌, ◌/◌, ◌%◌, ◌≤◌, ◌<◌, ◌≡◌, refl, sym, subst, true, false, inl, inr,
  arith, leb, ltb, ◌==◌, Bool-cases, ltb→lt, ltb→le,
}
use native.Mathlib.Numerals.{add-one}
use synos.Page.Order.{max_order, free_area_length}
use synos.Page.State.{BpaMap, block_check, blocks}
use synos.Page.Bitmap.{free_area_length-le-bits}
use synos.Page.Inv.{IsValid, Refines, Refines-trans}
use synos.Page.Merge.Valid.{merge_at-Refines}
use synos.Page.Buddy.{buddy_of, merge_at, block_merge_rounds, block_merge}

-- The block at `offset` and its buddy are both free blocks of the order.
pub record FreePair (map : BpaMap) (o offset : ℕ) : Type 0 where
  pub inside : offset / 2 * 2 + 1 < blocks map o
  pub left : block_check map o (offset / 2 * 2) ≡ false
  pub right : block_check map o (offset / 2 * 2 + 1) ≡ false

pub Refines-refl : (map : BpaMap) → IsValid map → Refines map map
Refines-refl map v = record { valid = v; pages = refl; kept = λ p f. f; added = λ p f. f }

-- A free block whose buddy's bit is clear: the buddy is a block too, since bits behind the last
-- block are set.
pub buddy-FreePair :
    (map : BpaMap) (o offset : ℕ)
    → IsValid map
    → o < max_order
    → offset < blocks map o
    → block_check map o offset ≡ false
    → block_check map o (buddy_of offset) ≡ false
    → FreePair map o offset
buddy-FreePair map o offset v h lt clear clear' = elim (Bool-cases (offset % 2 == 0)) [
  | inl even ↦
      let own : offset / 2 * 2 ≡ offset = ground arith in
      let other : block_check map o (offset + 1) ≡ false = rw even at clear' in
      record { inside = rw own (below own other); left = rw own clear; right = rw own other }
  | inr odd ↦
      let own : offset / 2 * 2 + 1 ≡ offset = ground arith in
      let before : offset - 1 ≡ offset / 2 * 2 = ground arith in
      let other : block_check map o (offset - 1) ≡ false = rw odd at clear' in
      record { inside = rw own lt; left = rw before at other; right = rw own clear }
]
  where
    below :
        offset / 2 * 2 ≡ offset → block_check map o (offset + 1) ≡ false → offset + 1 < blocks map o
    below own other = elim (Bool-cases (ltb (offset + 1) (blocks map o))) [
      | inl e ↦ ltb→lt _ _ e
      | inr e ↦
          let full : block_check map o (offset + 1) ≡ true =
            v.padded o (offset + 1) h (ltb→le _ _ e)
              (omega (arith, lt, own, free_area_length-le-bits map.pages o)) in
          ground (arith, full, other)
    ]

-- One round, in terms of the rounds for the order above.
module _ (rounds : ℕ) (map : BpaMap) (o offset : ℕ) where
  abbrev half : ℕ
  half = offset / 2

  abbrev merged : BpaMap
  merged = merge_at map o (half * 2)

  merge_top : max_order - 1 ≤ o → block_merge_rounds (suc rounds) map o offset ≡ map
  unfolding block_merge_rounds
  merge_top h = rw test refl
    where
      test : leb (max_order - 1) o ≡ true
      test = ground arith

  merge_stop :
      o < max_order - 1
      → block_check merged (suc o) (buddy_of half) ≡ true
      → block_merge_rounds (suc rounds) map o offset ≡ merged
  unfolding block_merge_rounds
  merge_stop h full = rw (add-one o, test, same, full) refl
    where
      test : leb (max_order - 1) o ≡ false
      test = ground arith

      same : half * 2 / 2 ≡ half
      same = omega arith

  merge_on :
      o < max_order - 1
      → block_check merged (suc o) (buddy_of half) ≡ false
      → block_merge_rounds (suc rounds) map o offset ≡ block_merge_rounds rounds merged (suc o) half
  unfolding block_merge_rounds
  merge_on h clear = rw (add-one o, test, same, clear) refl
    where
      test : leb (max_order - 1) o ≡ false
      test = ground arith

      same : half * 2 / 2 ≡ half
      same = omega arith

merge_rounds-Refines :
    (rounds : ℕ) (map : BpaMap) (o offset : ℕ)
    → IsValid map
    → o < max_order
    → FreePair map o offset
    → Refines map (block_merge_rounds rounds map o offset)
unfolding block_merge_rounds
merge_rounds-Refines zero map o offset v h pair = Refines-refl map v
merge_rounds-Refines (suc rounds) map o offset v h pair =
    elim (Bool-cases (leb (max_order - 1) o)) [
      | inl top ↦
          subst (Refines map) (sym (merge_top rounds map o offset (ground arith)))
            (Refines-refl map v)
      | inr under ↦
          let bound : suc o < max_order = ground arith in
          let (r, clear) =
            merge_at-Refines map v o bound (offset / 2) pair.inside pair.left pair.right in
          elim (Bool-cases
            (block_check (merge_at map o (offset / 2 * 2)) (suc o) (buddy_of (offset / 2)))) [
              | inl full ↦
                  subst (Refines map) (sym (merge_stop rounds map o offset (omega arith) full)) r
              | inr clear' ↦
                  subst (Refines map) (sym (merge_on rounds map o offset (omega arith) clear')) (
                    Refines-trans r (
                      merge_rounds-Refines rounds (merge_at map o (offset / 2 * 2)) (suc o)
                        (offset / 2) r.valid bound
                        (buddy-FreePair (merge_at map o (offset / 2 * 2)) (suc o) (offset / 2)
                          r.valid bound (below_half r) clear clear')))
            ]
    ]
  where
    below_half :
        Refines map (merge_at map o (offset / 2 * 2))
        → offset / 2 < blocks (merge_at map o (offset / 2 * 2)) (suc o)
    below_half r = rw r.pages (unfold free_area_length in omega (arith, pair.inside))

-- `block_merge` of a free block with a free buddy leaves a valid map with the same free pages.
pub block_merge-Refines :
    (map : BpaMap) (o offset : ℕ)
    → IsValid map
    → o < max_order
    → FreePair map o offset
    → Refines map (block_merge map o offset)
unfolding block_merge
block_merge-Refines map o offset v h pair = merge_rounds-Refines max_order map o offset v h pair
