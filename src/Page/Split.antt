-- ===== src/Page/Split.antt =====
-- kernel/page.c: splitting the first free block of an order (the first branch of `block_split`).
-- `u` is the order of the halves and `suc u` that of the block.
pub mod Block
pub mod Valid
use synos.Prelude.{
  ℕ, zero, suc, ◌+◌, ◌-◌, ◌*◌, ◌/◌, ◌^◌, ◌<◌, ◌≡◌, refl, sym, ap, ◌∙◌, Bool, true, false, ◌||◌, inl,
  inr, arith, ltb, ◌==◌, if◌then◌else◌, update, Bool-cases, add64,
}
use synos.Page.Order.{max_order, free_area_length}
use synos.Page.State.{
  BpaMap, bit_at, put_bit, drop_bit, block_check, block_set, block_clear, blocks,
}
use synos.Page.Row.{clear_count-set, IsFirst}
use synos.Page.Bitmap.{
  bitmap_bytes, Inside, free_area_length-le-bits, free_area_length-le, bit_at-put_bit,
  bit_at-drop_bit,
}
use synos.Page.Inv.{IsValid, pages_free-lt, IsTaken, advance_lem}
use synos.Page.Buddy.{advance, add_halves, split_first}

-- Going up one order first or last is the same.
pub free_area_length-half : (i d : ℕ) → free_area_length (i / 2) d ≡ free_area_length i (suc d)
unfolding free_area_length
free_area_length-half i zero = refl
free_area_length-half i (suc d) = omega (arith, free_area_length-half i d)

-- The bitmap of a higher order has a bit for every block that lies in the one below.
pub Inside_up :
    (pages a d i : ℕ)
    → i < 8 * bitmap_bytes pages a
    → free_area_length i d < 8 * bitmap_bytes pages (a + d)
unfolding free_area_length bitmap_bytes
Inside_up pages a zero i h = let e : a + 0 ≡ a = omega arith in rw e h
Inside_up pages a (suc d) i h =
    let e : a + suc d ≡ suc (a + d) = omega arith in rw e (omega (arith, Inside_up pages a d i h))

module _ (map : BpaMap) (v : IsValid map) (u : ℕ) (bound : suc u < max_order)
    (pos : 0 < map.pages_free (suc u)) where
  abbrev n : ℕ
  n = map.next_free_page (suc u)

  abbrev table : ℕ → ℕ
  table =
      drop_bit (drop_bit (put_bit map.table map.free_area (suc u) n) map.free_area u (n * 2))
        map.free_area u (n * 2 + 1)

  first_lem : IsFirst (block_check map (suc u)) 0 (blocks map (suc u)) n
  first_lem = (v.rows (suc u) bound).first pos

  halves_below : n * 2 + 1 < blocks map u
  unfolding free_area_length
  halves_below = omega (arith, first_lem.below)

  -- Every bit of every order after the split.
  split_bits :
      (o j : ℕ)
      → Inside map.pages o j
      → bit_at table map.free_area o j ≡ (
          if u == o
          then if n * 2 + 1 == j then false else if n * 2 == j then false else block_check map o j
          else if suc u == o
          then if n == j then true else block_check map o j
          else block_check map o j)
  split_bits o j h = ground (
    arith,
    bit_at-drop_bit map.free_area map.pages v.apart
        (drop_bit (put_bit map.table map.free_area (suc u) n) map.free_area u (n * 2)) u (n * 2 + 1)
        o j inside_half h,
    bit_at-drop_bit map.free_area map.pages v.apart (put_bit map.table map.free_area (suc u) n) u
        (n * 2) o j inside_even h,
    bit_at-put_bit map.free_area map.pages v.apart map.table (suc u) n o j inside_n h,
  )
    where
      inside_n : Inside map.pages (suc u) n
      inside_n = (bound, omega (arith, first_lem.below, free_area_length-le-bits map.pages (suc u)))

      inside_half : Inside map.pages u (n * 2 + 1)
      inside_half = (omega arith, omega (arith, halves_below, free_area_length-le-bits map.pages u))

      inside_even : Inside map.pages u (n * 2)
      inside_even = (omega arith, omega (arith, inside_half.1))

  abbrev nearer : Bool
  nearer = ltb (n * 2) (map.next_free_page u) || map.pages_free u == 0

  abbrev halves : BpaMap
  halves = record map {
    table = table;
    pages_free = update map.pages_free u (map.pages_free u + 2);
    next_free_page = if nearer then update map.next_free_page u (n * 2) else map.next_free_page;
  }

  abbrev split_map : ℕ → BpaMap
  split_map k = record map {
    table = table;
    pages_free =
        update (update map.pages_free u (map.pages_free u + 2)) (suc u)
          (map.pages_free (suc u) - 1);
    next_free_page =
        update (if nearer then update map.next_free_page u (n * 2) else map.next_free_page) (suc u)
          k;
  }

  -- The bits of the block's own order.
  own_bits :
      (j : ℕ)
      → j < blocks map (suc u)
      → bit_at table map.free_area (suc u) j ≡ (if n == j then true else block_check map (suc u) j)
  own_bits j h = ground (
    arith,
    split_bits (suc u) j (bound, omega (arith, h, free_area_length-le-bits map.pages (suc u))),
  )

  add_halves_lem :
      add_halves
        (block_clear
          (block_clear (block_set map (suc u) n) (suc u - 1) (n * 2))
          (suc u - 1)
          (n * 2 + 1))
        (suc u)
      ≡ halves
  add_halves_lem =
      rw (less_one, two_more) (elim (Bool-cases nearer) [ inl e ↦ rw e | inr e ↦ rw e ])
    where
      less_one : suc u - 1 ≡ u
      less_one = omega arith

      two_more : add64 (map.pages_free u) 2 ≡ map.pages_free u + 2
      two_more = omega (arith, pages_free-lt map v u (omega arith))

  split_first-advance : split_first map (suc u) ≡ advance halves (suc u)
  unfolding split_first
  split_first-advance = ap (λ m. advance m (suc u)) add_halves_lem

  halves-next : halves.next_free_page (suc u) ≡ n
  halves-next = ground arith

  halves-count : halves.pages_free (suc u) ≡ map.pages_free (suc u)
  halves-count = ground arith

  halves-IsTaken : IsTaken halves (suc u)
  halves-IsTaken = record {
    small = rw halves-count (pages_free-lt map v (suc u) bound);
    counted = rw halves-count (
        (v.rows (suc u) bound).counted
        ∙ sym (
            clear_count-set (block_check map (suc u)) (bit_at table map.free_area (suc u)) n
              (blocks map (suc u)) first_lem.below first_lem.clear own_bits));
    below = rw halves-next first_lem.below;
    short = omega (arith, free_area_length-le map.pages (suc u), v.small);
    full =
        rw halves-next
          λ x h. ground (arith, own_bits x (omega (arith, h, first_lem.below)), first_lem.before x);
  }

  split_first_lem :
      (k : ℕ) × (split_first map (suc u) ≡ split_map k)
      × (0 < map.pages_free (suc u) - 1
          → IsFirst (bit_at table map.free_area (suc u)) 0 (blocks map (suc u)) k)
  split_first_lem =
      let (k, a) = advance_lem halves (suc u) halves-IsTaken in
      (k, split_first-advance ∙ a.result ∙ rw halves-count refl, rw halves-count at a.first)
