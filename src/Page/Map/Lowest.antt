-- ===== src/Page/Map/Lowest.antt =====
-- kernel/page.c: `order_max` finds the lowest set bit of a number of pages, and taking that bit off
-- leaves the higher orders as they were.
use synos.Prelude.{
  ℕ, zero, suc, ◌+◌, ◌-◌, ◌*◌, ◌/◌, ◌%◌, ◌^◌, ◌≤◌, ◌<◌, ◌≡◌, refl, ap, ◌∙◌, sym, inl, inr, arith,
  ◌==◌, Bool-cases, ==→eq,
}
use native.Mathlib.Numerals.{add-one}
use native.Mathlib.Nat.{pow-suc}
use synos.Page.Order.{max_order, free_area_length, order_max_loop, order_max}
use synos.Page.Alloc.{free_area_length-add}

abbrev pub EvenBelow : ℕ → ℕ → Type 0
EvenBelow p o = (j : ℕ) → j < o → free_area_length p j % 2 ≡ 0

-- `r` is the first order from `from` on whose number of blocks is odd, or MAX_ORDER - 1.
pub record IsLowest (p from r : ℕ) : Type 0 where
  pub top : r < max_order
  pub even : (j : ℕ) → from ≤ j → j < r → free_area_length p j % 2 ≡ 0
  pub odd : r < max_order - 1 → free_area_length p r % 2 ≡ 1

order_max_loop-IsLowest :
    (rounds from p : ℕ)
    → rounds + from ≡ max_order
    → IsLowest p from (order_max_loop rounds from (free_area_length p from))
unfolding order_max_loop free_area_length
order_max_loop-IsLowest zero from p e = record {
  top = omega arith;
  even = λ j a b. absurd (omega arith);
  odd = λ h. absurd (omega arith);
}
order_max_loop-IsLowest (suc rounds) from p e =
    let ih : IsLowest p (suc from)
        (order_max_loop rounds (suc from) (free_area_length p (suc from))) =
      order_max_loop-IsLowest rounds (suc from) p (omega arith) in
    elim (Bool-cases (free_area_length p from % 2 == 0)) [
      | inl even ↦
          rw (even, add-one from)
            (record {
              top = ih.top;
              even = λ j a b. elim (Bool-cases (from == j)) [
                | inl own ↦ rw (← ==→eq _ _ own) (==→eq _ _ even)
                | inr above ↦ ih.even j (ground arith) b
              ];
              odd = ih.odd;
            })
      | inr odd ↦ rw odd (record {
        top = omega arith;
        even = λ j a b. absurd (omega arith);
        odd = λ h. ground arith;
      })
    ]

pub order_max-IsLowest : (p : ℕ) → IsLowest p 0 (order_max p)
unfolding order_max free_area_length
order_max-IsLowest p = order_max_loop-IsLowest max_order 0 p refl

-- A multiple of 2 ^ o.
free_area_length-mul : (q o : ℕ) → free_area_length (q * 2 ^ o) o ≡ q
unfolding free_area_length
free_area_length-mul q zero = omega arith
free_area_length-mul q (suc o) =
    let e : q * 2 ^ suc o ≡ q * 2 * 2 ^ o = rw pow-suc (grind arith) in
    omega (arith, ap (λ x. free_area_length x o) e, free_area_length-mul (q * 2) o)

mul-EvenBelow : (q o : ℕ) → EvenBelow (q * 2 ^ o) o
unfolding free_area_length
mul-EvenBelow q zero j h = absurd (omega arith)
mul-EvenBelow q (suc o) j h =
    let e : q * 2 ^ suc o ≡ q * 2 * 2 ^ o = rw pow-suc (grind arith) in
    rw e (elim (Bool-cases (o == j)) [
      | inl own ↦ rw (← ==→eq _ _ own, free_area_length-mul (q * 2) o) (omega arith)
      | inr below ↦ mul-EvenBelow (q * 2) o j (ground arith)
    ])

even_times : (a h t t2 : ℕ) → t2 ≡ t * 2 → a ≡ h * 2 → a * t ≡ h * t2
even_times a h t t2 e e' = rw (e, e') (omega arith)

odd_times : (a h t t2 : ℕ) → t2 ≡ t * 2 → a ≡ h * 2 + 1 → a * t - t ≡ h * t2
odd_times a h t t2 e e' = rw (e, e') (omega arith)

EvenBelow-mul : (p o : ℕ) → EvenBelow p o → p ≡ free_area_length p o * 2 ^ o
unfolding free_area_length
EvenBelow-mul p zero even = omega arith
EvenBelow-mul p (suc o) even =
    EvenBelow-mul p o (λ j h. even j (omega arith))
    ∙ even_times (free_area_length p o) (free_area_length p o / 2) (2 ^ o) (2 ^ suc o) (pow-suc 2 o)
        halves
  where
    halves : free_area_length p o ≡ free_area_length p o / 2 * 2
    halves = omega (arith, even o (omega arith))

-- Without its lowest bit.
pub lowest_off :
    (p o : ℕ)
    → EvenBelow p o
    → free_area_length p o % 2 ≡ 1
    → EvenBelow (p - 2 ^ o) (suc o)
      × ((d : ℕ) → free_area_length (p - 2 ^ o) (suc o + d) ≡ free_area_length p (suc o + d))
unfolding free_area_length
lowest_off p o even odd = (
  rw off (mul-EvenBelow (free_area_length p o / 2) (suc o)),
  λ d.
      sym (free_area_length-add (p - 2 ^ o) (suc o) d)
      ∙ ap (λ x. free_area_length x d) at_next
      ∙ free_area_length-add p (suc o) d,
)
  where
    halves : free_area_length p o ≡ free_area_length p o / 2 * 2 + 1
    halves = omega (arith, odd)

    off : p - 2 ^ o ≡ free_area_length p o / 2 * 2 ^ suc o
    off =
        ap (λ (x : ℕ). x - 2 ^ o) (EvenBelow-mul p o even)
        ∙ odd_times (free_area_length p o) (free_area_length p o / 2) (2 ^ o) (2 ^ suc o)
            (pow-suc 2 o) halves

    at_next : free_area_length (p - 2 ^ o) (suc o) ≡ free_area_length p (suc o)
    at_next =
        ap (λ x. free_area_length x (suc o)) off
        ∙ free_area_length-mul (free_area_length p o / 2) (suc o)
