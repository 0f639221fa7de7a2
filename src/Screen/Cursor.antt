-- ===== src/Screen/Cursor.antt =====
-- arch/X86_64/printk.c: the cursor stays on the screen.
use synos.Prelude.{
  ℕ, zero, suc, ◌+◌, ◌-◌, ◌*◌, ◌/◌, ◌%◌, ◌^◌, ◌≤◌, ◌<◌, ◌≡◌, refl, ◌∙◌, List, [], ◌∷◌, true, false,
  leb, ◌==◌, Bool-cases, inl, inr, arith,
}
use synos.Screen.{Screen, scroll, clear_screen, scroll_rep, print_char, print_chars, arch_print}

-- A row less, from the quotient and the rest.
row_less :
    (p w q r : ℕ)
    → q * w + r ≡ p
    → r < w
    → w ≤ p
    → q < 2 ^ 16
    → (q + (2 ^ 32 - 1)) % 2 ^ 32 * w + r ≡ p - w
row_less p w zero r e lt le small = absurd (omega (arith, e))
row_less p w (suc q) r e lt le small =
    let less : (suc q + (2 ^ 32 - 1)) % 2 ^ 32 ≡ q = omega arith in rw less (omega (arith, e))

pub same_place : (p w : ℕ) → 0 < w → p / w * w + p % w ≡ p
same_place p w pos = grind arith

rest_lt : (p w : ℕ) → 0 < w → p % w < w
rest_lt p w pos = grind arith

quotient_le : (p w : ℕ) → 0 < w → p / w ≤ p
quotient_le p w pos = grind (arith, same_place p w pos)

row_up :
    (p w : ℕ) → 0 < w → w ≤ p → p < 2 ^ 16 → (p / w + (2 ^ 32 - 1)) % 2 ^ 32 * w + p % w ≡ p - w
row_up p w pos le small =
    row_less p w (p / w) (p % w) (same_place p w pos) (rest_lt p w pos) le
      (omega (arith, quotient_le p w pos))

-- The size and the place of the cursor.
pub record SameSize (s after : Screen) : Type 0 where
  pub width : after.width ≡ s.width
  pub height : after.height ≡ s.height

pub scroll-cursor :
    (s : Screen)
    → 0 < s.width
    → s.width ≤ s.cursor_pos
    → s.cursor_pos < 2 ^ 16
    → (scroll s).cursor_pos ≡ s.cursor_pos - s.width
unfolding scroll
scroll-cursor s pos le small = rw (row_up s.cursor_pos s.width pos le small) (omega arith)

scroll-SameSize : (s : Screen) → SameSize s (scroll s)
unfolding scroll
scroll-SameSize s = record { width = refl; height = refl }

scroll-lt : (s : Screen) → (scroll s).cursor_pos < 2 ^ 16
unfolding scroll
scroll-lt s = omega arith

-- On the screen.
pub record OnScreen (w h : ℕ) (s : Screen) : Type 0 where
  pub width : s.width ≡ w
  pub height : s.height ≡ h
  pub cursor : s.cursor_pos < w * h

-- Of that size, with a cursor of 16 bits.
pub record Sized (w h : ℕ) (s : Screen) : Type 0 where
  pub width : s.width ≡ w
  pub height : s.height ≡ h
  pub cursor : s.cursor_pos < 2 ^ 16

pub not_below : (a b : ℕ) → leb a b ≡ false → b < a
not_below a b h = ground arith

leb→le : (a b : ℕ) → leb a b ≡ true → a ≤ b
leb→le a b h = ground arith

one_row : (w h : ℕ) → 0 < h → w ≤ w * h
one_row w zero pos = absurd (omega arith)
one_row w (suc h) pos = omega arith

module _ (w h : ℕ) (wide : 0 < w) (high : 0 < h) where
  scroll-Sized : (s : Screen) → Sized w h s → Sized w h (scroll s)
  scroll-Sized s z = record {
    width = (scroll-SameSize s).width ∙ z.width;
    height = (scroll-SameSize s).height ∙ z.height;
    cursor = scroll-lt s;
  }

  cells : (s : Screen) → Sized w h s → s.width * s.height ≡ w * h
  cells s z = rw (z.width, z.height) refl

  scroll_rep-OnScreen :
      w * h ≤ 2 ^ 16
      → (rounds : ℕ) (s : Screen) → Sized w h s
      → s.cursor_pos ≤ rounds
      → OnScreen w h (scroll_rep rounds s)
  unfolding scroll_rep
  scroll_rep-OnScreen fits zero s z le = record {
    width = z.width;
    height = z.height;
    cursor = omega (arith, one_row w h high);
  }
  scroll_rep-OnScreen fits (suc rounds) s z le =
      let narrow : s.width * s.height % 2 ^ 32 ≡ s.width * s.height = omega (arith, cells s z) in
      rw narrow (elim (Bool-cases (leb (s.width * s.height) s.cursor_pos)) [
        | inr inside ↦ rw inside (record {
          width = z.width;
          height = z.height;
          cursor = omega (arith, not_below (s.width * s.height) s.cursor_pos inside, cells s z);
        })
        | inl outside ↦
            rw outside
              (scroll_rep-OnScreen fits rounds (scroll s) (scroll-Sized s z) (less outside))
      ])
    where
      less : leb (s.width * s.height) s.cursor_pos ≡ true → (scroll s).cursor_pos ≤ rounds
      less outside =
          let beyond : w * h ≤ s.cursor_pos =
            omega (arith, leb→le (s.width * s.height) s.cursor_pos outside, cells s z) in
          omega (
            arith,
            scroll-cursor s (omega (arith, z.width))
                (omega (arith, z.width, beyond, one_row w h high)) z.cursor,
            z.width,
            beyond,
            one_row w h high,
          )

  print_char-Sized : (s : Screen) (c : ℕ) → Sized w h s → Sized w h (print_char s c)
  unfolding print_char clear_screen
  print_char-Sized s c z = record {
    width = ground (arith, z.width);
    height = ground (arith, z.height);
    cursor = ground (arith, z.cursor);
  }

  OnScreen-Sized : w * h ≤ 2 ^ 16 → (s : Screen) → OnScreen w h s → Sized w h s
  OnScreen-Sized fits s o = record {
    width = o.width;
    height = o.height;
    cursor = omega (arith, o.cursor);
  }

  print_chars-OnScreen :
      w * h ≤ 2 ^ 16
      → (str : List ℕ) (s : Screen) → OnScreen w h s
      → OnScreen w h (print_chars s str)
  unfolding print_chars
  print_chars-OnScreen fits [] s o = o
  print_chars-OnScreen fits (c ∷ cs) s o =
      let z : Sized w h s = OnScreen-Sized fits s o in
      elim (Bool-cases (c == 0)) [
        | inl ends ↦ rw ends (scroll_rep-OnScreen fits s.cursor_pos s z (omega arith))
        | inr goes_on ↦ rw goes_on (
            print_chars-OnScreen fits cs _ (
              scroll_rep-OnScreen fits (print_char s c).cursor_pos (print_char s c)
                (print_char-Sized s c z) (omega arith)))
      ]

  -- On a screen of `w` columns and `h` rows, neither of them 0, with at most 2 ^ 16 cells, `arch_print`
  -- leaves the cursor on the screen when it was there: the scrolling ends in time, whatever is
  -- printed.
  pub arch_print-OnScreen :
      w * h ≤ 2 ^ 16
      → (str : List ℕ) (s : Screen) → OnScreen w h s
      → OnScreen w h (arch_print s str)
  unfolding arch_print
  arch_print-OnScreen fits str s o =
      let p : OnScreen w h (print_chars s str) = print_chars-OnScreen fits str s o in
      record {
        width = p.width;
        height = p.height;
        cursor =
            rw
              (same_place (print_chars s str).cursor_pos (print_chars s str).width
                (omega (arith, p.width)))
              (omega (arith, p.cursor, fits));
      }
