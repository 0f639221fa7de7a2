-- ===== src/Screen/Text.antt =====
-- arch/X86_64/printk.c: printable text that fits on the screen.
use synos.Prelude.{
  ℕ, zero, suc, ◌+◌, ◌*◌, ◌/◌, ◌%◌, ◌^◌, ◌≤◌, ◌<◌, ◌≡◌, refl, ◌∙◌, ap, List, [], ◌∷◌, true, false,
  ◌&&◌, leb, ◌==◌, update, arith,
}
use synos.Screen.{Screen, char_entry, scroll_rep, print_char, print_chars, arch_print}
use synos.Screen.Cursor.{same_place}

abbrev pub length : List ℕ → ℕ
length [] = 0
length (c ∷ cs) = suc (length cs)

-- The characters from ' ' to '~'.
abbrev pub Printable : List ℕ → Type 0
Printable [] = Unit
Printable (c ∷ cs) = (32 ≤ c) × (c ≤ 126) × Printable cs

-- `str[i]`
abbrev pub byte_at : List ℕ → ℕ → ℕ
byte_at [] i = 0
byte_at (c ∷ cs) zero = c
byte_at (c ∷ cs) (suc i) = byte_at cs i

-- `after` is the screen with the text at its cursor and the cursor behind it; the other cells and the
-- size stay.
pub record Printed (s : Screen) (str : List ℕ) (after : Screen) : Type 0 where
  pub text :
      (i : ℕ)
      → i < length str
      → after.display_buffer (s.cursor_pos + i) ≡ char_entry s (byte_at str i)
  pub before : (k : ℕ) → k < s.cursor_pos → after.display_buffer k ≡ s.display_buffer k
  pub behind : (k : ℕ) → s.cursor_pos + length str ≤ k → after.display_buffer k ≡ s.display_buffer k
  pub cursor : after.cursor_pos ≡ s.cursor_pos + length str
  pub width : after.width ≡ s.width
  pub height : after.height ≡ s.height

-- The entries of the characters from the place `at` on, and the cells of `buffer` elsewhere.
entries : Screen → List ℕ → ℕ → (ℕ → ℕ) → ℕ → ℕ
entries s [] at buffer = buffer
entries s (c ∷ cs) at buffer = entries s cs (at + 1) (update buffer at (char_entry s c))

-- As `Printed` below, with the cells as a chain of updates.
record Put (s : Screen) (str : List ℕ) (after : Screen) : Type 0 where
  text : after.display_buffer ≡ entries s str s.cursor_pos s.display_buffer
  cursor : after.cursor_pos ≡ s.cursor_pos + length str
  width : after.width ≡ s.width
  height : after.height ≡ s.height
  fore : after.fore_color ≡ s.fore_color
  back : after.back_color ≡ s.back_color

scroll_rep-stays :
    (rounds : ℕ) (s : Screen)
    → s.width * s.height ≤ 2 ^ 16
    → s.cursor_pos < s.width * s.height
    → scroll_rep rounds s ≡ s
unfolding scroll_rep
scroll_rep-stays zero s fits lt = refl
scroll_rep-stays (suc rounds) s fits lt =
    let e : leb (s.width * s.height % 2 ^ 32) s.cursor_pos ≡ false = ground arith in rw e refl

-- The screen after one printable character.
abbrev typed : Screen → ℕ → Screen
typed s c = record s {
  display_buffer = update s.display_buffer s.cursor_pos (char_entry s c);
  cursor_pos = (s.cursor_pos + 1) % 2 ^ 16;
}

print_char-typed : (s : Screen) (c : ℕ) → 32 ≤ c → c ≤ 126 → print_char s c ≡ typed s c
unfolding print_char
print_char-typed s c low high = let e : (leb 32 c && leb c 126) ≡ true = ground arith in rw e refl

print_chars-step :
    (s : Screen) (c : ℕ) (cs : List ℕ)
    → 32 ≤ c
    → c ≤ 126
    → s.width * s.height ≤ 2 ^ 16
    → s.cursor_pos + 1 < s.width * s.height
    → s.cursor_pos + 1 < 2 ^ 16
    → print_chars s (c ∷ cs) ≡ print_chars (typed s c) cs
unfolding print_chars
print_chars-step s c cs low high fits inside small =
    let e : (c == 0) ≡ false = ground arith in
    rw
      (
        e,
        print_char-typed s c low high,
        scroll_rep-stays (typed s c).cursor_pos (typed s c) fits (omega arith),
      )
      refl

entries-typed :
    (s : Screen) (c : ℕ) (cs : List ℕ) (at : ℕ) (buffer : ℕ → ℕ)
    → entries (typed s c) cs at buffer ≡ entries s cs at buffer
unfolding entries char_entry
entries-typed s c [] at buffer = refl
entries-typed s c (d ∷ cs) at buffer =
    entries-typed s c cs (at + 1) (update buffer at (char_entry s d))

print_chars-Put :
    (str : List ℕ) (s : Screen)
    → Printable str
    → s.width * s.height ≤ 2 ^ 16
    → s.cursor_pos + length str < s.width * s.height
    → Put s str (print_chars s str)
unfolding print_chars entries
print_chars-Put [] s p fits room = record {
  text = refl;
  cursor = omega arith;
  width = refl;
  height = refl;
  fore = refl;
  back = refl;
}
print_chars-Put (c ∷ cs) s (low, high, p) fits room =
    let next : (s.cursor_pos + 1) % 2 ^ 16 ≡ s.cursor_pos + 1 = omega arith in
    let r : Put (typed s c) cs (print_chars (typed s c) cs) =
      print_chars-Put cs (typed s c) p fits (omega arith) in
    rw (print_chars-step s c cs low high fits (omega arith) (omega arith)) (record {
      text =
          r.text
          ∙ entries-typed s c cs _ _
          ∙ ap (λ at. entries s cs at (update s.display_buffer s.cursor_pos (char_entry s c))) next;
      cursor = omega (arith, r.cursor);
      width = r.width;
      height = r.height;
      fore = r.fore;
      back = r.back;
    })

entries-before :
    (s : Screen) (str : List ℕ) (at : ℕ) (buffer : ℕ → ℕ) (k : ℕ)
    → k < at
    → entries s str at buffer k ≡ buffer k
unfolding entries
entries-before s [] at buffer k lt = refl
entries-before s (c ∷ cs) at buffer k lt =
    entries-before s cs (at + 1) (update buffer at (char_entry s c)) k (omega arith) ∙ ground arith

entries-behind :
    (s : Screen) (str : List ℕ) (at : ℕ) (buffer : ℕ → ℕ) (k : ℕ)
    → at + length str ≤ k
    → entries s str at buffer k ≡ buffer k
unfolding entries
entries-behind s [] at buffer k le = refl
entries-behind s (c ∷ cs) at buffer k le =
    entries-behind s cs (at + 1) (update buffer at (char_entry s c)) k (omega arith) ∙ ground arith

entries-at :
    (s : Screen) (str : List ℕ) (at : ℕ) (buffer : ℕ → ℕ) (i : ℕ)
    → i < length str
    → entries s str at buffer (at + i) ≡ char_entry s (byte_at str i)
unfolding entries
entries-at s [] at buffer i lt = absurd (omega arith)
entries-at s (c ∷ cs) at buffer zero lt =
    entries-before s cs (at + 1) (update buffer at (char_entry s c)) (at + 0) (omega arith)
    ∙ ground arith
entries-at s (c ∷ cs) at buffer (suc i) lt =
    let place : at + suc i ≡ at + 1 + i = omega arith in
    rw place (entries-at s cs (at + 1) (update buffer at (char_entry s c)) i (omega arith))

-- On a screen of some columns and at most 2 ^ 16 cells, `arch_print` of printable characters for which
-- there is room behind the cursor, with a cell to spare, writes their entries from the cursor on and
-- moves the cursor behind them; the other cells, the width and the height stay as they are.
pub arch_print-Printed :
    (s : Screen) (str : List ℕ)
    → Printable str
    → 0 < s.width
    → s.width * s.height ≤ 2 ^ 16
    → s.cursor_pos + length str < s.width * s.height
    → Printed s str (arch_print s str)
unfolding arch_print
arch_print-Printed s str p wide fits room =
    let r : Put s str (print_chars s str) = print_chars-Put str s p fits room in
    let at : (k : ℕ)
        → (print_chars s str).display_buffer k ≡ entries s str s.cursor_pos s.display_buffer k =
      λ k. ap (λ f. f k) r.text in
    let stays : (print_chars s str).cursor_pos
            / (print_chars s str).width
            * (print_chars s str).width
          + (print_chars s str).cursor_pos % (print_chars s str).width
        ≡ (print_chars s str).cursor_pos =
      same_place (print_chars s str).cursor_pos (print_chars s str).width
        (omega (arith, r.width)) in
    record {
      text = λ i lt. at (s.cursor_pos + i) ∙ entries-at s str s.cursor_pos s.display_buffer i lt;
      before = λ k lt. at k ∙ entries-before s str s.cursor_pos s.display_buffer k lt;
      behind = λ k le. at k ∙ entries-behind s str s.cursor_pos s.display_buffer k le;
      cursor = rw stays (omega (arith, r.cursor));
      width = r.width;
      height = r.height;
    }
