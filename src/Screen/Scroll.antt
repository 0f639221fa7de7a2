-- ===== src/Screen/Scroll.antt =====
-- arch/X86_64/printk.c: what `scroll` leaves on the screen.
use synos.Prelude.{
  ℕ, zero, suc, ◌+◌, ◌-◌, ◌*◌, ◌%◌, ◌^◌, ◌≤◌, ◌<◌, ◌≡◌, ◌∙◌, ◌&&◌, ltb, leb, if◌then◌else◌, update,
  arith, subst,
}
use synos.Screen.{Screen, char_entry, scroll_row, scroll_rows, blank_cells, scroll}
use synos.Screen.Cursor.{scroll-cursor}

next_row : (i w : ℕ) → (i + 1) * w ≡ i * w + w
next_row i w = grind arith

last_row : (h w : ℕ) → 0 < h → h * w ≡ (h - 1) * w + w
last_row zero w pos = absurd (omega arith)
last_row (suc h) w pos =
    let less : suc h - 1 ≡ h = omega arith in
    let more : suc h ≡ h + 1 = omega arith in rw (less, more) (next_row h w)

pub blank_cells_lem :
    (n entry at : ℕ) (buffer : ℕ → ℕ) (k : ℕ)
    → at + n ≤ 2 ^ 32
    → blank_cells n entry at buffer k ≡ (if leb at k && ltb k (at + n) then entry else buffer k)
unfolding blank_cells
blank_cells_lem zero entry at buffer k fits = ground arith
blank_cells_lem (suc n) entry at buffer k fits =
    let place : at % 2 ^ 32 ≡ at = omega arith in
    rw place
      (ground (arith, blank_cells_lem n entry (at + 1) (update buffer at entry) k (omega arith)))

copy_step :
    (b t w n k below : ℕ) (buffer : ℕ → ℕ)
    → 0 < w
    → below ≡ b + w + t
    → (if leb (b + (t + 1)) k && ltb k (b + (t + 1) + n)
        then update buffer (b + t) (buffer below) (k + w)
        else update buffer (b + t) (buffer below) k)
      ≡ (if leb (b + t) k && ltb k (b + t + suc n) then buffer (k + w) else buffer k)
copy_step b t w n k below buffer wide e = ground arith

-- The cells of a row from `t` on get those of the row below, at a width that is not 0.
scroll_row_lem :
    (n w i t : ℕ) (buffer : ℕ → ℕ) (k : ℕ)
    → 0 < w
    → (i + 1) * w + t + n ≤ 2 ^ 32
    → scroll_row n w i t buffer k
      ≡ (if leb (i * w + t) k && ltb k (i * w + t + n) then buffer (k + w) else buffer k)
unfolding scroll_row
scroll_row_lem zero w i t buffer k wide fits = ground arith
scroll_row_lem (suc n) w i t buffer k wide fits =
    let to : (i * w + t) % 2 ^ 32 ≡ i * w + t = omega (arith, next_row i w) in
    let from : ((i + 1) * w + t) % 2 ^ 32 ≡ (i + 1) * w + t = omega arith in
    rw (to, from)
      (scroll_row_lem n w i (t + 1) (update buffer (i * w + t) (buffer ((i + 1) * w + t))) k wide
          (omega arith)
        ∙ copy_step (i * w) t w n k ((i + 1) * w + t) buffer wide (omega (arith, next_row i w)))

-- The rows from `i` on, `n` of them, get the cells of the row below.
rows_step :
    (here after last w k : ℕ) (buffer moved : ℕ → ℕ)
    → after ≡ here + w
    → after ≤ last
    → moved k ≡ (if leb here k && ltb k after then buffer (k + w) else buffer k)
    → moved (k + w)
      ≡ (if leb here (k + w) && ltb (k + w) after then buffer (k + w + w) else buffer (k + w))
    → (if leb after k && ltb k last then moved (k + w) else moved k)
      ≡ (if leb here k && ltb k last then buffer (k + w) else buffer k)
rows_step here after last w k buffer moved e le at below = ground arith

scroll_rows_lem :
    (n w i : ℕ) (buffer : ℕ → ℕ) (k : ℕ)
    → 0 < w
    → (i + n + 1) * w ≤ 2 ^ 32
    → scroll_rows n w i buffer k
      ≡ (if leb (i * w) k && ltb k ((i + n) * w) then buffer (k + w) else buffer k)
unfolding scroll_rows
scroll_rows_lem zero w i buffer k wide fits =
    let same : i + 0 ≡ i = omega arith in rw same (ground arith)
scroll_rows_lem (suc n) w i buffer k wide fits =
    let inside : (i + 1) * w + 0 + w ≤ 2 ^ 32 =
      let below : (i + 1 + 1) * w ≤ (i + suc n + 1) * w = grind arith in
      omega (arith, next_row (i + 1) w, below, fits) in
    let on : (i + 1 + n + 1) * w ≤ 2 ^ 32 =
      let same : i + suc n + 1 ≡ i + 1 + n + 1 = omega arith in
      subst (λ x. x * w ≤ 2 ^ 32) same fits in
    let last : i + suc n ≡ i + 1 + n = omega arith in
    let far : (i + 1) * w ≤ (i + 1 + n) * w = grind arith in
    let moved : ℕ → ℕ = scroll_row w w i 0 buffer in
    let row : (j : ℕ)
        → moved j ≡ (if leb (i * w) j && ltb j ((i + 1) * w) then buffer (j + w) else buffer j) =
      λ j. ground (arith, scroll_row_lem w w i 0 buffer j wide inside, next_row i w) in
    rw last (
      scroll_rows_lem n w (i + 1) moved k wide on
      ∙ rows_step (i * w) ((i + 1) * w) ((i + 1 + n) * w) w k buffer moved (next_row i w) far
          (row k) (row (k + w)))

-- The rows have moved up by one, the last one is blank, what lies behind the screen is as before, and
-- the cursor stands one row higher.
pub record Scrolled (s after : Screen) : Type 0 where
  pub moved :
      (k : ℕ)
      → k < (s.height - 1) * s.width
      → after.display_buffer k ≡ s.display_buffer (k + s.width)
  pub blank :
      (k : ℕ)
      → (s.height - 1) * s.width ≤ k
      → k < s.height * s.width
      → after.display_buffer k ≡ char_entry s 0
  pub behind : (k : ℕ) → s.height * s.width ≤ k → after.display_buffer k ≡ s.display_buffer k
  pub cursor : after.cursor_pos ≡ s.cursor_pos - s.width

cell_step :
    (w base last all k entry : ℕ) (moved buffer : ℕ → ℕ)
    → base ≡ 0
    → all ≡ last + w
    → moved k ≡ (if leb base k && ltb k last then buffer (k + w) else buffer k)
    → (if leb last k && ltb k (last + w) then entry else moved k)
      ≡ (if ltb k last then buffer (k + w) else if ltb k all then entry else buffer k)
cell_step w base last all k entry moved buffer zero_base e at = ground arith

-- The cells of the screen after `scroll`.
scroll-cell :
    (s : Screen) (k : ℕ)
    → 0 < s.width
    → 0 < s.height
    → s.height * s.width < 2 ^ 32
    → (scroll s).display_buffer k ≡ (
        if ltb k ((s.height - 1) * s.width)
        then s.display_buffer (k + s.width)
        else if ltb k (s.height * s.width)
        then char_entry s 0
        else s.display_buffer k)
unfolding scroll
scroll-cell s k wide high fits =
    let w : ℕ = s.width in
    let moved : ℕ → ℕ = scroll_rows (s.height - 1) w 0 s.display_buffer in
    let all : s.height * w ≡ (s.height - 1) * w + w = last_row s.height w high in
    let first : 0 + (s.height - 1) ≡ s.height - 1 = omega arith in
    let start : 0 * w ≡ 0 = omega arith in
    let rows : moved k ≡ (
        if leb (0 * w) k && ltb k ((s.height - 1) * w)
        then s.display_buffer (k + w)
        else s.display_buffer k) =
      subst
        (λ n. moved k ≡ (
          if leb (0 * w) k && ltb k (n * w) then s.display_buffer (k + w) else s.display_buffer k))
        first
        (scroll_rows_lem (s.height - 1) w 0 s.display_buffer k wide (
          let count : 0 + (s.height - 1) + 1 ≡ s.height = omega arith in rw count (omega arith))) in
    blank_cells_lem w (char_entry s 0) ((s.height - 1) * w) moved k (omega (arith, all, fits))
    ∙ cell_step w (0 * w) ((s.height - 1) * w) (s.height * w) k (char_entry s 0) moved
        s.display_buffer start all rows

-- On a screen of some columns and rows, with less than 2 ^ 32 cells, whose cursor stands in the second row or below, at a position
-- of 16 bits, `scroll` moves every row up by one, blanks the last row, changes nothing behind the
-- screen, and takes the cursor up by one row.
pub scroll-Scrolled :
    (s : Screen)
    → 0 < s.width
    → 0 < s.height
    → s.height * s.width < 2 ^ 32
    → s.width ≤ s.cursor_pos
    → s.cursor_pos < 2 ^ 16
    → Scrolled s (scroll s)
scroll-Scrolled s wide high fits le small =
    let last : (s.height - 1) * s.width ≤ s.height * s.width =
      omega (arith, last_row s.height s.width high) in
    record {
      moved = λ k lt. ground (arith, scroll-cell s k wide high fits);
      blank = λ k low lt. ground (arith, scroll-cell s k wide high fits);
      behind = λ k low. ground (arith, scroll-cell s k wide high fits);
      cursor = scroll-cursor s wide le small;
    }
