-- ===== src/Screen.antt =====
-- arch/X86_64/printk.c: the text screen.
pub mod Cursor
pub mod Scroll
pub mod Hardware
pub mod Text
pub mod Init
mod Tests
use Prim.Native.Nat.{bit_and, bit_or}
use synos.Io.{Trace, outb}
use synos.Prelude.{
  ℕ, zero, suc, ◌+◌, ◌-◌, ◌*◌, ◌/◌, ◌%◌, ◌^◌, ◌&&◌, List, [], ◌∷◌, ltb, leb, ◌==◌, if◌then◌else◌,
  update,
}

-- `display_buffer`, `width`, `height`, `fore_color`, `back_color` and `cursor_pos`,
-- and what was written to the ports.
pub record Screen : Type 0 where
  pub display_buffer : ℕ → ℕ
  pub width : ℕ
  pub height : ℕ
  pub fore_color : ℕ
  pub back_color : ℕ
  pub cursor_pos : ℕ
  pub ports : Trace

-- `CharEntry`: `ah` is a byte, `ax` a word of 16 bits.
unfoldable pub char_entry : Screen → ℕ → ℕ
char_entry s ch =
    let ah = bit_or (s.back_color * 2 ^ 4 % 2 ^ 8) s.fore_color in bit_or (ah * 2 ^ 8 % 2 ^ 16) ch

abbrev pub cursor_x : Screen → ℕ
cursor_x s = s.cursor_pos % s.width

abbrev pub cursor_y : Screen → ℕ
cursor_y s = s.cursor_pos / s.width

-- The writes that place the hardware cursor.
unfoldable pub place_cursor : ℕ → Trace → Trace
place_cursor pos t =
    let t1 = outb 0x3D5 (bit_and pos 0xFF) (outb 0x3D4 0x0F t) in
    outb 0x3D5 (bit_and (pos / 2 ^ 8) 0xFF) (outb 0x3D4 0x0E t1)

-- `cursor_pos` has 16 bits.
abbrev pub set_cursor_pos : Screen → ℕ → ℕ → Screen
set_cursor_pos s x y =
    let pos = (y * s.width + x) % 2 ^ 16 in
    record s { cursor_pos = pos; ports = place_cursor pos s.ports }

-- One row of the first loop of `scroll`; `n` cells are left from `t` on. The places have 32 bits.
unfoldable pub scroll_row : ℕ → ℕ → ℕ → ℕ → (ℕ → ℕ) → ℕ → ℕ
scroll_row zero width i t buffer = buffer
scroll_row (suc n) width i t buffer =
    scroll_row n width i (t + 1)
      (update buffer ((i * width + t) % 2 ^ 32) (buffer (((i + 1) * width + t) % 2 ^ 32)))

-- The rows from `i` on, with `n` rows left.
unfoldable pub scroll_rows : ℕ → ℕ → ℕ → (ℕ → ℕ) → ℕ → ℕ
unfolding scroll_row
scroll_rows zero width i buffer = buffer
scroll_rows (suc n) width i buffer = scroll_rows n width (i + 1) (scroll_row width width i 0 buffer)

-- The cells from `at` on, `n` of them, get the same entry. The places have 32 bits.
unfoldable pub blank_cells : ℕ → ℕ → ℕ → (ℕ → ℕ) → ℕ → ℕ
blank_cells zero entry at buffer = buffer
blank_cells (suc n) entry at buffer =
    blank_cells n entry (at + 1) (update buffer (at % 2 ^ 32) entry)

-- `getCursorPosY()-1` wraps at 2 ^ 32.
unfoldable pub scroll : Screen → Screen
unfolding scroll_rows blank_cells
scroll s =
    let moved = scroll_rows (s.height - 1) s.width 0 s.display_buffer in
    let blanked = blank_cells s.width (char_entry s 0) ((s.height - 1) * s.width) moved in
    set_cursor_pos (record s { display_buffer = blanked }) (cursor_x s)
      ((cursor_y s + (2 ^ 32 - 1)) % 2 ^ 32)

unfoldable pub clear_screen : Screen → Screen
unfolding blank_cells
clear_screen s =
    set_cursor_pos
      (record s {
        display_buffer =
            blank_cells (s.width * s.height % 2 ^ 32) (char_entry s 0) 0 s.display_buffer;
      })
      0 0

-- The turns of `goto scrollRep`: each takes the cursor up by one row. A screen without columns or rows,
-- on which the code divides by 0 or does not end, is not meant.
unfoldable pub scroll_rep : ℕ → Screen → Screen
scroll_rep zero s = s
scroll_rep (suc rounds) s =
    let again = scroll_rep rounds (scroll s) in
    if leb (s.width * s.height % 2 ^ 32) s.cursor_pos then again else s

-- The characters with a case of their own, except the zero byte, which ends the loop.
unfoldable pub print_char : Screen → ℕ → Screen
print_char s c =
    if leb 32 c && leb c 126
    then record s {
      display_buffer = update s.display_buffer s.cursor_pos (char_entry s c);
      cursor_pos = (s.cursor_pos + 1) % 2 ^ 16;
    }
    else if c == 8
    then (if ltb 0 s.cursor_pos then record s { cursor_pos = s.cursor_pos - 1 } else s)
    else if c == 9
    then record s { cursor_pos = (s.cursor_pos + 4) % 2 ^ 16 }
    else if c == 10
    then set_cursor_pos s 0 (cursor_y s + 1)
    else if c == 11
    then set_cursor_pos s (cursor_x s) (cursor_y s + 1)
    else if c == 12
    then clear_screen s
    else if c == 13
    then set_cursor_pos s 0 (cursor_y s)
    else s

-- The loop over the characters. The cursor has at most 2 ^ 16 rows to climb; as many rounds as its
-- position are enough.
unfoldable pub print_chars : Screen → List ℕ → Screen
print_chars s [] = s
print_chars s (c ∷ cs) =
    let printed = print_char s c in
    let s' = scroll_rep printed.cursor_pos printed in
    let ended = scroll_rep s.cursor_pos s in
    let rest = print_chars s' cs in if c == 0 then ended else rest

-- `arch_print` of the `length` characters of `str`.
unfoldable pub arch_print : Screen → List ℕ → Screen
unfolding print_chars
arch_print s str =
    let printed = print_chars s str in set_cursor_pos printed (cursor_x printed) (cursor_y printed)
