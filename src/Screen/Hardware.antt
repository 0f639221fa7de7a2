-- ===== src/Screen/Hardware.antt =====
-- arch/X86_64/printk.c: the hardware cursor, as the registers of the text display hold it.
use synos.Prelude.{
  ℕ, ◌+◌, ◌*◌, ◌/◌, ◌%◌, ◌^◌, ◌<◌, ◌≡◌, List, [], ◌∷◌, ◌==◌, if◌then◌else◌, arith, mask,
  bit_and-Masked,
}
use Prim.Native.Nat.{bit_and}
use synos.Io.{output, input, wait, store, write_msr, read_msr, Trace}
use synos.Screen.{Screen, place_cursor, print_chars, arch_print}

-- The index register and the registers 0x0F and 0x0E of the display, which are reached at the ports
-- 0x3D4 and 0x3D5.
pub record Display : Type 0 where
  pub index : ℕ
  pub cursor_low : ℕ
  pub cursor_high : ℕ

set_register : Display → ℕ → Display
set_register d value =
    if d.index == 0x0F
    then record d { cursor_low = value }
    else if d.index == 0x0E
    then record d { cursor_high = value }
    else d

write_display : Display → ℕ → ℕ → Display
unfolding set_register
write_display d port value =
    if port == 0x3D4
    then record d { index = value }
    else if port == 0x3D5
    then set_register d value
    else d

-- The registers after the accesses of a trace.
display_of : Trace → Display
unfolding write_display
display_of [] = record { index = 0; cursor_low = 0; cursor_high = 0 }
display_of (output port value ∷ t) = write_display (display_of t) port value
display_of (input port ∷ t) = display_of t
display_of (wait ∷ t) = display_of t
display_of (store address value ∷ t) = display_of t
display_of (write_msr msr low high ∷ t) = display_of t
display_of (read_msr msr ∷ t) = display_of t

-- Where the display shows the cursor.
pub hardware_cursor : Trace → ℕ
unfolding display_of
hardware_cursor t = (display_of t).cursor_high * 2 ^ 8 + (display_of t).cursor_low

low_byte : (x : ℕ) → bit_and x 0xFF ≡ x % 256
unfolding mask
low_byte x =
    let m = bit_and-Masked 0 8 x in omega (arith, m.parts, m.below_lt, m.kept_lt, m.value_eq)

place_cursor_lem : (pos : ℕ) (t : Trace) → pos < 2 ^ 16 → hardware_cursor (place_cursor pos t) ≡ pos
unfolding hardware_cursor place_cursor
place_cursor_lem pos t small = rw (low_byte pos, low_byte (pos / 2 ^ 8)) (omega arith)

-- After `arch_print` of any text the display shows its cursor where `cursor_pos` says.
pub arch_print-hardware_cursor :
    (s : Screen) (str : List ℕ)
    → hardware_cursor (arch_print s str).ports ≡ (arch_print s str).cursor_pos
unfolding arch_print
arch_print-hardware_cursor s str =
    place_cursor_lem (arch_print s str).cursor_pos (print_chars s str).ports (omega arith)
