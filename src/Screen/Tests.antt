-- ===== src/Screen/Tests.antt =====
-- The theorems applied to a full screen of 80 columns and 25 rows.
use synos.Prelude.{ℕ, ◌≡◌, refl, List, [], ◌∷◌, arith}
use synos.Screen.{Screen, arch_print, scroll}
use synos.Screen.Scroll.{Scrolled, scroll-Scrolled}
use synos.Screen.Text.{Printed, arch_print-Printed}
use synos.Screen.Hardware.{hardware_cursor, arch_print-hardware_cursor}
use synos.Screen.Cursor.{OnScreen, arch_print-OnScreen}

-- The cursor stands in the last cell.
abbrev full_screen : Screen
full_screen = record {
  display_buffer = λ i. 0;
  width = 80;
  height = 25;
  fore_color = 15;
  back_color = 0;
  cursor_pos = 1999;
  ports = [];
}

-- "A", a tab and a line feed.
abbrev keys : List ℕ
keys = 65 ∷ 9 ∷ 10 ∷ []

arch_print-OnScreen_example : OnScreen 80 25 (arch_print full_screen keys)
arch_print-OnScreen_example =
    arch_print-OnScreen 80 25 (omega arith) (omega arith) (omega arith) keys full_screen
      (record { width = refl; height = refl; cursor = omega arith })

-- Two characters on an empty screen.
abbrev empty_screen : Screen
empty_screen = record full_screen { cursor_pos = 0 }

arch_print-Printed_example :
    Printed empty_screen (65 ∷ 66 ∷ []) (arch_print empty_screen (65 ∷ 66 ∷ []))
arch_print-Printed_example =
    arch_print-Printed empty_screen (65 ∷ 66 ∷ [])
      (omega arith, omega arith, (omega arith, omega arith, tt)) (omega arith) (omega arith)
      (omega arith)

scroll-Scrolled_example : Scrolled full_screen (scroll full_screen)
scroll-Scrolled_example =
    scroll-Scrolled full_screen (omega arith) (omega arith) (omega arith) (omega arith)
      (omega arith)

arch_print-hardware_cursor_example :
    hardware_cursor (arch_print full_screen keys).ports ≡ (arch_print full_screen keys).cursor_pos
arch_print-hardware_cursor_example = arch_print-hardware_cursor full_screen keys
