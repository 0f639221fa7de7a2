-- ===== src/Screen/Init.antt =====
-- arch/X86_64/printk.c: the colours, and how the screen is set up.
use synos.Prelude.{ℕ, ◌+◌, ◌*◌, ◌%◌, ◌^◌, ◌<◌, ◌≡◌, ◌≢◌, refl, Bool, true, false, [], arith}
use synos.Page.Regions.{Ending, returns, hangs, faults}
use synos.Paging.{Write}
use synos.Paging.Table.{vpage_no_cache, vpage_no_execute}
use synos.Paging.Virtual.{Virtual, vpages_map}
use synos.Multiboot.Init.{
  FramebufferType, Framebuffer, ega_text, indexed_color, direct_rgb, framebuffer_type_length,
}
use synos.Screen.{Screen, char_entry, clear_screen}
use synos.Screen.Scroll.{blank_cells_lem}
use synos.Screen.Cursor.{OnScreen}

-- `enum vga_color`
pub data VgaColor : Type 0 where
  black : VgaColor
  blue : VgaColor
  green : VgaColor
  cyan : VgaColor
  red : VgaColor
  magenta : VgaColor
  brown : VgaColor
  grey : VgaColor
  dark_grey : VgaColor
  bright_blue : VgaColor
  bright_green : VgaColor
  bright_cyan : VgaColor
  bright_red : VgaColor
  bright_magenta : VgaColor
  yellow : VgaColor
  white : VgaColor

-- The values of the constants.
unfoldable pub color_code : VgaColor → ℕ
color_code black = 0
color_code blue = 1
color_code green = 2
color_code cyan = 3
color_code red = 4
color_code magenta = 5
color_code brown = 6
color_code grey = 7
color_code dark_grey = 8
color_code bright_blue = 9
color_code bright_green = 10
color_code bright_cyan = 11
color_code bright_red = 12
color_code bright_magenta = 13
color_code yellow = 14
color_code white = 15

-- The variables as they are before the screen is set up.
unfoldable pub screen_at_start : Screen
unfolding color_code
screen_at_start = record {
  display_buffer = λ i. 0;
  width = 0;
  height = 0;
  fore_color = color_code white;
  back_color = color_code black;
  cursor_pos = 0;
  ports = [];
}

-- `display_buffer` at its new address, whose cells are `cells`, and the size.
unfoldable pub set_up_screen : (ℕ → ℕ) → Framebuffer → Screen → Screen
unfolding clear_screen
set_up_screen cells fb s =
    clear_screen (record s { display_buffer = cells; width = fb.width; height = fb.height })

-- `arch_printk_init`: whether it returns 0, the screen, and the virtual pages. `cells` are the cells
-- at an address.
unfoldable pub arch_printk_init :
    ℕ → Write → (ℕ → ℕ → ℕ) → Framebuffer → Screen → Virtual → Ending (Bool × Screen × Virtual)
unfolding set_up_screen vpages_map
arch_printk_init turns write cells fb s v =
    let mapped : Ending (Bool × Screen × Virtual) =
      elim (vpages_map turns write fb.address 2 (vpage_no_execute + vpage_no_cache) v) [
        | returns (address, v') ↦ returns (true, set_up_screen (cells address) fb s, v')
        | hangs ↦ hangs
        | faults ↦ faults
      ] in
    elim fb.type [
      | ega_text ↦ mapped
      | indexed_color ↦ returns (false, s, v)
      | direct_rgb ↦ returns (false, s, v)
      | framebuffer_type_length ↦ returns (false, s, v)
    ]

-- A blank screen of the framebuffer's size.
pub record Blank (fb : Framebuffer) (s : Screen) : Type 0 where
  pub on_screen : OnScreen fb.width fb.height s
  pub cells : (k : ℕ) → k < fb.width * fb.height → s.display_buffer k ≡ char_entry s 0

-- The screen that is set up, with less than 2 ^ 32 cells, is blank, with its cursor in the first cell.
pub set_up_screen-Blank :
    (cells : ℕ → ℕ) (fb : Framebuffer) (s : Screen)
    → 0 < fb.width * fb.height
    → fb.width * fb.height < 2 ^ 32
    → Blank fb (set_up_screen cells fb s)
unfolding set_up_screen clear_screen char_entry
set_up_screen-Blank cells fb s pos fits = record {
  on_screen = record { width = refl; height = refl; cursor = omega arith };
  cells = λ k lt.
      let all : fb.width * fb.height % 2 ^ 32 ≡ fb.width * fb.height = omega arith in
      rw all (
        ground
          (arith, blank_cells_lem (fb.width * fb.height) (char_entry s 0) 0 cells k (omega arith)));
}

other_type :
    (t : FramebufferType) (x y : Ending (Bool × Screen × Virtual))
    → t ≢ ega_text
    → (elim t [ ega_text ↦ x | indexed_color ↦ y | direct_rgb ↦ y | framebuffer_type_length ↦ y ])
      ≡ y
other_type ega_text x y other = absurd (other refl)
other_type indexed_color x y other = refl
other_type direct_rgb x y other = refl
other_type framebuffer_type_length x y other = refl

-- A framebuffer that is not in text mode is refused.
pub arch_printk_init-other :
    (turns : ℕ) (write : Write) (cells : ℕ → ℕ → ℕ) (fb : Framebuffer) (s : Screen) (v : Virtual)
    → fb.type ≢ ega_text
    → arch_printk_init turns write cells fb s v ≡ returns (false, s, v)
unfolding arch_printk_init
arch_printk_init-other turns write cells fb s v other = other_type fb.type _ _ other
