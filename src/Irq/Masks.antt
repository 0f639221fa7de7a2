-- ===== src/Irq/Masks.antt =====
-- arch/X86_64/interrupts/pic.c against what the documentation of the 8259 says a controller makes of
-- the bytes that are written to it.
use synos.Prelude.{ℕ, ◌+◌, ◌*◌, ◌/◌, ◌%◌, ◌≡◌, refl, sym, ap, ◌==◌, if◌then◌else◌, [], ◌∷◌}
use synos.Io.{Trace, Device, output, input, wait, store, write_msr, read_msr}
use synos.Irq.Pic.{
  Pic, pic1_command, pic1_data, pic2_command, pic2_data, pic_irq_save, pic_irq_kill,
  pic_irq_restore,
}

-- A controller: the initialization word that it expects next, 0 for none, the words that it has been
-- given, and its interrupt mask.
pub record Chip : Type 0 where
  pub expects : ℕ
  pub vector : ℕ
  pub cascade : ℕ
  pub mode : ℕ
  pub masked : ℕ

-- A byte written to the command port: bit 4 starts the initialization, which clears the mask.
abbrev pub command_written : Chip → ℕ → Chip
command_written c value = if value / 16 % 2 == 1 then record c { expects = 2; masked = 0 } else c

-- A byte written to the data port. In 8086 mode the offset has the upper five bits of the first word.
abbrev pub data_written : Chip → ℕ → Chip
data_written c value =
    if c.expects == 2
    then record c { expects = 3; vector = value / 8 * 8 }
    else if c.expects == 3
    then record c { expects = 4; cascade = value }
    else if c.expects == 4
    then record c { expects = 0; mode = value }
    else record c { masked = value }

-- The controller with a command port after the accesses, from what it was at the start.
unfoldable pub chip : ℕ → Chip → Trace → Chip
chip command c [] = c
chip command c (output port value ∷ t) =
    let before = chip command c t in
    if port == command
    then command_written before value
    else if port == command + 1
    then data_written before value
    else before
chip command c (input port ∷ t) = chip command c t
chip command c (wait ∷ t) = chip command c t
chip command c (store address value ∷ t) = chip command c t
chip command c (write_msr msr low high ∷ t) = chip command c t
chip command c (read_msr msr ∷ t) = chip command c t

-- The data ports answer the masks.
pub record Answers (device : Device) (c1 c2 : Chip) : Type 0 where
  pub master : (t : Trace) → device t pic1_data ≡ (chip pic1_command c1 t).masked
  pub slave : (t : Trace) → device t pic2_data ≡ (chip pic2_command c2 t).masked

settled : (c : Chip) → c.expects ≡ 0 → record c { expects = 0 } ≡ c
settled c e = ap (λ n. record c { expects = n }) (sym e)

module _ (device : Device) (c1 c2 : Chip) (answers : Answers device c1 c2) (p : Pic) where
  -- The masks after `PIC_IRQ_save`, `PIC_IRQ_kill` and `PIC_IRQ_restore` are those from before, and all
  -- ones in between, when no initialization is under way.
  pub pic_irq_restore-pic_irq_save :
      (chip pic1_command c1 p.trace).expects ≡ 0
      → (chip pic2_command c2 p.trace).expects ≡ 0
      → ((chip pic1_command c1 (pic_irq_kill (pic_irq_save device p)).trace).masked ≡ 255)
        × ((chip pic2_command c2 (pic_irq_kill (pic_irq_save device p)).trace).masked ≡ 255)
        × (chip pic1_command c1 (pic_irq_restore (pic_irq_kill (pic_irq_save device p))).trace
            ≡ chip pic1_command c1 p.trace)
        × (chip pic2_command c2 (pic_irq_restore (pic_irq_kill (pic_irq_save device p))).trace
            ≡ chip pic2_command c2 p.trace)
  unfolding pic_irq_save pic_irq_kill pic_irq_restore chip
  pic_irq_restore-pic_irq_save ready1 ready2 = (
    rw ready1 refl,
    rw ready2 refl,
    rw (ready1, answers.master p.trace) (settled _ ready1),
    rw (ready2, answers.slave (input pic1_data ∷ p.trace)) (settled _ ready2),
  )
