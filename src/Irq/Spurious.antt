-- ===== src/Irq/Spurious.antt =====
-- arch/X86_64/interrupts/pic.c: which interrupts `PIC_SOI` takes for spurious ones.
use synos.Prelude.{ℕ, ◌%◌, ◌≤◌, ◌≡◌, ◌≢◌, refl, false, arith, ◌==◌, mask, bit_and-Masked, ne→==}
use synos.Io.{Device, outb}
use synos.Irq.Pic.{
  Pic, returned, left_interrupt, isr_master, isr_slave, pic_isr, pic_soi, count_spurious,
  pic1_command,
}

slave_ne : (isr : ℕ) → isr_slave isr ≢ 15
unfolding mask
slave_ne isr e = let a = bit_and-Masked 8 8 isr in omega (arith, a.value_eq, a.kept_lt, e)

master_mod : (isr : ℕ) → isr_master isr ≡ isr % 256
unfolding mask
master_mod isr =
    let a = bit_and-Masked 0 8 isr in omega (arith, a.parts, a.below_lt, a.kept_lt, a.value_eq)

-- The in-service bits that the controllers answer.
abbrev pub in_service : Device → Pic → ℕ
in_service device p = (pic_isr device p.trace).0

-- The state once they have been read.
abbrev pub asked : Device → Pic → Pic
asked device p = record p { trace = (pic_isr device p.trace).1 }

-- Every IRQ 15 is counted as spurious and never reaches its handler, whatever the controllers answer;
-- an IRQ 7 reaches its handler if the low byte of the answer is 7, and does not while its own
-- in-service bit, the highest of that byte, is set; the other IRQs go on unchanged.
pub pic_soi-Spurious :
    (device : Device) (p : Pic)
    → (pic_soi device 15 p
        ≡ left_interrupt (record (count_spurious (asked device p)) {
          trace = outb pic1_command 0x20 (pic_isr device p.trace).1;
        }))
      × (in_service device p % 256 ≡ 7 → pic_soi device 7 p ≡ returned (asked device p))
      × (128 ≤ in_service device p % 256
          → pic_soi device 7 p ≡ left_interrupt (count_spurious (asked device p)))
      × ((irq : ℕ) → irq ≢ 7 → irq ≢ 15 → pic_soi device irq p ≡ returned p)
unfolding pic_soi
pic_soi-Spurious device p = (
  (let other : (isr_slave (in_service device p) == 15) ≡ false =
        ne→== _ _ (slave_ne (in_service device p)) in
      rw other refl),
  (λ e. rw (master_mod (in_service device p), e) refl),
  (λ set.
      let other : (in_service device p % 256 == 7) ≡ false = ground (arith, set) in
      rw (master_mod (in_service device p), other) refl),
  (λ irq not_7 not_15. rw (ne→== irq 7 not_7, ne→== irq 15 not_15) refl),
)
