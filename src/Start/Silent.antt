-- ===== src/Start/Silent.antt =====
-- kernel/system.c: starts that end before messages are on.
use synos.Prelude.{ℕ, ◌≡◌, ◌≢◌, refl, false, some, List, [], ◌∷◌, ne→==, Bool-cases, inl, inr}
use Prim.Native.String.{String}
use synos.Log.{Log, Arg, printk}
use synos.Multiboot.Init.{mboot_init, ega_text}
use synos.Screen.Init.{arch_printk_init-other}
use synos.Start.State.{
  LogLevel, level_code, Kernel, Machine, going, halted, ◌>>=◌, say, print_frames, print_stack_trace,
  panic, word, name_at, fatal, debug, warning,
}
use synos.Start.{
  set_iflag, load_sys_detect, arch_init, read_memid, mm_init, printk_init, before_interrupts,
  startup,
}

printk-off :
    (fresh : ℕ → ℕ) (loglevel frame level : ℕ) (str : ℕ → ℕ) (len : ℕ) (args : List Arg) (log : Log)
    → log.enabled ≡ false
    → printk fresh loglevel frame level str len args log ≡ some log
unfolding printk
printk-off fresh loglevel frame level str len args log off = rw off refl

module _ (m : Machine) where
  say-off :
      (level : LogLevel) (str : String) (args : List Arg) (k : Kernel)
      → k.log.enabled ≡ false
      → say m level str args k ≡ going k
  unfolding say
  say-off level str args k off =
      rw (say, printk-off m.fresh m.loglevel m.frame (level_code level) _ _ args k.log off) refl

  print_frames-off :
      (frames : List ℕ) (k : Kernel) → k.log.enabled ≡ false → print_frames m frames k ≡ going k
  unfolding print_frames
  print_frames-off [] k off = refl
  print_frames-off (rip ∷ frames) k off =
      rw (say-off fatal "\t0x%X    %s" (word rip ∷ name_at m rip ∷ []) k off)
        (print_frames-off frames k off)

  print_stack_trace-off : (k : Kernel) → k.log.enabled ≡ false → print_stack_trace m k ≡ going k
  unfolding print_stack_trace
  print_stack_trace-off k off = elim (Bool-cases m.kdebug) [
    | inl e ↦
        rw (e, say-off fatal "Stack trace (most recent call first):" [] k off)
          (print_frames-off m.frames k off)
    | inr e ↦ rw e (say-off _ _ _ k off)
  ]

  -- While messages are off, `panic` halts and changes nothing.
  panic-off : (message : Arg) (k : Kernel) → k.log.enabled ≡ false → panic m message k ≡ halted k
  unfolding panic
  panic-off message k off =
      rw
        (
          say-off fatal "The system kernel has encountered a panic!" [] k off,
          say-off fatal "Error message: %s" (message ∷ []) k off,
          print_stack_trace-off k off,
          say-off debug "Suspending all processes..." [] k off,
          say-off debug "Shutting down cores..." [] k off,
          say-off debug "All cores except core 0 disabled." [] k off,
          say-off debug "Process scheduler disabled, core passed to kernel." [] k off,
          say-off warning "System suspended" [] k off,
        )
        refl

-- The kernel's state as `startup` begins.
abbrev pub begun : Kernel → Kernel
begun k = set_iflag false (record k { interrupt_enabled = false })

-- Two ways not to reach the messages: another boot loader, and a screen that is not in text mode once
-- memory is set up. `after` is the state that is reached.
pub data Early (m : Machine) (k : Kernel) : Kernel → Type 0 where
  other_loader : m.mbm ≢ 0x2BADB002 → Early m k (begun k)
  no_text_screen :
      (after : Kernel)
      → (arch_init m (begun k) >>= read_memid >>= mm_init m) ≡ going after
      → after.boot.framebuffer.type ≢ ega_text
      → after.log.enabled ≡ false
      → Early m k after

load_sys_detect-other :
    (m : Machine) (k : Kernel)
    → m.mbm ≢ 0x2BADB002
    → k.log.enabled ≡ false
    → load_sys_detect m k ≡ halted k
unfolding load_sys_detect mboot_init
load_sys_detect-other m k other off = rw (load_sys_detect, ne→== _ _ other) (panic-off m _ k off)

printk_init-no_text :
    (m : Machine) (k : Kernel)
    → k.boot.framebuffer.type ≢ ega_text
    → k.log.enabled ≡ false
    → printk_init m k ≡ halted k
unfolding printk_init
printk_init-no_text m k other off =
    rw
      (
        printk_init,
        arch_printk_init-other m.turns m.write m.cells k.boot.framebuffer k.screen k.virtual other,
      )
      (panic-off m _ k off)

-- A start by another boot loader, and one on a screen that is not in text mode, whose memory could be
-- set up, both with messages off as they are at first, halt without any message: the state is the one
-- reached before, with interrupts disabled in the first case.
pub startup-Early :
    (m : Machine) (k : Kernel) {after : Kernel}
    → k.log.enabled ≡ false
    → Early m k after
    → startup m k ≡ halted after
unfolding startup before_interrupts arch_init
startup-Early m k off (other_loader other) = rw (load_sys_detect-other m (begun k) other off) refl
startup-Early m k off (no_text_screen after reached other still_off) =
    rw (reached, printk_init-no_text m after other still_off) refl
