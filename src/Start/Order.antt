-- ===== src/Start/Order.antt =====
-- kernel/system.c: what is ready when interrupts are enabled.
use synos.Prelude.{◌≡◌, refl, ◌∙◌, true, false}
use synos.Log.{Log}
use synos.Syscall.{syscall_init}
use synos.Start.State.{Kernel, Machine, going, halted, say, panic, info}
use synos.Start.Silent.{begun}
use synos.Start.{
  set_iflag, read_memid, mm_init, printk_init, check_cpu, say_memory, interrupts_up, ktime_init,
  before_interrupts, startup,
}
use synos.Start.Ensures.{
  Ensures, Ensures-bind, Ensures-option, Ensures-weaken, Off, goes, halted_inv, panic-Ensures,
  say-Reached, waits,
}
use synos.Start.Stages.{
  Now, arch_init-Now, check_cpu-Now, interrupts_up-Now, mm_init-Now, printk_init-Now,
  read_memid-Now, say-Now, say_memory-Now,
}

-- What is ready when interrupts are enabled: memory, the processor's identification, the
-- table of gates, and the table of system calls.
pub record Prepared (m : Machine) (k : Kernel) : Type 0 where
  pub memory : k.mmu_enabled ≡ true
  pub messages : k.log.enabled ≡ true
  pub processor : k.cpuinfo.enabled ≡ true
  pub gates : (k.interrupts.idtr_limit ≡ 0x1000) × (k.interrupts.idtr_offset ≡ m.handlers.table)
  pub calls : k.syscalls ≡ syscall_init m.sc_fnc

module _ (m : Machine) where
  start-Now : (k : Kernel) → Now false false false false m (begun k)
  start-Now k = record {
    off = refl;
    memory = λ e. cc;
    messages = λ e. cc;
    processor = λ e. cc;
    table = λ e. cc;
  }

  before_interrupts-Prepared : (k : Kernel) → Ensures (Prepared m) Off (before_interrupts m k)
  unfolding before_interrupts
  before_interrupts-Prepared k =
      let b1 = arch_init-Now false false false false m (begun k) (start-Now k) in
      let b2 = Ensures-bind _ _ Off _ read_memid b1 (read_memid-Now false false false false m) in
      let b3 = Ensures-bind _ _ Off _ (mm_init m) b2 (mm_init-Now false false false false m) in
      let b4 =
        Ensures-bind _ _ Off _ (printk_init m) b3 (printk_init-Now true false false false m) in
      let b5 =
        Ensures-bind _ _ Off _ (say m info "Starting version %s %s-%s" _) b4
          (say-Now true true false false m info "Starting version %s %s-%s" _) in
      let b6 = Ensures-bind _ _ Off _ (check_cpu m) b5 (check_cpu-Now true true false false m) in
      let b7 = Ensures-bind _ _ Off _ (say_memory m) b6 (say_memory-Now true true true false m) in
      let b8 =
        Ensures-bind _ _ Off _ (interrupts_up m) b7 (interrupts_up-Now true true true false m) in
      Ensures-bind _ (Prepared m) Off _ _ b8 λ k' r. goes _ (record {
        memory = r.memory refl;
        messages = r.messages refl;
        processor = r.processor refl;
        gates = r.table refl;
        calls = refl;
      })

  Safe : Kernel → Type 0
  Safe k = k.iflag ≡ true → Prepared m k

  Prepared-log :
      (k : Kernel) (l : Log)
      → l.enabled ≡ k.log.enabled
      → Prepared m k
      → Prepared m (record k { log = l })
  Prepared-log k l e p = record {
    memory = p.memory;
    messages = e ∙ p.messages;
    processor = p.processor;
    gates = p.gates;
    calls = p.calls;
  }

  ktime_init-Prepared : (k : Kernel) → Prepared m k → Ensures (Prepared m) Safe (ktime_init m k)
  unfolding ktime_init Safe
  ktime_init-Prepared k p = Ensures-option (Prepared m) Safe _ _ _ waits λ found.
      say-Reached (Prepared m) Safe m Prepared-log (λ k' p on. p) _ _ _ _
        (record {
          memory = p.memory;
          messages = p.messages;
          processor = p.processor;
          gates = p.gates;
          calls = p.calls;
        })

  startup-Safe : (k : Kernel) → Ensures (Prepared m) Safe (startup m k)
  unfolding startup Safe
  startup-Safe k =
      let b1 =
        Ensures-weaken (Prepared m) Off Safe (λ k' off on. cc) _ (before_interrupts-Prepared k) in
      let b2 =
        Ensures-bind (Prepared m) (Prepared m) Safe _ (λ k'. going (set_iflag true k')) b1
          (λ k' p. goes _ (record {
            memory = p.memory;
            messages = p.messages;
            processor = p.processor;
            gates = p.gates;
            calls = p.calls;
          })) in
      let b3 =
        Ensures-bind (Prepared m) (Prepared m) Safe _ (ktime_init m) b2 ktime_init-Prepared in
      Ensures-bind (Prepared m) (Prepared m) Safe _ (panic m _) b3
        (panic-Ensures (Prepared m) Safe m Prepared-log (λ k' p on. p) (Prepared m) _)

  -- When `startup` ends in a halt with interrupts enabled, whatever the machine, memory had been set
  -- up, messages were on, the processor had been identified, the table of gates was the one of the
  -- handlers, with its length, and the table of system calls was the initial one.
  pub startup-Prepared :
      (k : Kernel) {after : Kernel}
      → startup m k ≡ halted after
      → after.iflag ≡ true
      → Prepared m after
  unfolding Safe
  startup-Prepared k {after} ends on = halted_inv (Prepared m) Safe _ after (startup-Safe k) ends on
