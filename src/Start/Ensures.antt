-- ===== src/Start/Ensures.antt =====
-- kernel/system.c: what holds when a part of the start goes on, and what when it halts.
use Prim.Native.String.{String}
use synos.Prelude.{
  ℕ, ◌≡◌, refl, ap, subst, Bool, true, false, Option, none, some, List, [], ◌∷◌, if◌then◌else◌,
  bytes_of, arith,
}
use synos.Page.Regions.{Ending, returns, hangs, faults}
use synos.Log.{Log, Arg, printk}
use synos.Start.State.{
  LogLevel, level_code, Kernel, Machine, Run, going, halted, waiting, crashed, ◌>>=◌, of_ending,
  say, print_frames, print_stack_trace, panic, text_length,
}

-- What holds when a part goes on, and what holds when it halts.
pub data Ensures (P Q : Kernel → Type 0) : Run → Type 0 where
  goes : (k : Kernel) → P k → Ensures P Q (going k)
  halts : (k : Kernel) → Q k → Ensures P Q (halted k)
  waits : Ensures P Q waiting
  crashes : Ensures P Q crashed

kernel_of : Kernel → Run → Kernel
kernel_of k (halted k') = k'
kernel_of k (going k') = k'
kernel_of k waiting = k
kernel_of k crashed = k

kernel_of-halted : (k' k : Kernel) → halted k' ≡ halted k → k' ≡ k
unfolding kernel_of
kernel_of-halted k' k e = ap (kernel_of k) e

module _ (P P' Q : Kernel → Type 0) where
  pub Ensures-bind :
      (r : Run) (f : Kernel → Run)
      → Ensures P Q r
      → ((k : Kernel) → P k → Ensures P' Q (f k))
      → Ensures P' Q (r >>= f)
  Ensures-bind (going k) f (goes _ p) h = h k p
  Ensures-bind (halted k) f (halts _ q) h = halts k q
  Ensures-bind waiting f e h = waits
  Ensures-bind crashed f e h = crashes

module _ (P Q : Kernel → Type 0) where
  pub Ensures-option :
      {A : Type 0} (o : Option A) (n : Run) (s : A → Run)
      → Ensures P Q n
      → ((a : A) → Ensures P Q (s a))
      → Ensures P Q (elim o [ none ↦ n | some a ↦ s a ])
  Ensures-option none n s hn hs = hn
  Ensures-option (some a) n s hn hs = hs a

  pub Ensures-of_ending :
      {A : Type 0} (e : Ending A) (f : A → Run)
      → ((a : A) → Ensures P Q (f a))
      → Ensures P Q (of_ending e f)
  Ensures-of_ending (returns a) f h = h a
  Ensures-of_ending hangs f h = waits
  Ensures-of_ending faults f h = crashes

  pub Ensures-if :
      (b : Bool) (x y : Run) → Ensures P Q x → Ensures P Q y → Ensures P Q (if b then x else y)
  Ensures-if true x y hx hy = hx
  Ensures-if false x y hx hy = hy

abbrev pub Off : Kernel → Type 0
Off k = k.iflag ≡ false

enabled-printk :
    (fresh : ℕ → ℕ) (loglevel frame level : ℕ) (str : ℕ → ℕ) (len : ℕ) (args : List Arg)
    (log log' : Log)
    → printk fresh loglevel frame level str len args log ≡ some log'
    → log'.enabled ≡ log.enabled
unfolding printk
enabled-printk fresh loglevel frame level str len args log log' h = ground arith

module _ (P Q Q' : Kernel → Type 0) where
  pub Ensures-weaken : ((k : Kernel) → Q k → Q' k) → (r : Run) → Ensures P Q r → Ensures P Q' r
  Ensures-weaken h (going k) (goes _ p) = goes k p
  Ensures-weaken h (halted k) (halts _ q) = halts k (h k q)
  Ensures-weaken h waiting e = waits
  Ensures-weaken h crashed e = crashes

module _ (P Q : Kernel → Type 0) where
  pub halted_inv : (r : Run) (k : Kernel) → Ensures P Q r → r ≡ halted k → Q k
  halted_inv (going k') k (goes _ p) e = cc
  halted_inv (halted k') k (halts _ q) e = subst Q (kernel_of-halted k' k e) q
  halted_inv waiting k h e = cc
  halted_inv crashed k h e = cc

  pub Ensures-test :
      (b : Bool) (x y : Run)
      → (b ≡ true → Ensures P Q x)
      → (b ≡ false → Ensures P Q y)
      → Ensures P Q (if b then x else y)
  Ensures-test true x y hx hy = hx refl
  Ensures-test false x y hx hy = hy refl

-- Messages and panics keep what a change of the log keeps.
module _ (Reached Q : Kernel → Type 0) (m : Machine)
    (keeps : (k : Kernel) (l : Log)
      → l.enabled ≡ k.log.enabled
      → Reached k
      → Reached (record k { log = l }))
    (ends : (k : Kernel) → Reached k → Q k) where
  said :
      (k : Kernel) (level : LogLevel) (str : String) (args : List Arg)
      → Reached k
      → (o : Option Log)
      → printk m.fresh m.loglevel m.frame
          (level_code level)
          (bytes_of str)
          (text_length str)
          args
          k.log
        ≡ o
      → Ensures Reached Q (elim o [ none ↦ crashed | some l ↦ going (record k { log = l }) ])
  said k level str args r none e = crashes
  said k level str args r (some l) e =
      goes _ (keeps k l (enabled-printk _ _ _ _ _ _ args k.log l e) r)

  pub say-Reached :
      (level : LogLevel) (str : String) (args : List Arg) (k : Kernel)
      → Reached k
      → Ensures Reached Q (say m level str args k)
  unfolding say
  say-Reached level str args k r = said k level str args r _ refl

  print_frames-Reached :
      (frames : List ℕ) (k : Kernel) → Reached k → Ensures Reached Q (print_frames m frames k)
  unfolding print_frames
  print_frames-Reached [] k r = goes k r
  print_frames-Reached (rip ∷ frames) k r =
      Ensures-bind Reached Reached Q _ _ (say-Reached _ _ _ k r)
        (λ k' r'. print_frames-Reached frames k' r')

  print_stack_trace-Reached : (k : Kernel) → Reached k → Ensures Reached Q (print_stack_trace m k)
  unfolding print_stack_trace
  print_stack_trace-Reached k r =
      Ensures-if Reached Q m.kdebug _ _
        (Ensures-bind Reached Reached Q _ _ (say-Reached _ _ _ k r)
          (λ k' r'. print_frames-Reached m.frames k' r'))
        (say-Reached _ _ _ k r)

  then_say :
      (u : Run) (level : LogLevel) (str : String) (args : List Arg)
      → Ensures Reached Q u
      → Ensures Reached Q (u >>= λ k'. say m level str args k')
  then_say u level str args e =
      Ensures-bind Reached Reached Q u _ e (λ k' r'. say-Reached level str args k' r')

  pub panic-Ensures :
      (P : Kernel → Type 0) (message : Arg) (k : Kernel)
      → Reached k
      → Ensures P Q (panic m message k)
  unfolding panic
  panic-Ensures P message k r =
      Ensures-bind Reached P Q _ _
        (then_say _ _ _ _ (
          then_say _ _ _ _ (
            then_say _ _ _ _ (
              then_say _ _ _ _ (
                then_say _ _ _ _ (
                  Ensures-bind Reached Reached Q _ _ (then_say _ _ _ _ (say-Reached _ _ _ k r))
                    (λ k' r'. print_stack_trace-Reached k' r')))))))
        (λ k' r'. halts k' (ends k' r'))
