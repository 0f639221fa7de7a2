-- ===== src/Spinlock.antt =====
-- mutils/impl/spinlock.c: a lock word that is 0 when free.
use synos.Prelude.{ℕ, Bool, true, false, Option, none, some, ◌==◌, if◌then◌else◌}

-- `atomic_compare_exchange`: whether it exchanged, and the new value.
unfoldable pub atomic_compare_exchange : ℕ → ℕ → ℕ → Bool × ℕ
atomic_compare_exchange value compare exchange =
    if value == compare then (true, exchange) else (false, value)

-- `atomic_store` returns the value stored.
unfoldable pub atomic_store : ℕ → ℕ → ℕ
atomic_store old value = value

-- A caller alone with a held lock repeats the same failing exchange for ever: `none`.
unfoldable pub spinlock_lock : ℕ → Option ℕ
unfolding atomic_compare_exchange
spinlock_lock lock =
    let (done, lock') = atomic_compare_exchange lock 0 1 in if done then some lock' else none

unfoldable pub spinlock_unlock : ℕ → ℕ
unfolding atomic_store
spinlock_unlock lock = atomic_store lock 0
