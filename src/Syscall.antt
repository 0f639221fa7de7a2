-- ===== src/Syscall.antt =====
-- kernel/syscall.c: the table of system calls. A function is the number of its address.
mod Tests
pub mod Table
use synos.Prelude.{ℕ, zero, suc, ◌+◌, Option, none, some, List, [], ◌∷◌, ◌++◌, ◌==◌, if◌then◌else◌}

-- `struct Syscall_Entry`
pub record SyscallEntry : Type 0 where
  pub id : ℕ
  pub function : ℕ

-- The loop from position `i` on; `none` is the result -1.
unfoldable pub find_index_from : ℕ → List SyscallEntry → ℕ → Option ℕ
find_index_from id [] i = none
find_index_from id (e ∷ es) i =
    let rest = find_index_from id es (i + 1) in if e.id == id then some i else rest

unfoldable pub syscall_find_index : List SyscallEntry → ℕ → Option ℕ
unfolding find_index_from
syscall_find_index table id = find_index_from id table 0

-- `syscall_VT[index]->function = function`
unfoldable pub put_function : List SyscallEntry → ℕ → ℕ → List SyscallEntry
put_function [] index function = []
put_function (e ∷ es) zero function = record e { function = function } ∷ es
put_function (e ∷ es) (suc index) function = e ∷ put_function es index function

-- The table is copied to longer memory when the number is new; the allocations are taken to succeed.
unfoldable pub syscall_set : List SyscallEntry → ℕ → ℕ → List SyscallEntry
unfolding put_function
syscall_set table id function = elim (syscall_find_index table id) [
  | none ↦ table ++ (record { id = id; function = function } ∷ [])
  | some index ↦ put_function table index function
]

-- SYSCALL_SYC
abbrev pub syscall_syc : ℕ
syscall_syc = 2

-- The table that `syscall_init` leaves; `sc_fnc` is the address of the function.
unfoldable pub syscall_init : ℕ → List SyscallEntry
unfolding syscall_set
syscall_init sc_fnc = syscall_set [] syscall_syc sc_fnc
