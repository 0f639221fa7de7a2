-- ===== src/Syscall/Tests.antt =====
-- A table of two calls for kernel/syscall.c.
use synos.Prelude.{◌≡◌, ◌∷◌, [], List, some}
use synos.Syscall.{SyscallEntry, syscall_set}
use synos.Syscall.Table.{lookup, lookup-syscall_set}

abbrev two_calls : List SyscallEntry
two_calls = record { id = 2; function = 100 } ∷ record { id = 7; function = 200 } ∷ []

lookup-syscall_set_example : lookup (syscall_set two_calls 7 300) 7 ≡ some 300
lookup-syscall_set_example = lookup-syscall_set two_calls 7 300 7
