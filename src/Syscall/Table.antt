-- ===== src/Syscall/Table.antt =====
-- kernel/syscall.c: the table as a map from numbers to functions.
use synos.Prelude.{
  ℕ, suc, ◌≡◌, refl, ap, ◌∙◌, inl, inr, arith, Option, none, some, List, [], ◌∷◌, ◌++◌, ◌==◌,
  if◌then◌else◌, Bool-cases, Option-cases,
}
use native.Mathlib.Numerals.{add-one}
use synos.Syscall.{SyscallEntry, find_index_from, syscall_find_index, put_function, syscall_set}

-- The function of the first entry with the number.
unfoldable pub lookup : List SyscallEntry → ℕ → Option ℕ
lookup [] id = none
lookup (e ∷ es) id = let rest = lookup es id in if e.id == id then some e.function else rest

-- `syscall_set` by clauses: the first entry with the number is changed, or one is put at the end.
unfoldable pub set_first : List SyscallEntry → ℕ → ℕ → List SyscallEntry
set_first [] id function = record { id = id; function = function } ∷ []
set_first (e ∷ es) id function =
    let rest = e ∷ set_first es id function in
    if e.id == id then record e { function = function } ∷ es else rest

-- The loop that starts at `i + 1` finds the position one higher than the loop that starts at `i`.
abbrev next : Option ℕ → Option ℕ
next none = none
next (some k) = some (suc k)

find_index_from-suc :
    (id : ℕ) (es : List SyscallEntry) (i : ℕ)
    → find_index_from id es (suc i) ≡ next (find_index_from id es i)
unfolding find_index_from
find_index_from-suc id [] i = refl
find_index_from-suc id (e ∷ es) i = elim (Bool-cases (e.id == id)) [
  | inl h ↦ rw (find_index_from, h) refl
  | inr h ↦ rw (find_index_from, h, add-one i, add-one (suc i)) (find_index_from-suc id es (suc i))
]

-- What `syscall_set` does with the result of the search.
abbrev apply : Option ℕ → List SyscallEntry → ℕ → ℕ → List SyscallEntry
apply none table id function = table ++ (record { id = id; function = function } ∷ [])
apply (some index) table id function = put_function table index function

apply-next :
    (o : Option ℕ) (e : SyscallEntry) (es : List SyscallEntry) (id function : ℕ)
    → apply (next o) (e ∷ es) id function ≡ e ∷ apply o es id function
unfolding put_function
apply-next none e es id function = refl
apply-next (some k) e es id function = refl

apply-set_first :
    (table : List SyscallEntry) (id function : ℕ)
    → apply (find_index_from id table 0) table id function ≡ set_first table id function
unfolding find_index_from set_first put_function
apply-set_first [] id function = refl
apply-set_first (e ∷ es) id function = elim (Bool-cases (e.id == id)) [
  | inl h ↦ rw (find_index_from, set_first, h) refl
  | inr h ↦
      rw (find_index_from, set_first, h)
        (ap (λ o. apply o (e ∷ es) id function) (find_index_from-suc id es 0)
          ∙ apply-next (find_index_from id es 0) e es id function
          ∙ ap (λ t. e ∷ t) (apply-set_first es id function))
]

syscall_set-apply :
    (table : List SyscallEntry) (id function : ℕ)
    → syscall_set table id function ≡ apply (syscall_find_index table id) table id function
unfolding syscall_set
syscall_set-apply table id function = elim (Option-cases (syscall_find_index table id)) [
  | inl e ↦ rw (syscall_set, e) refl
  | inr (k, e) ↦ rw (syscall_set, e) refl
]

syscall_set-set_first :
    (table : List SyscallEntry) (id function : ℕ)
    → syscall_set table id function ≡ set_first table id function
unfolding syscall_find_index
syscall_set-set_first table id function =
    syscall_set-apply table id function ∙ apply-set_first table id function

lookup-set_first :
    (table : List SyscallEntry) (id function other : ℕ)
    → lookup (set_first table id function) other
      ≡ (if id == other then some function else lookup table other)
unfolding lookup set_first
lookup-set_first [] id function other = refl
lookup-set_first (e ∷ es) id function other = elim (Bool-cases (e.id == id)) [
  | inl h ↦ rw (set_first, lookup, h) (ground arith)
  | inr h ↦ rw (set_first, lookup, h) (ground (arith, lookup-set_first es id function other))
]

-- After `syscall_set` the number leads to the function that was set, and every other number to what
-- it led to before.
pub lookup-syscall_set :
    (table : List SyscallEntry) (id function other : ℕ)
    → lookup (syscall_set table id function) other
      ≡ (if id == other then some function else lookup table other)
lookup-syscall_set table id function other =
    ap (λ t. lookup t other) (syscall_set-set_first table id function)
    ∙ lookup-set_first table id function other
