-- ===== src/Memory/Ram.antt =====
-- src/memory/MAIN_MEMORY.hpp and MAIN_MEMORY.cpp. Addresses are indices of 32-bit words.
pub mod Laws
use multicore_simulator.Prelude.{
  ℕ, Bool, true, false, List, [], ◌∷◌, ◌&&◌, ltb, ◌==◌, if◌then◌else◌, u32_max, not, get_or, set,
  replicate,
}

-- MEMORY_ACCESS_ERROR, which also marks an empty word
abbrev pub memory_access_error : ℕ
memory_access_error = u32_max

abbrev pub max_memory_size : ℕ
max_memory_size = 1024

pub record MainMemory : Type 0 where
  pub size : ℕ
  pub ram : List ℕ

-- the constructor
unfoldable pub new_main_memory : ℕ → MainMemory
new_main_memory size =
    let n = if ltb max_memory_size size then max_memory_size else size in
    record { size = n; ram = replicate n memory_access_error }

unfoldable pub all_empty : List ℕ → Bool
all_empty [] = true
all_empty (val ∷ vals) =
    let rest = all_empty vals in if not (val == memory_access_error) then false else rest

unfoldable pub some_empty : List ℕ → Bool
some_empty [] = false
some_empty (val ∷ vals) =
    let rest = some_empty vals in if val == memory_access_error then true else rest

unfoldable pub is_empty : MainMemory → Bool
unfolding all_empty
is_empty m = all_empty m.ram

unfoldable pub not_full : MainMemory → Bool
unfolding some_empty
not_full m = some_empty m.ram

unfoldable pub read_mem : MainMemory → ℕ → ℕ
read_mem m address =
    if ltb address m.size then get_or m.ram address memory_access_error else memory_access_error

-- The memory after the call, and the value that it returns.
unfoldable pub write_mem : MainMemory → ℕ → ℕ → MainMemory × ℕ
write_mem m address word =
    if ltb address m.size
    then (
      record m { ram = set m.ram address word },
      get_or (set m.ram address word) address memory_access_error,
    )
    else (m, memory_access_error)

unfoldable pub delete_data : MainMemory → ℕ → MainMemory × ℕ
delete_data m address =
    let deleted_data = get_or m.ram address memory_access_error in
    if ltb address m.size && not (deleted_data == memory_access_error)
    then (record m { ram = set m.ram address memory_access_error }, deleted_data)
    else (m, memory_access_error)
