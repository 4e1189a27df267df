-- ===== src/Memory/Disk.antt =====
-- src/memory/SECONDARY_MEMORY.hpp and SECONDARY_MEMORY.cpp. A read or a write walks over the words
-- until it meets the address.
pub mod Laws
use multicore_simulator.Prelude.{
  ℕ, zero, suc, Bool, List, ltb, ◌==◌, if◌then◌else◌, get_or, set, replicate,
}
use multicore_simulator.Memory.Ram.{memory_access_error, all_empty, some_empty}

abbrev pub max_secondary_memory_size : ℕ
max_secondary_memory_size = 8192

pub record SecondaryMemory : Type 0 where
  pub size : ℕ
  pub storage : List ℕ

-- the constructor
unfoldable pub new_secondary_memory : ℕ → SecondaryMemory
new_secondary_memory size =
    let n = if ltb max_secondary_memory_size size then max_secondary_memory_size else size in
    record { size = n; storage = replicate n memory_access_error }

-- The loop of `ReadMem`: the rounds that are left, and the index `i`.
unfoldable pub scan_read : List ℕ → ℕ → ℕ → ℕ → ℕ
scan_read storage address zero i = memory_access_error
scan_read storage address (suc rounds) i =
    let rest = scan_read storage address rounds (suc i) in
    if i == address then get_or storage i memory_access_error else rest

unfoldable pub read_mem : SecondaryMemory → ℕ → ℕ
read_mem d address =
    if ltb address d.size then scan_read d.storage address d.size 0 else memory_access_error

-- The loop of `WriteMem`.
unfoldable pub scan_write : List ℕ → ℕ → ℕ → ℕ → ℕ → List ℕ × ℕ
scan_write storage address word zero i = (storage, memory_access_error)
scan_write storage address word (suc rounds) i =
    let rest = scan_write storage address word rounds (suc i) in
    if i == address then (set storage i word, word) else rest

-- The memory after the call, and the value that it returns.
unfoldable pub write_mem : SecondaryMemory → ℕ → ℕ → SecondaryMemory × ℕ
write_mem d address word =
    if ltb address d.size
    then (let (storage, result) = scan_write d.storage address word d.size 0 in
        (record d { storage = storage }, result))
    else (d, memory_access_error)

unfoldable pub delete_data : SecondaryMemory → ℕ → SecondaryMemory × ℕ
delete_data d address =
    if ltb address d.size
    then (
      record d { storage = set d.storage address memory_access_error },
      get_or d.storage address memory_access_error,
    )
    else (d, memory_access_error)

unfoldable pub is_empty : SecondaryMemory → Bool
unfolding all_empty
is_empty d = all_empty d.storage

unfoldable pub not_full : SecondaryMemory → Bool
unfolding some_empty
not_full d = some_empty d.storage
