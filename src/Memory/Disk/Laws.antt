-- ===== src/Memory/Disk/Laws.antt =====
-- The walks of src/memory/SECONDARY_MEMORY.cpp reach the word, so the disk is an array too.
use multicore_simulator.Prelude.{
  ℕ, zero, suc, List, ◌≡◌, ◌≤◌, ◌<◌, ◌+◌, arith, inl, inr, ltb, ◌==◌, ◌&&◌, if◌then◌else◌, length,
  length-set, length-replicate, get_or, set, get_or-set, Bool-cases, lt→ltb,
}
use multicore_simulator.Memory.Ram.{memory_access_error}
use multicore_simulator.Memory.Disk.{
  SecondaryMemory, max_secondary_memory_size, new_secondary_memory, scan_read, scan_write, read_mem,
  write_mem,
}

pub record IsValid (d : SecondaryMemory) : Type 0 where
  pub sized : length d.storage ≡ d.size
  pub bounded : d.size ≤ max_secondary_memory_size

pub new_secondary_memory-IsValid : (size : ℕ) → IsValid (new_secondary_memory size)
unfolding new_secondary_memory
new_secondary_memory-IsValid size = elim (Bool-cases (ltb max_secondary_memory_size size)) [
  | inl e ↦
      rw e (record { sized = length-replicate max_secondary_memory_size _; bounded = omega arith })
  | inr e ↦ rw e (record { sized = length-replicate size _; bounded = ground arith })
]

scan_read_lem :
    (storage : List ℕ) (a rounds i : ℕ)
    → i ≤ a
    → a < i + rounds
    → scan_read storage a rounds i ≡ get_or storage a memory_access_error
unfolding scan_read
scan_read_lem storage a zero i lo hi = absurd (omega arith)
scan_read_lem storage a (suc rounds) i lo hi =
    ground (arith, scan_read_lem storage a rounds (suc i))

scan_write_lem :
    (storage : List ℕ) (a v rounds i : ℕ)
    → i ≤ a
    → a < i + rounds
    → scan_write storage a v rounds i ≡ (set storage a v, v)
unfolding scan_write
scan_write_lem storage a v zero i lo hi = absurd (omega arith)
scan_write_lem storage a v (suc rounds) i lo hi =
    ground (arith, scan_write_lem storage a v rounds (suc i))

-- The walk of `ReadMem` finds the word at the address, and answers the error value past the end.
pub read_mem_lem :
    (d : SecondaryMemory) (a : ℕ)
    → read_mem d a
      ≡ (if ltb a d.size then get_or d.storage a memory_access_error else memory_access_error)
unfolding read_mem
read_mem_lem d a = ground (arith, scan_read_lem d.storage a d.size 0)

write_mem_lem :
    (d : SecondaryMemory) (a v : ℕ)
    → a < d.size
    → write_mem d a v ≡ (record d { storage = set d.storage a v }, v)
unfolding write_mem
write_mem_lem d a v h =
    rw (lt→ltb a d.size h, scan_write_lem d.storage a v d.size 0 (omega arith) (omega arith))

pub write_mem-IsValid : (d : SecondaryMemory) (a v : ℕ) → IsValid d → IsValid (write_mem d a v).0
unfolding write_mem
write_mem-IsValid d a v h =
    ground (arith, scan_write_lem d.storage a v d.size 0, length-set d.storage a v)

pub size-write_mem : (d : SecondaryMemory) (a v : ℕ) → (write_mem d a v).0.size ≡ d.size
unfolding write_mem
size-write_mem d a v = ground arith

-- A read after a write sees the written word at that address, if it is one of a valid disk, and the
-- old word elsewhere.
pub read_mem-write_mem :
    (d : SecondaryMemory) (a v b : ℕ)
    → IsValid d
    → read_mem (write_mem d a v).0 b ≡ (if a == b && ltb a d.size then v else read_mem d b)
unfolding write_mem
read_mem-write_mem d a v b h = ground (
  arith,
  scan_write_lem d.storage a v d.size 0,
  read_mem_lem d b,
  read_mem_lem (record d { storage = set d.storage a v }) b,
  get_or-set d.storage a b v memory_access_error,
)
