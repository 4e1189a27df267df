-- ===== src/Memory/Store.antt =====
-- What both memories promise (src/memory/MAIN_MEMORY.cpp, SECONDARY_MEMORY.cpp): an array of words
-- in which a write out of range changes nothing. The swapping is proved against this interface.
use multicore_simulator.Prelude.{ℕ, ◌≡◌, ◌≤◌, ◌&&◌, arith, ltb, ◌==◌, if◌then◌else◌, u32_mod}
use multicore_simulator.Memory.Ram.{MainMemory}
use multicore_simulator.Memory.Ram
use multicore_simulator.Memory.Disk.{SecondaryMemory}
use multicore_simulator.Memory.Disk

pub record WordStore (D : Type 0) : Type 1 where
  pub read : D → ℕ → ℕ
  pub write : D → ℕ → ℕ → D
  pub size : D → ℕ
  pub IsValid : D → Type 0
  pub read-write :
      (d : D) (a v b : ℕ)
      → IsValid d
      → read (write d a v) b ≡ (if a == b && ltb a (size d) then v else read d b)
  pub write-IsValid : (d : D) (a v : ℕ) → IsValid d → IsValid (write d a v)
  pub size-write : (d : D) (a v : ℕ) → size (write d a v) ≡ size d
  pub size-le : (d : D) → IsValid d → size d ≤ u32_mod

pub ram_size-le : (d : MainMemory) → Ram.Laws.IsValid d → d.size ≤ u32_mod
ram_size-le d h = omega (arith, h.bounded)

pub disk_size-le : (d : SecondaryMemory) → Disk.Laws.IsValid d → d.size ≤ u32_mod
disk_size-le d h = omega (arith, h.bounded)

abbrev pub ram_store : WordStore MainMemory
ram_store = record {
  read = Ram.read_mem;
  write = λ m a v. (Ram.write_mem m a v).0;
  size = λ m. m.size;
  IsValid = Ram.Laws.IsValid;
  read-write = Ram.Laws.read_mem-write_mem;
  write-IsValid = Ram.Laws.write_mem-IsValid;
  size-write = Ram.Laws.size-write_mem;
  size-le = ram_size-le;
}

abbrev pub disk_store : WordStore SecondaryMemory
disk_store = record {
  read = Disk.read_mem;
  write = λ d a v. (Disk.write_mem d a v).0;
  size = λ d. d.size;
  IsValid = Disk.Laws.IsValid;
  read-write = Disk.Laws.read_mem-write_mem;
  write-IsValid = Disk.Laws.write_mem-IsValid;
  size-write = Disk.Laws.size-write_mem;
  size-le = disk_size-le;
}
