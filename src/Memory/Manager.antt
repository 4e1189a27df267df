-- ===== src/Memory/Manager.antt =====
-- src/memory/MemoryManager.hpp and MemoryManager.cpp: paging, swapping and the cached reads and
-- writes. A `System` is the manager with the process blocks to which its frames point. The mutex is
-- held through each call, so a call is one step.
pub mod Copy
pub mod Frames
pub mod Eviction
pub mod Translation
pub mod Isolation
pub mod Quiet
pub mod Physical
pub mod Access
pub mod Swap
pub mod Stale
pub mod Lost
pub mod Quantum
pub mod Coherent
pub mod Ideal
use multicore_simulator.Prelude.{
  ℕ, zero, suc, Bool, true, false, List, [], ◌∷◌, Option, none, some, ◌+◌, ◌-◌, ◌*◌, ◌/◌, ◌%◌, ◌==◌,
  ltb, if◌then◌else◌, get_or, set, replicate, u32_max, u32_mod, to_u32, add64,
}
use multicore_simulator.Prelude.Assoc.{nat_eq, pair_eq, lookup, insert, erase}
use multicore_simulator.Process.{Pcb, Processes, modify, contabiliza_cache}
use multicore_simulator.Memory.Ram.{MainMemory, memory_access_error, new_main_memory}
use multicore_simulator.Memory.Ram
use multicore_simulator.Memory.Disk.{SecondaryMemory, new_secondary_memory}
use multicore_simulator.Memory.Disk
use multicore_simulator.Memory.Cache.{Cache, cache_miss, new_cache}
use multicore_simulator.Memory.Cache

abbrev pub page_size : ℕ
page_size = 32

-- PAGE_SIZE / 4
abbrev pub words_per_page : ℕ
words_per_page = 8

-- `virtual_page_number` is the bit pattern of the int, so -1 is 2 ^ 32 - 1.
pub record FrameInfo : Type 0 where
  pub owner_process : Option ℕ
  pub virtual_page_number : ℕ

abbrev pub no_owner : FrameInfo
no_owner = record { owner_process = none; virtual_page_number = u32_max }

pub record MemoryManager : Type 0 where
  pub main_memory : MainMemory
  pub secondary_memory : SecondaryMemory
  pub l1_cache : Cache
  pub main_memory_limit : ℕ
  pub num_frames : ℕ
  pub frames_map : List Bool
  pub frame_owner_table : List FrameInfo
  pub swap_table : List ((ℕ × ℕ) × ℕ)
  pub next_swap_address : ℕ
  pub victim_frame_ptr : ℕ

pub record System : Type 0 where
  pub memory : MemoryManager
  pub processes : Processes

-- the constructor
unfoldable pub new_memory_manager : ℕ → ℕ → MemoryManager
new_memory_manager main_memory_size secondary_memory_size = record {
  main_memory = new_main_memory main_memory_size;
  secondary_memory = new_secondary_memory secondary_memory_size;
  l1_cache = new_cache;
  main_memory_limit = main_memory_size;
  num_frames = main_memory_size / page_size;
  frames_map = replicate (main_memory_size / page_size) false;
  frame_owner_table = replicate (main_memory_size / page_size) no_owner;
  swap_table = [];
  next_swap_address = 0;
  victim_frame_ptr = 0;
}

-- The loop of `swapOut` and of `swapIn`: the rounds that are left, and the index `i`.
module _ {S D : Type 0} (read : S → ℕ → ℕ) (write : D → ℕ → ℕ → D) where
  unfoldable pub copy_words : ℕ → ℕ → ℕ → ℕ → S → D → D
  copy_words zero i from to source target = target
  copy_words (suc rounds) i from to source target =
      copy_words rounds (suc i) from to source
        (write target (to_u32 (to + i)) (read source (to_u32 (from + i))))

abbrev pub write_ram : MainMemory → ℕ → ℕ → MainMemory
write_ram m a w = (Ram.write_mem m a w).0

abbrev pub write_disk : SecondaryMemory → ℕ → ℕ → SecondaryMemory
write_disk d a w = (Disk.write_mem d a w).0

unfoldable pub copy_to_disk : ℕ → ℕ → MainMemory → SecondaryMemory → SecondaryMemory
copy_to_disk from to ram disk = copy_words Ram.read_mem write_disk words_per_page 0 from to ram disk

unfoldable pub copy_to_ram : ℕ → ℕ → SecondaryMemory → MainMemory → MainMemory
copy_to_ram from to disk ram = copy_words Disk.read_mem write_ram words_per_page 0 from to disk ram

-- The end of `swapOut`, for a frame with an owner: the page goes to the next free place of the disk,
-- and the owner forgets the frame.
unfoldable pub evict_page : System → ℕ → ℕ → ℕ → System
evict_page s frame owner page = record {
  memory = record m {
    secondary_memory =
        copy_to_disk (to_u32 (frame * words_per_page)) m.next_swap_address m.main_memory
          m.secondary_memory;
    next_swap_address = to_u32 (m.next_swap_address + words_per_page);
    swap_table = insert ((s.processes owner).pid, page) m.next_swap_address m.swap_table;
  };
  processes = modify owner (λ p. record p { page_table = erase page p.page_table }) s.processes;
}
  where
    open s use {memory as m}

unfoldable pub evict_owner : System → ℕ → FrameInfo → System
evict_owner s frame info = elim info.owner_process [
  | none ↦ s
  | some owner ↦ evict_page s frame owner info.virtual_page_number
]

unfoldable pub advance_victim : MemoryManager → MemoryManager
advance_victim m = record m { victim_frame_ptr = (m.victim_frame_ptr + 1) % m.num_frames }

-- The system after the call, and the frame that is free now.
unfoldable pub swap_out : System → System × ℕ
swap_out s = (
  evict_owner (record s { memory = advance_victim m }) m.victim_frame_ptr
      (get_or m.frame_owner_table m.victim_frame_ptr no_owner),
  m.victim_frame_ptr,
)
  where
    open s use {memory as m}

unfoldable pub swap_in : System → ℕ → ℕ → ℕ → ℕ → System
swap_in s frame process page disk_address = record s {
  memory = record m {
    main_memory =
        copy_to_ram disk_address (to_u32 (frame * words_per_page)) m.secondary_memory m.main_memory;
    swap_table = erase ((s.processes process).pid, page) m.swap_table;
  };
}
  where
    open s use {memory as m}

-- The loop of `allocateFrame`, from index `i`.
unfoldable pub first_free : List Bool → ℕ → Option ℕ
first_free [] i = none
first_free (used ∷ rest) i = let later = first_free rest (i + 1) in if used then later else some i

unfoldable pub own_frame : MemoryManager → ℕ → ℕ → ℕ → MemoryManager
own_frame m frame process page = record m {
  frame_owner_table =
      set m.frame_owner_table frame
        (record { owner_process = some process; virtual_page_number = page });
}

unfoldable pub allocate_frame : System → ℕ → ℕ → System × ℕ
allocate_frame s process page = elim (first_free m.frames_map 0) [
  | some i ↦ (
    record s {
      memory = own_frame (record m { frames_map = set m.frames_map i true }) i process page;
    },
    i,
  )
  | none ↦
      let (s', freed) = swap_out s in
      (record s' { memory = own_frame s'.memory freed process page }, freed)
]
  where
    open s use {memory as m}

unfoldable pub map_page : System → ℕ → ℕ → ℕ → System
map_page s process page frame = record s {
  processes =
      modify process (λ p. record p { page_table = insert page frame p.page_table }) s.processes;
}

-- (frame * PAGE_SIZE) + offset, returned as a uint32_t
abbrev pub physical : ℕ → ℕ → ℕ
physical frame offset = to_u32 (frame * page_size + offset)

-- The cases of `translateAddress` past the page table: on the disk, new, or neither.
unfoldable pub translate_miss : System → ℕ → ℕ → ℕ → Bool → Option ℕ → System × ℕ
translate_miss s process page offset is_write (some disk_address) =
    let (s', frame) = allocate_frame s process page in
    (
      map_page (swap_in s' frame process page disk_address) process page frame,
      physical frame offset,
    )
translate_miss s process page offset true none =
    let (s', frame) = allocate_frame s process page in
    (map_page s' process page frame, physical frame offset)
translate_miss s process page offset false none = (s, memory_access_error)

unfoldable pub translate_page : System → ℕ → ℕ → ℕ → Bool → Option ℕ → System × ℕ
translate_page s process page offset is_write (some frame) = (s, physical frame offset)
translate_page s process page offset is_write none =
    translate_miss s process page offset is_write
      (lookup ((s.processes process).pid, page) s.memory.swap_table)

unfoldable pub translate_address : System → ℕ → ℕ → Bool → System × ℕ
translate_address s virtual_address process is_write =
    let page = virtual_address / page_size in
    translate_page s process page (virtual_address % page_size) is_write
      (lookup page (s.processes process).page_table)

unfoldable pub write_to_file : ℕ → ℕ → MemoryManager → MemoryManager
write_to_file address word m =
    if ltb address m.main_memory_limit
    then record m { main_memory = write_ram m.main_memory (address / 4) word }
    else record m {
      secondary_memory = write_disk m.secondary_memory ((address - m.main_memory_limit) / 4) word;
    }

-- `L1_cache->put(address, word, this)`
unfoldable pub put_cached : MemoryManager → ℕ → ℕ → MemoryManager
put_cached m address word =
    let (c, m') = Cache.put write_to_file m.l1_cache address word m in record m' { l1_cache = c }

unfoldable pub count_read : Pcb → Pcb
count_read p = record p {
  mem_accesses_total = add64 p.mem_accesses_total 1;
  mem_reads = add64 p.mem_reads 1;
}

unfoldable pub count_write : Pcb → Pcb
count_write p = record p {
  mem_accesses_total = add64 p.mem_accesses_total 1;
  mem_writes = add64 p.mem_writes 1;
}

unfoldable pub charge_cache : Pcb → Pcb
charge_cache p = record p {
  cache_mem_accesses = add64 p.cache_mem_accesses 1;
  memory_cycles = add64 p.memory_cycles p.mem_weights.cache;
}

unfoldable pub charge_primary : Pcb → Pcb
charge_primary p = record p {
  primary_mem_accesses = add64 p.primary_mem_accesses 1;
  memory_cycles = add64 p.memory_cycles p.mem_weights.primary;
}

unfoldable pub charge_secondary : Pcb → Pcb
charge_secondary p = record p {
  secondary_mem_accesses = add64 p.secondary_mem_accesses 1;
  memory_cycles = add64 p.memory_cycles p.mem_weights.secondary;
}

abbrev pub on_process : System → ℕ → (Pcb → Pcb) → System
on_process s process f = record s { processes = modify process f s.processes }

-- The rest of `read` after a cache miss.
unfoldable pub read_memory : System → ℕ → ℕ → System × ℕ
read_memory s process address =
    let m = s.memory in
    let missed = on_process s process (λ p. contabiliza_cache p false) in
    if ltb address m.main_memory_limit
    then (let word = Ram.read_mem m.main_memory (address / 4) in
        (
          on_process (record missed { memory = put_cached m address word }) process charge_primary,
          word,
        ))
    else (let word = Disk.read_mem m.secondary_memory ((address - m.main_memory_limit) / 4) in
        (
          on_process (record missed { memory = put_cached m address word }) process
              charge_secondary,
          word,
        ))

-- `read` past the translation.
unfoldable pub read_physical : System → ℕ → ℕ → System × ℕ
read_physical s process address =
    let (c, word) = Cache.get s.memory.l1_cache address in
    let looked = record s { memory = record s.memory { l1_cache = c } } in
    if word == cache_miss
    then read_memory looked process address
    else (on_process looked process (λ p. contabiliza_cache (charge_cache p) true), to_u32 word)

unfoldable pub read : System → ℕ → ℕ → System × ℕ
read s virtual_address process =
    let (s', address) =
      translate_address (on_process s process count_read) virtual_address process false in
    if address == memory_access_error then (s', 0) else read_physical s' process address

-- The write into the memory behind the cache; only the main memory is charged.
unfoldable pub write_memory : System → ℕ → ℕ → ℕ → System
write_memory s process address word =
    let written = record s { memory = write_to_file address word s.memory } in
    if ltb address s.memory.main_memory_limit
    then on_process written process charge_primary
    else written

-- `write` past the translation.
unfoldable pub write_physical : System → ℕ → ℕ → ℕ → System
write_physical s process address word =
    let stored = write_memory s process address word in
    let (c, check) = Cache.get stored.memory.l1_cache address in
    let looked = record stored.memory { l1_cache = c } in
    if check == cache_miss
    then on_process (record stored { memory = put_cached looked address word }) process
        (λ p. charge_cache (contabiliza_cache p false))
    else on_process
        (record stored { memory = record looked { l1_cache = Cache.update c address word } })
        process (λ p. charge_cache (contabiliza_cache p true))

unfoldable pub write : System → ℕ → ℕ → ℕ → System
write s virtual_address word process =
    let (s', address) =
      translate_address (on_process s process count_write) virtual_address process true in
    if address == memory_access_error then s' else write_physical s' process address word
