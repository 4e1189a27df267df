-- ===== src/Memory/Manager/Eviction.antt =====
-- `swapOut` and `allocateFrame` of src/memory/MemoryManager.cpp hand out a frame that no page has.
use multicore_simulator.Prelude.{
  ℕ, zero, suc, Bool, true, false, List, [], ◌∷◌, none, some, ◌+◌, ◌≡◌, ◌<◌, ◌≢◌, ◌⊎◌, inl, inr,
  refl, arith, ◌==◌, if◌then◌else◌, length, get_or, Option-cases,
}
use multicore_simulator.Prelude.Assoc.{nat_eq, lookup, lookup-erase, erase}
use multicore_simulator.Process.{Pcb, modify}
use multicore_simulator.Memory.Ram.{MainMemory}
use multicore_simulator.Memory.Ram
use multicore_simulator.Memory.Disk.{SecondaryMemory}
use multicore_simulator.Memory.Disk
use multicore_simulator.Memory.Store.{ram_store, disk_store}
use multicore_simulator.Memory.Manager.Copy.{copy_words-IsValid, size-copy_words}
use multicore_simulator.Memory.Manager.Frames.{
  IsValid, Reserved, mapped, own_frame-Reserved, take_free-IsValid,
}
use multicore_simulator.Memory.Manager.{
  MemoryManager, System, FrameInfo, no_owner, words_per_page, copy_to_disk, copy_to_ram, evict_page,
  evict_owner, advance_victim, swap_out, first_free, allocate_frame,
}

-- The page table of a process after another page of some process has been erased.
mapped-erase :
    (ps : ℕ → Pcb) (owner page q other : ℕ)
    → lookup other
        (modify owner (λ p. record p { page_table = erase page p.page_table }) ps q).page_table
      ≡ (if q == owner
          then (if page == other then none else lookup other (ps q).page_table)
          else lookup other (ps q).page_table)
unfolding modify
mapped-erase ps owner page q other = ground (arith, lookup-erase page other (ps q).page_table)

copy_to_disk-IsValid :
    (from to : ℕ) (ram : MainMemory) (disk : SecondaryMemory)
    → Disk.Laws.IsValid disk
    → Disk.Laws.IsValid (copy_to_disk from to ram disk)
unfolding copy_to_disk
copy_to_disk-IsValid from to ram disk h =
    copy_words-IsValid Ram.read_mem disk_store words_per_page 0 from to ram disk h

pub copy_to_ram-IsValid :
    (from to : ℕ) (disk : SecondaryMemory) (ram : MainMemory)
    → Ram.Laws.IsValid ram
    → Ram.Laws.IsValid (copy_to_ram from to disk ram)
      × ((copy_to_ram from to disk ram).size ≡ ram.size)
unfolding copy_to_ram
copy_to_ram-IsValid from to disk ram h = (
  copy_words-IsValid Disk.read_mem ram_store words_per_page 0 from to disk ram h,
  size-copy_words Disk.read_mem ram_store words_per_page 0 from to disk ram,
)

-- What a page table holds after an eviction it held before, and the evicted page is not among it.
evict_page-mapped :
    (s : System) (frame owner page q other f : ℕ)
    → mapped (evict_page s frame owner page) q other ≡ some f
    → (mapped s q other ≡ some f) × ((q ≢ owner) ⊎ (other ≢ page))
unfolding evict_page
evict_page-mapped s frame owner page q other f e =
    ground (arith, mapped-erase s.processes owner page q other)

evict_page-IsValid :
    (s : System) (frame owner page : ℕ) → IsValid s → IsValid (evict_page s frame owner page)
evict_page-IsValid s frame owner page h = record {
  ram = unfold evict_page in h.ram;
  disk = unfold evict_page in copy_to_disk-IsValid _ _ _ _ h.disk;
  some_frame = unfold evict_page in h.some_frame;
  map_sized = unfold evict_page in h.map_sized;
  table_sized = unfold evict_page in h.table_sized;
  victim = unfold evict_page in h.victim;
  room = unfold evict_page in h.room;
  words = unfold evict_page in h.words;
  small = unfold evict_page in h.small;
  owned = λ q other f e.
      let old = h.owned q other f (evict_page-mapped s frame owner page q other f e).0 in
      record {
        exists = unfold evict_page in old.exists;
        used = unfold evict_page in old.used;
        recorded = unfold evict_page in old.recorded;
      };
}

-- What allocation keeps of the manager.
pub record Keeps (m m' : MemoryManager) : Type 0 where
  pub frames : m'.num_frames ≡ m.num_frames
  pub table : m'.frame_owner_table ≡ m.frame_owner_table
  pub map : m'.frames_map ≡ m.frames_map
  pub limit : m'.main_memory_limit ≡ m.main_memory_limit

evict_owner-IsValid :
    (s : System) (frame : ℕ) (info : FrameInfo)
    → IsValid s
    → get_or s.memory.frame_owner_table frame no_owner ≡ info
    → let s' = evict_owner s frame info in
      IsValid s' × Keeps s.memory s'.memory × ((q other : ℕ) → mapped s' q other ≢ some frame)
unfolding evict_owner
evict_owner-IsValid s frame info h e = elim (Option-cases info.owner_process) [
  | inl free ↦ rw free (
    h,
    record { frames = refl; table = refl; map = refl; limit = refl },
    λ q other m. ground (arith, (h.owned q other frame m).recorded),
  )
  | inr (owner, taken) ↦ rw taken (
    evict_page-IsValid s frame owner info.virtual_page_number h,
    unfold evict_page in record { frames = refl; table = refl; map = refl; limit = refl },
    λ q other m.
        let old = evict_page-mapped s frame owner info.virtual_page_number q other frame m in
        ground (arith, (h.owned q other frame old.0).recorded, old.1),
  )
]

-- `swapOut` frees a frame that exists: whatever page had it has it no more.
pub swap_out-IsValid :
    (s : System)
    → IsValid s
    → let (s', frame) = swap_out s in
      IsValid s'
      × Keeps s.memory s'.memory
      × (frame < s'.memory.num_frames)
      × ((q other : ℕ) → mapped s' q other ≢ some frame)
unfolding swap_out advance_victim
swap_out-IsValid s h =
    let frame = s.memory.victim_frame_ptr in
    let valid : IsValid (record s { memory = advance_victim s.memory }) = record {
      ram = h.ram;
      disk = h.disk;
      some_frame = h.some_frame;
      map_sized = h.map_sized;
      table_sized = h.table_sized;
      victim = ground (arith, h.some_frame);
      room = h.room;
      words = h.words;
      small = h.small;
      owned = λ q other f e. record {
        exists = (h.owned q other f e).exists;
        used = (h.owned q other f e).used;
        recorded = (h.owned q other f e).recorded;
      };
    } in
    let (kept, keeps, apart) =
      evict_owner-IsValid (record s { memory = advance_victim s.memory }) frame
        (get_or s.memory.frame_owner_table frame no_owner) valid refl in
    (
      kept,
      record { frames = keeps.frames; table = keeps.table; map = keeps.map; limit = keeps.limit },
      omega (arith, keeps.frames, h.victim),
      apart,
    )

first_free-none :
    (xs : List Bool) (i f : ℕ) → first_free xs i ≡ none → f < length xs → get_or xs f false ≡ true
unfolding first_free get_or
first_free-none [] i f e h = absurd (omega arith)
first_free-none (x ∷ xs) i zero e h = ground arith
first_free-none (x ∷ xs) i (suc f) e h = ground (arith, first_free-none xs (i + 1) f)

-- `allocateFrame` keeps the paging invariant, and from a system that has it, it hands out a frame
-- that no page of any process has, and records its new owner.
pub allocate_frame-Reserved :
    (s : System) (process page : ℕ)
    → IsValid s
    → let (s', frame) = allocate_frame s process page in Reserved s' process page frame
unfolding allocate_frame
allocate_frame-Reserved s process page h = elim (Option-cases (first_free s.memory.frames_map 0)) [
  | inr (i, e) ↦
      let (valid, inside, used, apart) = take_free-IsValid s i h e in
      rw (e, allocate_frame) (own_frame-Reserved _ process page i valid inside used apart)
  | inl e ↦
      let (valid, keeps, inside, apart) = swap_out-IsValid s h in
      rw (e, allocate_frame)
        (own_frame-Reserved _ process page _ valid inside
          (rw keeps.map
            (first_free-none s.memory.frames_map 0 _ e (omega (arith, keeps.frames, h.map_sized))))
          apart)
]
