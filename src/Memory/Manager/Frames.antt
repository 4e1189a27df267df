-- ===== src/Memory/Manager/Frames.antt =====
-- Which page holds which frame: `allocateFrame` and `swapOut` of src/memory/MemoryManager.cpp.
use multicore_simulator.Prelude.{
  ℕ, suc, Bool, true, false, List, [], ◌∷◌, Option, some, ◌+◌, ◌-◌, ◌*◌, ◌≡◌, ◌≤◌, ◌<◌, ◌≢◌, refl,
  ◌∙◌, arith, length, length-set, length-replicate, get_or, get_or-set, set, u32_max,
}
use multicore_simulator.Prelude.Assoc.{nat_eq, lookup}
use multicore_simulator.Process.{Processes}
use multicore_simulator.Memory.Ram
use multicore_simulator.Memory.Disk
use multicore_simulator.Memory.Manager.{
  MemoryManager, System, FrameInfo, no_owner, page_size, words_per_page, new_memory_manager,
  first_free, own_frame,
}

abbrev pub frame_of : ℕ → ℕ → FrameInfo
frame_of process page = record { owner_process = some process; virtual_page_number = page }

abbrev pub mapped : System → ℕ → ℕ → Option ℕ
mapped s process page = lookup page (s.processes process).page_table

-- A frame that exists, is in use, and is recorded as the page's.
pub record Owns (m : MemoryManager) (process page frame : ℕ) : Type 0 where
  pub exists : frame < m.num_frames
  pub used : get_or m.frames_map frame false ≡ true
  pub recorded : get_or m.frame_owner_table frame no_owner ≡ frame_of process page

-- The sizes agree, the frames fit into the memory, and a page that has a frame owns it.
pub record IsValid (s : System) : Type 0 where
  pub ram : Ram.Laws.IsValid s.memory.main_memory
  pub disk : Disk.Laws.IsValid s.memory.secondary_memory
  pub some_frame : 0 < s.memory.num_frames
  pub map_sized : length s.memory.frames_map ≡ s.memory.num_frames
  pub table_sized : length s.memory.frame_owner_table ≡ s.memory.num_frames
  pub victim : s.memory.victim_frame_ptr < s.memory.num_frames
  pub room : s.memory.num_frames * page_size ≤ s.memory.main_memory_limit
  pub words : s.memory.num_frames * words_per_page ≤ s.memory.main_memory.size
  pub small : s.memory.main_memory_limit ≤ u32_max
  pub owned :
      (process page frame : ℕ)
      → mapped s process page ≡ some frame
      → Owns s.memory process page frame

unmapped :
    (processes : Processes)
    → ((p : ℕ) → (processes p).page_table ≡ [])
    → (p page frame : ℕ) → lookup page (processes p).page_table ≢ some frame
unfolding lookup
unmapped processes fresh p page frame e = ground (arith, fresh p)

-- The manager that the program starts with has the paging invariant, over processes that have no
-- page yet, for a main memory of one page at least and 4096 bytes at most.
pub new_memory_manager-IsValid :
    (main_size disk_size : ℕ) (processes : Processes)
    → page_size ≤ main_size
    → main_size ≤ 4096
    → ((p : ℕ) → (processes p).page_table ≡ [])
    → IsValid (record { memory = new_memory_manager main_size disk_size; processes = processes })
unfolding new_memory_manager
new_memory_manager-IsValid main_size disk_size processes lo hi fresh = record {
  ram = Ram.Laws.new_main_memory-IsValid main_size;
  disk = Disk.Laws.new_secondary_memory-IsValid disk_size;
  some_frame = omega arith;
  map_sized = length-replicate _ _;
  table_sized = length-replicate _ _;
  victim = omega arith;
  room = omega arith;
  words = unfold Ram.new_main_memory in ground arith;
  small = omega arith;
  owned = λ process page frame e. absurd (unmapped processes fresh process page frame e);
}

pub first_free-unused :
    (xs : List Bool) (i f : ℕ)
    → first_free xs i ≡ some f
    → (i ≤ f) × (f < i + length xs) × (get_or xs (f - i) false ≡ false)
unfolding first_free get_or
first_free-unused [] i f e = cc
first_free-unused (true ∷ xs) i f e =
    let (past, within, unused) = first_free-unused xs (i + 1) f e in
    let step : f - i ≡ suc (f - (i + 1)) = omega arith in (omega arith, omega arith, rw step unused)
first_free-unused (false ∷ xs) i f e =
    let here : i ≡ f = ground arith in
    let start : f - i ≡ 0 = omega arith in (omega arith, omega arith, rw start refl)

-- A frame that has been given to a page, before any page table points to it.
pub record Reserved (s : System) (process page frame : ℕ) : Type 0 where
  pub valid : IsValid s
  pub owns : Owns s.memory process page frame
  pub unmapped : (q other : ℕ) → mapped s q other ≢ some frame

own_frame-Owns :
    (m : MemoryManager) (process page frame q other f : ℕ)
    → length m.frame_owner_table ≡ m.num_frames
    → frame < m.num_frames
    → Owns m q other f
    → frame ≢ f
    → Owns (own_frame m frame process page) q other f
unfolding own_frame
own_frame-Owns m process page frame q other f sized inside h ne = record {
  exists = h.exists;
  used = h.used;
  recorded =
      ground (
        arith,
        get_or-set m.frame_owner_table frame f (frame_of process page) no_owner,
        h.recorded,
      );
}

own_frame-owner :
    (m : MemoryManager) (process page frame : ℕ)
    → length m.frame_owner_table ≡ m.num_frames
    → frame < m.num_frames
    → get_or m.frames_map frame false ≡ true
    → Owns (own_frame m frame process page) process page frame
unfolding own_frame
own_frame-owner m process page frame sized inside used = record {
  exists = inside;
  used = used;
  recorded =
      ground (arith, get_or-set m.frame_owner_table frame frame (frame_of process page) no_owner);
}

-- A frame to which no page table points can be given to any page.
pub own_frame-Reserved :
    (s : System) (process page frame : ℕ)
    → IsValid s
    → frame < s.memory.num_frames
    → get_or s.memory.frames_map frame false ≡ true
    → ((q other : ℕ) → mapped s q other ≢ some frame)
    → Reserved (record s { memory = own_frame s.memory frame process page }) process page frame
own_frame-Reserved s process page frame h inside used apart = record {
  valid = record {
    ram = unfold own_frame in h.ram;
    disk = unfold own_frame in h.disk;
    some_frame = unfold own_frame in h.some_frame;
    map_sized = unfold own_frame in h.map_sized;
    table_sized =
        unfold own_frame in
        (length-set s.memory.frame_owner_table frame (frame_of process page) ∙ h.table_sized);
    victim = unfold own_frame in h.victim;
    room = unfold own_frame in h.room;
    words = unfold own_frame in h.words;
    small = unfold own_frame in h.small;
    owned = λ q other f e.
        own_frame-Owns s.memory process page frame q other f h.table_sized inside
          (h.owned q other f e) (λ same. apart q other (rw same e));
  };
  owns = own_frame-owner s.memory process page frame h.table_sized inside used;
  unmapped = apart;
}

-- A free frame of the map is taken.
pub take_free-IsValid :
    (s : System) (frame : ℕ)
    → IsValid s
    → first_free s.memory.frames_map 0 ≡ some frame
    → let s' = record s {
      memory = record s.memory { frames_map = set s.memory.frames_map frame true };
    } in
      IsValid s'
      × (frame < s.memory.num_frames)
      × (get_or s'.memory.frames_map frame false ≡ true)
      × ((q other : ℕ) → mapped s q other ≢ some frame)
take_free-IsValid s frame h e =
    let (_, within, unused) = first_free-unused s.memory.frames_map 0 frame e in
    let marked = λ (f : ℕ). get_or-set s.memory.frames_map frame f true false (omega arith) in
    (
      record {
        ram = h.ram;
        disk = h.disk;
        some_frame = h.some_frame;
        map_sized = length-set s.memory.frames_map frame true ∙ h.map_sized;
        table_sized = h.table_sized;
        victim = h.victim;
        room = h.room;
        words = h.words;
        small = h.small;
        owned = λ q other f m. record {
          exists = (h.owned q other f m).exists;
          used = ground (arith, marked f, (h.owned q other f m).used);
          recorded = (h.owned q other f m).recorded;
        };
      },
      omega (arith, h.map_sized),
      ground (arith, marked frame),
      λ q other m. ground (arith, (h.owned q other frame m).used),
    )
