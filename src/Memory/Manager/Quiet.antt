-- ===== src/Memory/Manager/Quiet.antt =====
-- What the reads and writes of src/memory/MemoryManager.cpp leave alone past the translation: the
-- page tables, the frames and the swap state, and the validity of both memories.
use multicore_simulator.Prelude.{
  ℕ, ◌≡◌, inl, inr, refl, sym, ap, ◌∙◌, arith, ltb, Bool-cases, length,
}
use multicore_simulator.Process.{Pcb, modify}
use multicore_simulator.Memory.Ram
use multicore_simulator.Memory.Disk
use multicore_simulator.Memory.Ram.{memory_access_error}
use multicore_simulator.Memory.Cache.{Cache, cache_miss, evict, put}
use multicore_simulator.Memory.Cache
use multicore_simulator.Memory.Manager.Frames.{IsValid}
use multicore_simulator.Memory.Manager.Translation.{Leads}
use multicore_simulator.Memory.Manager.{
  MemoryManager, System, write_to_file, put_cached, on_process,
}

-- The paging part of the manager is the same, and both memories are still valid.
pub record SamePaging (m m' : MemoryManager) : Type 0 where
  pub ram : Ram.Laws.IsValid m.main_memory → Ram.Laws.IsValid m'.main_memory
  pub disk : Disk.Laws.IsValid m.secondary_memory → Disk.Laws.IsValid m'.secondary_memory
  pub size : m'.main_memory.size ≡ m.main_memory.size
  pub frames : m'.num_frames ≡ m.num_frames
  pub map : m'.frames_map ≡ m.frames_map
  pub table : m'.frame_owner_table ≡ m.frame_owner_table
  pub victim : m'.victim_frame_ptr ≡ m.victim_frame_ptr
  pub limit : m'.main_memory_limit ≡ m.main_memory_limit
  pub swap : m'.swap_table ≡ m.swap_table

pub SamePaging-trans : (a b c : MemoryManager) → SamePaging a b → SamePaging b c → SamePaging a c
SamePaging-trans a b c p q = record {
  ram = λ h. q.ram (p.ram h);
  disk = λ h. q.disk (p.disk h);
  size = q.size ∙ p.size;
  frames = q.frames ∙ p.frames;
  map = q.map ∙ p.map;
  table = q.table ∙ p.table;
  victim = q.victim ∙ p.victim;
  limit = q.limit ∙ p.limit;
  swap = q.swap ∙ p.swap;
}

abbrev pub SameTables : System → System → Type 0
SameTables s s' = (q : ℕ) → (s'.processes q).page_table ≡ (s.processes q).page_table

pub SamePaging-IsValid :
    (s s' : System) → SamePaging s.memory s'.memory → SameTables s s' → IsValid s → IsValid s'
SamePaging-IsValid s s' p t h = record {
  ram = p.ram h.ram;
  disk = p.disk h.disk;
  some_frame = omega (arith, p.frames, h.some_frame);
  map_sized = ap length p.map ∙ h.map_sized ∙ sym p.frames;
  table_sized = ap length p.table ∙ h.table_sized ∙ sym p.frames;
  victim = omega (arith, p.frames, p.victim, h.victim);
  room = omega (arith, p.frames, p.limit, h.room);
  words = omega (arith, p.frames, p.size, h.words);
  small = omega (arith, p.limit, h.small);
  owned = λ q page frame e.
      let old = h.owned q page frame (rw t at e) in
      record {
        exists = rw p.frames old.exists;
        used = rw p.map old.used;
        recorded = rw p.table old.recorded;
      };
}

pub write_to_file-SamePaging :
    (m : MemoryManager) (address word : ℕ) → SamePaging m (write_to_file address word m)
unfolding write_to_file
write_to_file-SamePaging m address word = elim (Bool-cases (ltb address m.main_memory_limit)) [
  | inl e ↦ rw e (record {
    ram = Ram.Laws.write_mem-IsValid _ _ _;
    disk = λ h. h;
    size = Ram.Laws.size-write_mem _ _ _;
    frames = refl;
    map = refl;
    table = refl;
    victim = refl;
    limit = refl;
    swap = refl;
  })
  | inr e ↦ rw e (record {
    ram = λ h. h;
    disk = Disk.Laws.write_mem-IsValid _ _ _;
    size = refl;
    frames = refl;
    map = refl;
    table = refl;
    victim = refl;
    limit = refl;
    swap = refl;
  })
]

pub SamePaging-refl : (m : MemoryManager) → SamePaging m m
SamePaging-refl m = record {
  ram = λ h. h;
  disk = λ h. h;
  size = refl;
  frames = refl;
  map = refl;
  table = refl;
  victim = refl;
  limit = refl;
  swap = refl;
}

pub put_cached-SamePaging :
    (m : MemoryManager) (address word : ℕ) → SamePaging m (put_cached m address word)
unfolding put_cached
put_cached-SamePaging m address word =
    let same =
      Cache.Lookup.put_cases write_to_file (SamePaging m) m.l1_cache address word m
        (SamePaging-refl m) (λ b v. write_to_file-SamePaging m b v) in
    record {
      ram = same.ram;
      disk = same.disk;
      size = same.size;
      frames = same.frames;
      map = same.map;
      table = same.table;
      victim = same.victim;
      limit = same.limit;
      swap = same.swap;
    }

-- A change of counters leaves every page table alone.
on_process-SameTables :
    (s : System) (process : ℕ) (f : Pcb → Pcb)
    → ((p : Pcb) → (f p).page_table ≡ p.page_table)
    → SameTables s (on_process s process f)
unfolding modify
on_process-SameTables s process f keep q = ground (arith, keep (s.processes q))

-- The two facts together: what `read` and `write` do past the translation.
pub record Quiet (s s' : System) : Type 0 where
  pub paging : SamePaging s.memory s'.memory
  pub tables : SameTables s s'

pub Quiet-IsValid : (s s' : System) → Quiet s s' → IsValid s → IsValid s'
Quiet-IsValid s s' q h = SamePaging-IsValid s s' q.paging q.tables h

pub Quiet-Leads : (s s' : System) (va p a : ℕ) → Quiet s s' → Leads s va p a → Leads s' va p a
Quiet-Leads s s' va p a q l = record {
  frame = l.frame;
  in_table = rw (q.tables p) l.in_table;
  address = l.address;
  inside = rw q.paging.limit l.inside;
}

pub Quiet-trans : (a b c : System) → Quiet a b → Quiet b c → Quiet a c
Quiet-trans a b c p q = record {
  paging = SamePaging-trans _ _ _ p.paging q.paging;
  tables = λ r. q.tables r ∙ p.tables r;
}

pub Quiet-on_process :
    (s : System) (process : ℕ) (f : Pcb → Pcb)
    → ((p : Pcb) → (f p).page_table ≡ p.page_table)
    → Quiet s (on_process s process f)
Quiet-on_process s process f keep = record {
  paging = SamePaging-refl s.memory;
  tables = on_process-SameTables s process f keep;
}

pub Quiet-memory :
    (s : System) (m : MemoryManager) → SamePaging s.memory m → Quiet s (record s { memory = m })
Quiet-memory s m p = record { paging = p; tables = λ q. refl }
