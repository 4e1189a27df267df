-- ===== src/Memory/Manager/Stale.antt =====
-- Paging in src/memory/MemoryManager.cpp leaves the L1 cache alone, and the cache is asked by frame
-- address: what a frame held before it changed its page is still answered.
use multicore_simulator.Prelude.{
  ℕ, Bool, false, none, some, ◌+◌, ◌/◌, ◌%◌, ◌≡◌, ◌<◌, ◌≢◌, inl, inr, refl, sym, ◌∙◌, arith, ◌==◌,
  to_u32, u32_mod, Option-cases,
}
use multicore_simulator.Prelude.Assoc.{nat_eq, pair_eq, lookup}
use multicore_simulator.Memory.Ram.{memory_access_error}
use multicore_simulator.Memory.Disk
use multicore_simulator.Memory.Cache.{cache_miss}
use multicore_simulator.Memory.Cache.Lookup.{cached}
use multicore_simulator.Memory.Manager.Frames.{mapped}
use multicore_simulator.Memory.Manager.Access.{read_physical-cached}
use multicore_simulator.Memory.Manager.{
  System, FrameInfo, page_size, own_frame, evict_page, evict_owner, advance_victim, swap_out,
  swap_in, allocate_frame, first_free, map_page, translate_miss, translate_page, translate_address,
  on_process, count_read, read,
}

allocate_frame-cache :
    (s : System) (process page : ℕ)
    → (allocate_frame s process page).0.memory.l1_cache ≡ s.memory.l1_cache
unfolding allocate_frame own_frame swap_out evict_owner evict_page advance_victim
allocate_frame-cache s process page = elim (Option-cases (first_free s.memory.frames_map 0)) [
  | inr (i, e) ↦ rw (e, allocate_frame) refl
  | inl e ↦ rw (e, allocate_frame) (evicted (record s { memory = advance_victim s.memory }) _ _)
]
  where
    evicted :
        (t : System) (frame : ℕ) (info : FrameInfo)
        → (evict_owner t frame info).memory.l1_cache ≡ t.memory.l1_cache
    evicted t frame info = ground arith

-- Translation keeps the cache, whatever page it moves.
pub translate_address-cache :
    (s : System) (va process : ℕ) (is_write : Bool)
    → (translate_address s va process is_write).0.memory.l1_cache ≡ s.memory.l1_cache
unfolding translate_address translate_page translate_miss swap_in map_page
translate_address-cache s va process is_write =
    ground (arith, allocate_frame-cache s process (va / page_size))

-- A page comes back from the disk to a frame under whose address the cache still holds a 32-bit
-- word, not the one that it takes for a miss. If that word differs from the one that the disk has
-- for the address, the read does not answer the word of the disk.
pub read_stale :
    (s : System) (va process a disk_address word : ℕ)
    → mapped s process (va / page_size) ≡ none
    → lookup ((s.processes process).pid, va / page_size) s.memory.swap_table ≡ some disk_address
    → (translate_address (on_process s process count_read) va process false).1 ≡ a
    → a ≢ memory_access_error
    → cached s.memory.l1_cache a ≡ some word
    → word ≢ cache_miss
    → word < u32_mod
    → word ≢ Disk.read_mem s.memory.secondary_memory (disk_address + va % page_size / 4)
    → (read s va process).1
      ≢ Disk.read_mem s.memory.secondary_memory (disk_address + va % page_size / 4)
unfolding read
read_stale s va process a disk_address word absent swapped leads led hit ne small differs =
    let start = on_process s process count_read in
    let there : (a == memory_access_error) ≡ false = ground arith in
    let same = translate_address-cache start va process false in
    let fits : to_u32 word ≡ word = omega arith in
    let answered = read_physical-cached _ process a word (rw same hit) ne ∙ fits in
    rw (leads, there) (λ e. differs (sym answered ∙ e))
