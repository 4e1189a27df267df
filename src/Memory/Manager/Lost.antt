-- ===== src/Memory/Manager/Lost.antt =====
-- The word that src/memory/cache.hpp takes for a miss, in `write` of src/memory/MemoryManager.cpp.
use multicore_simulator.Prelude.{
  ℕ, true, false, List, ◌∷◌, some, ◌*◌, ◌/◌, ◌≡◌, ◌≤◌, ◌<◌, refl, ap, ◌∙◌, arith, ◌==◌, ==_refl,
  ltb, leb, length, to_u32, u32_mod,
}
use multicore_simulator.Prelude.Assoc.{nat_eq, lookup, keys, lookup-insert}
use multicore_simulator.Memory.Ram
use multicore_simulator.Memory.Cache.{
  Cache, CacheEntry, cache_miss, cache_capacity, get, get_entry, evict, store, put,
}
use multicore_simulator.Memory.Cache
use multicore_simulator.Memory.Cache.Lookup.{get_lem}
use multicore_simulator.Memory.Manager.Quiet.{SamePaging, write_to_file-SamePaging}
use multicore_simulator.Memory.Manager.Coherent.{Sound, Sound-SamePaging, write_to_file-Written}
use multicore_simulator.Memory.Manager.{
  MemoryManager, System, page_size, write_to_file, put_cached, write_memory, write_physical,
}

-- The entry that a write of CACHE_MISS to a cached address leaves, and a clean one.
abbrev pub unseen : CacheEntry
unseen = record { word = cache_miss; is_valid = true; is_dirty = true }

abbrev pub clean : ℕ → CacheEntry
clean word = record { word = word; is_valid = true; is_dirty = false }

module _ (m : MemoryManager) (a word : ℕ) (rest : List (ℕ × CacheEntry)) (sound : Sound m)
    (inside : a < m.num_frames * page_size) (valid : Cache.Capacity.IsValid m.l1_cache)
    (first : m.l1_cache.cache_map ≡ (a, unseen) ∷ rest)
    (full : cache_capacity ≤ length m.l1_cache.cache_map) where
  -- The entry is written back, over what the main memory has, and gets a clean one in its place.
  put-lost :
      let (c, m') = put write_to_file m.l1_cache a word m in
      (Ram.read_mem m'.main_memory (a / 4) ≡ cache_miss)
      × (lookup a c.cache_map ≡ some (clean word))
  unfolding put store
  put-lost =
      let room : leb m.l1_cache.capacity (length m.l1_cache.cache_map) ≡ true =
        ground (arith, valid.sixteen, full) in
      let address : to_u32 a ≡ a = omega (arith, inside, sound.room, sound.small) in
      let evicted : evict write_to_file m.l1_cache m ≡ (
        record m.l1_cache { fifo_queue = keys rest; cache_map = rest },
        write_to_file a cache_miss m,
      ) =
        Cache.Capacity.evict_lem write_to_file m.l1_cache m a unseen rest valid first
        ∙ rw address refl in
      rw (room, evicted)
        (
          write_to_file-Written m a cache_miss sound inside (a / 4) ∙ rw (==_refl (a / 4)) refl,
          lookup-insert a a (clean word) rest ∙ rw (==_refl a) refl,
        )

  put_cached-lost :
      (Ram.read_mem (put_cached m a word).main_memory (a / 4) ≡ cache_miss)
      × (lookup a (put_cached m a word).l1_cache.cache_map ≡ some (clean word))
  unfolding put_cached
  put_cached-lost = put-lost

unseen-missed :
    (c : Cache) (a : ℕ) (rest : List (ℕ × CacheEntry))
    → c.cache_map ≡ (a, unseen) ∷ rest
    → ((get c a).1 == cache_miss) ≡ true
unfolding get lookup
unseen-missed c a rest e = rw (e, ==_refl a, get_entry) refl

module _ (s : System) (process a word : ℕ) (rest : List (ℕ × CacheEntry)) where
  -- A write is lost. CACHE_MISS was written to a cached address of a word in a frame, and its entry is the
  -- oldest of a full cache. The next write of a 32-bit word to the address leaves CACHE_MISS in the main
  -- memory, and the word in an entry that is clean, so that nothing writes it back.
  pub write_physical-lost :
      Sound s.memory
      → a < s.memory.num_frames * page_size
      → word < u32_mod
      → Cache.Capacity.IsValid s.memory.l1_cache
      → s.memory.l1_cache.cache_map ≡ (a, unseen) ∷ rest
      → cache_capacity ≤ length s.memory.l1_cache.cache_map
      → let m = (write_physical s process a word).memory in
        (Ram.read_mem m.main_memory (a / 4) ≡ cache_miss)
        × (lookup a m.l1_cache.cache_map ≡ some (clean word))
  unfolding write_physical write_memory
  write_physical-lost sound inside small valid first full =
      let main : ltb a s.memory.main_memory_limit ≡ true = ground (arith, sound.room) in
      let stored : MemoryManager = write_to_file a word s.memory in
      let looked : MemoryManager = record stored { l1_cache = (get stored.l1_cache a).0 } in
      let same : stored.l1_cache ≡ s.memory.l1_cache = unfold write_to_file in ground arith in
      let missed : ((get stored.l1_cache a).1 == cache_miss) ≡ true =
        rw same (unseen-missed s.memory.l1_cache a rest first) in
      let map : looked.l1_cache.cache_map ≡ s.memory.l1_cache.cache_map =
        (get_lem stored.l1_cache a).1 ∙ ap (λ (c : Cache). c.cache_map) same in
      let paging : SamePaging s.memory stored = write_to_file-SamePaging s.memory a word in
      let frames : looked.num_frames ≡ s.memory.num_frames = paging.frames in
      let sound' : Sound stored =
        Sound-SamePaging s.memory stored paging sound λ i.
          ground (arith, write_to_file-Written s.memory a word sound inside i, sound.cells i) in
      let looked-Sound : Sound looked = record {
        ram = sound'.ram;
        room = sound'.room;
        words = sound'.words;
        small = sound'.small;
        cells = sound'.cells;
      } in
      rw (main, missed)
        (put_cached-lost looked a word rest looked-Sound (omega (arith, inside, frames))
          (Cache.Capacity.get-IsValid stored.l1_cache a (rw same valid)) (map ∙ first)
          (rw map full))
