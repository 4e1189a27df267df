-- ===== src/Memory/Manager/Coherent/Read.antt =====
-- `read` of src/memory/MemoryManager.cpp past the translation, on a cache that holds what the
-- main memory holds: it acts on the main memory alone.
use multicore_simulator.Prelude.{
  ℕ, true, false, some, ◌*◌, ◌/◌, ◌%◌, ◌≡◌, ◌<◌, ◌≢◌, refl, arith, inl, inr, ◌==◌, ltb, Bool-cases,
  Option-cases,
}
use multicore_simulator.Prelude.Assoc.{nat_eq, lookup}
use multicore_simulator.Memory.Ram
use multicore_simulator.Memory.Cache.{CacheEntry, cache_miss, get, get_entry}
use multicore_simulator.Memory.Cache.Lookup.{get_lem}
use multicore_simulator.Memory.Manager.Coherent.{Coherent, SameWords, put_cached-Coherent}
use multicore_simulator.Memory.Manager.{
  MemoryManager, System, page_size, read_memory, read_physical,
}

-- The counters of a look into the cache change nothing.
get-Coherent :
    (m : MemoryManager) (a : ℕ)
    → Coherent m
    → Coherent (record m { l1_cache = (get m.l1_cache a).0 })
get-Coherent m a h = record {
  sound = record {
    ram = h.sound.ram;
    room = h.sound.room;
    words = h.sound.words;
    small = h.sound.small;
    cells = h.sound.cells;
  };
  backed = λ q entry e. h.backed q entry (rw (get_lem m.l1_cache a).1 at e);
}

-- What a look into the cache answers, if not CACHE_MISS: the word of the main memory.
get-word :
    (m : MemoryManager) (a : ℕ)
    → Coherent m
    → (get m.l1_cache a).1 ≢ cache_miss
    → (get m.l1_cache a).1 ≡ Ram.read_mem m.main_memory (a / 4)
unfolding get
get-word m a h hit = elim (Option-cases (lookup a m.l1_cache.cache_map)) [
  | inl absent ↦ absurd (hit (rw (absent, get_entry) refl))
  | inr (entry, e) ↦ let b = h.backed a entry e in rw (e, get_entry, b.valid) b.same
]

-- An address whose look is a miss has no dirty entry.
pub get-clean :
    (m : MemoryManager) (a : ℕ) (entry : CacheEntry)
    → Coherent m
    → (get m.l1_cache a).1 ≡ cache_miss
    → lookup a m.l1_cache.cache_map ≡ some entry
    → entry.is_dirty ≡ false
unfolding get
get-clean m a entry h missed e =
    let b = h.backed a entry e in
    let word : entry.word ≡ cache_miss = rw (e, get_entry, b.valid) at missed in
    elim (Bool-cases entry.is_dirty) [ inl dirty ↦ absurd (b.dirty dirty word) | inr clean ↦ clean ]

-- Past the translation a read answers the word of the main memory, and changes no word.
pub read_physical-Coherent :
    (s : System) (process a : ℕ)
    → Coherent s.memory
    → a % 4 ≡ 0
    → a < s.memory.num_frames * page_size
    → let (s', word) = read_physical s process a in
      (word ≡ Ram.read_mem s.memory.main_memory (a / 4))
      × Coherent s'.memory
      × SameWords s.memory s'.memory
unfolding read_physical read_memory
read_physical-Coherent s process a h aligned inside =
    let m : MemoryManager = record s.memory { l1_cache = (get s.memory.l1_cache a).0 } in
    let looked : Coherent m = get-Coherent s.memory a h in
    let main : ltb a s.memory.main_memory_limit ≡ true = ground (arith, h.sound.room) in
    elim (Bool-cases ((get s.memory.l1_cache a).1 == cache_miss)) [
      | inl missed ↦
          let (coherent, words) =
            put_cached-Coherent m a (Ram.read_mem m.main_memory (a / 4)) looked.sound
              (λ q entry e. inl (looked.backed q entry e)) aligned inside refl in
          rw (missed, main) (refl, coherent, words)
      | inr hit ↦
          let word : (get s.memory.l1_cache a).1 ≡ Ram.read_mem s.memory.main_memory (a / 4) =
            get-word s.memory a h (ground arith) in
          rw (hit, word) (omega (arith, h.sound.cells (a / 4)), looked, λ i. refl)
    ]
