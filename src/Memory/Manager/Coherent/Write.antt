-- ===== src/Memory/Manager/Coherent/Write.antt =====
-- `write` of src/memory/MemoryManager.cpp past the translation, on a cache that holds what the
-- main memory holds: it acts on the main memory alone.
use multicore_simulator.Prelude.{
  ℕ, true, false, some, ◌*◌, ◌/◌, ◌%◌, ◌≡◌, ◌<◌, ◌≢◌, refl, sym, ◌∙◌, arith, inl, inr, ◌==◌,
  ==_refl, ltb, u32_mod, Bool-cases, Option-cases,
}
use multicore_simulator.Prelude.Assoc.{nat_eq, lookup, insert, lookup-insert}
use multicore_simulator.Memory.Ram
use multicore_simulator.Memory.Cache.{Cache, CacheEntry, cache_miss, get, update, update_entry}
use multicore_simulator.Memory.Cache.Lookup.{get_lem}
use multicore_simulator.Memory.Manager.Quiet.{write_to_file-SamePaging}
use multicore_simulator.Memory.Manager.Coherent.{
  Backed, AllBacked, AllBackedBut, Sound, Coherent, Written, write_to_file-Written,
  Sound-SamePaging, put_cached-Coherent,
}
use multicore_simulator.Memory.Manager.{
  MemoryManager, System, page_size, write_to_file, write_memory, write_physical,
}
use multicore_simulator.Memory.Manager.Coherent.Read.{get-clean}

-- What `write` stores behind the cache leaves the other addresses as they were.
others :
    (m : MemoryManager) (a word : ℕ)
    → Coherent m
    → a % 4 ≡ 0
    → a < m.num_frames * page_size
    → (q : ℕ) (entry : CacheEntry) → lookup q m.l1_cache.cache_map ≡ some entry
    → q ≢ a
    → Backed m.num_frames (write_to_file a word m).main_memory q entry
others m a word h aligned inside q entry e apart =
    let b = h.backed q entry e in
    let elsewhere : (a / 4 == q / 4) ≡ false = ground (arith, b.aligned) in
    record {
      aligned = b.aligned;
      inside = b.inside;
      valid = b.valid;
      same =
          b.same ∙ sym (write_to_file-Written m a word h.sound inside (q / 4) ∙ rw elsewhere refl);
      dirty = b.dirty;
    }

update-AllBacked :
    (m : MemoryManager) (c : Cache) (a word : ℕ)
    → ((q : ℕ) (entry : CacheEntry)
        → lookup q c.cache_map ≡ some entry
        → q ≢ a
        → Backed m.num_frames m.main_memory q entry)
    → a % 4 ≡ 0
    → a < m.num_frames * page_size
    → word ≡ Ram.read_mem m.main_memory (a / 4)
    → word ≢ cache_miss
    → AllBacked m.num_frames m.main_memory (update c a word)
unfolding update
update-AllBacked m c a word b aligned inside same ne q entry e =
    let new : CacheEntry = record { word = word; is_valid = true; is_dirty = true } in
    elim (Option-cases (lookup a c.cache_map)) [
      | inl absent ↦
          let e' : lookup q c.cache_map ≡ some entry = rw (absent, update_entry) at e in
          b q entry e' (λ which. cc (rw which at e'))
      | inr (old, there) ↦
          let e' : lookup q (insert a new c.cache_map) ≡ some entry =
            rw (there, update_entry) at e in
          elim (Bool-cases (a == q)) [
            | inl here ↦
                let which : q ≡ a = ground arith in
                let found : new ≡ entry = ground (arith, lookup-insert a q new c.cache_map) in
                rw (which, sym found)
                  (record {
                    aligned = aligned;
                    inside = inside;
                    valid = refl;
                    same = same;
                    dirty = λ d. ne;
                  })
            | inr apart ↦
                b q entry (ground (arith, lookup-insert a q new c.cache_map))
                  (λ which. ground arith)
          ]
    ]

-- The cells after a write of a 32-bit word.
Written-cells :
    (m m' : MemoryManager) (a word : ℕ)
    → Sound m
    → word < u32_mod
    → Written m a word m'
    → (i : ℕ) → Ram.read_mem m'.main_memory i < u32_mod
Written-cells m m' a word h small written i = ground (arith, written i, h.cells i)

module _ (s : System) (process a word : ℕ) (h : Coherent s.memory) (aligned : a % 4 ≡ 0)
    (inside : a < s.memory.num_frames * page_size) (small : word < u32_mod)
    (ne : word ≢ cache_miss) where
  m' : MemoryManager
  m' = write_to_file a word s.memory

  stored-Sound : Sound m'
  unfolding m'
  stored-Sound = Sound-SamePaging s.memory m' (write_to_file-SamePaging s.memory a word) h.sound (
      Written-cells s.memory m' a word h.sound small
        (write_to_file-Written s.memory a word h.sound inside))

  written : Written s.memory a word m'
  unfolding m'
  written = write_to_file-Written s.memory a word h.sound inside

  cache_same : m'.l1_cache ≡ s.memory.l1_cache
  unfolding m' write_to_file
  cache_same = ground arith

  frames_same : m'.num_frames ≡ s.memory.num_frames
  unfolding m'
  frames_same = (write_to_file-SamePaging s.memory a word).frames

  -- The manager after the look into the cache.
  looked : MemoryManager
  looked = record m' { l1_cache = (get m'.l1_cache a).0 }

  looked-Sound : Sound looked
  unfolding looked
  looked-Sound = record {
    ram = stored-Sound.ram;
    room = stored-Sound.room;
    words = stored-Sound.words;
    small = stored-Sound.small;
    cells = stored-Sound.cells;
  }

  before :
      (q : ℕ) (entry : CacheEntry)
      → lookup q looked.l1_cache.cache_map ≡ some entry
      → lookup q s.memory.l1_cache.cache_map ≡ some entry
  unfolding looked
  before q entry e = rw (← cache_same) (rw (get_lem m'.l1_cache a).1 at e)

  looked-others :
      (q : ℕ) (entry : CacheEntry)
      → lookup q looked.l1_cache.cache_map ≡ some entry
      → q ≢ a
      → Backed looked.num_frames looked.main_memory q entry
  looked-others q entry e apart =
      let b : Backed s.memory.num_frames m'.main_memory q entry =
        unfold m' in others s.memory a word h aligned inside q entry (before q entry e) apart in
      unfold looked in rw frames_same b

  within : a < looked.num_frames * page_size
  unfolding looked
  within = rw frames_same inside

  holds : word ≡ Ram.read_mem looked.main_memory (a / 4)
  unfolding looked
  holds = sym (written (a / 4) ∙ rw (==_refl (a / 4)) refl)

  missed-AllBackedBut :
      (get m'.l1_cache a).1 ≡ cache_miss
      → AllBackedBut a looked.num_frames looked.main_memory looked.l1_cache
  missed-AllBackedBut missed q entry e = elim (Bool-cases (q == a)) [
    | inl here ↦
        let which : q ≡ a = ground arith in
        let there : lookup a s.memory.l1_cache.cache_map ≡ some entry =
          rw which at (before q entry e) in
        inr (which, get-clean s.memory a entry h (rw cache_same at missed) there)
    | inr apart ↦ inl (looked-others q entry e (λ which. ground arith))
  ]

  updated : MemoryManager
  updated = record looked { l1_cache = update looked.l1_cache a word }

  updated-Coherent : Coherent updated
  unfolding updated
  updated-Coherent = record {
    sound = record {
      ram = looked-Sound.ram;
      room = looked-Sound.room;
      words = looked-Sound.words;
      small = looked-Sound.small;
      cells = looked-Sound.cells;
    };
    backed = update-AllBacked looked looked.l1_cache a word looked-others aligned within holds ne;
  }

  -- Past the translation a write changes the word at its address in the main memory, and no other.
  pub write_physical-Coherent :
      Coherent (write_physical s process a word).memory
      × Written s.memory a word (write_physical s process a word).memory
  unfolding m' looked updated write_physical write_memory
  write_physical-Coherent =
      let main : ltb a s.memory.main_memory_limit ≡ true = ground (arith, h.sound.room) in
      elim (Bool-cases ((get m'.l1_cache a).1 == cache_miss)) [
        | inl missed ↦
            let (coherent, words) =
              put_cached-Coherent looked a word looked-Sound (missed-AllBackedBut (ground arith))
                aligned within holds in
            rw (main, missed) (coherent, λ i. words i ∙ written i)
        | inr hit ↦ rw (main, hit) (updated-Coherent, written)
      ]
