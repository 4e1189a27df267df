-- ===== src/Memory/Manager/Coherent.antt =====
-- The L1 cache of src/memory/cache.cpp in front of the main memory, as the reads and writes of
-- src/memory/MemoryManager.cpp use it past the translation: it holds what the main memory holds.
pub mod Read
pub mod Write
use multicore_simulator.Prelude.{
  ℕ, true, false, some, ◌*◌, ◌/◌, ◌%◌, ◌≡◌, ◌≤◌, ◌<◌, ◌≢◌, ◌⊎◌, refl, sym, ◌∙◌, arith, inl, inr,
  ◌==◌, ltb, leb, if◌then◌else◌, length, to_u32, u32_mod, Bool-cases, Option-cases,
}
use multicore_simulator.Prelude.Assoc.{nat_eq, lookup, erase, lookup-insert, lookup-erase}
use multicore_simulator.Memory.Ram.{MainMemory}
use multicore_simulator.Memory.Ram
use multicore_simulator.Memory.Cache.{
  Cache, CacheEntry, get_address_to_replace, no_address, cache_miss, evict, store, put,
}
use multicore_simulator.Memory.Manager.Quiet.{SamePaging, put_cached-SamePaging}
use multicore_simulator.Memory.Manager.{
  MemoryManager, page_size, words_per_page, write_to_file, put_cached,
}

-- An entry for the address of a word in a frame, with the word that the main memory has there. One that
-- is dirty is not the word that the cache takes for a miss.
pub record Backed (frames : ℕ) (ram : MainMemory) (address : ℕ) (entry : CacheEntry) : Type 0 where
  pub aligned : address % 4 ≡ 0
  pub inside : address < frames * page_size
  pub valid : entry.is_valid ≡ true
  pub same : entry.word ≡ Ram.read_mem ram (address / 4)
  pub dirty : entry.is_dirty ≡ true → entry.word ≢ cache_miss

abbrev pub AllBacked : ℕ → MainMemory → Cache → Type 0
AllBacked frames ram c =
    (a : ℕ) (entry : CacheEntry) → lookup a c.cache_map ≡ some entry → Backed frames ram a entry

-- The same but for a clean entry of one address.
abbrev pub AllBackedBut : ℕ → ℕ → MainMemory → Cache → Type 0
AllBackedBut a frames ram c =
    (q : ℕ) (entry : CacheEntry)
    → lookup q c.cache_map ≡ some entry
    → Backed frames ram q entry ⊎ ((q ≡ a) × (entry.is_dirty ≡ false))

-- The frames fit into a memory of 32-bit words.
pub record Sound (m : MemoryManager) : Type 0 where
  pub ram : Ram.Laws.IsValid m.main_memory
  pub room : m.num_frames * page_size ≤ m.main_memory_limit
  pub words : m.num_frames * words_per_page ≤ m.main_memory.size
  pub small : m.main_memory_limit < u32_mod
  pub cells : (i : ℕ) → Ram.read_mem m.main_memory i < u32_mod

-- The cache holds what the main memory holds.
pub record Coherent (m : MemoryManager) : Type 0 where
  pub sound : Sound m
  pub backed : AllBacked m.num_frames m.main_memory m.l1_cache

-- The main memory after a write of a word, and one that is the same, by what they answer.
abbrev pub Written : MemoryManager → ℕ → ℕ → MemoryManager → Type 0
Written m a word m' =
    (i : ℕ)
    → Ram.read_mem m'.main_memory i ≡ (if a / 4 == i then word else Ram.read_mem m.main_memory i)

abbrev pub SameWords : MemoryManager → MemoryManager → Type 0
SameWords m m' = (i : ℕ) → Ram.read_mem m'.main_memory i ≡ Ram.read_mem m.main_memory i

pub write_to_file-Written :
    (m : MemoryManager) (a word : ℕ)
    → Sound m
    → a < m.num_frames * page_size
    → Written m a word (write_to_file a word m)
unfolding write_to_file
write_to_file-Written m a word h inside i =
    let main : ltb a m.main_memory_limit ≡ true = ground (arith, h.room) in
    let exists : ltb (a / 4) m.main_memory.size ≡ true = ground (arith, h.words) in
    ground (arith, Ram.Laws.read_mem-write_mem m.main_memory (a / 4) word i h.ram)

Backed-SameWords :
    (frames : ℕ) (ram ram' : MainMemory) (a : ℕ) (entry : CacheEntry)
    → Ram.read_mem ram' (a / 4) ≡ Ram.read_mem ram (a / 4)
    → Backed frames ram a entry
    → Backed frames ram' a entry
Backed-SameWords frames ram ram' a entry same b = record {
  aligned = b.aligned;
  inside = b.inside;
  valid = b.valid;
  same = b.same ∙ sym same;
  dirty = b.dirty;
}

-- An entry that is written back changes no word.
write_back :
    (m : MemoryManager) (a : ℕ) (entry : CacheEntry)
    → Sound m
    → Backed m.num_frames m.main_memory a entry
    → SameWords m (write_to_file (to_u32 a) (to_u32 entry.word) m)
write_back m a entry h b i =
    let address : to_u32 a ≡ a = omega (arith, b.inside, h.room, h.small) in
    let word : to_u32 entry.word ≡ entry.word = omega (arith, b.same, h.cells (a / 4)) in
    rw (address, word) (write_to_file-Written m a entry.word h b.inside i ∙ ground (arith, b.same))

evict-AllBackedBut :
    (m : MemoryManager) (c : Cache) (a : ℕ)
    → Sound m
    → AllBackedBut a m.num_frames m.main_memory c
    → AllBackedBut a m.num_frames m.main_memory (evict write_to_file c m).0
      × SameWords m (evict write_to_file c m).1
unfolding evict
evict-AllBackedBut m c a h b =
    let victim = (get_address_to_replace c.fifo_queue).1 in
    let kept : AllBackedBut a m.num_frames m.main_memory
        (record c { cache_map = erase victim c.cache_map }) =
      λ q entry e. b q entry (ground (arith, lookup-erase victim q c.cache_map)) in
    elim (Bool-cases (victim == no_address)) [
      | inl nobody ↦ rw nobody (b, λ i. refl)
      | inr somebody ↦ rw somebody (
        kept,
        elim (Option-cases (lookup victim c.cache_map)) [
          | inl absent ↦ rw absent (λ i. refl)
          | inr (entry, there) ↦ rw there (elim (b victim entry there) [
            | inr (_, clean) ↦ rw clean (λ i. refl)
            | inl held ↦ elim (Bool-cases entry.is_dirty) [
              | inl dirty ↦ rw dirty (write_back m victim entry h held)
              | inr clean ↦ rw clean (λ i. refl)
            ]
          ])
        ],
      )
    ]

store-AllBacked :
    (frames : ℕ) (ram : MainMemory) (c : Cache) (a word : ℕ)
    → AllBackedBut a frames ram c
    → a % 4 ≡ 0
    → a < frames * page_size
    → word ≡ Ram.read_mem ram (a / 4)
    → AllBacked frames ram (store c a word)
unfolding store
store-AllBacked frames ram c a word b aligned inside same q entry e =
    let new : CacheEntry = record { word = word; is_valid = true; is_dirty = false } in
    elim (Bool-cases (a == q)) [
      | inl here ↦
          let which : q ≡ a = ground arith in
          let found : new ≡ entry = ground (arith, lookup-insert a q new c.cache_map) in
          rw (which, sym found)
            (record {
              aligned = aligned;
              inside = inside;
              valid = refl;
              same = same;
              dirty = λ d. cc;
            })
      | inr apart ↦ elim (b q entry (ground (arith, lookup-insert a q new c.cache_map))) [
        | inl held ↦ held
        | inr (which, _) ↦ absurd (ground arith)
      ]
    ]

put-AllBacked :
    (m : MemoryManager) (a word : ℕ)
    → Sound m
    → AllBackedBut a m.num_frames m.main_memory m.l1_cache
    → a % 4 ≡ 0
    → a < m.num_frames * page_size
    → word ≡ Ram.read_mem m.main_memory (a / 4)
    → AllBacked m.num_frames m.main_memory (put write_to_file m.l1_cache a word m).0
      × SameWords m (put write_to_file m.l1_cache a word m).1
unfolding put
put-AllBacked m a word h backed aligned inside same =
    let c = m.l1_cache in
    let stored = λ (c' : Cache) (b : AllBackedBut a m.num_frames m.main_memory c').
      store-AllBacked m.num_frames m.main_memory c' a word b aligned inside same in
    elim (Bool-cases (leb c.capacity (length c.cache_map))) [
      | inl full ↦
          let (b, words) = evict-AllBackedBut m c a h backed in
          rw full (stored (evict write_to_file c m).0 b, words)
      | inr room ↦ rw room (stored c backed, λ i. refl)
    ]

-- A change that leaves the frames alone, and the words below 2 ^ 32.
pub Sound-SamePaging :
    (m m' : MemoryManager)
    → SamePaging m m'
    → Sound m
    → ((i : ℕ) → Ram.read_mem m'.main_memory i < u32_mod)
    → Sound m'
Sound-SamePaging m m' p h cells = record {
  ram = p.ram h.ram;
  room = omega (arith, p.frames, p.limit, h.room);
  words = omega (arith, p.frames, p.size, h.words);
  small = omega (arith, p.limit, h.small);
  cells = cells;
}

-- A word of the main memory that is put into the cache changes no word.
pub put_cached-Coherent :
    (m : MemoryManager) (a word : ℕ)
    → Sound m
    → AllBackedBut a m.num_frames m.main_memory m.l1_cache
    → a % 4 ≡ 0
    → a < m.num_frames * page_size
    → word ≡ Ram.read_mem m.main_memory (a / 4)
    → Coherent (put_cached m a word) × SameWords m (put_cached m a word)
put_cached-Coherent m a word h backed aligned inside same =
    let (b, words) = put-AllBacked m a word h backed aligned inside same in
    let m' : MemoryManager = put_cached m a word in
    let paging : SamePaging m m' = put_cached-SamePaging m a word in
    let words' : SameWords m m' = unfold put_cached in words in
    let b' : AllBacked m.num_frames m.main_memory m'.l1_cache = unfold put_cached in b in
    (
      record {
        sound = Sound-SamePaging m m' paging h (λ i. rw (words' i) (h.cells i));
        backed = rw paging.frames λ q entry e.
            Backed-SameWords m.num_frames m.main_memory m'.main_memory q entry (words' (q / 4))
              (b' q entry e);
      },
      words',
    )
