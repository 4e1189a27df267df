-- ===== src/Memory/Cache.antt =====
-- src/memory/cache.hpp, cache.cpp, cachePolicy.hpp and cachePolicy.cpp: the L1 cache, by address.
-- The counters are ints of the class; that they could overflow is not modelled.
pub mod Capacity
pub mod Lookup
use multicore_simulator.Prelude.{
  ℕ, Bool, true, false, List, [], ◌∷◌, ◌++◌, Option, none, some, ◌+◌, ◌==◌, leb, if◌then◌else◌,
  length, u32_max, to_u32,
}
use multicore_simulator.Prelude.Assoc.{nat_eq, lookup, insert, erase}

abbrev pub cache_capacity : ℕ
cache_capacity = 16

-- CACHE_MISS
abbrev pub cache_miss : ℕ
cache_miss = u32_max

-- (size_t)-1
abbrev pub no_address : ℕ
no_address = 18446744073709551615

-- `word` is the field `data`.
pub record CacheEntry : Type 0 where
  pub word : ℕ
  pub is_valid : Bool
  pub is_dirty : Bool

-- What `cacheMap[a]` inserts for a key that is not there.
abbrev pub default_entry : CacheEntry
default_entry = record { word = 0; is_valid = false; is_dirty = false }

pub record Cache : Type 0 where
  pub cache_map : List (ℕ × CacheEntry)
  pub fifo_queue : List ℕ
  pub capacity : ℕ
  pub misses : ℕ
  pub hits : ℕ

-- the constructor
unfoldable pub new_cache : Cache
new_cache = record {
  cache_map = [];
  fifo_queue = [];
  capacity = cache_capacity;
  misses = 0;
  hits = 0;
}

-- CachePolicy::getAddressToReplace: the queue after the call, and the address.
unfoldable pub get_address_to_replace : List ℕ → List ℕ × ℕ
get_address_to_replace [] = ([], no_address)
get_address_to_replace (a ∷ queue) = (queue, a)

unfoldable pub get_entry : Cache → Option CacheEntry → Cache × ℕ
get_entry c none = (record c { misses = c.misses + 1 }, cache_miss)
get_entry c (some entry) =
    if entry.is_valid
    then (record c { hits = c.hits + 1 }, entry.word)
    else (record c { misses = c.misses + 1 }, cache_miss)

unfoldable pub get : Cache → ℕ → Cache × ℕ
unfolding get_entry lookup
get c address = get_entry c (lookup address c.cache_map)

abbrev pub or_default : Option CacheEntry → CacheEntry
or_default none = default_entry
or_default (some entry) = entry

-- The end of `put`: a clean entry, behind all others in the queue.
unfoldable pub store : Cache → ℕ → ℕ → Cache
unfolding insert
store c address word = record c {
  cache_map =
      insert address (record { word = word; is_valid = true; is_dirty = false }) c.cache_map;
  fifo_queue = c.fifo_queue ++ address ∷ [];
}

module _ {ℓ} {M : Type ℓ} (write_to_file : ℕ → ℕ → M → M) where
  -- The branch of `put` that makes room. The write-back is a call of the memory manager, which the
  -- caller hands over.
  unfoldable pub evict : Cache → M → Cache × M
  unfolding get_address_to_replace lookup erase
  evict c mem =
      let (queue, victim) = get_address_to_replace c.fifo_queue in
      let entry = or_default (lookup victim c.cache_map) in
      if victim == no_address then (record c { fifo_queue = queue }, mem) else (
        record c { fifo_queue = queue; cache_map = erase victim c.cache_map },
        if entry.is_dirty then write_to_file (to_u32 victim) (to_u32 entry.word) mem else mem,
      )

  unfoldable pub put : Cache → ℕ → ℕ → M → Cache × M
  unfolding evict store
  put c address word mem =
      let (c', mem') = if leb c.capacity (length c.cache_map) then evict c mem else (c, mem) in
      (store c' address word, mem')

unfoldable pub update_entry : Cache → ℕ → ℕ → Option CacheEntry → Cache
unfolding insert
update_entry c address word none = c
update_entry c address word (some entry) = record c {
  cache_map = insert address (record { word = word; is_valid = true; is_dirty = true }) c.cache_map;
}

unfoldable pub update : Cache → ℕ → ℕ → Cache
unfolding update_entry lookup
update c address word = update_entry c address word (lookup address c.cache_map)

unfoldable pub invalidate_all : List (ℕ × CacheEntry) → List (ℕ × CacheEntry)
invalidate_all [] = []
invalidate_all ((a, entry) ∷ rest) = (a, record entry { is_valid = false }) ∷ invalidate_all rest

unfoldable pub invalidate : Cache → Cache
unfolding invalidate_all
invalidate c = record c { cache_map = invalidate_all c.cache_map; fifo_queue = [] }

unfoldable pub dirty_entries : List (ℕ × CacheEntry) → List (ℕ × ℕ)
dirty_entries [] = []
dirty_entries ((a, entry) ∷ rest) =
    let others = dirty_entries rest in if entry.is_dirty then (a, entry.word) ∷ others else others

unfoldable pub dirty_data : Cache → List (ℕ × ℕ)
unfolding dirty_entries
dirty_data c = dirty_entries c.cache_map
