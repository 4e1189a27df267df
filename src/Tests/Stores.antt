-- ===== src/Tests/Stores.antt =====
-- The properties of the memories and of the cache in src/memory at small ones.
use multicore_simulator.Prelude.{ℕ, true, [], ◌∷◌, ◌≡◌, ◌+◌, refl, arith, length}
use multicore_simulator.Prelude.Assoc.{nat_eq, contains}
use multicore_simulator.Memory.Ram.{MainMemory, memory_access_error}
use multicore_simulator.Memory.Ram
use multicore_simulator.Memory.Ram.Laws.{is_empty_iff}
use multicore_simulator.Memory.Disk.{SecondaryMemory}
use multicore_simulator.Memory.Disk
use multicore_simulator.Memory.Disk.Laws.{read_mem_lem, read_mem-write_mem}
use multicore_simulator.Memory.Cache.{Cache, put, invalidate, cache_capacity, CacheEntry}
use multicore_simulator.Memory.Cache.Capacity.{IsValid, put-IsValid, put-invalidate_overflows}

abbrev ram : MainMemory
ram = record { size = 3; ram = 4 ∷ 5 ∷ memory_access_error ∷ [] }

ram-IsValid : Ram.Laws.IsValid ram
ram-IsValid = record { sized = refl; bounded = omega arith }

abbrev disk : SecondaryMemory
disk = record { size = 3; storage = 4 ∷ 5 ∷ 6 ∷ [] }

disk-IsValid : Disk.Laws.IsValid disk
disk-IsValid = record { sized = refl; bounded = omega arith }

-- The write-back of the tests counts its calls.
abbrev count_calls : ℕ → ℕ → ℕ → ℕ
count_calls address word calls = calls + 1

abbrev entry : ℕ → CacheEntry
entry word = record { word = word; is_valid = true; is_dirty = true }

-- Sixteen entries, all of them dirty.
abbrev full_cache : Cache
full_cache = record {
  cache_map =
      (0, entry 0)
      ∷ (1, entry 1)
      ∷ (2, entry 2)
      ∷ (3, entry 3)
      ∷ (4, entry 4)
      ∷ (5, entry 5)
      ∷ (6, entry 6)
      ∷ (7, entry 7)
      ∷ (8, entry 8)
      ∷ (9, entry 9)
      ∷ (10, entry 10)
      ∷ (11, entry 11)
      ∷ (12, entry 12)
      ∷ (13, entry 13)
      ∷ (14, entry 14)
      ∷ (15, entry 15)
      ∷ [];
  fifo_queue = 0 ∷ 1 ∷ 2 ∷ 3 ∷ 4 ∷ 5 ∷ 6 ∷ 7 ∷ 8 ∷ 9 ∷ 10 ∷ 11 ∷ 12 ∷ 13 ∷ 14 ∷ 15 ∷ [];
  capacity = cache_capacity;
  misses = 0;
  hits = 0;
}

full_cache-IsValid : IsValid full_cache
unfolding contains
full_cache-IsValid = record {
  sixteen = refl;
  queued = refl;
  distinct = ground arith;
  fits = omega arith;
  addresses = ground arith;
}

put-IsValid_example : IsValid (put count_calls full_cache 20 8 0).0
unfolding contains
put-IsValid_example =
    put-IsValid count_calls full_cache 20 8 0 full_cache-IsValid refl (omega arith)

put-invalidate_overflows_example :
    let (c, calls) = put count_calls (invalidate full_cache) 20 8 0 in
    (length c.cache_map ≡ c.capacity + 1) × (calls ≡ 0)
unfolding contains
put-invalidate_overflows_example =
    put-invalidate_overflows count_calls full_cache 20 8 0 full_cache-IsValid refl refl
