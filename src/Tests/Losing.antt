-- ===== src/Tests/Losing.antt =====
-- A write of src/memory/MemoryManager.cpp that is lost: CACHE_MISS is written to a cached address, and the
-- cache of src/memory/cache.cpp is full when the address is written again.
use multicore_simulator.Prelude.{
  ℕ, List, [], ◌∷◌, ◌++◌, some, ◌+◌, ◌≡◌, refl, arith, get_or, set, replicate, suc, zero,
}
use multicore_simulator.Prelude.Assoc.{nat_eq, lookup, insert, erase, keys, contains}
use multicore_simulator.Process.{new_pcb, modify, contabiliza_cache}
use multicore_simulator.Memory.Ram
use multicore_simulator.Memory.Cache
use multicore_simulator.Memory.Cache.{Cache, CacheEntry}
use multicore_simulator.Memory.Manager.Ideal.{Call, reading, writing, run}
use multicore_simulator.Memory.Manager.Ideal.Refines.{started, started-Simulates}
use multicore_simulator.Memory.Manager.Coherent.{Sound}
use multicore_simulator.Memory.Manager.Lost.{unseen, clean, write_physical-lost}
use multicore_simulator.Memory.Manager.{
  System, new_memory_manager, read, write, translate_address, translate_page, translate_miss,
  allocate_frame, first_free, own_frame, map_page, read_physical, read_memory, write_physical,
  write_memory, write_to_file, put_cached, count_write, count_read, charge_primary, charge_cache,
}

-- The words from one to another, written.
abbrev filled : ℕ → ℕ → List Call
filled zero i = []
filled (suc n) i = writing 0 i i ∷ filled n (i + 1)

-- Word 0 is written with 1 and CACHE_MISS, then 15 others, then word 0 with 9, then 16 others.
lost :
    run
      (writing 0 0 1 ∷ writing 0 0 4294967295 ∷ filled 15 1
        ++ writing 0 0 9 ∷ reading 0 0 ∷ filled 16 16
        ++ reading 0 0 ∷ [])
      (started 128 128 (λ p. new_pcb))
    ≡ 9 ∷ 4294967295 ∷ []
unfolding run read write translate_address translate_page translate_miss allocate_frame first_free
    own_frame map_page read_physical read_memory write_physical write_memory write_to_file
    put_cached count_write count_read charge_primary charge_cache contabiliza_cache modify
    new_memory_manager Cache.get Cache.get_entry Cache.put Cache.store Cache.evict
    Cache.get_address_to_replace Cache.new_cache Cache.update Cache.update_entry Ram.write_mem
    Ram.read_mem Ram.new_main_memory get_or lookup insert erase set replicate
lost = refl

abbrev entries : ℕ → ℕ → List (ℕ × CacheEntry)
entries zero a = []
entries (suc n) a = (a, clean a) ∷ entries n (a + 4)

abbrev full : System
full = record {
  memory = record (new_memory_manager 128 128) {
    l1_cache = record {
      cache_map = (0, unseen) ∷ entries 15 4;
      fifo_queue = 0 ∷ keys (entries 15 4);
      capacity = 16;
      misses = 0;
      hits = 0;
    };
  };
  processes = λ p. new_pcb;
}

full-IsValid : Cache.Capacity.IsValid full.memory.l1_cache
unfolding contains
full-IsValid = record {
  sixteen = refl;
  queued = refl;
  distinct = ground arith;
  fits = omega arith;
  addresses = omega arith;
}

full-Sound : Sound full.memory
full-Sound =
    let sound =
      (started-Simulates 128 128 (λ p. new_pcb) (omega arith) (omega arith)
        (λ p. refl)).coherent.sound in
    record {
      ram = sound.ram;
      room = sound.room;
      words = sound.words;
      small = sound.small;
      cells = sound.cells;
    }

write_physical-lost_example :
    (Ram.read_mem (write_physical full 3 0 9).memory.main_memory 0 ≡ 4294967295)
    × (lookup 0 (write_physical full 3 0 9).memory.l1_cache.cache_map ≡ some (clean 9))
unfolding new_memory_manager
write_physical-lost_example =
    write_physical-lost full 3 0 9 (entries 15 4) full-Sound (omega arith) (omega arith)
      full-IsValid refl (omega arith)
