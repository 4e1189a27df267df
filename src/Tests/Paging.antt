-- ===== src/Tests/Paging.antt =====
-- The properties of src/memory/MemoryManager.cpp at a machine with two frames, and at one with one.
use multicore_simulator.Prelude.{
  ℕ, Bool, true, false, none, some, ◌≡◌, ◌≢◌, ◌<◌, ◌⊎◌, refl, arith, set, replicate, get_or,
}
use multicore_simulator.Prelude.Assoc.{nat_eq, pair_eq}
use multicore_simulator.Prelude.Assoc
use multicore_simulator.Process.{new_pcb, contabiliza_cache, modify}
use multicore_simulator.Memory.Cache
use multicore_simulator.Memory.Manager.{
  translate_page, translate_miss, first_free, own_frame, map_page, write_physical, write_memory,
  write_to_file, put_cached, count_write, charge_primary, charge_cache, advance_victim, evict_owner,
  swap_out, copy_to_disk, copy_words, System, new_memory_manager, write, read, on_process,
  count_read, evict_page, swap_in, translate_address, allocate_frame,
}
use multicore_simulator.Memory.Manager.Frames.{
  IsValid, new_memory_manager-IsValid, mapped, Reserved,
}
use multicore_simulator.Memory.Manager.Translation.{
  Leads, Unmapped, translate_address_lem, translate_address_again,
}
use multicore_simulator.Memory.Manager.Isolation.{translate_address-separate}
use multicore_simulator.Memory.Manager.Eviction.{allocate_frame-Reserved}
use multicore_simulator.Memory.Manager.Access.{read-write, read-IsValid, write-IsValid}
use multicore_simulator.Memory.Manager.Swap.{
  frame_word, swap_in-evict_page, swap_in-evict_page_full,
}
use multicore_simulator.Memory.Manager.Stale.{read_stale}
use multicore_simulator.Memory.Ram.{memory_access_error}
use multicore_simulator.Memory.Ram
use multicore_simulator.Memory.Disk
use multicore_simulator.Memory.Cache.Lookup.{cached}

abbrev two_frames : System
two_frames = record { memory = new_memory_manager 64 64; processes = λ p. new_pcb }

abbrev one_frame : System
one_frame = record { memory = new_memory_manager 32 64; processes = λ p. new_pcb }

abbrev no_disk : System
no_disk = record { memory = new_memory_manager 32 0; processes = λ p. new_pcb }

two_frames-IsValid : IsValid two_frames
two_frames-IsValid =
    new_memory_manager-IsValid 64 64 (λ p. new_pcb) (omega arith) (omega arith) (λ p. refl)

one_frame-IsValid : IsValid one_frame
one_frame-IsValid =
    new_memory_manager-IsValid 32 64 (λ p. new_pcb) (omega arith) (omega arith) (λ p. refl)

no_disk-IsValid : IsValid no_disk
no_disk-IsValid =
    new_memory_manager-IsValid 32 0 (λ p. new_pcb) (omega arith) (omega arith) (λ p. refl)

-- Process 3 has written 7 to its address 40.
abbrev written : System
written = write two_frames 40 7 3

written-IsValid : IsValid written
written-IsValid = write-IsValid two_frames 40 7 3 two_frames-IsValid

read-write_example : (read (write two_frames 40 7 3) 40 3).1 ≡ 7
read-write_example = read-write two_frames 40 7 3 two_frames-IsValid (omega arith) (omega arith)

write-IsValid_example : IsValid (write written 0 5 4)
write-IsValid_example = write-IsValid written 0 5 4 written-IsValid

read-IsValid_example : IsValid (read written 40 3).0
read-IsValid_example = read-IsValid written 40 3 written-IsValid

translate_address_lem_example :
    let (s', a) = translate_address written 96 5 true in
    IsValid s'
    × (Leads s' 96 5 a
        ⊎ ((a ≡ memory_access_error) × (s' ≡ written) × Unmapped written 96 5 × (true ≡ false)))
translate_address_lem_example = translate_address_lem written 96 5 true written-IsValid

allocate_frame-Reserved_example :
    let (s', frame) = allocate_frame written 5 2 in Reserved s' 5 2 frame
allocate_frame-Reserved_example = allocate_frame-Reserved written 5 2 written-IsValid

written_facts : (mapped written 3 1 ≡ some 0) × (8 < written.memory.main_memory_limit)
unfolding write translate_address translate_page translate_miss allocate_frame first_free own_frame
    map_page write_physical write_memory write_to_file put_cached count_write charge_primary
    charge_cache contabiliza_cache modify new_memory_manager Cache.get Cache.get_entry Cache.put
    Cache.store Cache.new_cache Ram.write_mem Ram.new_main_memory Assoc.lookup Assoc.insert set
    replicate
written_facts = (refl, omega arith)

written-Leads : Leads written 40 3 8
written-Leads = record {
  frame = 0;
  in_table = written_facts.0;
  address = refl;
  inside = written_facts.1;
}

translated : (is_write : Bool) → translate_address written 40 3 is_write ≡ (written, 8)
translated is_write = translate_address_again written 40 3 8 is_write written-IsValid written-Leads

translate_address-separate_example : (◌≡◌ {A = ℕ} 3 3) × (◌≡◌ {A = ℕ} 40 40)
translate_address-separate_example =
    translate_address-separate written written written 40 40 3 3 8 8 true false written-IsValid
      (translated true) (translated false) (omega arith) (omega arith) refl refl

swap_in-evict_page_example :
    let out = evict_page two_frames 0 3 1 in
    let back = swap_in out 1 3 1 0 in
    (Ram.read_mem back.memory.main_memory (frame_word 1 2)
      ≡ Ram.read_mem two_frames.memory.main_memory (frame_word 0 2))
    × (Assoc.lookup (0, 1) out.memory.swap_table ≡ some 0)
    × (Assoc.lookup (0, 1) back.memory.swap_table ≡ none)
unfolding new_memory_manager Disk.new_secondary_memory
swap_in-evict_page_example =
    swap_in-evict_page two_frames 0 1 3 1 2 two_frames-IsValid (omega arith) (omega arith)
      (omega arith) (omega arith)

swap_in-evict_page_full_example :
    let out = evict_page no_disk 0 3 1 in
    let back = swap_in out 0 3 1 0 in
    ((a : ℕ)
      → Disk.read_mem out.memory.secondary_memory a
        ≡ Disk.read_mem no_disk.memory.secondary_memory a)
    × (Ram.read_mem back.memory.main_memory (frame_word 0 2) ≡ memory_access_error)
unfolding new_memory_manager Disk.new_secondary_memory
swap_in-evict_page_full_example =
    swap_in-evict_page_full no_disk 0 0 3 1 2 no_disk-IsValid (omega arith) (omega arith)
      (omega arith) (omega arith)

-- The process writes 7 to its page 0 and 9 to its page 1, which gets the only frame.
abbrev swapped : System
swapped = write (write one_frame 0 7 3) 32 9 3

swapped_facts :
    (mapped swapped 3 0 ≡ none)
    × (Assoc.lookup (0, 0) swapped.memory.swap_table ≡ some 0)
    × (((swapped.processes 3).pid) ≡ 0)
    × ((translate_address (on_process swapped 3 count_read) 0 3 false).1 ≡ 0)
    × (cached swapped.memory.l1_cache 0 ≡ some 9)
    × (Disk.read_mem swapped.memory.secondary_memory 0 ≡ 7)
unfolding write translate_address translate_page translate_miss allocate_frame first_free own_frame
    map_page write_physical write_memory write_to_file put_cached count_write count_read
    charge_primary charge_cache contabiliza_cache modify new_memory_manager Cache.get
    Cache.get_entry Cache.put Cache.store Cache.new_cache Cache.update Cache.update_entry
    advance_victim swap_out evict_owner evict_page copy_to_disk copy_words Ram.write_mem
    Ram.read_mem Ram.new_main_memory Disk.new_secondary_memory Disk.read_mem Disk.write_mem
    Disk.scan_read Disk.scan_write swap_in cached get_or Assoc.lookup Assoc.insert Assoc.erase set
    replicate
swapped_facts = (refl, refl, refl, refl, refl, refl)

swapped_in_table : Assoc.lookup ((swapped.processes 3).pid, 0) swapped.memory.swap_table ≡ some 0
swapped_in_table = rw (swapped_facts.2, swapped_facts.1) refl

nine_differs : 9 ≢ Disk.read_mem swapped.memory.secondary_memory 0
nine_differs = omega (arith, swapped_facts.5)

read_stale_example : (read swapped 0 3).1 ≢ Disk.read_mem swapped.memory.secondary_memory 0
read_stale_example =
    read_stale swapped 0 3 0 0 9 swapped_facts.0 swapped_in_table swapped_facts.3 (omega arith)
      swapped_facts.4 (omega arith) (omega arith) nine_differs
