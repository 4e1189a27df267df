-- ===== src/Memory/Manager/Quantum.antt =====
-- No call of src/memory/MemoryManager.cpp changes the quantum, the state or the registers of a process.
use multicore_simulator.Prelude.{
  ℕ, Bool, true, false, ◌≡◌, ◌/◌, refl, arith, Option-cases, inl, inr,
}
use multicore_simulator.Prelude.Assoc.{nat_eq, pair_eq}
use multicore_simulator.Process.{State, modify, contabiliza_cache}
use multicore_simulator.Cpu.Registers.{RegisterBank}
use multicore_simulator.Memory.Manager.{
  System, FrameInfo, page_size, own_frame, evict_page, evict_owner, advance_victim, swap_out,
  swap_in, allocate_frame, first_free, map_page, translate_miss, translate_page, translate_address,
  on_process, count_read, count_write, charge_cache, charge_primary, charge_secondary, read_memory,
  read_physical, read, write_memory, write_physical, write,
}

abbrev pub quantum_of : System → ℕ → ℕ
quantum_of s q = (s.processes q).quantum

abbrev pub state_of : System → ℕ → State
state_of s q = (s.processes q).state

abbrev pub bank_of : System → ℕ → RegisterBank
bank_of s q = (s.processes q).reg_bank

abbrev pub Same : System → System → ℕ → Type 0
Same s' s q =
    (quantum_of s' q ≡ quantum_of s q)
    × (state_of s' q ≡ state_of s q)
    × (bank_of s' q ≡ bank_of s q)

allocate_frame-Same : (s : System) (process page q : ℕ) → Same (allocate_frame s process page).0 s q
unfolding allocate_frame own_frame swap_out evict_owner evict_page advance_victim modify
allocate_frame-Same s process page q = elim (Option-cases (first_free s.memory.frames_map 0)) [
  | inr (i, e) ↦ rw (e, allocate_frame) (refl, refl, refl)
  | inl e ↦ rw (e, allocate_frame) (evicted (record s { memory = advance_victim s.memory }) _ _)
]
  where
    evicted : (t : System) (frame : ℕ) (info : FrameInfo) → Same (evict_owner t frame info) t q
    evicted t frame info = ground arith

translate_address-Same :
    (s : System) (va process q : ℕ) (is_write : Bool)
    → Same (translate_address s va process is_write).0 s q
unfolding translate_address translate_page translate_miss swap_in map_page modify
translate_address-Same s va process q is_write =
    ground (arith, allocate_frame-Same s process (va / page_size) q)

read_physical-Same : (s : System) (process a q : ℕ) → Same (read_physical s process a).0 s q
unfolding read_physical read_memory modify contabiliza_cache charge_cache charge_primary
    charge_secondary
read_physical-Same s process a q = ground arith

write_physical-Same :
    (s : System) (process a word q : ℕ) → Same (write_physical s process a word) s q
unfolding write_physical write_memory modify contabiliza_cache charge_cache charge_primary
write_physical-Same s process a word q = ground arith

counted :
    (s : System) (process q : ℕ)
    → Same (on_process s process count_read) s q × Same (on_process s process count_write) s q
unfolding modify count_read count_write
counted s process q = ground arith

pub read-Same : (s : System) (va process q : ℕ) → Same (read s va process).0 s q
unfolding read
read-Same s va process q =
    let start = on_process s process count_read in
    let (s', a) = translate_address start va process false in
    ground (
      arith,
      counted s process q,
      translate_address-Same start va process q false,
      read_physical-Same s' process a q,
    )

pub write-Same : (s : System) (va word process q : ℕ) → Same (write s va word process) s q
unfolding write
write-Same s va word process q =
    let start = on_process s process count_write in
    let (s', a) = translate_address start va process true in
    ground (
      arith,
      counted s process q,
      translate_address-Same start va process q true,
      write_physical-Same s' process a word q,
    )
