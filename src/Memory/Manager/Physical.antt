-- ===== src/Memory/Manager/Physical.antt =====
-- `read` and `write` of src/memory/MemoryManager.cpp past the translation, step by step: no page moves.
use multicore_simulator.Prelude.{ℕ, true, false, ◌≡◌, inl, inr, refl, ltb, ◌==◌, Bool-cases}
use multicore_simulator.Process.{Pcb, contabiliza_cache}
use multicore_simulator.Memory.Cache.{Cache, cache_miss}
use multicore_simulator.Memory.Cache
use multicore_simulator.Memory.Manager.Quiet.{
  Quiet, SamePaging, Quiet-trans, Quiet-on_process, Quiet-memory, put_cached-SamePaging,
  write_to_file-SamePaging,
}
use multicore_simulator.Memory.Manager.{
  MemoryManager, System, charge_cache, charge_primary, charge_secondary, on_process, read_memory,
  read_physical, write_memory, write_physical,
}

-- A new cache with the rest of the manager as it was.
Quiet-cache :
    (s : System) (c : Cache) → Quiet s (record s { memory = record s.memory { l1_cache = c } })
Quiet-cache s c = record {
  paging = record {
    ram = λ h. h;
    disk = λ h. h;
    size = refl;
    frames = refl;
    map = refl;
    table = refl;
    victim = refl;
    limit = refl;
    swap = refl;
  };
  tables = λ q. refl;
}

Quiet-counted :
    (s t : System) (process : ℕ) (f : Pcb → Pcb)
    → ((p : Pcb) → (f p).page_table ≡ p.page_table)
    → Quiet s t
    → Quiet s (on_process t process f)
Quiet-counted s t process f keep q = Quiet-trans s t _ q (Quiet-on_process t process f keep)

Quiet-remembered :
    (s t : System) (m : MemoryManager)
    → SamePaging t.memory m
    → Quiet s t
    → Quiet s (record t { memory = m })
Quiet-remembered s t m p q = Quiet-trans s t _ q (Quiet-memory t m p)

read_memory-Quiet : (s : System) (process address : ℕ) → Quiet s (read_memory s process address).0
unfolding read_memory
read_memory-Quiet s process address =
    let missed =
      Quiet-on_process s process (λ p. contabiliza_cache p false)
        (λ p. unfold contabiliza_cache in refl) in
    let step =
      λ (word : ℕ). Quiet-remembered s _ _ (put_cached-SamePaging s.memory address word) missed in
    elim (Bool-cases (ltb address s.memory.main_memory_limit)) [
      | inl e ↦
          rw e
            (Quiet-counted s _ process charge_primary (λ p. unfold charge_primary in refl) (step _))
      | inr e ↦ rw e (
          Quiet-counted s _ process charge_secondary (λ p. unfold charge_secondary in refl)
            (step _))
    ]

pub read_physical-Quiet :
    (s : System) (process address : ℕ) → Quiet s (read_physical s process address).0
unfolding read_physical
read_physical-Quiet s process address =
    let (c, word) = Cache.get s.memory.l1_cache address in
    elim (Bool-cases (word == cache_miss)) [
      | inl e ↦ rw e (Quiet-trans s _ _ (Quiet-cache s c) (read_memory-Quiet _ process address))
      | inr e ↦ rw e (
          Quiet-counted s _ process (λ p. contabiliza_cache (charge_cache p) true)
            (λ p. unfold contabiliza_cache charge_cache in refl) (Quiet-cache s c))
    ]

write_memory-Quiet :
    (s : System) (process address word : ℕ) → Quiet s (write_memory s process address word)
unfolding write_memory
write_memory-Quiet s process address word =
    let written = Quiet-memory s _ (write_to_file-SamePaging s.memory address word) in
    elim (Bool-cases (ltb address s.memory.main_memory_limit)) [
      | inl e ↦
          rw e
            (Quiet-counted s _ process charge_primary (λ p. unfold charge_primary in refl) written)
      | inr e ↦ rw e written
    ]

pub write_physical-Quiet :
    (s : System) (process address word : ℕ) → Quiet s (write_physical s process address word)
unfolding write_physical
write_physical-Quiet s process address word =
    let stored = write_memory s process address word in
    let (c, check) = Cache.get stored.memory.l1_cache address in
    let first = write_memory-Quiet s process address word in
    let looked = Quiet-trans s _ _ first (Quiet-cache stored c) in
    elim (Bool-cases (check == cache_miss)) [
      | inl e ↦ rw e (
          Quiet-counted s _ process (λ p. charge_cache (contabiliza_cache p false))
            (λ p. unfold contabiliza_cache charge_cache in refl)
            (Quiet-remembered s _ _ (put_cached-SamePaging _ address word) looked))
      | inr e ↦ rw e (
          Quiet-counted s _ process (λ p. charge_cache (contabiliza_cache p true))
            (λ p. unfold contabiliza_cache charge_cache in refl)
            (Quiet-trans s _ _ first (Quiet-cache stored _)))
    ]
