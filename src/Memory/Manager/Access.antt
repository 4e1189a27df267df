-- ===== src/Memory/Manager/Access.antt =====
-- `read` and `write` of src/memory/MemoryManager.cpp: the paging invariant, and what a read answers
-- after a write.
use multicore_simulator.Prelude.{
  ℕ, true, false, none, some, ◌≡◌, ◌<◌, ◌≢◌, ◌⊎◌, inl, inr, refl, ◌∙◌, arith, ◌==◌, ==_refl, to_u32,
  u32_mod, Bool-cases, Option-cases,
}
use multicore_simulator.Prelude.Assoc.{nat_eq, contains, keys}
use multicore_simulator.Process.{modify}
use multicore_simulator.Memory.Ram.{memory_access_error}
use multicore_simulator.Memory.Cache.{Cache, cache_miss}
use multicore_simulator.Memory.Cache
use multicore_simulator.Memory.Cache.Lookup.{
  cached, cached-get, cached-update, cached-some-contains, cached-put_self, get_lem, word_or_miss,
}
use multicore_simulator.Memory.Manager.Frames.{IsValid}
use multicore_simulator.Memory.Manager.Quiet.{Quiet, Quiet-IsValid, Quiet-Leads, Quiet-on_process}
use multicore_simulator.Memory.Manager.Physical.{read_physical-Quiet, write_physical-Quiet}
use multicore_simulator.Memory.Manager.Translation.{
  Leads, Unmapped, translate_address_lem, translate_address_again, translate_address-Unmapped,
}
use multicore_simulator.Memory.Manager.{
  System, write_to_file, put_cached, count_read, count_write, on_process, read_physical, read,
  write_memory, write_physical, write, translate_address,
}

pub counted_read : (s : System) (process : ℕ) → Quiet s (on_process s process count_read)
counted_read s process = Quiet-on_process s process count_read (λ p. unfold count_read in refl)

pub counted_write : (s : System) (process : ℕ) → Quiet s (on_process s process count_write)
counted_write s process = Quiet-on_process s process count_write (λ p. unfold count_write in refl)

pub Leads-ne :
    (s : System) (va process a : ℕ)
    → IsValid s
    → Leads s va process a
    → (a == memory_access_error) ≡ false
Leads-ne s va process a h l = ground (arith, h.small, l.inside)

-- `read` keeps the paging invariant, whatever page it has to bring in.
pub read-IsValid : (s : System) (va process : ℕ) → IsValid s → IsValid (read s va process).0
unfolding read
read-IsValid s va process h =
    let start = on_process s process count_read in
    let (valid, _) =
      translate_address_lem start va process false
        (Quiet-IsValid s start (counted_read s process) h) in
    let (s', a) = translate_address start va process false in
    elim (Bool-cases (a == memory_access_error)) [
      | inl e ↦ rw e valid
      | inr e ↦ rw e (Quiet-IsValid s' _ (read_physical-Quiet s' process a) valid)
    ]

-- A write always finds or makes a frame: it ends with the address in the page table and the word
-- written past the translation.
pub write-Leads :
    (s : System) (va word process : ℕ)
    → IsValid s
    → (t : System) × (a : ℕ) × IsValid t
      × Leads t va process a
      × (write s va word process ≡ write_physical t process a word)
unfolding write
write-Leads s va word process h =
    let start = on_process s process count_write in
    let (s', a) = translate_address start va process true in
    let (valid, outcome) =
      translate_address_lem start va process true
        (Quiet-IsValid s start (counted_write s process) h) in
    elim outcome [
      | inl l ↦ (s', a, valid, l, rw (Leads-ne s' va process a valid l) refl)
      | inr (_, _, _, never) ↦ absurd (ground arith)
    ]

-- `write` keeps the paging invariant, whatever page it has to move.
pub write-IsValid :
    (s : System) (va word process : ℕ) → IsValid s → IsValid (write s va word process)
write-IsValid s va word process h =
    let (t, a, valid, leads, same) = write-Leads s va word process h in
    rw same (Quiet-IsValid t _ (write_physical-Quiet t process a word) valid)

-- Past the translation a write leaves its word in the cache, on a hit and on a miss.
pub cached-write_physical :
    (s : System) (process a word : ℕ)
    → cached (write_physical s process a word).memory.l1_cache a ≡ some word
unfolding write_physical put_cached
cached-write_physical s process a word =
    let c = (write_memory s process a word).memory.l1_cache in
    let (c', check) = Cache.get c a in
    elim (Bool-cases (check == cache_miss)) [
      | inl e ↦ rw e (cached-put_self write_to_file c' a word _)
      | inr e ↦ rw e (
          cached-update c' a word a
          ∙ rw (present c (Option-cases (cached c a)) (rw (get_lem c a).0 at e), ==_refl a) refl)
    ]
  where
    present :
        (c : Cache)
        → (cached c a ≡ none) ⊎ ((w : ℕ) × (cached c a ≡ some w))
        → (word_or_miss (cached c a) == cache_miss) ≡ false
        → contains a (keys (Cache.get c a).0.cache_map) ≡ true
    present c (inl none_cached) e = absurd (ground arith)
    present c (inr (w, e')) e = cached-some-contains _ a w (cached-get c a a ∙ e')

-- A read of a cached word other than CACHE_MISS answers that word.
pub read_physical-cached :
    (s : System) (process a word : ℕ)
    → cached s.memory.l1_cache a ≡ some word
    → word ≢ cache_miss
    → (read_physical s process a).1 ≡ to_u32 word
unfolding read_physical
read_physical-cached s process a word e ne =
    let other : (word == cache_miss) ≡ false = ground arith in
    rw ((get_lem s.memory.l1_cache a).0, e, other) refl

-- In a system with the paging invariant, what a process writes is what it reads back at that
-- address, for every 32-bit word but the one that the cache takes for a miss.
pub read-write :
    (s : System) (va word process : ℕ)
    → IsValid s
    → word < u32_mod
    → word ≢ cache_miss
    → (read (write s va word process) va process).1 ≡ word
unfolding read
read-write s va word process h small ne =
    let (t, a, valid, leads, same) = write-Leads s va word process h in
    let done = write_physical t process a word in
    let valid' = Quiet-IsValid t done (write_physical-Quiet t process a word) valid in
    let leads' = Quiet-Leads t done va process a (write_physical-Quiet t process a word) leads in
    let start = on_process done process count_read in
    let begun = counted_read done process in
    rw
      (
        same,
        translate_address_again start va process a false (Quiet-IsValid done start begun valid')
            (Quiet-Leads done start va process a begun leads'),
        Leads-ne done va process a valid' leads',
      )
      (read_physical-cached start process a word (cached-write_physical t process a word) ne
        ∙ omega arith)

counted_read-Unmapped :
    (s : System) (va process : ℕ)
    → Unmapped s va process
    → Unmapped (on_process s process count_read) va process
unfolding modify count_read
counted_read-Unmapped s va process (no_frame, no_disk) =
    let same = ==_refl process in (rw same no_frame, rw same no_disk)

-- A read of a page that is neither in a frame nor on the disk answers 0, and changes nothing but the
-- two counters of the process.
pub read-Unmapped :
    (s : System) (va process : ℕ)
    → Unmapped s va process
    → read s va process ≡ (on_process s process count_read, 0)
unfolding read
read-Unmapped s va process absent =
    rw
      (translate_address-Unmapped (on_process s process count_read) va process
        (counted_read-Unmapped s va process absent))
      refl
