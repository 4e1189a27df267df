-- ===== src/Memory/Manager/Translation.antt =====
-- `translateAddress` of src/memory/MemoryManager.cpp: where an address leads.
use multicore_simulator.Prelude.{
  ℕ, Bool, true, false, Option, none, some, ◌+◌, ◌*◌, ◌/◌, ◌%◌, ◌≡◌, ◌<◌, ◌⊎◌, inl, inr, refl,
  arith, ◌==◌, ◌&&◌, if◌then◌else◌, Bool-cases,
}
use multicore_simulator.Prelude.Assoc.{nat_eq, pair_eq, lookup, lookup-insert}
use multicore_simulator.Process.{modify}
use multicore_simulator.Memory.Ram.{memory_access_error}
use multicore_simulator.Memory.Manager.Frames.{IsValid, Owns, Reserved, mapped}
use multicore_simulator.Memory.Manager.Eviction.{copy_to_ram-IsValid, allocate_frame-Reserved}
use multicore_simulator.Memory.Manager.{
  System, page_size, physical, swap_in, map_page, translate_miss, translate_page, translate_address,
}

pub mapped-map_page :
    (s : System) (process page frame q other : ℕ)
    → mapped (map_page s process page frame) q other ≡ (
        if q == process
        then (if page == other then some frame else mapped s q other)
        else mapped s q other)
unfolding map_page modify
mapped-map_page s process page frame q other =
    ground (arith, lookup-insert page other frame (s.processes q).page_table)

swap_in-Reserved :
    (s : System) (frame process page disk_address : ℕ)
    → Reserved s process page frame
    → Reserved (swap_in s frame process page disk_address) process page frame
unfolding swap_in
swap_in-Reserved s frame process page disk_address r =
    let (valid, size) =
      copy_to_ram-IsValid disk_address _ s.memory.secondary_memory _ r.valid.ram in
    record {
      valid = record {
        ram = valid;
        disk = r.valid.disk;
        some_frame = r.valid.some_frame;
        map_sized = r.valid.map_sized;
        table_sized = r.valid.table_sized;
        victim = r.valid.victim;
        room = r.valid.room;
        words = rw size r.valid.words;
        small = r.valid.small;
        owned = λ q other f e. record {
          exists = (r.valid.owned q other f e).exists;
          used = (r.valid.owned q other f e).used;
          recorded = (r.valid.owned q other f e).recorded;
        };
      };
      owns = record { exists = r.owns.exists; used = r.owns.used; recorded = r.owns.recorded };
      unmapped = r.unmapped;
    }

-- The new entry of the page table completes the allocation.
map_page-IsValid :
    (s : System) (process page frame : ℕ)
    → Reserved s process page frame
    → let s' = map_page s process page frame in IsValid s' × (mapped s' process page ≡ some frame)
map_page-IsValid s process page frame r = (
  record {
    ram = unfold map_page in r.valid.ram;
    disk = unfold map_page in r.valid.disk;
    some_frame = unfold map_page in r.valid.some_frame;
    map_sized = unfold map_page in r.valid.map_sized;
    table_sized = unfold map_page in r.valid.table_sized;
    victim = unfold map_page in r.valid.victim;
    room = unfold map_page in r.valid.room;
    words = unfold map_page in r.valid.words;
    small = unfold map_page in r.valid.small;
    owned = λ q other f e. unfold map_page in owner q other f e;
  },
  ground (arith, mapped-map_page s process page frame process page),
)
  where
    owner :
        (q other f : ℕ)
        → mapped (map_page s process page frame) q other ≡ some f
        → Owns s.memory q other f
    owner q other f e = elim (Bool-cases (q == process && page == other)) [
      | inl same ↦
          let who : q ≡ process = ground arith in
          let which : other ≡ page = ground arith in
          let where_to : f ≡ frame = ground (arith, mapped-map_page s process page frame q other) in
          rw (who, which, where_to) r.owns
      | inr apart ↦
          r.valid.owned q other f (ground (arith, mapped-map_page s process page frame q other))
    ]

-- A mapped page's address is inside the main memory, so it is not the error value.
physical_lem :
    (s : System) (process page frame offset : ℕ)
    → IsValid s
    → mapped s process page ≡ some frame
    → offset < page_size
    → (physical frame offset ≡ frame * page_size + offset)
      × (physical frame offset < s.memory.main_memory_limit)
physical_lem s process page frame offset h e small =
    omega (arith, (h.owned process page frame e).exists, h.room, h.small)

-- The address `a` that the translation of `virtual_address` returned, in the system after it.
pub record Leads (s : System) (virtual_address process a : ℕ) : Type 0 where
  pub frame : ℕ
  pub in_table : mapped s process (virtual_address / page_size) ≡ some frame
  pub address : a ≡ frame * page_size + virtual_address % page_size
  pub inside : a < s.memory.main_memory_limit

pub Leads-intro :
    (s : System) (virtual_address process frame : ℕ)
    → IsValid s
    → mapped s process (virtual_address / page_size) ≡ some frame
    → Leads s virtual_address process (physical frame (virtual_address % page_size))
Leads-intro s va process frame h e =
    let (exact, inside) = physical_lem s process _ frame (va % page_size) h e (omega arith) in
    record { frame = frame; in_table = e; address = exact; inside = inside }

-- The page is neither in a frame nor on the disk.
abbrev pub Unmapped : System → ℕ → ℕ → Type 0
Unmapped s virtual_address process =
    let page = virtual_address / page_size in
    (mapped s process page ≡ none)
    × (lookup ((s.processes process).pid, page) s.memory.swap_table ≡ none)

module _ (s : System) (h : IsValid s) (va process : ℕ) where
  abbrev Outcome : Bool → System × ℕ → Type 0
  Outcome is_write r =
      IsValid r.0
      × (Leads r.0 va process r.1
          ⊎ ((r.1 ≡ memory_access_error) × (r.0 ≡ s) × Unmapped s va process × (is_write ≡ false)))

  translate_miss-Outcome :
      (is_write : Bool) (o : Option ℕ)
      → mapped s process (va / page_size) ≡ none
      → lookup ((s.processes process).pid, va / page_size) s.memory.swap_table ≡ o
      → Outcome is_write (translate_miss s process (va / page_size) (va % page_size) is_write o)
  unfolding translate_miss
  translate_miss-Outcome is_write (some disk_address) none_mapped e =
      let page = va / page_size in
      let r = allocate_frame-Reserved s process page h in
      let (valid, there) =
        map_page-IsValid _ process page _ (swap_in-Reserved _ _ _ _ disk_address r) in
      (valid, inl (Leads-intro _ va process _ valid there))
  translate_miss-Outcome true none none_mapped e =
      let page = va / page_size in
      let r = allocate_frame-Reserved s process page h in
      let (valid, there) = map_page-IsValid _ process page _ r in
      (valid, inl (Leads-intro _ va process _ valid there))
  translate_miss-Outcome false none none_mapped e = (h, inr (refl, refl, (none_mapped, e), refl))

  translate_page-Outcome :
      (is_write : Bool) (o : Option ℕ)
      → mapped s process (va / page_size) ≡ o
      → Outcome is_write (translate_page s process (va / page_size) (va % page_size) is_write o)
  unfolding translate_page
  translate_page-Outcome is_write (some frame) e = (h, inl (Leads-intro s va process frame h e))
  translate_page-Outcome is_write none e = translate_miss-Outcome is_write _ e refl

-- Translation keeps the paging invariant, and from a system that has it, it either leads to a word
-- of the main memory through the page table that it leaves behind, or answers the error value and
-- changes nothing; the latter only for a read of a page that is neither in a frame nor on the disk.
pub translate_address_lem :
    (s : System) (va process : ℕ) (is_write : Bool)
    → IsValid s
    → let (s', a) = translate_address s va process is_write in
      IsValid s'
      × (Leads s' va process a
          ⊎ ((a ≡ memory_access_error) × (s' ≡ s) × Unmapped s va process × (is_write ≡ false)))
unfolding translate_address
translate_address_lem s va process is_write h =
    translate_page-Outcome s h va process is_write _ refl

-- Once an address has led somewhere, it leads there again and the system stays as it is.
pub translate_address_again :
    (s : System) (va process a : ℕ) (is_write : Bool)
    → IsValid s
    → Leads s va process a
    → translate_address s va process is_write ≡ (s, a)
unfolding translate_address translate_page
translate_address_again s va process a is_write h l = rw (
  l.in_table,
  translate_page,
  (physical_lem s process _ l.frame (va % page_size) h l.in_table (omega arith)).0,
  l.address,
)

pub translate_address-Unmapped :
    (s : System) (va process : ℕ)
    → Unmapped s va process
    → translate_address s va process false ≡ (s, memory_access_error)
unfolding translate_address translate_page translate_miss
translate_address-Unmapped s va process (no_frame, no_disk) =
    rw (no_frame, translate_page, no_disk, translate_miss) refl
