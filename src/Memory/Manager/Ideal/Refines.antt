-- ===== src/Memory/Manager/Ideal/Refines.antt =====
-- `read` and `write` of src/memory/MemoryManager.cpp against the ideal memory.
use multicore_simulator.Prelude.{
  ℕ, zero, suc, ltb, get_or-replicate, replicate, true, false, List, [], ◌∷◌, ◌*◌, ◌/◌, ◌≡◌, ◌≤◌,
  ◌<◌, ◌≢◌, refl, ap, ◌∙◌, arith, inl, inr, ==_refl, if◌then◌else◌, u32_mod, Bool-cases,
}
use multicore_simulator.Prelude.Assoc.{nat_eq, lookup}
use multicore_simulator.Process.{Processes}
use multicore_simulator.Memory.Ram
use multicore_simulator.Memory.Ram.{memory_access_error, max_memory_size, new_main_memory}
use multicore_simulator.Memory.Cache.{cache_miss, new_cache}
use multicore_simulator.Memory.Manager.Frames.{IsValid, new_memory_manager-IsValid}
use multicore_simulator.Memory.Manager.Translation.{Leads, Unmapped}
use multicore_simulator.Memory.Manager.Physical.{read_physical-Quiet, write_physical-Quiet}
use multicore_simulator.Memory.Manager.Access.{counted_read, counted_write, Leads-ne, read-Unmapped}
use multicore_simulator.Memory.Manager.Ideal.{
  nothing_written, Ideal, touch, ideal_read, ideal_write, Call, reading, writing, run, ideal_run,
  new_pages, free_frames,
}
use multicore_simulator.Memory.Manager.Ideal.Frame.{
  Simulates, Quiet-Simulates, read_physical-Simulates, write_physical-Simulates,
}
use multicore_simulator.Memory.Manager.Ideal.Step.{Translated, translate_old, translate_new, absent}
use multicore_simulator.Memory.Manager.{
  new_memory_manager, System, words_per_page, page_size, on_process, count_read, count_write,
  translate_address, read, write,
}

counted_read-Simulates :
    (s : System) (m : Ideal) (process : ℕ)
    → Simulates s m
    → Simulates (on_process s process count_read) m
counted_read-Simulates s m process h =
    Quiet-Simulates s _ m (counted_read s process) h.coherent (λ i. refl) h

counted_write-Simulates :
    (s : System) (m : Ideal) (process : ℕ)
    → Simulates s m
    → Simulates (on_process s process count_write) m
counted_write-Simulates s m process h =
    Quiet-Simulates s _ m (counted_write s process) h.coherent (λ i. refl) h

-- The frames that are taken stay as they are.
abbrev pub SameFrames : System → System → Type 0
SameFrames s s' = s'.memory.frames_map ≡ s.memory.frames_map

pub read-old :
    (s : System) (m : Ideal) (process i : ℕ)
    → Simulates s m
    → m.pages process (i / words_per_page) ≡ true
    → Simulates (read s (i * 4) process).0 m
      × ((read s (i * 4) process).1 ≡ m.words process i)
      × SameFrames s (read s (i * 4) process).0
unfolding read
read-old s m process i h written =
    let start : System = on_process s process count_read in
    let begun : Simulates start m = counted_read-Simulates s m process h in
    let (t, a) = translate_address start (i * 4) process false in
    let ((_, leads), same) = translate_old start m process i begun false written in
    let leads' : Leads start (i * 4) process a = rw same at leads in
    let (after, word) = read_physical-Simulates start m process i a begun written leads' in
    rw (Leads-ne start (i * 4) process a begun.valid leads', same)
      (after, word, (read_physical-Quiet start process a).paging.map)

read-new :
    (s : System) (m : Ideal) (process i : ℕ)
    → Simulates s m
    → m.pages process (i / words_per_page) ≡ false
    → Simulates (read s (i * 4) process).0 m
      × ((read s (i * 4) process).1 ≡ 0)
      × SameFrames s (read s (i * 4) process).0
read-new s m process i h new =
    let page : i * 4 / page_size ≡ i / words_per_page = omega arith in
    let nowhere : Unmapped s (i * 4) process =
      rw page (h.untouched process (i / words_per_page) new, absent s m process i h) in
    rw (read-Unmapped s (i * 4) process nowhere) (counted_read-Simulates s m process h, refl, refl)

-- A write whose page has been translated.
write-Translated :
    (s : System) (m : Ideal) (process i word : ℕ)
    → word < u32_mod
    → word ≢ cache_miss
    → Translated m process i
        (translate_address (on_process s process count_write) (i * 4) process true)
    → Simulates (write s (i * 4) word process) (ideal_write process i word m)
      × SameFrames
          (translate_address (on_process s process count_write) (i * 4) process true).0
          (write s (i * 4) word process)
unfolding write ideal_write
write-Translated s m process i word small ne (h, leads) =
    let (t, a) = translate_address (on_process s process count_write) (i * 4) process true in
    let m' : Ideal = touch process (i / words_per_page) m in
    let touched : m'.pages process (i / words_per_page) ≡ true =
      unfold touch in rw (==_refl process, ==_refl (i / words_per_page)) refl in
    rw (Leads-ne t (i * 4) process a h.valid leads) (
      write_physical-Simulates t m' process i a word h touched leads small ne,
      (write_physical-Quiet t process a word).paging.map,
    )

-- Its room is the frame of its page, or one that is free.
pub write-room :
    (s : System) (m : Ideal) (process i word rest : ℕ)
    → Simulates s m
    → word < u32_mod
    → word ≢ cache_miss
    → (if m.pages process (i / words_per_page) then rest else suc rest)
      ≤ free_frames s.memory.frames_map
    → Simulates (write s (i * 4) word process) (ideal_write process i word m)
      × (rest ≤ free_frames (write s (i * 4) word process).memory.frames_map)
write-room s m process i word rest h small ne room =
    let start : System = on_process s process count_write in
    let begun : Simulates start m = counted_write-Simulates s m process h in
    elim (Bool-cases (m.pages process (i / words_per_page))) [
      | inl old ↦
          let (translated, same) = translate_old start m process i begun true old in
          let (after, frames) = write-Translated s m process i word small ne translated in
          let map : (write s (i * 4) word process).memory.frames_map ≡ s.memory.frames_map =
            frames ∙ ap (λ (t : System). t.memory.frames_map) same in
          (after, rw map (rw old at room))
      | inr new ↦
          let enough : suc rest ≤ free_frames s.memory.frames_map = rw new at room in
          let (translated, one) =
            translate_new start m process i begun new (omega (arith, enough)) in
          let (after, frames) = write-Translated s m process i word small ne translated in
          (after, rw frames (omega (arith, one, enough)))
    ]

-- Words of 32 bits but the one that the cache takes for a miss.
abbrev pub Storable : List Call → Type 0
Storable [] = Unit
Storable (reading process i ∷ calls) = Storable calls
Storable (writing process i word ∷ calls) = (word < u32_mod) × (word ≢ cache_miss) × Storable calls

run-ideal_run :
    (calls : List Call) (s : System) (m : Ideal)
    → Simulates s m
    → Storable calls
    → new_pages calls m ≤ free_frames s.memory.frames_map
    → run calls s ≡ ideal_run calls m
unfolding run ideal_run new_pages
run-ideal_run [] s m h storable room = refl
run-ideal_run (reading process i ∷ calls) s m h storable room =
    elim (Bool-cases (m.pages process (i / words_per_page))) [
      | inl old ↦
          let (after, word, frames) = read-old s m process i h old in
          let rest = run-ideal_run calls _ m after storable (rw frames room) in
          rw (word, rest, ideal_read, old) refl
      | inr new ↦
          let (after, word, frames) = read-new s m process i h new in
          let rest = run-ideal_run calls _ m after storable (rw frames room) in
          rw (word, rest, ideal_read, new) refl
    ]
run-ideal_run (writing process i word ∷ calls) s m h (small, ne, storable) room =
    let m' : Ideal = ideal_write process i word m in
    let (after, enough) = write-room s m process i word (new_pages calls m') h small ne room in
    run-ideal_run calls (write s (i * 4) word process) m' after storable enough

new_main_memory-empty : (size i : ℕ) → Ram.read_mem (new_main_memory size) i ≡ memory_access_error
unfolding new_main_memory Ram.read_mem
new_main_memory-empty size i =
    let n : ℕ = if ltb max_memory_size size then max_memory_size else size in
    ground (arith, get_or-replicate n i memory_access_error memory_access_error)

free_frames-replicate : (n : ℕ) → free_frames (replicate n false) ≡ n
unfolding free_frames replicate
free_frames-replicate zero = refl
free_frames-replicate (suc n) = ap suc (free_frames-replicate n)

module _ (main_size disk_size : ℕ) (processes : Processes) where
  -- The system that the program starts with.
  abbrev pub started : System
  started = record { memory = new_memory_manager main_size disk_size; processes = processes }

  pub started-Simulates :
      page_size ≤ main_size
      → main_size ≤ 4096
      → ((p : ℕ) → (processes p).page_table ≡ [])
      → Simulates started nothing_written
  unfolding nothing_written lookup
  started-Simulates lo hi fresh =
      let valid : IsValid started =
        new_memory_manager-IsValid main_size disk_size processes lo hi fresh in
      let blank : (i : ℕ) → Ram.read_mem started.memory.main_memory i ≡ memory_access_error =
        unfold new_memory_manager in new_main_memory-empty main_size in
      record {
        valid = valid;
        coherent = record {
          sound = record {
            ram = valid.ram;
            room = valid.room;
            words = valid.words;
            small = omega (arith, valid.small);
            cells = λ i. omega (arith, blank i);
          };
          backed = λ a entry e. absurd (unfold new_memory_manager new_cache in cc e);
        };
        unswapped = unfold new_memory_manager in refl;
        held = λ p page e. cc e;
        untouched = λ p page e. rw (fresh p) refl;
        blank = λ p page k e below. refl;
        fresh = λ f k exists unused below. blank _;
      }

  -- Memory is a map. From the system that the program starts with, over a main memory of one page at least
  -- and 4096 bytes at most and processes that have no page yet, take any reads and writes of words by
  -- any processes, of 32-bit words but the one that the cache takes for a miss, that write to no more
  -- different pages than there are frames. Each read answers the word that its process wrote last at that
  -- address; the word of an empty memory if it wrote to the page but not there; and 0 if it never wrote
  -- to the page.
  pub run-refines :
      (calls : List Call)
      → page_size ≤ main_size
      → main_size ≤ 4096
      → ((p : ℕ) → (processes p).page_table ≡ [])
      → Storable calls
      → new_pages calls nothing_written ≤ main_size / page_size
      → run calls started ≡ ideal_run calls nothing_written
  run-refines calls lo hi fresh storable room =
      run-ideal_run calls started nothing_written (started-Simulates lo hi fresh) storable
        (unfold new_memory_manager in rw (free_frames-replicate (main_size / page_size)) room)
