-- ===== src/Memory/Manager/Ideal/Frame.antt =====
-- When a system of src/memory/MemoryManager.cpp holds the words of an ideal memory, and that its reads and
-- writes past the translation keep it so.
use multicore_simulator.Prelude.{
  ℕ, true, false, [], some, none, ◌+◌, ◌*◌, ◌/◌, ◌%◌, ◌≡◌, ◌<◌, ◌≢◌, refl, ap, ◌∙◌, arith, inl, inr,
  ◌==◌, ◌&&◌, get_or, u32_mod, Bool-cases,
}
use multicore_simulator.Memory.Ram.{memory_access_error}
use multicore_simulator.Memory.Ram
use multicore_simulator.Memory.Cache.{cache_miss}
use multicore_simulator.Memory.Manager.Frames.{IsValid, mapped}
use multicore_simulator.Memory.Manager.Isolation.{mapped-injective}
use multicore_simulator.Memory.Manager.Translation.{Leads}
use multicore_simulator.Memory.Manager.Quiet.{Quiet, Quiet-IsValid}
use multicore_simulator.Memory.Manager.Physical.{read_physical-Quiet, write_physical-Quiet}
use multicore_simulator.Memory.Manager.Coherent.{Coherent, SameWords}
use multicore_simulator.Memory.Manager.Coherent.Read.{read_physical-Coherent}
use multicore_simulator.Memory.Manager.Coherent.Write.{write_physical-Coherent}
use multicore_simulator.Memory.Manager.Ideal.{Ideal, assign}
use multicore_simulator.Memory.Manager.{
  System, words_per_page, page_size, read_physical, write_physical,
}

-- The page has a frame, with the words of the ideal memory.
pub record Held (s : System) (m : Ideal) (process page : ℕ) : Type 0 where
  pub frame : ℕ
  pub in_table : mapped s process page ≡ some frame
  pub words :
      (k : ℕ)
      → k < words_per_page
      → Ram.read_mem s.memory.main_memory (frame * words_per_page + k)
        ≡ m.words process (page * words_per_page + k)

-- The pages that were written are held, no other has a frame, and what has no page is empty.
pub record Simulates (s : System) (m : Ideal) : Type 0 where
  pub valid : IsValid s
  pub coherent : Coherent s.memory
  pub unswapped : s.memory.swap_table ≡ []
  pub held : (process page : ℕ) → m.pages process page ≡ true → Held s m process page
  pub untouched : (process page : ℕ) → m.pages process page ≡ false → mapped s process page ≡ none
  pub blank :
      (process page k : ℕ)
      → m.pages process page ≡ false
      → k < words_per_page
      → m.words process (page * words_per_page + k) ≡ memory_access_error
  pub fresh :
      (frame k : ℕ)
      → frame < s.memory.num_frames
      → get_or s.memory.frames_map frame false ≡ false
      → k < words_per_page
      → Ram.read_mem s.memory.main_memory (frame * words_per_page + k) ≡ memory_access_error

-- A step that moves no page and changes no word.
pub Quiet-Simulates :
    (s s' : System) (m : Ideal)
    → Quiet s s'
    → Coherent s'.memory
    → SameWords s.memory s'.memory
    → Simulates s m
    → Simulates s' m
Quiet-Simulates s s' m q coherent same h = record {
  valid = Quiet-IsValid s s' q h.valid;
  coherent = coherent;
  unswapped = q.paging.swap ∙ h.unswapped;
  held = λ process page e.
      let old = h.held process page e in
      record {
        frame = old.frame;
        in_table = rw (q.tables process) old.in_table;
        words = λ k below. same (old.frame * words_per_page + k) ∙ old.words k below;
      };
  untouched = λ process page e. rw (q.tables process) (h.untouched process page e);
  blank = h.blank;
  fresh = λ frame k exists unused below.
      same (frame * words_per_page + k)
      ∙ h.fresh frame k (rw q.paging.frames at exists) (rw q.paging.map at unused) below;
}

-- The address of a word is aligned and in a frame.
word_address :
    (s : System) (process i a : ℕ)
    → IsValid s
    → (l : Leads s (i * 4) process a)
    → (mapped s process (i / words_per_page) ≡ some l.frame)
      × (a % 4 ≡ 0)
      × (a < s.memory.num_frames * page_size)
      × (a / 4 ≡ l.frame * words_per_page + i % words_per_page)
word_address s process i a h l =
    let page : i * 4 / page_size ≡ i / words_per_page = omega arith in
    let table : mapped s process (i / words_per_page) ≡ some l.frame = rw page at l.in_table in
    let exists = (h.owned process (i / words_per_page) l.frame table).exists in
    (table, omega (arith, l.address), omega (arith, l.address, exists), omega (arith, l.address))

-- A read of a word of a page that was written.
pub read_physical-Simulates :
    (s : System) (m : Ideal) (process i a : ℕ)
    → Simulates s m
    → m.pages process (i / words_per_page) ≡ true
    → Leads s (i * 4) process a
    → Simulates (read_physical s process a).0 m
      × ((read_physical s process a).1 ≡ m.words process i)
read_physical-Simulates s m process i a h written l =
    let (table, aligned, inside, place) = word_address s process i a h.valid l in
    let (word, coherent, same) = read_physical-Coherent s process a h.coherent aligned inside in
    let there = h.held process (i / words_per_page) written in
    let frame : l.frame ≡ there.frame = ground (arith, table, there.in_table) in
    let split : i / words_per_page * words_per_page + i % words_per_page ≡ i = omega arith in
    (
      Quiet-Simulates s _ m (read_physical-Quiet s process a) coherent same h,
      word
          ∙ rw (place, frame)
              (there.words (i % words_per_page) (omega arith) ∙ ap (m.words process) split),
    )

-- The place of a word is that of no other word of a page with a frame.
place_iff :
    (s : System) (process i q page frame frame' k : ℕ)
    → IsValid s
    → mapped s process (i / words_per_page) ≡ some frame
    → mapped s q page ≡ some frame'
    → k < words_per_page
    → (frame * words_per_page + i % words_per_page == frame' * words_per_page + k)
      ≡ (q == process && page * words_per_page + k == i)
place_iff s process i q page frame frame' k h e e' below =
    elim (Bool-cases (q == process && page == i / words_per_page)) [
      | inl same ↦
          let who : q ≡ process = ground arith in
          let which : page ≡ i / words_per_page = ground arith in
          let one : mapped s process (i / words_per_page) ≡ some frame' = rw (who, which) at e' in
          let frames : frame ≡ frame' = ground (arith, e, one) in ground (arith, who, which, frames)
      | inr apart ↦ elim (Bool-cases (frame == frame')) [
        | inl frames ↦
            let one : frame ≡ frame' = ground arith in
            let (who, which) =
              mapped-injective s process q (i / words_per_page) page frame' h (rw one at e) e' in
            absurd (ground (arith, who, which))
        | inr frames ↦ ground arith
      ]
    ]

module _ (s : System) (m : Ideal) (process i a word : ℕ) (h : Simulates s m)
    (written : m.pages process (i / words_per_page) ≡ true) (l : Leads s (i * 4) process a)
    (small : word < u32_mod) (ne : word ≢ cache_miss) where
  -- A write of a word of a page that was written.
  pub write_physical-Simulates :
      Simulates (write_physical s process a word) (assign process i word m)
  unfolding assign
  write_physical-Simulates =
      let (table, aligned, inside, place) = word_address s process i a h.valid l in
      let (coherent, now) =
        write_physical-Coherent s process a word h.coherent aligned inside small ne in
      let q = write_physical-Quiet s process a word in
      record {
        valid = Quiet-IsValid s _ q h.valid;
        coherent = coherent;
        unswapped = q.paging.swap ∙ h.unswapped;
        held = λ r page e.
            let old = h.held r page e in
            record {
              frame = old.frame;
              in_table = rw (q.tables r) old.in_table;
              words = λ k below.
                  let one =
                    place_iff s process i r page l.frame old.frame k h.valid table old.in_table
                      below in
                  now (old.frame * words_per_page + k) ∙ rw (place, one, old.words k below) refl;
            };
        untouched = λ r page e. rw (q.tables r) (h.untouched r page e);
        blank = λ r page k e below. ground (arith, h.blank r page k e below);
        fresh = λ frame k exists unused below.
            let used = (h.valid.owned process (i / words_per_page) l.frame table).used in
            let unused' : get_or s.memory.frames_map frame false ≡ false =
              rw q.paging.map at unused in
            let apart : (l.frame == frame) ≡ false = ground (arith, used, unused') in
            let elsewhere : (a / 4 == frame * words_per_page + k) ≡ false =
              ground (arith, apart, place) in
            now (frame * words_per_page + k)
            ∙ rw elsewhere (h.fresh frame k (rw q.paging.frames at exists) unused' below);
      }
