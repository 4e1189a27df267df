-- ===== src/Memory/Manager/Ideal/Step.antt =====
-- `translateAddress` of src/memory/MemoryManager.cpp for a page that was not written before, while a
-- frame is free.
use multicore_simulator.Prelude.{
  ℕ, zero, suc, Bool, true, false, List, [], ◌∷◌, some, none, ◌+◌, ◌-◌, ◌*◌, ◌/◌, ◌%◌, ◌≡◌, ◌<◌,
  refl, sym, ◌∙◌, arith, inl, inr, ◌==◌, ◌&&◌, ◌||◌, if◌then◌else◌, length, get_or, get_or-set, set,
  Bool-cases, Option-cases,
}
use multicore_simulator.Prelude.Assoc.{nat_eq, pair_eq, lookup}
use multicore_simulator.Memory.Manager.Frames.{IsValid, mapped, first_free-unused}
use multicore_simulator.Memory.Manager.Translation.{
  Leads, Leads-intro, translate_address_again, translate_address_lem, mapped-map_page,
}
use multicore_simulator.Memory.Manager.Ideal.{Ideal, touch, free_frames}
use multicore_simulator.Memory.Manager.Ideal.Frame.{Held, Simulates}
use multicore_simulator.Memory.Manager.{
  System, words_per_page, page_size, first_free, own_frame, allocate_frame, map_page,
  translate_miss, translate_page, physical, translate_address,
}

-- A frame is free as long as the count says so, and taking it lowers the count by one.
free_frames-first_free : (xs : List Bool) (i : ℕ) → first_free xs i ≡ none → free_frames xs ≡ 0
unfolding free_frames first_free
free_frames-first_free [] i e = refl
free_frames-first_free (true ∷ xs) i e = free_frames-first_free xs (i + 1) e
free_frames-first_free (false ∷ xs) i e = cc

free_frames-set :
    (xs : List Bool) (f : ℕ)
    → f < length xs
    → get_or xs f false ≡ false
    → free_frames xs ≡ suc (free_frames (set xs f true))
unfolding free_frames get_or set
free_frames-set [] f inside unused = absurd (omega arith)
free_frames-set (x ∷ xs) zero inside unused = ground (arith, unused)
free_frames-set (x ∷ xs) (suc f) inside unused = ground (arith, free_frames-set xs f)

-- The system whose page has taken a free frame.
abbrev taken : System → ℕ → ℕ → ℕ → System
taken s process page frame =
    map_page
      (record s {
        memory =
            own_frame (record s.memory { frames_map = set s.memory.frames_map frame true }) frame
              process page;
      })
      process page frame

module _ (s : System) (m : Ideal) (process page frame : ℕ) (h : Simulates s m)
    (free : first_free s.memory.frames_map 0 ≡ some frame) (new : m.pages process page ≡ false)
    (valid : IsValid (taken s process page frame)) where
  here : (frame < s.memory.num_frames) × (get_or s.memory.frames_map frame false ≡ false)
  here =
      let (_, within, unused) = first_free-unused s.memory.frames_map 0 frame free in
      let start : frame - 0 ≡ frame = omega arith in
      (omega (arith, h.valid.map_sized), rw start at unused)

  marked :
      (f : ℕ)
      → get_or (taken s process page frame).memory.frames_map f false
        ≡ (if frame == f then true else get_or s.memory.frames_map f false)
  unfolding own_frame map_page
  marked f =
      get_or-set s.memory.frames_map frame f true false (omega (arith, here.0, h.valid.map_sized))

  taken-free_frames :
      free_frames s.memory.frames_map
      ≡ suc (free_frames (taken s process page frame).memory.frames_map)
  unfolding own_frame map_page
  taken-free_frames =
      free_frames-set s.memory.frames_map frame (omega (arith, here.0, h.valid.map_sized)) here.1

  same_ram : (taken s process page frame).memory.main_memory ≡ s.memory.main_memory
  unfolding own_frame map_page
  same_ram = refl

  taken-mapped :
      (q other : ℕ)
      → mapped (taken s process page frame) q other ≡ (
          if q == process
          then (if page == other then some frame else mapped s q other)
          else mapped s q other)
  taken-mapped q other =
      mapped-map_page
        (record s {
          memory =
              own_frame (record s.memory { frames_map = set s.memory.frames_map frame true }) frame
                process page;
        })
        process page frame q other

  taken-Held :
      (q other : ℕ)
      → (q == process && other == page || m.pages q other) ≡ true
      → Held (taken s process page frame) (touch process page m) q other
  unfolding touch
  taken-Held q other e = elim (Bool-cases (q == process && other == page)) [
    | inl same ↦
        let untouched : m.pages q other ≡ false =
          let who : q ≡ process = ground arith in
          let which : other ≡ page = ground arith in rw (who, which) new in
        record {
          frame = frame;
          in_table = ground (arith, taken-mapped q other);
          words = λ k below.
              rw same_ram
                (h.fresh frame k here.0 here.1 below ∙ sym (h.blank q other k untouched below));
        }
    | inr apart ↦
        let old = h.held q other (ground arith) in
        record {
          frame = old.frame;
          in_table = ground (arith, taken-mapped q other, old.in_table);
          words = λ k below. rw same_ram (old.words k below);
        }
  ]

  pub taken-Simulates : Simulates (taken s process page frame) (touch process page m)
  unfolding touch
  taken-Simulates = record {
    valid = valid;
    coherent =
        unfold own_frame map_page in
        record {
          sound = record {
            ram = h.coherent.sound.ram;
            room = h.coherent.sound.room;
            words = h.coherent.sound.words;
            small = h.coherent.sound.small;
            cells = h.coherent.sound.cells;
          };
          backed = h.coherent.backed;
        };
    unswapped = unfold own_frame map_page in h.unswapped;
    held = taken-Held;
    untouched = λ q other e. ground (arith, taken-mapped q other, h.untouched q other);
    blank = λ q other k e below. h.blank q other k (ground arith) below;
    fresh = λ f k exists unused below.
        let old : get_or s.memory.frames_map f false ≡ false = ground (arith, marked f, unused) in
        rw same_ram (h.fresh f k (unfold own_frame map_page in exists) old below);
  }

-- The word's page has a frame now, and the word the address `a`.
abbrev pub Translated : Ideal → ℕ → ℕ → System × ℕ → Type 0
Translated m process i (t, a) =
    Simulates t (touch process (i / words_per_page) m) × Leads t (i * 4) process a

module _ (s : System) (m : Ideal) (process i : ℕ) (h : Simulates s m) where
  touched_again :
      m.pages process (i / words_per_page) ≡ true
      → Simulates s (touch process (i / words_per_page) m)
  unfolding touch
  touched_again written =
      let before : (q page : ℕ)
          → (q == process && page == i / words_per_page || m.pages q page) ≡ true
          → m.pages q page ≡ true =
        λ q page e. elim (Bool-cases (q == process && page == i / words_per_page)) [
          | inl same ↦
              let who : q ≡ process = ground arith in
              let which : page ≡ i / words_per_page = ground arith in rw (who, which) written
          | inr apart ↦ ground arith
        ] in
      record {
        valid = h.valid;
        coherent = h.coherent;
        unswapped = h.unswapped;
        held = λ q page e.
            let old = h.held q page (before q page e) in
            record { frame = old.frame; in_table = old.in_table; words = old.words };
        untouched = λ q page e. h.untouched q page (ground arith);
        blank = λ q page k e below. h.blank q page k (ground arith) below;
        fresh = h.fresh;
      }

  -- The page was written before: it stays where it is.
  pub translate_old :
      (is_write : Bool)
      → m.pages process (i / words_per_page) ≡ true
      → Translated m process i (translate_address s (i * 4) process is_write)
        × ((translate_address s (i * 4) process is_write).0 ≡ s)
  translate_old is_write written =
      let there = h.held process (i / words_per_page) written in
      let page : i * 4 / page_size ≡ i / words_per_page = omega arith in
      let leads = Leads-intro s (i * 4) process there.frame h.valid (rw page there.in_table) in
      rw (translate_address_again s (i * 4) process _ is_write h.valid leads)
        ((touched_again written, leads), refl)

  pub absent : lookup ((s.processes process).pid, i / words_per_page) s.memory.swap_table ≡ none
  unfolding lookup
  absent = rw h.unswapped refl

  missed :
      m.pages process (i / words_per_page) ≡ false
      → translate_address s (i * 4) process true
        ≡ translate_miss s process (i / words_per_page) (i * 4 % page_size) true none
  unfolding translate_address translate_page
  missed new =
      let page : i * 4 / page_size ≡ i / words_per_page = omega arith in
      rw (page, h.untouched process (i / words_per_page) new, translate_page, page, absent) refl

  translated_new :
      (frame : ℕ)
      → m.pages process (i / words_per_page) ≡ false
      → first_free s.memory.frames_map 0 ≡ some frame
      → translate_address s (i * 4) process true
        ≡ (taken s process (i / words_per_page) frame, physical frame (i * 4 % page_size))
  unfolding translate_miss allocate_frame
  translated_new frame new free = missed new ∙ rw (free, allocate_frame) refl

  -- The page is new: it takes a free frame.
  pub translate_new :
      m.pages process (i / words_per_page) ≡ false
      → 0 < free_frames s.memory.frames_map
      → Translated m process i (translate_address s (i * 4) process true)
        × (free_frames s.memory.frames_map
            ≡ suc (free_frames (translate_address s (i * 4) process true).0.memory.frames_map))
  translate_new new room = elim (Option-cases (first_free s.memory.frames_map 0)) [
    | inl nothing ↦ absurd (omega (arith, free_frames-first_free s.memory.frames_map 0 nothing))
    | inr (frame, free) ↦
        let (valid, outcome) = translate_address_lem s (i * 4) process true h.valid in
        elim outcome [
          | inr (_, _, _, never) ↦ absurd (ground arith)
          | inl leads ↦
              let e = translated_new frame new free in
              let sound : IsValid (taken s process (i / words_per_page) frame) = rw e at valid in
              rw e (
                (
                  taken-Simulates s m process (i / words_per_page) frame h free new sound,
                  rw e at leads,
                ),
                taken-free_frames s m process (i / words_per_page) frame h free new sound,
              )
        ]
  ]
