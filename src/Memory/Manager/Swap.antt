-- ===== src/Memory/Manager/Swap.antt =====
-- Pages on their way to the disk and back: `swapOut` and `swapIn` of src/memory/MemoryManager.cpp.
use multicore_simulator.Prelude.{
  ℕ, true, false, none, some, ◌+◌, ◌-◌, ◌*◌, ◌≡◌, ◌≤◌, ◌<◌, refl, ◌∙◌, arith, ltb, leb, ==_refl,
  to_u32, u32_mod,
}
use multicore_simulator.Prelude.Assoc.{
  nat_eq, pair_eq, pair_beq_iff, lookup, lookup-insert, lookup-erase,
}
use multicore_simulator.Process.{modify}
use multicore_simulator.Memory.Ram.{MainMemory, memory_access_error}
use multicore_simulator.Memory.Ram
use multicore_simulator.Memory.Disk.{SecondaryMemory}
use multicore_simulator.Memory.Disk
use multicore_simulator.Memory.Store.{ram_store, disk_store}
use multicore_simulator.Memory.Manager.Copy.{read-copy_words, read-copy_words_past, size-copy_words}
use multicore_simulator.Memory.Manager.Frames.{IsValid}
use multicore_simulator.Memory.Manager.{
  System, words_per_page, copy_to_disk, copy_to_ram, evict_page, swap_in,
}

-- The index of word `k` of a frame, as the loops compute it.
abbrev pub frame_word : ℕ → ℕ → ℕ
frame_word frame k = frame * words_per_page + k

read-copy_to_disk :
    (from to k : ℕ) (ram : MainMemory) (disk : SecondaryMemory)
    → Disk.Laws.IsValid disk
    → to + words_per_page ≤ disk.size
    → k < words_per_page
    → from + k < u32_mod
    → Disk.read_mem (copy_to_disk from to ram disk) (to + k) ≡ Ram.read_mem ram (from + k)
unfolding copy_to_disk
read-copy_to_disk from to k ram disk h room small fits =
    let copied =
      read-copy_words Ram.read_mem disk_store words_per_page 0 from to ram disk (to + k) h
        (omega arith) in
    let first : leb (to + 0) (to + k) ≡ true = ground arith in
    let last : ltb (to + k) (to + 0 + words_per_page) ≡ true = ground arith in
    let index : to_u32 (from + (to + k - to)) ≡ from + k = omega arith in
    rw (first, last, index) at copied

read-copy_to_ram :
    (from to k : ℕ) (disk : SecondaryMemory) (ram : MainMemory)
    → Ram.Laws.IsValid ram
    → to + words_per_page ≤ ram.size
    → k < words_per_page
    → from + k < u32_mod
    → Ram.read_mem (copy_to_ram from to disk ram) (to + k) ≡ Disk.read_mem disk (from + k)
unfolding copy_to_ram
read-copy_to_ram from to k disk ram h room small fits =
    let copied =
      read-copy_words Disk.read_mem ram_store words_per_page 0 from to disk ram (to + k) h
        (omega arith) in
    let first : leb (to + 0) (to + k) ≡ true = ground arith in
    let last : ltb (to + k) (to + 0 + words_per_page) ≡ true = ground arith in
    let index : to_u32 (from + (to + k - to)) ≡ from + k = omega arith in
    rw (first, last, index) at copied

frame_base :
    (s : System) (frame : ℕ)
    → IsValid s
    → frame < s.memory.num_frames
    → (to_u32 (frame * words_per_page) ≡ frame * words_per_page)
      × (frame * words_per_page + words_per_page ≤ s.memory.main_memory.size)
frame_base s frame h inside = omega (arith, h.words, h.ram.bounded)

-- In a system with the paging invariant, a page that is evicted from one frame and brought back
-- into any other has the words that it had, as long as the disk has room for it. Meanwhile the swap
-- table knows where it is, and afterwards not.
pub swap_in-evict_page :
    (s : System) (frame target owner page k : ℕ)
    → IsValid s
    → frame < s.memory.num_frames
    → target < s.memory.num_frames
    → s.memory.next_swap_address + words_per_page ≤ s.memory.secondary_memory.size
    → k < words_per_page
    → let disk_address = s.memory.next_swap_address in
      let key : ℕ × ℕ = ((s.processes owner).pid, page) in
      let out = evict_page s frame owner page in
      let back = swap_in out target owner page disk_address in
      (Ram.read_mem back.memory.main_memory (frame_word target k)
        ≡ Ram.read_mem s.memory.main_memory (frame_word frame k))
      × (lookup key out.memory.swap_table ≡ some disk_address)
      × (lookup key back.memory.swap_table ≡ none)
unfolding evict_page swap_in modify
swap_in-evict_page s frame target owner page k h inside inside' room small =
    let m = s.memory in
    let key : ℕ × ℕ = ((s.processes owner).pid, page) in
    let (from, fits) = frame_base s frame h inside in
    let (to, fits') = frame_base s target h inside' in
    let disk =
      copy_to_disk (frame * words_per_page) m.next_swap_address m.main_memory m.secondary_memory in
    let same : pair_eq.beq key key ≡ true = (pair_beq_iff key key).1 refl in
    (
      rw (from, to)
          (read-copy_to_ram m.next_swap_address (target * words_per_page) k disk m.main_memory h.ram
              fits' small (omega (arith, h.disk.bounded))
            ∙ read-copy_to_disk (frame * words_per_page) m.next_swap_address k m.main_memory
                m.secondary_memory h.disk room small (omega (arith, h.ram.bounded))),
      lookup-insert key key m.next_swap_address m.swap_table ∙ rw same,
      rw (==_refl owner) (lookup-erase key key _ ∙ rw same),
    )

read-copy_to_ram_past :
    (from to k : ℕ) (disk : SecondaryMemory) (ram : MainMemory)
    → Ram.Laws.IsValid ram
    → to + words_per_page ≤ ram.size
    → disk.size ≤ from
    → k < words_per_page
    → from + k < u32_mod
    → Ram.read_mem (copy_to_ram from to disk ram) (to + k) ≡ memory_access_error
read-copy_to_ram_past from to k disk ram h room past small fits =
    let off : ltb (from + k) disk.size ≡ false = ground arith in
    read-copy_to_ram from to k disk ram h room small fits
    ∙ Disk.Laws.read_mem_lem disk (from + k)
    ∙ rw off

-- In a system with the paging invariant whose swap addresses have run past the end of the disk, and
-- still fit into 32 bits, a page that is evicted is lost: the disk stays as it was, and the frame
-- into which the page is brought back holds error values.
pub swap_in-evict_page_full :
    (s : System) (frame target owner page k : ℕ)
    → IsValid s
    → target < s.memory.num_frames
    → s.memory.secondary_memory.size ≤ s.memory.next_swap_address
    → s.memory.next_swap_address + words_per_page ≤ u32_mod
    → k < words_per_page
    → let out = evict_page s frame owner page in
      let back = swap_in out target owner page s.memory.next_swap_address in
      ((a : ℕ)
        → Disk.read_mem out.memory.secondary_memory a ≡ Disk.read_mem s.memory.secondary_memory a)
      × (Ram.read_mem back.memory.main_memory (frame_word target k) ≡ memory_access_error)
unfolding evict_page swap_in modify
swap_in-evict_page_full s frame target owner page k h inside past fits small =
    let m = s.memory in
    let base = to_u32 (frame * words_per_page) in
    let disk = copy_to_disk base m.next_swap_address m.main_memory m.secondary_memory in
    let (to, room) = frame_base s target h inside in
    let size : disk.size ≡ m.secondary_memory.size =
      unfold copy_to_disk in
      size-copy_words Ram.read_mem disk_store words_per_page 0 base m.next_swap_address
        m.main_memory m.secondary_memory in
    (
      λ a.
          unfold copy_to_disk in
          read-copy_words_past Ram.read_mem disk_store words_per_page 0 base m.next_swap_address
            m.main_memory m.secondary_memory a h.disk (omega arith) (omega arith),
      rw to (
          read-copy_to_ram_past m.next_swap_address (target * words_per_page) k disk m.main_memory
            h.ram room (omega arith) small (omega arith)),
    )
