-- ===== src/Memory/Manager/Ideal.antt =====
-- What `read` and `write` of src/memory/MemoryManager.cpp promise while every page has a frame: a map
-- from a process and a word to its value. The words of a page are those of an empty main memory until
-- they are written; a page that was never written reads as 0.
pub mod Frame
pub mod Step
pub mod Refines
use multicore_simulator.Prelude.{
  ℕ, suc, Bool, true, false, List, [], ◌∷◌, ◌*◌, ◌/◌, ◌==◌, ◌&&◌, ◌||◌, if◌then◌else◌,
}
use multicore_simulator.Memory.Ram.{memory_access_error}
use multicore_simulator.Memory.Manager.{System, words_per_page, read, write}

-- The pages that a process has written to, and its words, by process and index of the word.
pub record Ideal : Type 0 where
  pub pages : ℕ → ℕ → Bool
  pub words : ℕ → ℕ → ℕ

unfoldable pub nothing_written : Ideal
nothing_written = record { pages = λ p page. false; words = λ p i. memory_access_error }

unfoldable pub touch : ℕ → ℕ → Ideal → Ideal
touch process page m = record m {
  pages = λ q other. (q == process && other == page) || m.pages q other;
}

unfoldable pub assign : ℕ → ℕ → ℕ → Ideal → Ideal
assign process i word m = record m {
  words = λ q j. if q == process && j == i then word else m.words q j;
}

unfoldable pub ideal_write : ℕ → ℕ → ℕ → Ideal → Ideal
unfolding touch assign
ideal_write process i word m = assign process i word (touch process (i / words_per_page) m)

unfoldable pub ideal_read : ℕ → ℕ → Ideal → ℕ
ideal_read process i m = if m.pages process (i / words_per_page) then m.words process i else 0

-- A call of `read` or of `write`, by process and index of the word.
pub data Call : Type 0 where
  reading : ℕ → ℕ → Call
  writing : ℕ → ℕ → ℕ → Call

-- The answers of the reads.
unfoldable pub run : List Call → System → List ℕ
run [] s = []
run (reading process i ∷ calls) s = let (s', word) = read s (i * 4) process in word ∷ run calls s'
run (writing process i word ∷ calls) s = run calls (write s (i * 4) word process)

unfoldable pub ideal_run : List Call → Ideal → List ℕ
unfolding ideal_read ideal_write
ideal_run [] m = []
ideal_run (reading process i ∷ calls) m = ideal_read process i m ∷ ideal_run calls m
ideal_run (writing process i word ∷ calls) m = ideal_run calls (ideal_write process i word m)

-- How many pages the calls write to that were not written before.
unfoldable pub new_pages : List Call → Ideal → ℕ
unfolding ideal_write
new_pages [] m = 0
new_pages (reading process i ∷ calls) m = new_pages calls m
new_pages (writing process i word ∷ calls) m =
    let rest = new_pages calls (ideal_write process i word m) in
    if m.pages process (i / words_per_page) then rest else suc rest

unfoldable pub free_frames : List Bool → ℕ
free_frames [] = 0
free_frames (used ∷ rest) = if used then free_frames rest else suc (free_frames rest)
