-- ===== src/Memory/Manager/Copy.antt =====
-- The copying loops of `swapOut` and `swapIn` in src/memory/MemoryManager.cpp.
use multicore_simulator.Prelude.{
  ℕ, zero, suc, ◌+◌, ◌-◌, ◌≡◌, ◌≤◌, ◌&&◌, refl, ◌∙◌, arith, ltb, leb, if◌then◌else◌, to_u32,
  u32_mod,
}
use multicore_simulator.Memory.Store.{WordStore}
use multicore_simulator.Memory.Manager.{copy_words}

module _ {S D : Type 0} (read_source : S → ℕ → ℕ) (store : WordStore D) where
  open store use {read, write, size, IsValid, read-write, write-IsValid, size-write, size-le}

  pub copy_words-IsValid :
      (rounds i from to : ℕ) (source : S) (target : D)
      → IsValid target
      → IsValid (copy_words read_source write rounds i from to source target)
  unfolding copy_words
  copy_words-IsValid zero i from to source target h = h
  copy_words-IsValid (suc rounds) i from to source target h =
      copy_words-IsValid rounds (suc i) from to source _ (write-IsValid target _ _ h)

  pub size-copy_words :
      (rounds i from to : ℕ) (source : S) (target : D)
      → size (copy_words read_source write rounds i from to source target) ≡ size target
  unfolding copy_words
  size-copy_words zero i from to source target = refl
  size-copy_words (suc rounds) i from to source target =
      size-copy_words rounds (suc i) from to source _ ∙ size-write target _ _

  -- Where the target has room, the words are those of the source, and all others stay.
  pub read-copy_words :
      (rounds i from to : ℕ) (source : S) (target : D) (b : ℕ)
      → IsValid target
      → to + i + rounds ≤ size target
      → read (copy_words read_source write rounds i from to source target) b ≡ (
          if leb (to + i) b && ltb b (to + i + rounds)
          then read_source source (to_u32 (from + (b - to)))
          else read target b)
  unfolding copy_words
  read-copy_words zero i from to source target b h room = ground arith
  read-copy_words (suc rounds) i from to source target b h room =
      let word = read_source source (to_u32 (from + i)) in
      let first = to_u32 (to + i) in
      ground (
        arith,
        read-copy_words rounds (suc i) from to source (write target first word) b
            (write-IsValid target first word h),
        size-write target first word,
        read-write target first word b h,
        size-le target h,
      )

  -- Where the target ends before the words begin, nothing is written at all.
  pub read-copy_words_past :
      (rounds i from to : ℕ) (source : S) (target : D) (b : ℕ)
      → IsValid target
      → size target ≤ to + i
      → to + i + rounds ≤ u32_mod
      → read (copy_words read_source write rounds i from to source target) b ≡ read target b
  unfolding copy_words
  read-copy_words_past zero i from to source target b h past fits = refl
  read-copy_words_past (suc rounds) i from to source target b h past fits =
      let word = read_source source (to_u32 (from + i)) in
      let first = to_u32 (to + i) in
      ground (
        arith,
        read-copy_words_past rounds (suc i) from to source (write target first word) b
            (write-IsValid target first word h),
        size-write target first word,
        read-write target first word b h,
      )
