-- ===== src/Pipeline.antt =====
-- What the pipeline of src/cpu/CONTROL_UNIT.cpp promises a program of ADD, SUB, MULT and DIV: its words
-- one after the other, each on the registers that the one before has left.
pub mod Plain
pub mod Back
pub mod Front
pub mod Fetching
pub mod Rounds
pub mod Count
pub mod Steps
pub mod Loop
pub mod Turn
pub mod Loaded
pub mod Calm
pub mod Stored
use multicore_simulator.Prelude.{
  ℕ, zero, suc, Bool, true, false, List, Option, none, some, ◌≡◌, ◌≢◌, ◌≤◌, ◌<◌, refl, arith,
  get_or, ==_refl, [], ◌∷◌, ◌&&◌, leb, ◌==◌,
}
use multicore_simulator.Cpu.Registers.{Register, RegisterBank, position, write, pc, mar, ir}
use multicore_simulator.Cpu.Registers.Laws.{after_write, after_write-at, is_zero}
use multicore_simulator.Cpu.Mapper.Table.{gpr}
use multicore_simulator.Control.Bits.{rs_field, rt_field, rd_field}
use multicore_simulator.Control.Decode.{identify}
use multicore_simulator.Control.Execute.{arithmetic_result, end_sentinel}

-- The register of the word's `rd` gets the result of its operation on those of `rs` and `rt`.
abbrev pub keep_result : ℕ → RegisterBank → Option ℕ → RegisterBank
keep_result w bank none = bank
keep_result w bank (some value) = after_write bank (gpr (rd_field w)) value

unfoldable pub perform : ℕ → RegisterBank → RegisterBank
perform w bank =
    keep_result w bank
      (arithmetic_result (identify w) (bank (gpr (rs_field w))) (bank (gpr (rt_field w))))

-- The words of a program, and behind them the word that ends it.
abbrev pub word_at : List ℕ → ℕ → ℕ
word_at program n = get_or program n end_sentinel

-- The registers after the first words of a program.
unfoldable pub after : List ℕ → ℕ → RegisterBank → RegisterBank
unfolding perform
after program zero bank = bank
after program (suc n) bank = perform (word_at program n) (after program n bank)

-- The general registers of two banks are equal.
abbrev pub Agree : RegisterBank → RegisterBank → Type 0
Agree a b = (i : ℕ) → a (gpr i) ≡ b (gpr i)

all_high : List Register → Bool
unfolding position
all_high [] = true
all_high (r ∷ rest) = leb 8 (position r) && all_high rest

get_or-high :
    (rs : List Register) (i : ℕ) → all_high rs ≡ true → 8 ≤ position (get_or rs i Register.zero)
unfolding all_high get_or position
get_or-high [] i h = omega arith
get_or-high (r ∷ rest) zero h = ground (arith, h)
get_or-high (r ∷ rest) (suc i) h = get_or-high rest i (ground (arith, h))

-- A general register is none of the fields in front of them.
pub gpr-high : (i : ℕ) → 8 ≤ position (gpr i)
unfolding gpr all_high position
gpr-high i = get_or-high _ i refl

pub write-Agree :
    (r : Register) (v : ℕ) (bank : RegisterBank) → position r < 8 → Agree (write r v bank) bank
unfolding write
write-Agree r v bank low i = ground (arith, gpr-high i)

pub perform-Agree : (w : ℕ) (a b : RegisterBank) → Agree a b → Agree (perform w a) (perform w b)
unfolding perform
perform-Agree w a b h =
    rw (h (rs_field w), h (rt_field w))
      (kept (arithmetic_result (identify w) (b (gpr (rs_field w))) (b (gpr (rt_field w)))))
  where
    kept : (o : Option ℕ) → Agree (keep_result w a o) (keep_result w b o)
    kept none i = h i
    kept (some value) i =
        rw
          (
            after_write-at a (gpr (rd_field w)) (gpr i) value,
            after_write-at b (gpr (rd_field w)) (gpr i) value,
            h i,
          )
          refl

-- It does not write to the fields in front of them.
pub perform-low :
    (w : ℕ) (bank : RegisterBank) (r : Register) → position r < 8 → perform w bank r ≡ bank r
unfolding perform
perform-low w bank r low =
    kept (arithmetic_result (identify w) (bank (gpr (rs_field w))) (bank (gpr (rt_field w))))
  where
    kept : (o : Option ℕ) → keep_result w bank o r ≡ bank r
    kept none = refl
    kept (some value) =
        ground (arith, after_write-at bank (gpr (rd_field w)) r value, gpr-high (rd_field w))
