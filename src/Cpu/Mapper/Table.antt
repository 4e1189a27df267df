-- ===== src/Cpu/Mapper/Table.antt =====
-- The tables of src/cpu/HASH_REGISTER.hpp against the register bank of src/cpu/REGISTER_BANK.cpp.
use multicore_simulator.Prelude.{
  ℕ, Bool, true, false, [], ◌∷◌, Option, none, some, ◌≡◌, ◌<◌, refl, subst, arith, ◌==◌, ==_iff,
  ltb, get_or, every_below, every_below-true,
}
use multicore_simulator.Cpu.Registers.{
  Register, pc, mar, cr, epc, sr, hi, lo, ir, at, v0, v1, a0, a1, a2, a3, t0, t1, t2, t3, t4, t5,
  t6, t7, t8, t9, s0, s1, s2, s3, s4, s5, s6, s7, k0, k1, gp, sp, fp, ra, find,
  acesso_leitura_registradores, acesso_escrita_registradores,
}
use multicore_simulator.Cpu.Registers.Laws.{register_name, is_zero}
use multicore_simulator.Cpu.Mapper.{
  RegisterMapper, new_register_mapper, bin_from_index, index_from_binary, get_register_name,
  get_register_binary, is_read_only,
}

-- The MIPS number of a general-purpose register.
unfoldable pub number : Register → Option ℕ
number Register.zero = some 0
number at = some 1
number v0 = some 2
number v1 = some 3
number a0 = some 4
number a1 = some 5
number a2 = some 6
number a3 = some 7
number t0 = some 8
number t1 = some 9
number t2 = some 10
number t3 = some 11
number t4 = some 12
number t5 = some 13
number t6 = some 14
number t7 = some 15
number s0 = some 16
number s1 = some 17
number s2 = some 18
number s3 = some 19
number s4 = some 20
number s5 = some 21
number s6 = some 22
number s7 = some 23
number t8 = some 24
number t9 = some 25
number k0 = some 26
number k1 = some 27
number gp = some 28
number sp = some 29
number fp = some 30
number ra = some 31
number _ = none

-- The register that a number means.
unfoldable pub gpr : ℕ → Register
gpr i =
    get_or
      (Register.zero ∷ at ∷ v0 ∷ v1 ∷ a0 ∷ a1 ∷ a2 ∷ a3 ∷ t0 ∷ t1 ∷ t2 ∷ t3 ∷ t4 ∷ t5 ∷ t6 ∷ t7 ∷ s0
        ∷ s1 ∷ s2 ∷ s3 ∷ s4 ∷ s5 ∷ s6 ∷ s7 ∷ t8 ∷ t9 ∷ k0 ∷ k1 ∷ gp ∷ sp ∷ fp ∷ ra ∷ [])
      i Register.zero

has_number : ℕ → Option ℕ → Bool
has_number i none = false
has_number i (some j) = i == j

numbers_table : every_below (λ i. has_number i (number (gpr i))) 32 ≡ true
unfolding every_below has_number number gpr get_or
numbers_table = refl

number-gpr : (i : ℕ) → i < 32 → number (gpr i) ≡ some i
number-gpr i h = found (number (gpr i)) (every_below-true _ 32 i h numbers_table)
  where
    found : (o : Option ℕ) → has_number i o ≡ true → o ≡ some i
    found none e = unfold has_number in cc e
    found (some j) e = unfold has_number in ground (arith, ==_iff i j)

abbrev pub no_mapper : RegisterMapper
no_mapper = record { binary_to_name = []; name_to_binary = []; register_metadata = [] }

abbrev or_no_mapper : Option RegisterMapper → RegisterMapper
or_no_mapper none = no_mapper
or_no_mapper (some m) = m

-- The mapper that the constructor makes.
unfoldable pub register_mapper : RegisterMapper
unfolding new_register_mapper
register_mapper = or_no_mapper new_register_mapper

-- No call of `addRegister` in the constructor throws.
pub new_register_mapper-eq_some : new_register_mapper ≡ some register_mapper
unfolding new_register_mapper register_mapper
new_register_mapper-eq_some = refl

-- What the mapper knows of the register `r` with the number `i`: its code, its name, both ways, and
-- whether it is read-only.
abbrev pub Mapped : Register → ℕ → Type 0
Mapped r i =
    (get_register_name register_mapper i ≡ some (register_name r))
    × (bin_from_index i ≡ some (get_register_binary register_mapper (register_name r)))
    × (index_from_binary (get_register_binary register_mapper (register_name r)) ≡ some i)
    × (is_read_only register_mapper (register_name r) ≡ is_zero r)

abbrev MappedIf : Register → Option ℕ → Type 0
MappedIf r none = Unit {0}
MappedIf r (some i) = Mapped r i

mapped_if : (r : Register) → MappedIf r (number r)
unfolding number get_register_name register_mapper get_register_binary bin_from_index
    index_from_binary is_read_only register_name is_zero
mapped_if pc = tt
mapped_if mar = tt
mapped_if cr = tt
mapped_if epc = tt
mapped_if sr = tt
mapped_if hi = tt
mapped_if lo = tt
mapped_if ir = tt
mapped_if _ = (refl, refl, refl, refl)

-- Every register number below 32 has the name, the code and the access of the MIPS register that it
-- means.
pub gpr-Mapped : (i : ℕ) → i < 32 → Mapped (gpr i) i
gpr-Mapped i h = subst (MappedIf (gpr i)) (number-gpr i h) (mapped_if (gpr i))

-- A number past 31 has the name "UNKNOWN", which the register bank does not have.
pub get_register_name-unknown :
    (m : RegisterMapper) (i : ℕ)
    → 31 < i
    → (get_register_name m i ≡ some "UNKNOWN")
      × (find "UNKNOWN" acesso_leitura_registradores ≡ none)
      × (find "UNKNOWN" acesso_escrita_registradores ≡ none)
unfolding get_register_name find
get_register_name-unknown m i h =
    let past : ltb 31 i ≡ true = ground arith in
    (rw (past, bin_from_index, get_register_name) refl, refl, refl)
