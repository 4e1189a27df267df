-- ===== src/Cpu/Registers.antt =====
-- src/cpu/REGISTER.hpp, REGISTER_BANK.hpp and REGISTER_BANK.cpp. A field of the class is a
-- constructor of `Register`, and the bank gives the word that each field holds.
pub mod Laws
use multicore_simulator.Prelude.{
  ℕ, List, [], ◌∷◌, String, Option, none, some, ◌+◌, ◌*◌, ◌/◌, ◌%◌, ◌==◌, bit_and, if◌then◌else◌,
  u32_mod,
}
use text.Mathlib.Text.{◌==◌ as str_eq}

pub data Register : Type 0 where
  pc mar cr epc sr hi lo ir : Register
  zero at v0 v1 a0 a1 a2 a3 : Register
  t0 t1 t2 t3 t4 t5 t6 t7 t8 t9 : Register
  s0 s1 s2 s3 s4 s5 s6 s7 : Register
  k0 k1 gp sp fp ra : Register

-- The place of a field in the class, by which fields are told apart.
unfoldable pub position : Register → ℕ
position pc = 0
position mar = 1
position cr = 2
position epc = 3
position sr = 4
position hi = 5
position lo = 6
position ir = 7
position zero = 8
position at = 9
position v0 = 10
position v1 = 11
position a0 = 12
position a1 = 13
position a2 = 14
position a3 = 15
position t0 = 16
position t1 = 17
position t2 = 18
position t3 = 19
position t4 = 20
position t5 = 21
position t6 = 22
position t7 = 23
position t8 = 24
position t9 = 25
position s0 = 26
position s1 = 27
position s2 = 28
position s3 = 29
position s4 = 30
position s5 = 31
position s6 = 32
position s7 = 33
position k0 = 34
position k1 = 35
position gp = 36
position sp = 37
position fp = 38
position ra = 39

abbrev pub RegisterBank : Type 0
RegisterBank = Register → ℕ

-- REGISTER::REGISTER zeroes the word.
unfoldable pub new_register_bank : RegisterBank
new_register_bank r = 0

-- REGISTER::read and REGISTER::write on a field of the bank.
unfoldable pub read : RegisterBank → Register → ℕ
read bank r = bank r

unfoldable pub write : Register → ℕ → RegisterBank → RegisterBank
write r v bank s = if position s == position r then v else bank s

-- The shifts of a byte to the left stay within the word, so no `% 2 ^ 32` is needed.
unfoldable pub reverse_read : ℕ → ℕ
reverse_read x =
    bit_and x 0x000000ff * 0x1000000
    + bit_and x 0x0000ff00 * 0x100
    + bit_and x 0x00ff0000 / 0x100
    + bit_and x 0xff000000 / 0x1000000

-- acessoLeituraRegistradores: the field that the entry of each name reads.
abbrev pub acesso_leitura_registradores : List (String × Register)
acesso_leitura_registradores =
    ("pc", pc)
    ∷ ("mar", mar)
    ∷ ("cr", cr)
    ∷ ("epc", epc)
    ∷ ("sr", sr)
    ∷ ("hi", hi)
    ∷ ("lo", lo)
    ∷ ("ir", ir)
    ∷ ("zero", zero)
    ∷ ("at", at)
    ∷ ("v0", v0)
    ∷ ("v1", v1)
    ∷ ("a0", a0)
    ∷ ("a1", a1)
    ∷ ("a2", a2)
    ∷ ("a3", a3)
    ∷ ("t0", t0)
    ∷ ("t1", t1)
    ∷ ("t2", t2)
    ∷ ("t3", t3)
    ∷ ("t4", t4)
    ∷ ("t5", t5)
    ∷ ("t6", t6)
    ∷ ("t7", t7)
    ∷ ("t8", t8)
    ∷ ("t9", t9)
    ∷ ("s0", s0)
    ∷ ("s1", s1)
    ∷ ("s2", s2)
    ∷ ("s3", s3)
    ∷ ("s4", s4)
    ∷ ("s5", s5)
    ∷ ("s6", s6)
    ∷ ("s7", s7)
    ∷ ("k0", k0)
    ∷ ("k1", k1)
    ∷ ("gp", gp)
    ∷ ("sp", sp)
    ∷ ("fp", fp)
    ∷ ("ra", ra)
    ∷ []

-- acessoEscritaRegistradores: the field that the entry of each name writes, `none` for the entry
-- of "zero", which does nothing.
abbrev pub acesso_escrita_registradores : List (String × Option Register)
acesso_escrita_registradores =
    ("pc", some pc)
    ∷ ("mar", some mar)
    ∷ ("cr", some cr)
    ∷ ("epc", some epc)
    ∷ ("sr", some sr)
    ∷ ("hi", some hi)
    ∷ ("lo", some lo)
    ∷ ("ir", some ir)
    ∷ ("at", some at)
    ∷ ("v0", some v0)
    ∷ ("v1", some v1)
    ∷ ("a0", some a0)
    ∷ ("a1", some a1)
    ∷ ("a2", some a2)
    ∷ ("a3", some a3)
    ∷ ("t0", some t0)
    ∷ ("t1", some t1)
    ∷ ("t2", some t2)
    ∷ ("t3", some t3)
    ∷ ("t4", some t4)
    ∷ ("t5", some t5)
    ∷ ("t6", some t6)
    ∷ ("t7", some t7)
    ∷ ("t8", some t8)
    ∷ ("t9", some t9)
    ∷ ("s0", some s0)
    ∷ ("s1", some s1)
    ∷ ("s2", some s2)
    ∷ ("s3", some s3)
    ∷ ("s4", some s4)
    ∷ ("s5", some s5)
    ∷ ("s6", some s6)
    ∷ ("s7", some s7)
    ∷ ("k0", some k0)
    ∷ ("k1", some k1)
    ∷ ("gp", some gp)
    ∷ ("sp", some sp)
    ∷ ("fp", some fp)
    ∷ ("ra", some ra)
    ∷ ("zero", none)
    ∷ []

unfoldable pub find {ℓ} : {A : Type ℓ} → String → List (String × A) → Option A
find key [] = none
find key ((k, a) ∷ rest) = if str_eq k key then some a else find key rest

-- `none` is the runtime_error of an unknown name.
unfoldable pub read_register : RegisterBank → String → Option ℕ
unfolding find read
read_register bank name = elim (find name acesso_leitura_registradores) [
  | none ↦ none
  | some r ↦ some (read bank r)
]

-- One entry of the map of writers, applied.
unfoldable pub apply_write : Option Register → ℕ → RegisterBank → RegisterBank
unfolding write
apply_write none v bank = bank
apply_write (some r) v bank = write r v bank

unfoldable pub write_register : RegisterBank → String → ℕ → Option RegisterBank
unfolding find apply_write
write_register bank name v = elim (find name acesso_escrita_registradores) [
  | none ↦ none
  | some entry ↦ some (apply_write entry v bank)
]

-- The loop of `reset`. An unordered_map is walked in some order; all the writes are of 0.
unfoldable pub write_all : List (String × Option Register) → RegisterBank → RegisterBank
unfolding apply_write
write_all [] bank = bank
write_all ((name, entry) ∷ rest) bank = write_all rest (apply_write entry 0 bank)

unfoldable pub reset : RegisterBank → RegisterBank
unfolding write_all
reset bank = write_all acesso_escrita_registradores bank
