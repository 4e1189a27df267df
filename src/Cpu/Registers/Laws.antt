-- ===== src/Cpu/Registers/Laws.antt =====
-- The register bank of src/cpu/REGISTER_BANK.cpp by name: what its two maps reach.
use multicore_simulator.Prelude.{
  ℕ, Bool, true, not, ◌&&◌, List, [], ◌∷◌, String, Option, none, some, ◌≡◌, inl, inr, refl, sym, ap,
  ◌∙◌, arith, ◌==◌, if◌then◌else◌, Option-cases,
}
use multicore_simulator.Cpu.Registers.{
  Register, pc, mar, cr, epc, sr, hi, lo, ir, zero, at, v0, v1, a0, a1, a2, a3, t0, t1, t2, t3, t4,
  t5, t6, t7, t8, t9, s0, s1, s2, s3, s4, s5, s6, s7, k0, k1, gp, sp, fp, ra, RegisterBank,
  position, read, write, acesso_leitura_registradores, acesso_escrita_registradores, find,
  read_register, apply_write, write_register, write_all, reset,
}

-- The name under which the class knows a field.
unfoldable pub register_name : Register → String
register_name pc = "pc"
register_name mar = "mar"
register_name cr = "cr"
register_name epc = "epc"
register_name sr = "sr"
register_name hi = "hi"
register_name lo = "lo"
register_name ir = "ir"
register_name zero = "zero"
register_name at = "at"
register_name v0 = "v0"
register_name v1 = "v1"
register_name a0 = "a0"
register_name a1 = "a1"
register_name a2 = "a2"
register_name a3 = "a3"
register_name t0 = "t0"
register_name t1 = "t1"
register_name t2 = "t2"
register_name t3 = "t3"
register_name t4 = "t4"
register_name t5 = "t5"
register_name t6 = "t6"
register_name t7 = "t7"
register_name t8 = "t8"
register_name t9 = "t9"
register_name s0 = "s0"
register_name s1 = "s1"
register_name s2 = "s2"
register_name s3 = "s3"
register_name s4 = "s4"
register_name s5 = "s5"
register_name s6 = "s6"
register_name s7 = "s7"
register_name k0 = "k0"
register_name k1 = "k1"
register_name gp = "gp"
register_name sp = "sp"
register_name fp = "fp"
register_name ra = "ra"

unfoldable pub is_zero : Register → Bool
unfolding position
is_zero r = position r == position zero

unfoldable pub writable : Register → Option Register
unfolding is_zero
writable r = if is_zero r then none else some r

find-reader : (r : Register) → find (register_name r) acesso_leitura_registradores ≡ some r
unfolding find register_name
find-reader pc = refl
find-reader _ = refl

find-writer :
    (r : Register) → find (register_name r) acesso_escrita_registradores ≡ some (writable r)
unfolding find register_name writable
find-writer pc = refl
find-writer _ = refl

-- `readRegister` of a field's name reads that field.
pub read_register_lem :
    (bank : RegisterBank) (r : Register) → read_register bank (register_name r) ≡ some (bank r)
unfolding read_register read
read_register_lem bank r = rw (find-reader r, read_register) refl

-- The bank after a write to a field: "zero" is never written.
abbrev pub after_write : RegisterBank → Register → ℕ → RegisterBank
after_write bank r v = apply_write (writable r) v bank

pub write_register_lem :
    (bank : RegisterBank) (r : Register) (v : ℕ)
    → write_register bank (register_name r) v ≡ some (after_write bank r v)
unfolding write_register
write_register_lem bank r v = rw (find-writer r, write_register) refl

pub after_write-at :
    (bank : RegisterBank) (r s : Register) (v : ℕ)
    → after_write bank r v s
      ≡ (if is_zero r then bank s else (if position s == position r then v else bank s))
unfolding writable apply_write write
after_write-at bank r s v = ground arith

-- `writeRegister` of a field's name never fails, and `readRegister` then sees the new word in that
-- field and the old word in every other; a write to "zero" changes nothing.
pub read_register-write_register :
    (bank : RegisterBank) (r s : Register) (v : ℕ)
    → (bank' : RegisterBank) × (write_register bank (register_name r) v ≡ some bank')
      × (read_register bank' (register_name s)
          ≡ some (if is_zero r then bank s else (if position s == position r then v else bank s)))
read_register-write_register bank r s v = (
  after_write bank r v,
  write_register_lem bank r v,
  read_register_lem (after_write bank r v) s ∙ ap some (after_write-at bank r s v),
)

-- `reset` zeroes every field but "zero", which it leaves as it is.
pub reset_lem :
    (bank : RegisterBank) (s : Register) → reset bank s ≡ (if is_zero s then bank zero else 0)
unfolding reset write_all apply_write write position is_zero
reset_lem bank pc = refl
reset_lem bank _ = refl

keeps_zero : Option Register → Bool
unfolding is_zero
keeps_zero none = true
keeps_zero (some r) = not (is_zero r)

all_keep_zero : List (String × Option Register) → Bool
unfolding keeps_zero
all_keep_zero [] = true
all_keep_zero ((name, entry) ∷ rest) = keeps_zero entry && all_keep_zero rest

find-all_keep_zero :
    (name : String) (entry : Option Register) (table : List (String × Option Register))
    → all_keep_zero table ≡ true
    → find name table ≡ some entry
    → keeps_zero entry ≡ true
unfolding all_keep_zero find
find-all_keep_zero name entry [] k e = cc
find-all_keep_zero name entry ((other, first) ∷ rest) k e =
    ground (arith, find-all_keep_zero name entry rest)

apply_write-zero :
    (entry : Option Register) (v : ℕ) (bank : RegisterBank)
    → keeps_zero entry ≡ true
    → apply_write entry v bank zero ≡ bank zero
unfolding keeps_zero apply_write write is_zero
apply_write-zero none v bank k = refl
apply_write-zero (some r) v bank k = ground arith

writers_keep_zero : all_keep_zero acesso_escrita_registradores ≡ true
unfolding all_keep_zero
writers_keep_zero = refl

-- No write by name, to any name at all, changes the register "zero".
pub write_register-zero :
    (bank bank' : RegisterBank) (name : String) (v : ℕ)
    → write_register bank name v ≡ some bank'
    → bank' zero ≡ bank zero
unfolding write_register
write_register-zero bank bank' name v h =
    elim (Option-cases (find name acesso_escrita_registradores)) [
      | inl e ↦ absurd (ground arith)
      | inr (entry, e) ↦
          let kept =
            find-all_keep_zero name entry acesso_escrita_registradores writers_keep_zero e in
          let wrote : apply_write entry v bank ≡ bank' = cc (found entry e) in
          ap (λ (b : RegisterBank). b zero) (sym wrote) ∙ apply_write-zero entry v bank kept
    ]
  where
    found :
        (entry : Option Register)
        → find name acesso_escrita_registradores ≡ some entry
        → write_register bank name v ≡ some (apply_write entry v bank)
    found entry e = rw (e, write_register) refl
