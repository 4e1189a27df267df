-- ===== src/Cpu/Alu/Division.antt =====
-- DIV of src/cpu/ULA.cpp: truncated division, with the two cases that C++ leaves undefined flagged.
use multicore_simulator.Prelude.{
  ℕ, Bool, true, false, ◌+◌, ◌/◌, ◌≡◌, ◌<◌, ◌≢◌, refl, arith, inl, inr, u32_mod, Bool-cases, ◌&&◌,
}
use multicore_simulator.Prelude.Int.{
  ℤ, pos, negsuc, pos_part, neg_part, ◌/ℤ◌, eqb_ℤ, eqb_ℤ_iff, eqb_ℤ-ne,
}
use multicore_simulator.Cpu.Alu.Arithmetic.{IsI32, as_i32-IsI32}
use multicore_simulator.Cpu.Alu.{Alu, div, i32_min, as_i32, divide, compute, calculate}

-- |x|
abbrev pub size_of : ℤ → ℕ
size_of x = pos_part x + neg_part x

abbrev pub negative : ℤ → Bool
negative (pos n) = false
negative (negsuc n) = true

-- `q` is x / y rounded towards zero.
pub record IsQuotient (x y q : ℤ) : Type 0 where
  pub size : size_of q ≡ size_of x / size_of y
  pub same_signs : negative x ≡ negative y → neg_part q ≡ 0
  pub other_signs : negative x ≢ negative y → pos_part q ≡ 0

/ℤ-IsQuotient : (x y : ℤ) → IsQuotient x y (x /ℤ y)
unfolding ◌/ℤ◌
/ℤ-IsQuotient (pos a) (pos b) = record {
  size = ground arith;
  same_signs = λ _. refl;
  other_signs = λ n. absurd (n refl);
}
/ℤ-IsQuotient (pos a) (negsuc b) = record {
  size = ground arith;
  same_signs = λ e. cc;
  other_signs = λ _. ground arith;
}
/ℤ-IsQuotient (negsuc a) (pos b) = record {
  size = ground arith;
  same_signs = λ e. cc;
  other_signs = λ _. ground arith;
}
/ℤ-IsQuotient (negsuc a) (negsuc b) = record {
  size = ground arith;
  same_signs = λ _. refl;
  other_signs = λ n. absurd (n refl);
}

-- The only quotient of two int32_t that is none is that of INT_MIN by -1.
quotient-IsI32 :
    (x y : ℤ)
    → IsI32 x
    → eqb_ℤ y (pos 0) ≡ false
    → (eqb_ℤ x i32_min && eqb_ℤ y (negsuc 0)) ≡ false
    → IsI32 (x /ℤ y)
unfolding ◌/ℤ◌
quotient-IsI32 (pos a) (pos b) h nonzero proper = ground arith
quotient-IsI32 (pos a) (negsuc b) h nonzero proper = ground arith
quotient-IsI32 (negsuc a) (pos b) h nonzero proper = ground arith
quotient-IsI32 (negsuc a) (negsuc b) h nonzero proper = ground arith

pub record Divides (x y q : ℤ) (overflow : Bool) : Type 0 where
  pub by_zero : y ≡ pos 0 → (q ≡ pos 0) × (overflow ≡ true)
  pub too_big : x ≡ i32_min → y ≡ negsuc 0 → (q ≡ i32_min) × (overflow ≡ true)
  pub proper :
      y ≢ pos 0 → (x ≡ i32_min → y ≢ negsuc 0) → IsQuotient x y q × IsI32 q × (overflow ≡ false)

divide-Divides : (x y : ℤ) → IsI32 x → let (q, o) = divide x y in Divides x y q o
unfolding divide
divide-Divides x y h = record {
  by_zero = λ e. rw e (refl, refl);
  too_big = λ e f. rw (e, f) (refl, refl);
  proper = λ nonzero fits.
      let nz = eqb_ℤ-ne y (pos 0) nonzero in
      let ok = not_both fits in rw (nz, ok) (/ℤ-IsQuotient x y, quotient-IsI32 x y h nz ok, refl);
}
  where
    not_both : (x ≡ i32_min → y ≢ negsuc 0) → (eqb_ℤ x i32_min && eqb_ℤ y (negsuc 0)) ≡ false
    not_both fits = elim (Bool-cases (eqb_ℤ x i32_min)) [
      | inr e ↦ rw e refl
      | inl e ↦ rw e (eqb_ℤ-ne y (negsuc 0) (fits ((eqb_ℤ_iff x i32_min).0 e)))
    ]

-- DIV of two words: 0 with the overflow flag for a zero divisor, INT_MIN with the flag for INT_MIN by
-- -1, and in every other case the quotient rounded towards zero, which is an int32_t, with no flag.
pub calculate_div :
    (a b : ℕ) (alu : Alu)
    → a < u32_mod
    → let r = calculate (record alu { a = a; b = b; op = div }) in
      Divides (as_i32 a) (as_i32 b) r.result r.overflow
unfolding calculate compute
calculate_div a b alu h = divide-Divides (as_i32 a) (as_i32 b) (as_i32-IsI32 a h)
