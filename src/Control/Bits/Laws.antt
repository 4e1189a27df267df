-- ===== src/Control/Bits/Laws.antt =====
-- The bit strings of src/cpu/CONTROL_UNIT.cpp read back what they were made from.
use multicore_simulator.Prelude.{
  ℕ, zero, suc, List, ◌∷◌, some, ◌≡◌, ◌≤◌, ◌<◌, ◌+◌, ◌-◌, ◌*◌, ◌/◌, ◌%◌, ◌^◌, refl, sym, ap, subst,
  ◌∙◌, arith, ltb, if◌then◌else◌, u32_mod, length,
}
use native.Mathlib.Nat.{pow-suc, mod-lt, mod-eq_of_lt, div-add-mod, add-mul-mod_self_left}
use multicore_simulator.Cpu.Alu.{to_word}
use multicore_simulator.Cpu.Mapper.{digit}
use multicore_simulator.Control.Bits.{uint_digits, binary_string_to_uint, sign_extend16, to_bin_str}

-- One more bit in front.
mod-double : (v p : ℕ) → 0 < p → v % (2 * p) ≡ v / p % 2 * p + v % p
mod-double v p h =
    let q = v / p in
    let r = v % p in
    let x = q % 2 * p + r in
    let halves : p * q ≡ p * (2 * (q / 2) + q % 2) = ap (λ (t : ℕ). p * t) (omega arith) in
    let small : x < 2 * p = low (q % 2) (omega arith) (mod-lt v h) in
    let split : v ≡ x + 2 * p * (q / 2) = omega (arith, div-add-mod v p, halves) in
    ap (λ (t : ℕ). t % (2 * p)) split ∙ add-mul-mod_self_left x (2 * p) (q / 2) ∙ mod-eq_of_lt small
  where
    low : (b : ℕ) → b < 2 → v % p < p → b * p + v % p < 2 * p
    low zero k l = omega arith
    low (suc zero) k l = omega arith
    low (suc (suc b)) k l = absurd (omega arith)

pow-pos : (n : ℕ) → 0 < 2 ^ n
pow-pos zero = omega arith
pow-pos (suc n) = omega (arith, pow-pos n, pow-suc 2 n)

uint_digits-digit :
    (bit acc : ℕ) (rest : List ℕ)
    → bit < 2
    → acc * 2 + bit < u32_mod
    → uint_digits (digit bit ∷ rest) acc ≡ uint_digits rest (acc * 2 + bit)
unfolding uint_digits
uint_digits-digit zero acc rest b h =
    let value : acc * 2 % u32_mod ≡ acc * 2 + 0 = omega arith in rw value refl
uint_digits-digit (suc zero) acc rest b h =
    let value : acc * 2 % u32_mod ≡ acc * 2 = omega arith in rw value refl
uint_digits-digit (suc (suc n)) acc rest b h = absurd (omega arith)

scaled : (n p m : ℕ) → 0 < p → n * p + m < u32_mod → n < u32_mod
scaled n p m h k = grind arith

regroup : (acc bit p m : ℕ) → (acc * 2 + bit) * p + m ≡ acc * (2 * p) + (bit * p + m)
regroup acc bit p m = omega arith

uint_digits-to_bin_str :
    (v width acc : ℕ)
    → acc * 2 ^ width + v % 2 ^ width < u32_mod
    → uint_digits (to_bin_str v width) acc ≡ some (acc * 2 ^ width + v % 2 ^ width)
unfolding to_bin_str
uint_digits-to_bin_str v zero acc h = unfold uint_digits in ground arith
uint_digits-to_bin_str v (suc width) acc h =
    let p = 2 ^ width in
    let bit = v / p % 2 in
    let next : 2 ^ suc width ≡ 2 * p = omega (arith, pow-suc 2 width) in
    let value : acc * 2 ^ suc width + v % 2 ^ suc width ≡ (acc * 2 + bit) * p + v % p =
      rw (next, mod-double v p (pow-pos width)) (sym (regroup acc bit p (v % p))) in
    let fits : (acc * 2 + bit) * p + v % p < u32_mod = subst (λ (t : ℕ). t < u32_mod) value h in
    uint_digits-digit bit acc (to_bin_str v width) (omega arith)
      (scaled (acc * 2 + bit) p (v % p) (pow-pos width) fits)
    ∙ uint_digits-to_bin_str v width (acc * 2 + bit) fits
    ∙ ap some (sym value)

-- A number of at most 32 bits comes back from its bit string, cut to the width of the string.
pub binary_string_to_uint-to_bin_str :
    (v width : ℕ)
    → 2 ^ width ≤ u32_mod
    → binary_string_to_uint (to_bin_str v width) ≡ some (v % 2 ^ width)
unfolding binary_string_to_uint
binary_string_to_uint-to_bin_str v width h =
    uint_digits-to_bin_str v width 0 (omega (arith, mod-lt v (pow-pos width)))
    ∙ ap some (omega arith)

pub length-to_bin_str : (v width : ℕ) → length (to_bin_str v width) ≡ width
unfolding to_bin_str
length-to_bin_str v zero = refl
length-to_bin_str v (suc width) = ap suc (length-to_bin_str v width)

-- Sign extension keeps the low 16 bits and copies bit 15 to all the bits above.
pub sign_extend16-word :
    (v : ℕ)
    → v < 65536
    → to_word (sign_extend16 v) ≡ (if ltb v 32768 then v else u32_mod - 65536 + v)
unfolding sign_extend16 to_word
sign_extend16-word v h = ground arith
