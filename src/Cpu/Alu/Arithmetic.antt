-- ===== src/Cpu/Alu/Arithmetic.antt =====
-- Sums, differences and products of src/cpu/ULA.cpp: the word is right modulo 2 ^ 32, and the
-- overflow flag tells when the integer is not.
use multicore_simulator.Prelude.{
  ℕ, true, false, ◌+◌, ◌-◌, ◌*◌, ◌%◌, ◌≡◌, ◌<◌, ◌↔◌, ◌⊎◌, ap, ◌∙◌, suc, arith, inl, inr, ltb,
  u32_mod, Bool-cases,
}
use multicore_simulator.Prelude.Int.{ℤ, pos, negsuc, sub_ℕ, ◌+ℤ◌, ◌-ℤ◌, ◌*ℤ◌, ◌≤ℤ◌}
use multicore_simulator.Cpu.Alu.{
  Operation, add, sub, mul, i32_min, i32_max, as_i32, to_word, fits_in_i32, checked, compute,
  calculate,
}

-- An int32_t.
abbrev pub IsI32 : ℤ → Type 0
IsI32 x = (i32_min ≤ℤ x) × (x ≤ℤ i32_max)

pub as_i32-IsI32 : (x : ℕ) → x < u32_mod → IsI32 (as_i32 x)
unfolding as_i32
as_i32-IsI32 x h = ground arith

-- The two readings of a word determine each other.
pub to_word-as_i32 : (x : ℕ) → x < u32_mod → to_word (as_i32 x) ≡ x
unfolding as_i32 to_word
to_word-as_i32 x h = ground arith

pub as_i32-to_word : (x : ℤ) → IsI32 x → as_i32 (to_word x) ≡ x
unfolding as_i32 to_word
as_i32-to_word (pos n) h = ground arith
as_i32-to_word (negsuc n) h = ground arith

pub to_word-lt : (x : ℤ) → to_word x < u32_mod
unfolding to_word
to_word-lt (pos n) = omega arith
to_word-lt (negsuc n) = omega arith

pub fits_in_i32_iff : (x : ℤ) → (fits_in_i32 x ≡ true) ↔ IsI32 x
unfolding fits_in_i32
fits_in_i32_iff x = ground arith

-- What `calculate` does with an exact result: it is kept if it is an int32_t, with no overflow, and
-- else wrapped, with overflow.
checked_lem :
    (x : ℤ)
    → (to_word (checked x).0 ≡ to_word x)
      × (((checked x).1 ≡ false) ↔ IsI32 x)
      × (IsI32 x → (checked x).0 ≡ x)
checked_lem x = (
  to_word-as_i32 (to_word x) (to_word-lt x),
  (ground (arith, fits_in_i32_iff x), ground (arith, fits_in_i32_iff x)),
  as_i32-to_word x,
)

to_word-+ℤ :
    (a b : ℕ) → a < u32_mod → b < u32_mod → to_word (as_i32 a +ℤ as_i32 b) ≡ (a + b) % u32_mod
unfolding as_i32 to_word ◌+ℤ◌
to_word-+ℤ a b h k = ground arith

to_word--ℤ :
    (a b : ℕ)
    → a < u32_mod
    → b < u32_mod
    → to_word (as_i32 a -ℤ as_i32 b) ≡ (a + u32_mod - b) % u32_mod
unfolding as_i32 to_word ◌-ℤ◌
to_word--ℤ a b h k = ground arith

-- An integer given as a difference has the word of every number that is congruent to it.
to_word-sub_ℕ :
    (p q r k j : ℕ) → p + k * u32_mod ≡ q + r + j * u32_mod → to_word (sub_ℕ p q) ≡ r % u32_mod
unfolding to_word
to_word-sub_ℕ p q r k j h = ground arith

-- The sign of a word: the integer is the word, or the word less 2 ^ 32.
as_i32-cases :
    (a : ℕ)
    → a < u32_mod
    → (as_i32 a ≡ pos a) ⊎ ((n : ℕ) × (as_i32 a ≡ negsuc n) × (suc n + a ≡ u32_mod))
unfolding as_i32
as_i32-cases a h = elim (Bool-cases (ltb a 2147483648)) [
  | inl e ↦ inl (rw e)
  | inr e ↦ inr (u32_mod - 1 - a, rw e, omega arith)
]

to_word-*ℤ :
    (a b : ℕ) → a < u32_mod → b < u32_mod → to_word (as_i32 a *ℤ as_i32 b) ≡ (a * b) % u32_mod
unfolding ◌*ℤ◌
to_word-*ℤ a b h k = elim (as_i32-cases a h) [
  | inl e ↦ elim (as_i32-cases b k) [
    | inl f ↦ rw (e, f) (to_word-sub_ℕ _ _ (a * b) 0 0 (omega arith))
    | inr (n, f, g) ↦
        rw (e, f) (to_word-sub_ℕ _ _ (a * b) a 0 (omega (arith, ap (λ (t : ℕ). a * t) g)))
  ]
  | inr (m, e, d) ↦ elim (as_i32-cases b k) [
    | inl f ↦ rw (e, f) (to_word-sub_ℕ _ _ (a * b) b 0 (omega (arith, ap (λ (t : ℕ). b * t) d)))
    | inr (n, f, g) ↦
        rw (e, f)
          (to_word-sub_ℕ _ _ (a * b) (a + b) u32_mod
            (omega (arith, ap (λ (t : ℕ). a * t) g, ap (λ (t : ℕ). suc n * t) d)))
  ]
]

-- The result of an operation with an exact value: the right word, the overflow flag exactly when the
-- value is no int32_t, and the value itself where it is one.
abbrev pub Computes : Operation → ℕ → ℕ → ℤ → ℕ → Type 0
Computes op a b exact word =
    let r = calculate (record { a = a; b = b; op = op; result = pos 0; overflow = false }) in
    (to_word r.result ≡ word)
    × ((r.overflow ≡ false) ↔ IsI32 exact)
    × (IsI32 exact → r.result ≡ exact)

-- ADD, SUB and MUL of two words: the word of the result is the sum, the difference or the product
-- modulo 2 ^ 32, the overflow flag is set exactly when the signed value is no int32_t, and without
-- overflow the result is that value.
pub calculate-Computes :
    (a b : ℕ)
    → a < u32_mod
    → b < u32_mod
    → Computes add a b (as_i32 a +ℤ as_i32 b) ((a + b) % u32_mod)
      × Computes sub a b (as_i32 a -ℤ as_i32 b) ((a + u32_mod - b) % u32_mod)
      × Computes mul a b (as_i32 a *ℤ as_i32 b) ((a * b) % u32_mod)
unfolding calculate compute
calculate-Computes a b h k =
    let sum = checked_lem (as_i32 a +ℤ as_i32 b) in
    let difference = checked_lem (as_i32 a -ℤ as_i32 b) in
    let product = checked_lem (as_i32 a *ℤ as_i32 b) in
    (
      (sum.0 ∙ to_word-+ℤ a b h k, sum.1, sum.2),
      (difference.0 ∙ to_word--ℤ a b h k, difference.1, difference.2),
      (product.0 ∙ to_word-*ℤ a b h k, product.1, product.2),
    )
