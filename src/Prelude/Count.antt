-- ===== src/Prelude/Count.antt =====
-- Sums over the processes in a list. With a weight of 1 everywhere they measure the list, with 1 at one
-- process they count how often it stands there.
use Prim.Native.Nat.{ℕ, ◌+◌}
use mathlib.Core.Path.{◌≡◌, refl, ◌∙◌, ap}
use mathlib.Core.Logic.{∥∥₁_elim}
use mathlib.Core.List.{List, [], ◌∷◌, ◌++◌, Perm, Permᴰ}
use native.Mathlib.Omega.{arith}
use multicore_simulator.Prelude.Tests.{◌==◌, if◌then◌else◌}
use multicore_simulator.Prelude.Lists.{length}

unfoldable pub tally : (ℕ → ℕ) → List ℕ → ℕ
tally f [] = 0
tally f (x ∷ xs) = f x + tally f xs

abbrev pub count : ℕ → List ℕ → ℕ
count q xs = tally (λ x. if x == q then 1 else 0) xs

pub tally-length : (xs : List ℕ) → tally (λ x. 1) xs ≡ length xs
unfolding tally
tally-length [] = refl
tally-length (x ∷ xs) = omega (arith, tally-length xs)

pub tally-append : (f : ℕ → ℕ) (xs ys : List ℕ) → tally f (xs ++ ys) ≡ tally f xs + tally f ys
unfolding tally
tally-append f [] ys = omega arith
tally-append f (x ∷ xs) ys = omega (arith, tally-append f xs ys)

pub tally-one : (f : ℕ → ℕ) (xs : List ℕ) (x : ℕ) → tally f (xs ++ x ∷ []) ≡ tally f xs + f x
unfolding tally
tally-one f xs x = omega (arith, tally-append f xs (x ∷ []))

steps-tally : (f : ℕ → ℕ) (xs ys : List ℕ) → Permᴰ xs ys → tally f xs ≡ tally f ys
unfolding tally
steps-tally f _ _ Permᴰ.nil = refl
steps-tally f _ _ (Permᴰ.cons e p) = omega (arith, ap f e, steps-tally f _ _ p)
steps-tally f _ _ (Permᴰ.swap e g) = omega (arith, ap f e, ap f g)
steps-tally f _ _ (Permᴰ.trans p r) = steps-tally f _ _ p ∙ steps-tally f _ _ r

pub tally-Perm : (f : ℕ → ℕ) (xs ys : List ℕ) → Perm xs ys → tally f xs ≡ tally f ys
tally-Perm f xs ys p =
    let prop : IsProp (tally f xs ≡ tally f ys) = hlevel in ∥∥₁_elim p prop (steps-tally f xs ys)
