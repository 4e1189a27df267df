-- ===== src/Prelude/Sorting.antt =====
-- What std::sort promises: a permutation in which no element stands behind one that it must come
-- before. Elements of which neither comes first may stand in any order.
use mathlib.Core.List.Perm
use mathlib.Core.Path.{◌≡◌}
use mathlib.Core.Logic.{inl, inr}
use mathlib.Core.Bool.{Bool, true, false}
use mathlib.Core.List.{List, [], ◌∷◌, Perm}
use native.Mathlib.Omega.{arith}
use multicore_simulator.Prelude.Tests.{if◌then◌else◌, Bool-cases}

module _ {ℓ} {A : Type ℓ} where
  -- The comparison is a strict order.
  pub record IsOrder (before : A → A → Bool) : Type ℓ where
    pub irrefl : (a : A) → before a a ≡ false
    pub trans : (a b c : A) → before a b ≡ true → before b c ≡ true → before a c ≡ true

  -- None of the list comes before `a`.
  abbrev pub NoneBefore : (A → A → Bool) → A → List A → Type 0
  NoneBefore before a [] = Unit
  NoneBefore before a (x ∷ xs) = (before x a ≡ false) × NoneBefore before a xs

  abbrev pub IsSorted : (A → A → Bool) → List A → Type 0
  IsSorted before [] = Unit
  IsSorted before (x ∷ xs) = NoneBefore before x xs × IsSorted before xs

-- std::sort over the elements of a type.
pub record Sorter (A : Type 0) : Type 0 where
  pub sort : (A → A → Bool) → List A → List A
  pub sort-perm : (before : A → A → Bool) (xs : List A) → Perm (sort before xs) xs
  pub sort-IsSorted :
      (before : A → A → Bool) (xs : List A) → IsOrder before → IsSorted before (sort before xs)

module _ {A : Type 0} (before : A → A → Bool) where
  unfoldable pub insert_sorted : A → List A → List A
  insert_sorted a [] = a ∷ []
  insert_sorted a (x ∷ xs) = if before a x then a ∷ x ∷ xs else x ∷ insert_sorted a xs

  unfoldable pub insertion_sort : List A → List A
  unfolding insert_sorted
  insertion_sort [] = []
  insertion_sort (x ∷ xs) = insert_sorted x (insertion_sort xs)

  insert_sorted-perm : (a : A) (xs : List A) → Perm (insert_sorted a xs) (a ∷ xs)
  unfolding insert_sorted
  insert_sorted-perm a [] = Perm.refl (a ∷ [])
  insert_sorted-perm a (x ∷ xs) = elim (Bool-cases (before a x)) [
    | inl e ↦ rw e (Perm.refl (a ∷ x ∷ xs))
    | inr e ↦ rw e (Perm.trans (Perm.cons x (insert_sorted-perm a xs)) (Perm.swap a x xs))
  ]

  pub insertion_sort-perm : (xs : List A) → Perm (insertion_sort xs) xs
  unfolding insertion_sort
  insertion_sort-perm [] = Perm.refl []
  insertion_sort-perm (x ∷ xs) =
      Perm.trans (insert_sorted-perm x (insertion_sort xs)) (Perm.cons x (insertion_sort-perm xs))

  insert_sorted-NoneBefore :
      (a b : A) (xs : List A)
      → before a b ≡ false
      → NoneBefore before b xs
      → NoneBefore before b (insert_sorted a xs)
  unfolding insert_sorted
  insert_sorted-NoneBefore a b [] h n = (h, tt)
  insert_sorted-NoneBefore a b (x ∷ xs) h n = ground (arith, insert_sorted-NoneBefore a b xs h n.1)

  NoneBefore-trans :
      (a b : A) (xs : List A)
      → IsOrder before
      → before a b ≡ true
      → NoneBefore before b xs
      → NoneBefore before a xs
  NoneBefore-trans a b [] o h n = tt
  NoneBefore-trans a b (x ∷ xs) o h n =
      (ground (arith, o.trans x a b), NoneBefore-trans a b xs o h n.1)

  insert_sorted-IsSorted :
      (a : A) (xs : List A)
      → IsOrder before
      → IsSorted before xs
      → IsSorted before (insert_sorted a xs)
  unfolding insert_sorted
  insert_sorted-IsSorted a [] o s = (tt, tt)
  insert_sorted-IsSorted a (x ∷ xs) o s = elim (Bool-cases (before a x)) [
    | inl e ↦
        let asym : before x a ≡ false = ground (arith, o.trans x a x, o.irrefl x) in
        rw e ((asym, NoneBefore-trans a x xs o e s.0), s)
    | inr e ↦ rw e (insert_sorted-NoneBefore a x xs e s.0, insert_sorted-IsSorted a xs o s.1)
  ]

  pub insertion_sort-IsSorted : (xs : List A) → IsOrder before → IsSorted before (insertion_sort xs)
  unfolding insertion_sort
  insertion_sort-IsSorted [] o = tt
  insertion_sort-IsSorted (x ∷ xs) o =
      insert_sorted-IsSorted x (insertion_sort xs) o (insertion_sort-IsSorted xs o)

-- The promise can be kept.
abbrev pub insertion_sorter : (A : Type 0) → Sorter A
insertion_sorter A = record {
  sort = insertion_sort;
  sort-perm = insertion_sort-perm;
  sort-IsSorted = insertion_sort-IsSorted;
}
