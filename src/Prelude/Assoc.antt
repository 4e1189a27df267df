-- ===== src/Prelude/Assoc.antt =====
-- Maps as association lists in the order of insertion: std::map and std::unordered_map where the
-- program finds, assigns, erases and counts by key.
use Prim.Native.Nat.{ℕ, suc}
use mathlib.Core.Path.{◌≡◌, refl, ap}
use mathlib.Core.Logic.{◌↔◌}
use mathlib.Core.Bool.{Bool, true, false, ◌&&◌, ◌||◌}
use mathlib.Core.List.{List, [], ◌∷◌, ◌++◌}
use mathlib.Core.Option.{Option, none, some}
use native.Mathlib.Omega.{arith}
use multicore_simulator.Prelude.Tests.{◌==◌, ==_iff, if◌then◌else◌}
use multicore_simulator.Prelude.Lists.{length}

pub record Eq {ℓ} (A : Type ℓ) : Type ℓ where
  pub beq : A → A → Bool
  pub beq_iff : (a b : A) → (beq a b ≡ true) ↔ (a ≡ b)

instance abbrev pub nat_eq : Eq ℕ
nat_eq = record { beq = ◌==◌; beq_iff = ==_iff }

pub pair_beq_iff : (a b : ℕ × ℕ) → ((a.0 == b.0 && a.1 == b.1) ≡ true) ↔ (a ≡ b)
pair_beq_iff (a, c) (b, d) = ground arith

instance abbrev pub pair_eq : Eq (ℕ × ℕ)
pair_eq = record { beq = λ a b. a.0 == b.0 && a.1 == b.1; beq_iff = pair_beq_iff }

module _ {ℓ} {K : Type ℓ} ⦃e : Eq K⦄ where
  unfoldable pub contains : K → List K → Bool
  contains k [] = false
  contains k (j ∷ js) = e.beq j k || contains k js

  -- No key stands twice.
  abbrev pub Distinct : List K → Type 0
  Distinct [] = Unit
  Distinct (k ∷ ks) = (contains k ks ≡ false) × Distinct ks

  pub contains-append :
      (k : K) (xs ys : List K) → contains k (xs ++ ys) ≡ contains k xs || contains k ys
  unfolding contains
  contains-append k [] ys = refl
  contains-append k (x ∷ xs) ys = ground (arith, contains-append k xs ys)

  pub Distinct-append_one :
      (k : K) (xs : List K) → contains k xs ≡ false → Distinct xs → Distinct (xs ++ k ∷ [])
  unfolding contains
  Distinct-append_one k [] a d = (refl, tt)
  Distinct-append_one k (x ∷ xs) a d =
      ground (
        arith,
        contains-append x xs (k ∷ []),
        e.beq_iff x k,
        e.beq_iff k x,
        Distinct-append_one k xs,
      )

module _ {ℓ κ} {K : Type ℓ} {V : Type κ} ⦃e : Eq K⦄ where
  unfoldable pub lookup : K → List (K × V) → Option V
  lookup k [] = none
  lookup k ((j, v) ∷ m) = if e.beq j k then some v else lookup k m

  -- `m[k] = v`
  unfoldable pub insert : K → V → List (K × V) → List (K × V)
  insert k v [] = (k, v) ∷ []
  insert k v ((j, w) ∷ m) = if e.beq j k then (j, v) ∷ m else (j, w) ∷ insert k v m

  unfoldable pub erase : K → List (K × V) → List (K × V)
  erase k [] = []
  erase k ((j, w) ∷ m) = if e.beq j k then erase k m else (j, w) ∷ erase k m

  abbrev pub keys : List (K × V) → List K
  keys [] = []
  keys ((j, w) ∷ m) = j ∷ keys m

  pub lookup-insert :
      (k j : K) (v : V) (m : List (K × V))
      → lookup j (insert k v m) ≡ (if e.beq k j then some v else lookup j m)
  unfolding lookup insert
  lookup-insert k j v [] = refl
  lookup-insert k j v ((i, w) ∷ m) =
      ground (arith, e.beq_iff k j, e.beq_iff i k, e.beq_iff i j, lookup-insert k j v m)

  pub lookup-erase :
      (k j : K) (m : List (K × V)) → lookup j (erase k m) ≡ (if e.beq k j then none else lookup j m)
  unfolding lookup erase
  lookup-erase k j [] = ground arith
  lookup-erase k j ((i, w) ∷ m) =
      ground (arith, e.beq_iff k j, e.beq_iff i k, e.beq_iff i j, lookup-erase k j m)

  pub lookup-contains : (k : K) (m : List (K × V)) → contains k (keys m) ≡ false → lookup k m ≡ none
  unfolding lookup contains
  lookup-contains k [] h = refl
  lookup-contains k ((j, w) ∷ m) h = ground (arith, lookup-contains k m)

  pub contains-lookup : (k : K) (m : List (K × V)) → lookup k m ≡ none → contains k (keys m) ≡ false
  unfolding lookup contains
  contains-lookup k [] h = refl
  contains-lookup k ((j, w) ∷ m) h = ground (arith, contains-lookup k m)

  pub contains-lookup-some :
      (k : K) (v : V) (m : List (K × V)) → lookup k m ≡ some v → contains k (keys m) ≡ true
  unfolding lookup contains
  contains-lookup-some k v [] h = cc
  contains-lookup-some k v ((j, w) ∷ m) h = ground (arith, contains-lookup-some k v m)

  pub keys-insert_new :
      (k : K) (v : V) (m : List (K × V))
      → contains k (keys m) ≡ false
      → keys (insert k v m) ≡ keys m ++ k ∷ []
  unfolding insert contains
  keys-insert_new k v [] h = refl
  keys-insert_new k v ((j, w) ∷ m) h = ground (arith, keys-insert_new k v m)

  pub keys-insert_old :
      (k : K) (v : V) (m : List (K × V)) → contains k (keys m) ≡ true → keys (insert k v m) ≡ keys m
  unfolding insert contains
  keys-insert_old k v [] h = cc
  keys-insert_old k v ((j, w) ∷ m) h = ground (arith, keys-insert_old k v m)

  pub erase_absent : (k : K) (m : List (K × V)) → contains k (keys m) ≡ false → erase k m ≡ m
  unfolding erase contains
  erase_absent k [] h = refl
  erase_absent k ((j, w) ∷ m) h = ground (arith, erase_absent k m)

  pub length-keys : (m : List (K × V)) → length (keys m) ≡ length m
  length-keys [] = refl
  length-keys ((j, w) ∷ m) = ap suc (length-keys m)
