-- ===== src/Common/Access.antt =====
-- Positions of a list: what a write, an end and an append leave there.
use Prim.Native.Nat.{ℕ, zero, suc, ◌≤◌, ◌<◌}
use mathlib.Core.Path.{◌≡◌, refl}
use mathlib.Core.List.{List, [], ◌∷◌, ◌++◌}
use mathlib.Core.Option.{none, some}
use native.Mathlib.Omega.{arith}
use mathlib.Core.Logic.{◌≢◌, ◌⊎◌, inl, inr}
use raccoon_ecs.Common.Tests.{eq-or-ne, ◌==◌, if◌then◌else◌}
use raccoon_ecs.Common.Lists.{length, get_elem?, set}

module _ {ℓ} {A : Type ℓ} where
  pub get_elem?-set :
      (h : List A) (i j : ℕ) (v : A)
      → i < length h
      → get_elem? (set h i v) j ≡ (if i == j then some v else get_elem? h j)
  get_elem?-set [] i j v lt = absurd (omega arith)
  get_elem?-set (x ∷ h) zero zero v lt = ground arith
  get_elem?-set (x ∷ h) zero (suc j) v lt = ground arith
  get_elem?-set (x ∷ h) (suc i) zero v lt = ground arith
  get_elem?-set (x ∷ h) (suc i) (suc j) v lt = ground (arith, get_elem?-set h i j v)

  pub lt-of-get_elem? : (h : List A) (i : ℕ) (v : A) → get_elem? h i ≡ some v → i < length h
  lt-of-get_elem? [] i v e = absurd (ground (arith, e))
  lt-of-get_elem? (x ∷ h) zero v e = omega arith
  lt-of-get_elem? (x ∷ h) (suc i) v e = omega (arith, lt-of-get_elem? h i v e)

  pub get_elem?-append :
      (h more : List A) (i : ℕ) (v : A) → get_elem? h i ≡ some v → get_elem? (h ++ more) i ≡ some v
  get_elem?-append [] more i v e = absurd (ground (arith, e))
  get_elem?-append (x ∷ h) more zero v e = e
  get_elem?-append (x ∷ h) more (suc i) v e = get_elem?-append h more i v e

  pub get_elem?-append_end :
      (h more : List A) (v : A) → get_elem? (h ++ v ∷ more) (length h) ≡ some v
  get_elem?-append_end [] more v = refl
  get_elem?-append_end (x ∷ h) more v = get_elem?-append_end h more v

  pub get_elem?_beyond : (h : List A) (i : ℕ) → length h ≤ i → get_elem? h i ≡ none
  get_elem?_beyond [] i le = refl
  get_elem?_beyond (x ∷ h) zero le = absurd (omega arith)
  get_elem?_beyond (x ∷ h) (suc i) le = get_elem?_beyond h i (omega arith)

  pub get_elem?-push_back :
      (xs : List A) (x : A) (j : ℕ)
      → get_elem? (xs ++ x ∷ []) j ≡ (if j == length xs then some x else get_elem? xs j)
  get_elem?-push_back [] x zero = ground arith
  get_elem?-push_back [] x (suc j) = ground arith
  get_elem?-push_back (y ∷ xs) x zero = ground arith
  get_elem?-push_back (y ∷ xs) x (suc j) = ground (arith, get_elem?-push_back xs x j)

  pub get_elem?_inside : (xs : List A) (i : ℕ) → i < length xs → (x : A) × (get_elem? xs i ≡ some x)
  get_elem?_inside [] i lt = absurd (omega arith)
  get_elem?_inside (x ∷ xs) zero lt = (x, refl)
  get_elem?_inside (x ∷ xs) (suc i) lt = get_elem?_inside xs i (omega arith)

  pub set-cases :
      (xs : List A) (i j : ℕ) (v x : A)
      → i < length xs
      → get_elem? (set xs i v) j ≡ some x
      → ((i ≡ j) × (v ≡ x)) ⊎ ((i ≢ j) × (get_elem? xs j ≡ some x))
  set-cases xs i j v x lt e = elim (eq-or-ne i j) [
    | inl here ↦ inl (here, ground (arith, get_elem?-set xs i j v, lt, here, e))
    | inr ne ↦ inr (ne, ground (arith, get_elem?-set xs i j v, lt, ne, e))
  ]
