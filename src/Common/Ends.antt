-- ===== src/Common/Ends.antt =====
-- Lists of distinct numbers that grow and shrink at their end.
use Prim.Native.Nat.{ℕ, zero, suc, ◌<◌}
use mathlib.Core.Path.{◌≡◌, refl, sym}
use mathlib.Core.Bool.{true, false, ◌||◌}
use mathlib.Core.Logic.{inl, inr}
use mathlib.Core.List.{List, [], ◌∷◌, ◌++◌}
use native.Mathlib.Omega.{arith}
use native.Mathlib.Decide.{ℕ_discrete}
use raccoon_ecs.Common.Tests.{◌==◌, if◌then◌else◌, Bool-cases, eq-or-ne}
use raccoon_ecs.Common.Lists.{length, back, pop_back, get_or}
use raccoon_ecs.Common.Maps.{elem, Unique}

pub elem-append_end :
    (q p : ℕ) (ps : List ℕ) → elem ℕ_discrete q (ps ++ p ∷ []) ≡ (elem ℕ_discrete q ps || p == q)
unfolding elem
elem-append_end q p [] = ground arith
elem-append_end q p (x ∷ ps) = ground (arith, elem-append_end q p ps)

pub Unique-append_end :
    (p : ℕ) (ps : List ℕ)
    → Unique ℕ_discrete ps
    → elem ℕ_discrete p ps ≡ false
    → Unique ℕ_discrete (ps ++ p ∷ [])
unfolding elem
Unique-append_end p [] u out = (refl, tt)
Unique-append_end p (x ∷ ps) u out =
    (ground (arith, elem-append_end x p ps), Unique-append_end p ps u.1 (ground arith))

pub elem-back : (xs : List ℕ) (d : ℕ) → 0 < length xs → elem ℕ_discrete (back xs d) xs ≡ true
unfolding elem
elem-back [] d h = absurd (omega arith)
elem-back (x ∷ []) d h = ground arith
elem-back (x ∷ y ∷ xs) d h = ground (arith, elem-back (y ∷ xs) d (omega arith))

pub elem-pop_back :
    (xs : List ℕ) (i d : ℕ)
    → Unique ℕ_discrete xs
    → elem ℕ_discrete i (pop_back xs) ≡ (if i == back xs d then false else elem ℕ_discrete i xs)
unfolding elem
elem-pop_back [] i d u = ground arith
elem-pop_back (x ∷ []) i d u = ground arith
elem-pop_back (x ∷ y ∷ xs) i d u =
    ground (arith, elem-pop_back (y ∷ xs) i d u.1, elem-back (y ∷ xs) d (omega arith))

pub Unique-pop_back : (xs : List ℕ) → Unique ℕ_discrete xs → Unique ℕ_discrete (pop_back xs)
unfolding elem
Unique-pop_back [] u = tt
Unique-pop_back (x ∷ []) u = tt
Unique-pop_back (x ∷ y ∷ xs) u =
    (ground (arith, elem-pop_back (y ∷ xs) x 0 u.1), Unique-pop_back (y ∷ xs) u.1)

-- Where a number stands in a list, and that what stands at a place is in the list.
pub place_of :
    (x d : ℕ) (xs : List ℕ)
    → elem ℕ_discrete x xs ≡ true
    → (i : ℕ) × (i < length xs) × (get_or xs i d ≡ x)
unfolding elem
place_of x d [] h = cc
place_of x d (y ∷ xs) h = elim (eq-or-ne y x) [
  | inl e ↦ (0, omega arith, e)
  | inr n ↦ let (i, lt, e) = place_of x d xs (ground arith) in (suc i, omega arith, e)
]

pub elem-get_or :
    (xs : List ℕ) (i d : ℕ) → i < length xs → elem ℕ_discrete (get_or xs i d) xs ≡ true
unfolding elem
elem-get_or [] i d h = absurd (omega arith)
elem-get_or (x ∷ xs) zero d h = ground arith
elem-get_or (x ∷ xs) (suc i) d h = ground (arith, elem-get_or xs i d (omega arith))

-- A list that reads differently at different places has no number twice.
pub Unique-of_injective :
    (xs : List ℕ) (d : ℕ)
    → ((i j : ℕ) → i < length xs → j < length xs → get_or xs i d ≡ get_or xs j d → i ≡ j)
    → Unique ℕ_discrete xs
Unique-of_injective [] d inj = tt
Unique-of_injective (x ∷ xs) d inj = (
  elim (Bool-cases (elem ℕ_discrete x xs)) [
    | inl again ↦
        let (i, lt, e) = place_of x d xs again in
        absurd (omega (arith, inj 0 (suc i) (omega arith) (omega arith) (sym e)))
    | inr new ↦ new
  ],
  Unique-of_injective xs d
      (λ i j hi hj e. omega (arith, inj (suc i) (suc j) (omega arith) (omega arith) e)),
)
