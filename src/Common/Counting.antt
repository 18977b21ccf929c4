-- ===== src/Common/Counting.antt =====
-- A list in which every number below a bound occurs is at least that long.
use Prim.Native.Nat.{ℕ, zero, suc, ◌+◌, ◌≤◌, ◌<◌}
use mathlib.Core.Path.{◌≡◌, refl}
use mathlib.Core.Logic.{◌≢◌}
use mathlib.Core.Bool.{Bool, true, false}
use mathlib.Core.List.{List, [], ◌∷◌}
use native.Mathlib.Omega.{arith}
use raccoon_ecs.Common.Tests.{◌==◌, if◌then◌else◌}
use raccoon_ecs.Common.Lists.{length, get_or}

occurs : ℕ → List ℕ → Bool
occurs i [] = false
occurs i (x ∷ xs) = if x == i then true else occurs i xs

without : ℕ → List ℕ → List ℕ
without i [] = []
without i (x ∷ xs) = if x == i then xs else x ∷ without i xs

length-without : (i : ℕ) (xs : List ℕ) → occurs i xs ≡ true → length (without i xs) + 1 ≡ length xs
unfolding occurs without
length-without i [] h = cc
length-without i (x ∷ xs) h = ground (arith, length-without i xs)

occurs-without : (i j : ℕ) (xs : List ℕ) → i ≢ j → occurs j (without i xs) ≡ occurs j xs
unfolding occurs without
occurs-without i j [] h = refl
occurs-without i j (x ∷ xs) h = ground (arith, occurs-without i j xs)

le-length_of_occurs : (n : ℕ) (xs : List ℕ) → ((i : ℕ) → i < n → occurs i xs ≡ true) → n ≤ length xs
le-length_of_occurs zero xs h = omega arith
le-length_of_occurs (suc n) xs h =
    let fewer =
      le-length_of_occurs n (without n xs) (λ i lt. ground (arith, occurs-without n i xs, h i)) in
    omega (arith, fewer, length-without n xs (h n (omega arith)))

occurs_at : (xs : List ℕ) (i k d : ℕ) → k < length xs → get_or xs k d ≡ i → occurs i xs ≡ true
unfolding occurs
occurs_at [] i k d lt e = absurd (omega arith)
occurs_at (x ∷ xs) i zero d lt e = ground arith
occurs_at (x ∷ xs) i (suc k) d lt e = ground (arith, occurs_at xs i k d)

-- If each number below `n` is read at some place inside a list, the list has at least `n` places.
pub le-length_of_reads :
    (n d : ℕ) (xs : List ℕ) (place : ℕ → ℕ)
    → ((i : ℕ) → i < n → (place i < length xs) × (get_or xs (place i) d ≡ i))
    → n ≤ length xs
le-length_of_reads n d xs place h =
    le-length_of_occurs n xs (λ i lt. occurs_at xs i (place i) d (h i lt).0 (h i lt).1)
