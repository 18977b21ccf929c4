-- ===== src/Common/Lists.antt =====
-- `std::vector` as a list with native lengths and positions.
use Prim.Native.Nat.{ℕ, zero, suc, ◌+◌, ◌-◌, ◌≤◌, ◌<◌}
use mathlib.Core.Path.{◌≡◌, refl, ap}
use mathlib.Core.Logic.{◌≢◌}
use mathlib.Core.Bool.{Bool, true, ◌&&◌}
use mathlib.Core.List.{List, [], ◌∷◌, ◌++◌, map}
use mathlib.Core.Option.{Option, none, some}
use native.Mathlib.Omega.{arith}
use raccoon_ecs.Common.Tests.{◌==◌, if◌then◌else◌}

module _ {ℓ} {A : Type ℓ} where
  abbrev pub length : List A → ℕ
  length [] = 0
  length (x ∷ xs) = suc (length xs)

  abbrev pub get_elem? : List A → ℕ → Option A
  get_elem? [] i = none
  get_elem? (x ∷ xs) zero = some x
  get_elem? (x ∷ xs) (suc i) = get_elem? xs i

  abbrev pub get_or : List A → ℕ → A → A
  get_or [] i d = d
  get_or (x ∷ xs) zero d = x
  get_or (x ∷ xs) (suc i) d = get_or xs i d

  -- A write out of bounds changes nothing.
  abbrev pub set : List A → ℕ → A → List A
  set [] i v = []
  set (x ∷ xs) zero v = v ∷ xs
  set (x ∷ xs) (suc i) v = x ∷ set xs i v

  -- `resize`: cut to `n` elements, or fill up with `d`.
  abbrev pub resize : List A → ℕ → A → List A
  resize xs zero d = []
  resize [] (suc n) d = d ∷ resize [] n d
  resize (x ∷ xs) (suc n) d = x ∷ resize xs n d

  -- `pop_back`; the empty list stays.
  abbrev pub pop_back : List A → List A
  pop_back [] = []
  pop_back (x ∷ []) = []
  pop_back (x ∷ y ∷ xs) = x ∷ pop_back (y ∷ xs)

  -- `back`, with a default for the empty list.
  abbrev pub back : List A → A → A
  back [] d = d
  back (x ∷ []) d = x
  back (x ∷ y ∷ xs) d = back (y ∷ xs) d

  abbrev pub all : (A → Bool) → List A → Bool
  all p [] = true
  all p (x ∷ xs) = p x && all p xs

module _ {ℓ} {A : Type ℓ} where
  pub length-append : (xs ys : List A) → length (xs ++ ys) ≡ length xs + length ys
  length-append [] ys = omega arith
  length-append (x ∷ xs) ys = omega (arith, length-append xs ys)

  pub length-set : (xs : List A) (i : ℕ) (v : A) → length (set xs i v) ≡ length xs
  length-set [] i v = refl
  length-set (x ∷ xs) zero v = refl
  length-set (x ∷ xs) (suc i) v = ap suc (length-set xs i v)

  pub length-resize : (xs : List A) (n : ℕ) (d : A) → length (resize xs n d) ≡ n
  length-resize xs zero d = refl
  length-resize [] (suc n) d = ap suc (length-resize [] n d)
  length-resize (x ∷ xs) (suc n) d = ap suc (length-resize xs n d)

  pub length-pop_back : (xs : List A) → length (pop_back xs) ≡ length xs - 1
  length-pop_back [] = omega arith
  length-pop_back (x ∷ []) = omega arith
  length-pop_back (x ∷ y ∷ xs) = omega (arith, length-pop_back (y ∷ xs))

  pub get_or_beyond : (xs : List A) (i : ℕ) (d : A) → length xs ≤ i → get_or xs i d ≡ d
  get_or_beyond [] i d h = refl
  get_or_beyond (x ∷ xs) zero d h = absurd (omega arith)
  get_or_beyond (x ∷ xs) (suc i) d h = get_or_beyond xs i d (omega arith)

  pub get_elem?-get_or :
      (xs : List A) (i : ℕ) (d : A) → i < length xs → get_elem? xs i ≡ some (get_or xs i d)
  get_elem?-get_or [] i d h = absurd (omega arith)
  get_elem?-get_or (x ∷ xs) zero d h = refl
  get_elem?-get_or (x ∷ xs) (suc i) d h = get_elem?-get_or xs i d (omega arith)

  pub get_or-set_self :
      (xs : List A) (i : ℕ) (v d : A) → i < length xs → get_or (set xs i v) i d ≡ v
  get_or-set_self [] i v d h = absurd (omega arith)
  get_or-set_self (x ∷ xs) zero v d h = refl
  get_or-set_self (x ∷ xs) (suc i) v d h = get_or-set_self xs i v d (omega arith)

  pub get_or-set_ne :
      (xs : List A) (i j : ℕ) (v d : A) → i ≢ j → get_or (set xs i v) j d ≡ get_or xs j d
  get_or-set_ne [] i j v d h = refl
  get_or-set_ne (x ∷ xs) zero zero v d h = absurd (h refl)
  get_or-set_ne (x ∷ xs) zero (suc j) v d h = refl
  get_or-set_ne (x ∷ xs) (suc i) zero v d h = refl
  get_or-set_ne (x ∷ xs) (suc i) (suc j) v d h = get_or-set_ne xs i j v d (λ e. h (ap suc e))

  -- Writing the default reads the same whether or not the position exists.
  pub get_or-set_default :
      (xs : List A) (i j : ℕ) (d : A)
      → get_or (set xs i d) j d ≡ (if i == j then d else get_or xs j d)
  get_or-set_default [] i j d = ground arith
  get_or-set_default (x ∷ xs) zero zero d = ground arith
  get_or-set_default (x ∷ xs) zero (suc j) d = ground arith
  get_or-set_default (x ∷ xs) (suc i) zero d = ground arith
  get_or-set_default (x ∷ xs) (suc i) (suc j) d = ground (arith, get_or-set_default xs i j d)

  pub get_or-append_left :
      (xs ys : List A) (i : ℕ) (d : A) → i < length xs → get_or (xs ++ ys) i d ≡ get_or xs i d
  get_or-append_left [] ys i d h = absurd (omega arith)
  get_or-append_left (x ∷ xs) ys zero d h = refl
  get_or-append_left (x ∷ xs) ys (suc i) d h = get_or-append_left xs ys i d (omega arith)

  pub get_or-append_end : (xs : List A) (y d : A) → get_or (xs ++ y ∷ []) (length xs) d ≡ y
  get_or-append_end [] y d = refl
  get_or-append_end (x ∷ xs) y d = get_or-append_end xs y d

  -- Growing by the default changes no read.
  pub get_or-resize_up :
      (xs : List A) (n i : ℕ) (d : A) → length xs ≤ n → get_or (resize xs n d) i d ≡ get_or xs i d
  get_or-resize_up [] zero i d h = refl
  get_or-resize_up (x ∷ xs) zero i d h = absurd (omega arith)
  get_or-resize_up [] (suc n) zero d h = refl
  get_or-resize_up [] (suc n) (suc i) d h = get_or-resize_up [] n i d (omega arith)
  get_or-resize_up (x ∷ xs) (suc n) zero d h = refl
  get_or-resize_up (x ∷ xs) (suc n) (suc i) d h = get_or-resize_up xs n i d (omega arith)

  pub get_or-pop_back :
      (xs : List A) (i : ℕ) (d : A) → i + 1 < length xs → get_or (pop_back xs) i d ≡ get_or xs i d
  get_or-pop_back [] i d h = refl
  get_or-pop_back (x ∷ []) i d h = absurd (omega arith)
  get_or-pop_back (x ∷ y ∷ xs) zero d h = refl
  get_or-pop_back (x ∷ y ∷ xs) (suc i) d h = get_or-pop_back (y ∷ xs) i d (omega arith)

  pub back-get_or : (xs : List A) (d : A) → back xs d ≡ get_or xs (length xs - 1) d
  back-get_or [] d = refl
  back-get_or (x ∷ []) d = refl
  back-get_or (x ∷ y ∷ xs) d =
      let e : length (x ∷ y ∷ xs) - 1 ≡ suc (length (y ∷ xs) - 1) = omega arith in
      rw e (back-get_or (y ∷ xs) d)

  pub set-set : (xs : List A) (i : ℕ) (v w : A) → set (set xs i v) i w ≡ set xs i w
  set-set [] i v w = refl
  set-set (x ∷ xs) zero v w = refl
  set-set (x ∷ xs) (suc i) v w = ap (◌∷◌ x) (set-set xs i v w)

  pub pop_back-set_last :
      (xs : List A) (i : ℕ) (v : A) → i + 1 ≡ length xs → pop_back (set xs i v) ≡ pop_back xs
  pop_back-set_last [] i v h = refl
  pop_back-set_last (x ∷ []) zero v h = refl
  pop_back-set_last (x ∷ []) (suc i) v h = refl
  pop_back-set_last (x ∷ y ∷ xs) zero v h = absurd (omega arith)
  pop_back-set_last (x ∷ y ∷ xs) (suc zero) v h =
      ap (◌∷◌ x) (pop_back-set_last (y ∷ xs) zero v (omega arith))
  pop_back-set_last (x ∷ y ∷ xs) (suc (suc i)) v h =
      ap (◌∷◌ x) (pop_back-set_last (y ∷ xs) (suc i) v (omega arith))

  pub length-swap_pop :
      (xs : List A) (i : ℕ) (v : A) → length (pop_back (set xs i v)) ≡ length xs - 1
  length-swap_pop xs i v = rw (length-pop_back, length-set)

  pub lt-of-get_or_ne : (xs : List A) (i : ℕ) (d : A) → get_or xs i d ≢ d → i < length xs
  lt-of-get_or_ne [] i d h = absurd (h refl)
  lt-of-get_or_ne (x ∷ xs) zero d h = omega arith
  lt-of-get_or_ne (x ∷ xs) (suc i) d h = omega (arith, lt-of-get_or_ne xs i d h)

-- Laws with a test in them, for element types of the lowest universe.
module _ {A : Type 0} where
  -- To overwrite a place by the last element and to drop the last.
  pub get_or-swap_pop :
      (xs : List A) (i j : ℕ) (d : A)
      → i < length xs
      → j + 1 < length xs
      → get_or (pop_back (set xs i (back xs d))) j d
        ≡ (if i == j then get_or xs (length xs - 1) d else get_or xs j d)
  get_or-swap_pop xs i j d hi hj =
      rw (get_or-pop_back (set xs i (back xs d)) j d (omega (arith, length-set xs i (back xs d)))) (
        ground (
          arith,
          get_or-set_self xs i (back xs d) d,
          get_or-set_ne xs i j (back xs d) d,
          back-get_or xs d,
        ))

  -- A write inside the bounds is seen at its place alone.
  pub get_or-set :
      (xs : List A) (i j : ℕ) (v d : A)
      → i < length xs
      → get_or (set xs i v) j d ≡ (if i == j then v else get_or xs j d)
  get_or-set xs i j v d h = ground (arith, get_or-set_self xs i v d, get_or-set_ne xs i j v d)

  -- `push_back` is seen at the end alone.
  pub get_or-push_back :
      (xs : List A) (y : A) (j : ℕ) (d : A)
      → get_or (xs ++ y ∷ []) j d ≡ (if length xs == j then y else get_or xs j d)
  get_or-push_back [] y zero d = ground arith
  get_or-push_back [] y (suc j) d = ground arith
  get_or-push_back (x ∷ xs) y zero d = ground arith
  get_or-push_back (x ∷ xs) y (suc j) d = ground (arith, get_or-push_back xs y j d)

  -- Lists of one length that read the same are the same.
  pub list_ext :
      (xs ys : List A) (d : A)
      → length xs ≡ length ys
      → ((i : ℕ) → i < length xs → get_or xs i d ≡ get_or ys i d)
      → xs ≡ ys
  list_ext [] [] d e h = refl
  list_ext [] (y ∷ ys) d e h = absurd (omega arith)
  list_ext (x ∷ xs) [] d e h = absurd (omega arith)
  list_ext (x ∷ xs) (y ∷ ys) d e h =
      let rest = list_ext xs ys d (omega arith) (λ i lt. h (suc i) (omega arith)) in
      ground (arith, rest, h 0)

  pub length-map {κ} : {B : Type κ} (f : A → B) (xs : List A) → length (map f xs) ≡ length xs
  length-map f [] = refl
  length-map f (x ∷ xs) = ap suc (length-map f xs)

  pub get_or-map :
      {B : Type 0} (f : A → B) (xs : List A) (i : ℕ) (a : A) (b : B)
      → i < length xs
      → get_or (map f xs) i b ≡ f (get_or xs i a)
  get_or-map f [] i a b h = absurd (omega arith)
  get_or-map f (x ∷ xs) zero a b h = refl
  get_or-map f (x ∷ xs) (suc i) a b h = get_or-map f xs i a b (omega arith)
