-- ===== src/Common/Maps.antt =====
-- `std::unordered_map` as an association list over keys with a decidable equality. The order of the
-- entries stands for the iteration order, which C++ leaves open.
use mathlib.Core.Path.{◌≡◌, refl}
use mathlib.Core.Logic.{◌≢◌, ite}
use mathlib.Core.Bool.{Bool, true, false}
use mathlib.Core.List.{List, [], ◌∷◌, ◌++◌}
use mathlib.Core.Option.{Option, none, some}
use native.Mathlib.Omega.{arith}

abbrev pub is_some {ℓ} : {A : Type ℓ} → Option A → Bool
is_some none = false
is_some (some a) = true

abbrev pub from_option {ℓ} : {A : Type ℓ} → A → Option A → A
from_option d none = d
from_option d (some a) = a

abbrev pub map_option {ℓ κ} : {A : Type ℓ} {B : Type κ} → (A → B) → Option A → Option B
map_option f none = none
map_option f (some a) = some (f a)

module _ {ℓ} {K V : Type ℓ} (dec : Discrete K) where
  -- `find`, with `none` for `end()`.
  unfoldable pub find : K → List (K × V) → Option V
  find k [] = none
  find k ((j, v) ∷ m) = ite (dec j k) (some v) (find k m)

  -- A write through the reference that `find` gives; a missing key changes nothing.
  unfoldable pub modify : K → (V → V) → List (K × V) → List (K × V)
  modify k f [] = []
  modify k f ((j, v) ∷ m) = ite (dec j k) ((j, f v) ∷ m) ((j, v) ∷ modify k f m)

  -- `operator[]` and `emplace` on a missing key: the new entry `d`; an old one stays.
  unfoldable pub ensure : K → V → List (K × V) → List (K × V)
  ensure k d [] = (k, d) ∷ []
  ensure k d ((j, v) ∷ m) = ite (dec j k) ((j, v) ∷ m) ((j, v) ∷ ensure k d m)

  -- `m[k] = v`: the entry that is there is overwritten, or a new one is made.
  unfoldable pub put : K → V → List (K × V) → List (K × V)
  put k v [] = (k, v) ∷ []
  put k v ((j, u) ∷ m) = ite (dec j k) ((j, v) ∷ m) ((j, u) ∷ put k v m)

  -- `erase` of the entry with the key.
  unfoldable pub erase : K → List (K × V) → List (K × V)
  erase k [] = []
  erase k ((j, v) ∷ m) = ite (dec j k) m ((j, v) ∷ erase k m)

  -- No key occurs twice.
  abbrev pub Distinct : List (K × V) → Type ℓ
  Distinct [] = Unit
  Distinct ((k, v) ∷ m) = (find k m ≡ none) × Distinct m

  pub find-modify_self :
      (k : K) (f : V → V) (m : List (K × V)) → find k (modify k f m) ≡ map_option f (find k m)
  unfolding find modify
  find-modify_self k f [] = refl
  find-modify_self k f (e ∷ m) = ground (arith, find-modify_self k f m)

  pub find-modify_ne :
      (k j : K) (f : V → V) (m : List (K × V)) → k ≢ j → find j (modify k f m) ≡ find j m
  unfolding find modify
  find-modify_ne k j f [] h = refl
  find-modify_ne k j f (e ∷ m) h = ground (arith, find-modify_ne k j f m)

  pub find-ensure_self :
      (k : K) (d : V) (m : List (K × V)) → find k (ensure k d m) ≡ some (from_option d (find k m))
  unfolding find ensure
  find-ensure_self k d [] = ground arith
  find-ensure_self k d (e ∷ m) = ground (arith, find-ensure_self k d m)

  pub find-ensure_ne :
      (k j : K) (d : V) (m : List (K × V)) → k ≢ j → find j (ensure k d m) ≡ find j m
  unfolding find ensure
  find-ensure_ne k j d [] h = ground arith
  find-ensure_ne k j d (e ∷ m) h = ground (arith, find-ensure_ne k j d m)

  pub find-put :
      (k j : K) (v : V) (m : List (K × V)) → find j (put k v m) ≡ ite (dec k j) (some v) (find j m)
  unfolding find put
  find-put k j v [] = ground arith
  find-put k j v (e ∷ m) = ground (arith, find-put k j v m)

  pub find-erase_ne : (k j : K) (m : List (K × V)) → k ≢ j → find j (erase k m) ≡ find j m
  unfolding find erase
  find-erase_ne k j [] h = refl
  find-erase_ne k j (e ∷ m) h = ground (arith, find-erase_ne k j m)

  pub find-erase_self : (k : K) (m : List (K × V)) → Distinct m → find k (erase k m) ≡ none
  unfolding find erase
  find-erase_self k [] h = refl
  find-erase_self k ((j, v) ∷ m) h = ground (arith, find-erase_self k m h.1)

  pub modify-Distinct :
      (k : K) (f : V → V) (m : List (K × V)) → Distinct m → Distinct (modify k f m)
  unfolding find modify
  modify-Distinct k f [] h = tt
  modify-Distinct k f (e ∷ m) h =
      ground (arith, modify-Distinct k f m h.1, find-modify_ne k e.0 f m)

  pub ensure-Distinct : (k : K) (d : V) (m : List (K × V)) → Distinct m → Distinct (ensure k d m)
  unfolding find ensure
  ensure-Distinct k d [] h = (refl, tt)
  ensure-Distinct k d (e ∷ m) h =
      ground (arith, ensure-Distinct k d m h.1, find-ensure_ne k e.0 d m)

  pub erase-Distinct : (k : K) (m : List (K × V)) → Distinct m → Distinct (erase k m)
  unfolding find erase
  erase-Distinct k [] h = tt
  erase-Distinct k (e ∷ m) h = ground (arith, erase-Distinct k m h.1, find-erase_ne k e.0 m)

  pub find-append_absent :
      (k : K) (m n : List (K × V)) → find k m ≡ none → find k (m ++ n) ≡ find k n
  unfolding find
  find-append_absent k [] n h = refl
  find-append_absent k (e ∷ m) n h = ground (arith, find-append_absent k m n)

module _ {ℓ} {K : Type ℓ} (dec : Discrete K) where
  -- Whether a key is among the elements of a list.
  unfoldable pub elem : K → List K → Bool
  elem k [] = false
  elem k (j ∷ js) = ite (dec j k) true (elem k js)

  -- No element occurs twice.
  abbrev pub Unique : List K → Type 0
  Unique [] = Unit
  Unique (k ∷ ks) = (elem k ks ≡ false) × Unique ks
