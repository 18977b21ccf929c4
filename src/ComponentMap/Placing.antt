-- ===== src/ComponentMap/Placing.antt =====
-- component_map.h: a component map that gains or loses one component.
use raccoon_ecs.Common.{
  set, resize, ◌==◌, length-set, get_or-set, get_or-set_default, from_option, ◌≤◌, find, ℕ, zero,
  suc, refl, ◌∷◌, ap, ◌+◌, ◌<◌, ◌≡◌, List, [], length, get_or, Distinct, ensure, modify, arith,
  if◌then◌else◌, leb, ite, length-resize, get_or-resize_up, find-modify_self, find-modify_ne,
  find-ensure_self, find-ensure_ne, modify-Distinct, ensure-Distinct,
}
use raccoon_ecs.Outcome.{Ptr, nullptr}
use raccoon_ecs.ComponentMap.{
  ComponentMap, component_at, get_component_vector_by_id, get_or_create_component_vector_by_id,
}

-- A vector that is long enough for a place, with nulls for what it lacks.
abbrev pub long_enough : List Ptr → ℕ → List Ptr
long_enough v i = if leb (length v) i then resize v (i + 1) nullptr else v

pub get_or-long_enough :
    (v : List Ptr) (i j : ℕ) → get_or (long_enough v i) j nullptr ≡ get_or v j nullptr
get_or-long_enough v i j = ground (arith, get_or-resize_up v (i + 1) j nullptr)

length-long_enough :
    (v : List Ptr) (i : ℕ)
    → (i < length (long_enough v i)) × (length (long_enough v i) ≤ length v + (i + 1))
length-long_enough v i = ground (arith, length-resize v (i + 1) nullptr)

set_beyond : (ps : List Ptr) (i : ℕ) (p : Ptr) → length ps ≤ i → set ps i p ≡ ps
set_beyond [] i p h = refl
set_beyond (q ∷ ps) zero p h = absurd (omega arith)
set_beyond (q ∷ ps) (suc i) p h = ap (◌∷◌ q) (set_beyond ps i p (omega arith))

module _ {K : Type 0} (dec : Discrete K) where
  -- The vector of a type, after it is created if it was not there.
  pub vector-get_or_create :
      (m : ComponentMap K) (k j : K)
      → get_component_vector_by_id dec (get_or_create_component_vector_by_id dec m k) j
        ≡ get_component_vector_by_id dec m j
  unfolding get_component_vector_by_id get_or_create_component_vector_by_id
  vector-get_or_create m k j = elim (dec k j) [
    | yes e ↦ rw (← e, find-ensure_self) (ground arith)
    | no n ↦ rw (find-ensure_ne dec k j [] m n)
  ]

  -- A map in which the vector of one type is another.
  unfoldable pub with_vector : ComponentMap K → K → List Ptr → ComponentMap K
  unfolding get_or_create_component_vector_by_id
  with_vector m k v = modify dec k (λ _. v) (get_or_create_component_vector_by_id dec m k)

  vector-with_vector :
      (m : ComponentMap K) (k : K) (v : List Ptr) (j : K)
      → get_component_vector_by_id dec (with_vector m k v) j
        ≡ ite (dec k j) v (get_component_vector_by_id dec m j)
  unfolding with_vector get_component_vector_by_id
  vector-with_vector m k v j = elim (dec k j) [
    | yes e ↦ rw (← e, find-modify_self, find-ensure_self) (ground arith)
    | no n ↦
        rw (find-modify_ne dec k j (λ _. v) (ensure dec k [] m) n, find-ensure_ne dec k j [] m n)
          (ground arith)
  ]

  component_at-with_vector :
      (m : ComponentMap K) (k : K) (v : List Ptr) (j : K) (i : ℕ)
      → component_at dec (with_vector m k v) j i
        ≡ ite (dec k j) (get_or v i nullptr) (component_at dec m j i)
  unfolding component_at
  component_at-with_vector m k v j i = ground (arith, vector-with_vector m k v j)

  with_vector-Distinct :
      (m : ComponentMap K) (k : K) (v : List Ptr)
      → Distinct dec m
      → Distinct dec (with_vector m k v)
  unfolding with_vector
  with_vector-Distinct m k v d =
      modify-Distinct dec k (λ _. v) (ensure dec k [] m) (ensure-Distinct dec k [] m d)

  -- The map after a pointer is written at a place of a type's vector.
  unfoldable pub placed : ComponentMap K → K → ℕ → Ptr → ComponentMap K
  placed m k i p = with_vector m k (set (long_enough (get_component_vector_by_id dec m k) i) i p)

  pub component_at-placed :
      (m : ComponentMap K) (k : K) (i : ℕ) (p : Ptr) (j : K) (x : ℕ)
      → component_at dec (placed m k i p) j x
        ≡ ite (dec k j) (if i == x then p else component_at dec m j x) (component_at dec m j x)
  unfolding placed
  component_at-placed m k i p j x =
      let v = get_component_vector_by_id dec m k in
      let l : i < length (long_enough v i) = (length-long_enough v i).0 in
      rw component_at-with_vector (elim (dec k j) [
        | yes e ↦ rw (← e) (
            unfold component_at in
            ground (arith, get_or-set (long_enough v i) i x p nullptr l, get_or-long_enough v i x))
        | no n ↦ ground arith
      ])

  pub placed-Distinct :
      (m : ComponentMap K) (k : K) (i : ℕ) (p : Ptr)
      → Distinct dec m
      → Distinct dec (placed m k i p)
  unfolding placed
  placed-Distinct m k i p = with_vector-Distinct m k _

  pub length_vector-placed :
      (m : ComponentMap K) (k : K) (i : ℕ) (p : Ptr) (j : K) (n : ℕ)
      → i < n
      → ((t : K) → length (get_component_vector_by_id dec m t) ≤ n)
      → length (get_component_vector_by_id dec (placed m k i p) j) ≤ n
  unfolding placed
  length_vector-placed m k i p j n lt fits =
      let v = get_component_vector_by_id dec m k in
      ground (
        arith,
        vector-with_vector m k (set (long_enough v i) i p) j,
        fits j,
        fits k,
        length-set (long_enough v i) i p,
        length-resize v (i + 1) nullptr,
      )

  -- The map after a null is written at a place of a type's vector.
  pub component_at-modify_null :
      (m : ComponentMap K) (k : K) (i : ℕ) (j : K) (x : ℕ)
      → component_at dec (modify dec k (λ ps. set ps i nullptr) m) j x
        ≡ ite
            (dec k j)
            (if i == x then nullptr else component_at dec m j x)
            (component_at dec m j x)
  unfolding component_at get_component_vector_by_id
  component_at-modify_null m k i j x = elim (dec k j) [
    | yes e ↦
        rw (← e, find-modify_self)
          (ground (arith, get_or-set_default (from_option [] (find dec k m)) i x nullptr))
    | no n ↦ rw (find-modify_ne dec k j (λ ps. set ps i nullptr) m n) (ground arith)
  ]

  pub length_vector-modify_null :
      (m : ComponentMap K) (k : K) (i : ℕ) (j : K)
      → length (get_component_vector_by_id dec (modify dec k (λ ps. set ps i nullptr) m) j)
        ≡ length (get_component_vector_by_id dec m j)
  unfolding get_component_vector_by_id
  length_vector-modify_null m k i j = elim (dec k j) [
    | yes e ↦
        rw (← e, find-modify_self)
          (ground (arith, length-set (from_option [] (find dec k m)) i nullptr))
    | no n ↦ rw (find-modify_ne dec k j (λ ps. set ps i nullptr) m n)
  ]

  pub modify_null_beyond :
      (m : ComponentMap K) (k : K) (i : ℕ)
      → length (get_component_vector_by_id dec m k) ≤ i
      → modify dec k (λ ps. set ps i nullptr) m ≡ m
  unfolding modify get_component_vector_by_id find
  modify_null_beyond [] k i h = refl
  modify_null_beyond ((j, ps) ∷ m) k i h =
      ground (arith, set_beyond ps i nullptr, modify_null_beyond m k i)
