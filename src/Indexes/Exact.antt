-- ===== src/Indexes/Exact.antt =====
-- component_indexes.h: when one index says what the component map says, and what keeps it so.
use raccoon_ecs.Common.{
  ℕ, ◌+◌, ◌≤◌, ◌<◌, ◌≡◌, ◌≢◌, refl, true, false, List, [], ◌∷◌, none, arith, length, elem, ap,
  eq-or-ne, inl, inr, ◌∙◌, sym, length-set, length-resize, set, get_or, back, resize,
}
use raccoon_ecs.Outcome.{nullptr}
use raccoon_ecs.Entity.{u32_mod}
use raccoon_ecs.ComponentMap.{ComponentMap, component_at}
use raccoon_ecs.Indexes.SparseSet.{Index, invalid_index, try_add_entity, try_remove_entity}
use raccoon_ecs.Indexes.SparseSet.Invariant.{IsValid, count, view, count-le-sparse}
use raccoon_ecs.Indexes.SparseSet.Add.{
  has_all, components_of, view-try_add_entity, component_types-try_add_entity,
}
use raccoon_ecs.Indexes.SparseSet.Remove.{view-try_remove_entity, component_types-try_remove_entity}
use raccoon_ecs.Indexes.SparseSet.Populate.{expected}

module _ {K : Type 0} (dec : Discrete K) where
  -- The index is well formed, and a raw id stands in it with its components exactly if the map has
  -- all of them for it.
  pub record Exact (m : ComponentMap K) (ix : Index K) : Type 0 where
    pub valid : IsValid ix
    pub small : length ix.sparse_array ≤ u32_mod
    pub typed : ix.component_types ≢ []
    pub exact : (e : ℕ) → view ix e ≡ expected dec m ix.component_types e

  -- The maps differ at one component alone.
  pub record SameBut (m n : ComponentMap K) (t : K) (e : ℕ) : Type 0 where
    pub other_types : (k : K) (j : ℕ) → t ≢ k → component_at dec n k j ≡ component_at dec m k j
    pub other_ids : (k : K) (j : ℕ) → e ≢ j → component_at dec n k j ≡ component_at dec m k j

  pub expected_congr :
      (m n : ComponentMap K) (types : List K) (j : ℕ)
      → ((k : K) → elem dec k types ≡ true → component_at dec n k j ≡ component_at dec m k j)
      → expected dec n types j ≡ expected dec m types j
  unfolding expected has_all components_of elem
  expected_congr m n [] j same = refl
  expected_congr m n (k ∷ ks) j same =
      ground (arith, same k, expected_congr m n ks j (λ k' h. same k' (ground arith)))

  pub expected_missing :
      (m : ComponentMap K) (types : List K) (t : K) (j : ℕ)
      → elem dec t types ≡ true
      → component_at dec m t j ≡ nullptr
      → expected dec m types j ≡ none
  unfolding expected has_all elem
  expected_missing m [] t j h empty = cc
  expected_missing m (k ∷ ks) t j h empty = ground (arith, expected_missing m ks t j)

  length_sparse-try_add_entity :
      (ix : Index K) (e : ℕ) (m : ComponentMap K)
      → length ix.sparse_array ≤ u32_mod
      → e < u32_mod
      → length (try_add_entity dec ix e m).sparse_array ≤ u32_mod
  unfolding try_add_entity
  length_sparse-try_add_entity ix e m small lt = ground (
    arith,
    length-set ix.sparse_array e (count ix),
    length-set (resize ix.sparse_array (e + 1) invalid_index) e (count ix),
    length-resize ix.sparse_array (e + 1) invalid_index,
  )

  length_sparse-try_remove_entity :
      (ix : Index K) (e : ℕ) → length (try_remove_entity ix e).sparse_array ≡ length ix.sparse_array
  unfolding try_remove_entity
  length_sparse-try_remove_entity ix e =
      let place = get_or ix.sparse_array e invalid_index in
      let last = back ix.matching_entities 0 in
      ground (
        arith,
        length-set ix.sparse_array e invalid_index,
        length-set (set ix.sparse_array last place) e invalid_index,
        length-set ix.sparse_array last place,
      )

  count-lt-invalid :
      (ix : Index K) → IsValid ix → length ix.sparse_array ≤ u32_mod → count ix < invalid_index
  unfolding invalid_index
  count-lt-invalid ix v small = omega (arith, count-le-sparse ix v)

  module _ {m n : ComponentMap K} {t : K} {e : ℕ} (s : SameBut m n t e) (ix : Index K)
      (x : Exact m ix) where
    -- An index whose types do not include the one that changes stays exact as it is.
    pub Exact-unaffected : elem dec t ix.component_types ≡ false → Exact n ix
    Exact-unaffected out = record {
      valid = x.valid;
      small = x.small;
      typed = x.typed;
      exact = λ j.
          x.exact j
          ∙ sym (
              expected_congr m n ix.component_types j (λ k h.
                s.other_types k j (λ same. cc (ap (λ c. elem dec c ix.component_types) same))));
    }

    -- If the map gains the component, `tryAddEntity` makes an index with that type exact again.
    pub try_add_entity-Exact :
        elem dec t ix.component_types ≡ true
        → component_at dec m t e ≡ nullptr
        → e < u32_mod
        → Exact n (try_add_entity dec ix e n)
    try_add_entity-Exact has empty lt =
        let absent : view ix e ≡ none =
          x.exact e ∙ expected_missing m ix.component_types t e has empty in
        let (v, reads) =
          view-try_add_entity dec ix e n x.valid (count-lt-invalid ix x.valid x.small) absent in
        record {
          valid = v;
          small = length_sparse-try_add_entity ix e n x.small lt;
          typed = rw component_types-try_add_entity x.typed;
          exact = λ j.
              rw (reads j, component_types-try_add_entity)
                (elim (eq-or-ne e j) [
                  | inl here ↦ unfold expected in ground arith
                  | inr away ↦ ground (
                    arith,
                    x.exact j,
                    expected_congr m n ix.component_types j (λ k _. s.other_ids k j away),
                  )
                ]);
        }

    -- If the map loses the component, `tryRemoveEntity` makes an index with that type exact again.
    pub try_remove_entity-Exact :
        elem dec t ix.component_types ≡ true
        → component_at dec n t e ≡ nullptr
        → Exact n (try_remove_entity ix e)
    try_remove_entity-Exact has empty =
        let (v, reads) = view-try_remove_entity ix e x.valid in
        record {
          valid = v;
          small = rw length_sparse-try_remove_entity x.small;
          typed = rw component_types-try_remove_entity x.typed;
          exact = λ j.
              rw (reads j, component_types-try_remove_entity)
                (elim (eq-or-ne e j) [
                  | inl here ↦ ground (arith, expected_missing n ix.component_types t j has)
                  | inr away ↦ ground (
                    arith,
                    x.exact j,
                    expected_congr m n ix.component_types j (λ k _. s.other_ids k j away),
                  )
                ]);
        }

  expected-none_left :
      (n : ComponentMap K) (types : List K) (e : ℕ)
      → types ≢ []
      → ((k : K) → component_at dec n k e ≡ nullptr)
      → expected dec n types e ≡ none
  unfolding expected has_all
  expected-none_left n [] e typed empty = absurd (typed refl)
  expected-none_left n (k ∷ ks) e typed empty = ground (arith, empty k)

  -- If the map loses all the components of a raw id, `tryRemoveEntity` makes any index exact again.
  pub try_remove_entity-Exact_all :
      (m n : ComponentMap K) (e : ℕ) (ix : Index K)
      → Exact m ix
      → ((k : K) → component_at dec n k e ≡ nullptr)
      → ((k : K) (j : ℕ) → e ≢ j → component_at dec n k j ≡ component_at dec m k j)
      → Exact n (try_remove_entity ix e)
  try_remove_entity-Exact_all m n e ix x empty same =
      let (v, reads) = view-try_remove_entity ix e x.valid in
      record {
        valid = v;
        small = rw length_sparse-try_remove_entity x.small;
        typed = rw component_types-try_remove_entity x.typed;
        exact = λ j.
            rw (reads j, component_types-try_remove_entity)
              (elim (eq-or-ne e j) [
                | inl here ↦ ground (arith, expected-none_left n ix.component_types e x.typed empty)
                | inr away ↦ ground (
                  arith,
                  x.exact j,
                  expected_congr m n ix.component_types j (λ k _. same k j away),
                )
              ]);
      }

  -- A map that reads the same keeps an index exact.
  pub Exact-same :
      (m n : ComponentMap K) (ix : Index K)
      → Exact m ix
      → ((k : K) (j : ℕ) → component_at dec n k j ≡ component_at dec m k j)
      → Exact n ix
  Exact-same m n ix x same = record {
    valid = x.valid;
    small = x.small;
    typed = x.typed;
    exact = λ j. x.exact j ∙ sym (expected_congr m n ix.component_types j (λ k _. same k j));
  }
