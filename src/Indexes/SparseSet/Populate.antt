-- ===== src/Indexes/SparseSet/Populate.antt =====
-- component_indexes.h: `Index::populate` and `Index::repopulate`.
use raccoon_ecs.Common.{
  ℕ, zero, suc, ◌+◌, ◌-◌, ◌≤◌, ◌<◌, ◌≡◌, refl, Bool, true, false, List, [], ◌∷◌, ◌++◌, Option, none,
  some, arith, length, get_or, resize, ◌==◌, if◌then◌else◌, get_or_beyond, Bool-cases, inl, inr,
  length-set, length-resize, get_or-resize_up, ltb, length-append, eq-or-ne, ap, sym, ◌∙◌, ◌||◌,
  map, min, elem,
}
use raccoon_ecs.Outcome.{Ptr, nullptr}
use raccoon_ecs.ComponentMap.{ComponentMap, get_component_vector_by_id, component_at}
use raccoon_ecs.Indexes.SparseSet.{
  Index, invalid_index, try_add_entity, does_entity_have_all_components, shortest_vector_size,
  populate_loop, populate, repopulate, make_index,
}
use raccoon_ecs.Indexes.SparseSet.Invariant.{IsValid, count, view}
use raccoon_ecs.Indexes.SparseSet.Add.{
  has_all, components_of, collect_vectors-has_all, view-try_add_entity,
  component_types-try_add_entity, count-try_add_entity,
}

module _ {K : Type 0} (dec : Discrete K) (m : ComponentMap K) where
  -- What an index should say of a raw id, read off the component map.
  unfoldable pub expected : List K → ℕ → Option (List Ptr)
  expected types e = if has_all dec m types e then some (components_of dec m types e) else none

  does_entity_have_all-has_all :
      (types : List K) (i : ℕ)
      → does_entity_have_all_components (map (get_component_vector_by_id dec m) types) i
        ≡ has_all dec m types i
  unfolding does_entity_have_all_components has_all component_at
  does_entity_have_all-has_all [] i = refl
  does_entity_have_all-has_all (k ∷ ks) i = rw (does_entity_have_all-has_all ks i)

  shortest-le-start : (vs : List (List Ptr)) (n : ℕ) → shortest_vector_size vs n ≤ n
  unfolding shortest_vector_size
  shortest-le-start [] n = omega arith
  shortest-le-start (v ∷ vs) n = omega (arith, shortest-le-start vs (min n (length v)))

  -- A raw id with all the components lies below the end of each vector.
  has_all-lt-shortest :
      (types : List K) (n i : ℕ)
      → has_all dec m types i ≡ true
      → shortest_vector_size (map (get_component_vector_by_id dec m) types) n < n
      → i < shortest_vector_size (map (get_component_vector_by_id dec m) types) n
  unfolding shortest_vector_size has_all component_at
  has_all-lt-shortest [] n i h lt = absurd (omega arith)
  has_all-lt-shortest (k ∷ ks) n i h lt =
      let vector = get_component_vector_by_id dec m k in
      ground (
        arith,
        get_or_beyond vector i nullptr,
        shortest-le-start (map (get_component_vector_by_id dec m) ks) (min n (length vector)),
        has_all-lt-shortest ks (min n (length vector)) i,
      )

  -- Below the sparse array's end a round of the loop does what `tryAddEntity` does.
  populate_loop-suc :
      (types : List K) (ix : Index K) (n i : ℕ)
      → ix.component_types ≡ types
      → i < length ix.sparse_array
      → populate_loop dec (map (get_component_vector_by_id dec m) types) (suc n) i ix
        ≡ populate_loop dec
            (map (get_component_vector_by_id dec m) types)
            n
            (i + 1)
            (try_add_entity dec ix i m)
  unfolding populate_loop try_add_entity
  populate_loop-suc types ix n i same lt =
      ap (populate_loop dec (map (get_component_vector_by_id dec m) types) n (i + 1)) (
        ground (
          arith,
          same,
          does_entity_have_all-has_all types i,
          collect_vectors-has_all dec m types i,
          length-append ix.matching_entities (i ∷ []),
        ))

  length_sparse-try_add_entity :
      (ix : Index K) (i : ℕ)
      → i < length ix.sparse_array
      → length (try_add_entity dec ix i m).sparse_array ≡ length ix.sparse_array
  unfolding try_add_entity
  length_sparse-try_add_entity ix i lt = ground (arith, length-set ix.sparse_array i (count ix))

  -- The loop's invariant: below `i` the index says what it should, from `i` on it is empty.
  record Filled (types : List K) (ix : Index K) (i : ℕ) : Type 0 where
    valid : IsValid ix
    types_kept : ix.component_types ≡ types
    below : (j : ℕ) → j < i → view ix j ≡ expected types j
    above : (j : ℕ) → i ≤ j → view ix j ≡ none
    few : count ix ≤ i

  Filled-step :
      (types : List K) (ix : Index K) (i : ℕ)
      → Filled types ix i
      → i < invalid_index
      → Filled types (try_add_entity dec ix i m) (i + 1)
  Filled-step types ix i f lt =
      let (v, new) =
        view-try_add_entity dec ix i m f.valid (omega (arith, f.few)) (f.above i (omega arith)) in
      record {
        valid = v;
        types_kept = component_types-try_add_entity dec ix i m ∙ f.types_kept;
        below = λ j h. rw (new j, f.types_kept) (unfold expected in ground (arith, f.below j));
        above = λ j h. rw (new j) (ground (arith, f.above j));
        few = omega (arith, count-try_add_entity dec ix i m, f.few);
      }

  Filled-populate_loop :
      (types : List K) (n i : ℕ) (ix : Index K)
      → Filled types ix i
      → i + n ≤ length ix.sparse_array
      → i + n ≤ invalid_index
      → Filled types
          (populate_loop dec (map (get_component_vector_by_id dec m) types) n i ix)
          (i + n)
  Filled-populate_loop types zero i ix f fits lt =
      unfold populate_loop in (let e : i + 0 ≡ i = omega arith in rw e f)
  Filled-populate_loop types (suc n) i ix f fits lt =
      let e : i + suc n ≡ i + 1 + n = omega arith in
      rw (e, populate_loop-suc types ix n i f.types_kept (omega arith))
        (Filled-populate_loop types n (i + 1) (try_add_entity dec ix i m)
          (Filled-step types ix i f (omega arith))
          (omega (arith, length_sparse-try_add_entity ix i (omega arith))) (omega arith))

  empty-Filled :
      (ix : Index K) (sparse : ℕ) (b : Bool)
      → Filled ix.component_types
          (record ix {
            is_populated = b;
            matching_entities = [];
            cached_components = [];
            sparse_array = resize [] sparse invalid_index;
          })
          0
  unfolding view
  empty-Filled ix sparse b =
      let unset : (e : ℕ)
          → get_or (resize [] sparse invalid_index) e invalid_index ≡ invalid_index =
        λ e. get_or-resize_up [] sparse e invalid_index (omega arith) in
      record {
        valid = record {
          parallel = refl;
          fits = omega arith;
          dense_to_sparse = λ i h. absurd (omega arith);
          sparse_to_dense = λ e h. absurd (h (unset e));
        };
        types_kept = refl;
        below = λ j h. absurd (omega arith);
        above = λ j h. ground (arith, unset j);
        few = omega arith;
      }

  module _ (ix : Index K) where
    -- The size that `populate` gives the sparse array.
    abbrev pub size : ℕ
    size =
        shortest_vector_size (map (get_component_vector_by_id dec m) ix.component_types)
          invalid_index

    beyond : size < invalid_index → (j : ℕ) → size ≤ j → expected ix.component_types j ≡ none
    unfolding expected
    beyond short j h = ground (arith, has_all-lt-shortest ix.component_types invalid_index j)

    -- What a filled index at the full size says of every raw id.
    Filled-total :
        (r : Index K) (n : ℕ)
        → size < invalid_index
        → size ≡ n
        → Filled ix.component_types r n
        → IsValid r
          × (r.component_types ≡ ix.component_types)
          × ((e : ℕ) → view r e ≡ expected ix.component_types e)
    Filled-total r n short same f = (
      f.valid,
      f.types_kept,
      λ e. elim (Bool-cases (ltb e n)) [
        | inl low ↦ f.below e (ground arith)
        | inr high ↦ f.above e (ground arith) ∙ sym (beyond short e (ground arith))
      ],
    )

    -- `repopulate`, and so `populate` on a new or cleared index, gives a valid index in which a raw id
    -- stands with its components, in the order of the types, exactly if it has all of them, whatever
    -- the index held before. The condition: there is a component type, and the shortest of the
    -- vectors is shorter than `InvalidIndex`.
    pub view-repopulate :
        size < invalid_index
        → IsValid (repopulate dec ix m)
          × ((repopulate dec ix m).component_types ≡ ix.component_types)
          × ((e : ℕ) → view (repopulate dec ix m) e ≡ expected ix.component_types e)
    unfolding repopulate
    view-repopulate short = elim (eq-or-ne size 0) [
      | inl zero_size ↦
          let skip : (size == invalid_index || size == 0) ≡ true = ground arith in
          rw skip (Filled-total _ 0 short zero_size (empty-Filled ix 0 true))
      | inr some_size ↦
          let run : (size == invalid_index || size == 0) ≡ false = ground arith in
          rw run (
            Filled-total _ (0 + size) short (omega arith) (
              Filled-populate_loop ix.component_types size 0 _ (empty-Filled ix size true)
                (omega (arith, length-resize [] size invalid_index)) (omega arith)))
    ]

  length_sparse-populate_loop :
      (vectors : List (List Ptr)) (n i : ℕ) (ix : Index K)
      → length (populate_loop dec vectors n i ix).sparse_array ≡ length ix.sparse_array
  unfolding populate_loop
  length_sparse-populate_loop vectors zero i ix = refl
  length_sparse-populate_loop vectors (suc n) i ix =
      length_sparse-populate_loop vectors n (i + 1) _
      ∙ ground (arith, length-set ix.sparse_array i (length (ix.matching_entities ++ i ∷ []) - 1))

  -- The sparse array is no longer than the shortest vector.
  pub length_sparse-repopulate :
      (ix : Index K) → length (repopulate dec ix m).sparse_array ≤ size ix
  unfolding repopulate
  length_sparse-repopulate ix = ground (
    arith,
    length_sparse-populate_loop (map (get_component_vector_by_id dec m) ix.component_types)
        (size ix) 0
        (record ix {
          is_populated = true;
          matching_entities = [];
          cached_components = [];
          sparse_array = resize [] (size ix) invalid_index;
        }),
    length-resize [] (size ix) invalid_index,
  )

  -- The shortest vector is no longer than any of them.
  pub size-le-vector :
      (types : List K) (n : ℕ) (k : K)
      → elem dec k types ≡ true
      → shortest_vector_size (map (get_component_vector_by_id dec m) types) n
        ≤ length (get_component_vector_by_id dec m k)
  unfolding shortest_vector_size elem
  size-le-vector [] n k h = cc
  size-le-vector (j ∷ js) n k h =
      let longest = min n (length (get_component_vector_by_id dec m j)) in
      elim (dec j k) [
        | yes same ↦
            let e : length (get_component_vector_by_id dec m j)
                ≡ length (get_component_vector_by_id dec m k) =
              ap (λ t. length (get_component_vector_by_id dec m t)) same in
            omega (arith, e, shortest-le-start (map (get_component_vector_by_id dec m) js) longest)
        | no other ↦ size-le-vector js longest k (ground arith)
      ]

  -- To populate a new index is to repopulate it.
  pub populate_new :
      (types : List K) → populate dec (make_index types) m ≡ repopulate dec (make_index types) m
  unfolding repopulate make_index
  populate_new types = refl
