-- ===== src/Indexes/SparseSet/Remove.antt =====
-- component_indexes.h: `Index::tryRemoveEntity`.
use raccoon_ecs.Common.{
  ℕ, ◌+◌, ◌-◌, ◌<◌, ◌≡◌, ◌≢◌, [], none, arith, length, get_or, set, back, pop_back, ◌==◌,
  if◌then◌else◌, inl, inr, length-set, back-get_or, eq-or-ne, ap, set-set, pop_back-set_last,
  get_or-swap_pop, length-swap_pop, get_or-set, lt-of-get_or_ne, sym, ◌∙◌,
}
use raccoon_ecs.Indexes.SparseSet.{Index, invalid_index, sparse_at, try_remove_entity}
use raccoon_ecs.Indexes.SparseSet.Invariant.{IsValid, dense_at, count, view}

module _ {K : Type 0} where
  -- The record that the removal of an entry gives, whichever place it has.
  removed : Index K → ℕ → Index K
  removed ix e =
      let idx = get_or ix.sparse_array e invalid_index in
      record ix {
        sparse_array = set (set ix.sparse_array (back ix.matching_entities 0) idx) e invalid_index;
        cached_components = pop_back (set ix.cached_components idx (back ix.cached_components []));
        matching_entities = pop_back (set ix.matching_entities idx (back ix.matching_entities 0));
      }

module _ {K : Type 0} (ix : Index K) (e : ℕ) (v : IsValid ix) where
  try_remove_absent : sparse_at ix e ≡ invalid_index → try_remove_entity ix e ≡ ix
  unfolding try_remove_entity
  try_remove_absent h = ground arith

  module _ (h : sparse_at ix e ≢ invalid_index) where
    present : (sparse_at ix e < count ix) × (dense_at ix (sparse_at ix e) ≡ e)
    present = v.sparse_to_dense e h

    try_remove_present : try_remove_entity ix e ≡ removed ix e
    unfolding try_remove_entity removed
    try_remove_present =
        let inside = lt-of-get_or_ne ix.sparse_array e invalid_index h in
        elim (eq-or-ne (sparse_at ix e) (count ix - 1)) [
          | inl here ↦
              let b : back ix.matching_entities 0 ≡ e =
                back-get_or ix.matching_entities 0 ∙ ap (dense_at ix) (sym here) ∙ present.1 in
              let p =
                pop_back-set_last ix.matching_entities (sparse_at ix e)
                  (back ix.matching_entities 0) in
              let c =
                pop_back-set_last ix.cached_components (sparse_at ix e)
                  (back ix.cached_components []) in
              ground (
                arith,
                present,
                inside,
                b,
                p,
                c,
                v.parallel,
                set-set ix.sparse_array e (sparse_at ix e) invalid_index,
              )
          | inr away ↦ ground (arith, inside)
        ]

    length-removed :
        (count (removed ix e) ≡ count ix - 1)
        × (length (removed ix e).cached_components ≡ count ix - 1)
    unfolding removed
    length-removed = (
      length-swap_pop ix.matching_entities _ _,
      length-swap_pop ix.cached_components _ _ ∙ ap (λ (n : ℕ). n - 1) v.parallel,
    )

    dense-removed :
        (i : ℕ)
        → i + 1 < count ix
        → dense_at (removed ix e) i
          ≡ (if sparse_at ix e == i then dense_at ix (count ix - 1) else dense_at ix i)
    unfolding removed
    dense-removed i lt = get_or-swap_pop ix.matching_entities (sparse_at ix e) i 0 present.0 lt

    cached-removed :
        (i : ℕ)
        → i + 1 < count ix
        → get_or (removed ix e).cached_components i [] ≡ (
            if sparse_at ix e == i
            then get_or ix.cached_components (count ix - 1) []
            else get_or ix.cached_components i [])
    unfolding removed
    cached-removed i lt =
        let n = v.parallel in
        rw (← n)
          (get_or-swap_pop ix.cached_components (sparse_at ix e) i [] (rw n present.0) (rw n lt))

    sparse-removed :
        (j : ℕ)
        → sparse_at (removed ix e) j ≡ (
            if e == j
            then invalid_index
            else if dense_at ix (count ix - 1) == j
            then sparse_at ix e
            else sparse_at ix j)
    unfolding removed
    sparse-removed j =
        let b = back-get_or ix.matching_entities 0 in
        let l = v.dense_to_sparse (count ix - 1) (omega (arith, present.0)) in
        let inside = lt-of-get_or_ne ix.sparse_array e invalid_index h in
        let inside' =
          lt-of-get_or_ne ix.sparse_array (dense_at ix (count ix - 1)) invalid_index
            (omega (arith, l, present.0, v.fits)) in
        rw (
          b,
          get_or-set (set ix.sparse_array (dense_at ix (count ix - 1)) (sparse_at ix e)) e j
              invalid_index invalid_index
              (omega (
                arith,
                inside,
                length-set ix.sparse_array (dense_at ix (count ix - 1)) (sparse_at ix e),
              )),
          get_or-set ix.sparse_array (dense_at ix (count ix - 1)) j (sparse_at ix e) invalid_index
              inside',
        )

    removed-IsValid : IsValid (removed ix e)
    removed-IsValid = record {
      parallel = length-removed.1 ∙ sym length-removed.0;
      fits = omega (arith, length-removed.0, v.fits);
      dense_to_sparse = λ i lt.
          let lt' : i + 1 < count ix = omega (arith, length-removed.0) in
          rw (dense-removed i lt') (
            ground (
              arith,
              sparse-removed (dense_at ix (count ix - 1)),
              sparse-removed (dense_at ix i),
              v.dense_to_sparse i,
              v.dense_to_sparse (count ix - 1),
              present,
            ));
      sparse_to_dense = λ j ne. ground (
        arith,
        length-removed.0,
        sparse-removed j,
        v.sparse_to_dense j,
        v.dense_to_sparse (count ix - 1),
        dense-removed (sparse_at ix j),
        dense-removed (sparse_at ix e),
        present,
        v.fits,
      );
    }

    view-removed : (j : ℕ) → view (removed ix e) j ≡ (if e == j then none else view ix j)
    unfolding view
    view-removed j = ground (
      arith,
      length-removed.0,
      sparse-removed j,
      v.sparse_to_dense j,
      v.dense_to_sparse (count ix - 1),
      cached-removed (sparse_at ix j),
      cached-removed (sparse_at ix e),
      present,
      v.fits,
    )

  -- On a valid index `tryRemoveEntity` gives a valid index that stands for the old partial map
  -- without the given raw id, whether or not it was there; the other ids keep their components.
  pub view-try_remove_entity :
      IsValid (try_remove_entity ix e)
      × ((j : ℕ) → view (try_remove_entity ix e) j ≡ (if e == j then none else view ix j))
  view-try_remove_entity = elim (eq-or-ne (sparse_at ix e) invalid_index) [
    | inl h ↦ rw (try_remove_absent h) (v, λ j. absent h j)
    | inr h ↦ rw (try_remove_present h) (removed-IsValid h, view-removed h)
  ]
    where
      absent :
          sparse_at ix e ≡ invalid_index
          → (j : ℕ) → view ix j ≡ (if e == j then none else view ix j)
      absent h j = unfold view in ground arith

pub component_types-try_remove_entity :
    {K : Type 0} (ix : Index K) (e : ℕ)
    → (try_remove_entity ix e).component_types ≡ ix.component_types
unfolding try_remove_entity
component_types-try_remove_entity ix e = ground arith
