-- ===== src/Indexes/SparseSet/Invariant.antt =====
-- component_indexes.h: what the dense and the sparse array of an index owe to one another, and the
-- partial map that they stand for.
use raccoon_ecs.Common.{
  ℕ, ◌≤◌, ◌<◌, ◌≡◌, ◌≢◌, refl, List, [], Option, none, some, arith, length, get_or, ◌==◌,
  if◌then◌else◌, ap, le-length_of_reads, lt-of-get_or_ne,
}
use raccoon_ecs.Outcome.{Ptr}
use raccoon_ecs.Indexes.SparseSet.{Index, invalid_index, sparse_at, make_index, clear_index}

module _ {K : Type 0} where
  abbrev pub dense_at : Index K → ℕ → ℕ
  dense_at ix i = get_or ix.matching_entities i 0

  abbrev pub count : Index K → ℕ
  count ix = length ix.matching_entities

  pub record IsValid (ix : Index K) : Type 0 where
    -- the two dense arrays run in parallel
    pub parallel : length ix.cached_components ≡ count ix
    -- a place in the dense arrays is no `InvalidIndex`
    pub fits : count ix ≤ invalid_index
    pub dense_to_sparse : (i : ℕ) → i < count ix → sparse_at ix (dense_at ix i) ≡ i
    pub sparse_to_dense :
        (e : ℕ)
        → sparse_at ix e ≢ invalid_index
        → (sparse_at ix e < count ix) × (dense_at ix (sparse_at ix e) ≡ e)

  -- Whether a raw id is in the index, and with which components.
  unfoldable pub view : Index K → ℕ → Option (List Ptr)
  view ix e =
      if sparse_at ix e == invalid_index
      then none
      else some (get_or ix.cached_components (sparse_at ix e) [])

  pub make_index-IsValid : (types : List K) → IsValid (make_index types)
  unfolding make_index
  make_index-IsValid types = record {
    parallel = refl;
    fits = omega arith;
    dense_to_sparse = λ i h. absurd (omega arith);
    sparse_to_dense = λ e h. absurd (h refl);
  }

  pub clear_index-IsValid : (ix : Index K) → IsValid (clear_index ix)
  unfolding clear_index
  clear_index-IsValid ix = record {
    parallel = refl;
    fits = omega arith;
    dense_to_sparse = λ i h. absurd (omega arith);
    sparse_to_dense = λ e h. absurd (h refl);
  }

  -- The raw ids of a valid index are distinct.
  pub dense_at_injective :
      (ix : Index K) (i j : ℕ)
      → IsValid ix
      → i < count ix
      → j < count ix
      → dense_at ix i ≡ dense_at ix j
      → i ≡ j
  dense_at_injective ix i j v hi hj e =
      omega (arith, v.dense_to_sparse i hi, v.dense_to_sparse j hj, ap (sparse_at ix) e)

  -- There are no more entries than places in the sparse array.
  pub count-le-sparse : (ix : Index K) → IsValid ix → count ix ≤ length ix.sparse_array
  count-le-sparse ix v =
      le-length_of_reads (count ix) invalid_index ix.sparse_array (dense_at ix) (λ i lt. (
        lt-of-get_or_ne ix.sparse_array (dense_at ix i) invalid_index
            (omega (arith, v.dense_to_sparse i lt, v.fits)),
        v.dense_to_sparse i lt,
      ))
