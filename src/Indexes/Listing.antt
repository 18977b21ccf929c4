-- ===== src/Indexes/Listing.antt =====
-- component_indexes.h: the dense arrays of an exact index list each raw id that has all the
-- components once, with its components.
use raccoon_ecs.Common.{
  ◌++◌, none, ℕ, ◌<◌, ◌≡◌, ◌≢◌, refl, true, List, [], ◌∷◌, map, some, arith, get_or, elem, Unique,
  ℕ_discrete, Bool-cases, inl, inr, place_of, elem-get_or, Unique-of_injective, list_ext,
  length-map, get_or-map, ◌∙◌, sym, ap,
}
use raccoon_ecs.Outcome.{Ptr, nullptr}
use raccoon_ecs.ComponentMap.{ComponentMap, component_at}
use raccoon_ecs.Indexes.SparseSet.{make_index, populate, Index, sparse_at}
use raccoon_ecs.Indexes.SparseSet.Invariant.{count, dense_at, view, dense_at_injective}
use raccoon_ecs.Indexes.SparseSet.Add.{has_all, components_of}
use raccoon_ecs.Indexes.SparseSet.Populate.{expected}
use raccoon_ecs.TypeId.{TypeId}
use raccoon_ecs.Indexes.Exact.{Exact}
use raccoon_ecs.Indexes.Registry.{IsConsistent}
use raccoon_ecs.Indexes.Query.{FitsIds, IsPack, get_or_create_index-Exact}
use raccoon_ecs.Indexes.Key.{IndexKey, create_key, eq_key, eq_key_iff}
use raccoon_ecs.Indexes.{ComponentIndexes, get_or_create_index, find_index}

module _ {K : Type 0} (dec : Discrete K) (m : ComponentMap K) where
  has_all-true :
      (types : List K) (x : ℕ) (t : K)
      → has_all dec m types x ≡ true
      → elem dec t types ≡ true
      → component_at dec m t x ≢ nullptr
  unfolding has_all elem
  has_all-true [] x t h e = cc
  has_all-true (k ∷ ks) x t h e = ground (arith, has_all-true ks x t)

  has_all_of_each :
      (types : List K) (x : ℕ)
      → ((t : K) → elem dec t types ≡ true → component_at dec m t x ≢ nullptr)
      → has_all dec m types x ≡ true
  unfolding has_all elem
  has_all_of_each [] x h = refl
  has_all_of_each (k ∷ ks) x h =
      ground (arith, h k, has_all_of_each ks x (λ t e. h t (ground arith)))

  -- Whether a raw id has all the types does not depend on their order.
  pub has_all_congr :
      (js ks : List K) (x : ℕ)
      → ((t : K) → elem dec t js ≡ elem dec t ks)
      → has_all dec m js x ≡ has_all dec m ks x
  has_all_congr js ks x same = elim (Bool-cases (has_all dec m js x)) [
    | inl yes_all ↦
        yes_all ∙ sym (has_all_of_each ks x (λ t e. has_all-true js x t yes_all (same t ∙ e)))
    | inr no_all ↦ elim (Bool-cases (has_all dec m ks x)) [
      | inl yes_all ↦
          let h = has_all_of_each js x (λ t e. has_all-true ks x t yes_all (sym (same t) ∙ e)) in cc
      | inr no_all' ↦ no_all ∙ sym no_all'
    ]
  ]

  module _ (ix : Index K) (x : Exact dec m ix) where
    open ix use {component_types as types, matching_entities as ids}

    pub Unique-matching : Unique ℕ_discrete ids
    Unique-matching =
        Unique-of_injective ids 0 (λ i j hi hj e. dense_at_injective ix i j x.valid hi hj e)

    view-dense :
        (i : ℕ) → i < count ix → view ix (dense_at ix i) ≡ some (get_or ix.cached_components i [])
    unfolding view
    view-dense i lt = ground (arith, x.valid.dense_to_sparse i lt, x.valid.fits)

    pub elem-matching : (e : ℕ) → elem ℕ_discrete e ids ≡ has_all dec m types e
    unfolding expected view
    elem-matching e = elim (Bool-cases (elem ℕ_discrete e ids)) [
      | inl there ↦
          let (i, lt, at) = place_of e 0 ids there in
          ground (arith, x.exact e, view-dense i lt, ap (view ix) at)
      | inr missing ↦ ground (
        arith,
        x.exact e,
        x.valid.sparse_to_dense e,
        elem-get_or ids (sparse_at ix e) 0,
        ap (λ y. elem ℕ_discrete y ids),
      )
    ]

    pub cached-matching : ix.cached_components ≡ map (components_of dec m types) ids
    unfolding expected
    cached-matching =
        list_ext ix.cached_components (map (components_of dec m types) ids) []
          (x.valid.parallel ∙ sym (length-map (components_of dec m types) ids))
          (λ i lt. ground (
            arith,
            get_or-map (components_of dec m types) ids i 0 [],
            x.valid.parallel,
            view-dense i,
            x.exact (dense_at ix i),
          ))

module _ {K : Type 0} (T : TypeId K) where
  -- What a query for a pack of types gives: the raw ids that have them all, each once, and with them
  -- the tuples of their components in the order of `types`, which are those of the pack.
  pub record Matches (m : ComponentMap K) (pack types : List K) (ids : List ℕ)
      (sets : List (List Ptr)) : Type 0 where
    pub once : Unique ℕ_discrete ids
    pub all_and_only : (e : ℕ) → elem ℕ_discrete e ids ≡ has_all T.eq m pack e
    pub same_types : (t : K) → elem T.eq t types ≡ elem T.eq t pack
    pub in_order : sets ≡ map (components_of T.eq m types) ids

  -- On consistent indexes every query for a pack finds exactly the raw ids with all the components
  -- of the pack, each once, with their components; the order of the tuple is that of the pack for
  -- which the index was made.
  pub get_or_create_index-Matches :
      (m : ComponentMap K) (c : ComponentIndexes K) (pack : List K)
      → IsConsistent T m c
      → FitsIds T m
      → IsPack T pack
      → Matches m pack
          (get_or_create_index T c pack m).1.component_types
          (get_or_create_index T c pack m).1.matching_entities
          (get_or_create_index T c pack m).1.cached_components
  get_or_create_index-Matches m c pack v fits named =
      let ix = (get_or_create_index T c pack m).1 in
      let (x, same) = get_or_create_index-Exact T m c pack v fits named in
      record {
        once = Unique-matching T.eq m ix x;
        all_and_only =
            λ e. elem-matching T.eq m ix x e ∙ has_all_congr T.eq m ix.component_types pack e same;
        same_types = same;
        in_order = cached-matching T.eq m ix x;
      }

  find_index-append_end :
      (key : IndexKey K) (ixs : List (IndexKey K × Index K)) (ix : Index K)
      → find_index T key ixs ≡ none
      → eq_key T key key ≡ true
      → find_index T key (ixs ++ (key, ix) ∷ []) ≡ some ix
  unfolding find_index
  find_index-append_end key [] ix h e = ground arith
  find_index-append_end key ((k, old) ∷ ixs) ix h e =
      ground (arith, find_index-append_end key ixs ix)

  -- The same query once more changes nothing and gives the same index.
  pub get_or_create_index_again :
      (m : ComponentMap K) (c : ComponentIndexes K) (pack : List K)
      → get_or_create_index T (get_or_create_index T c pack m).0 pack m
        ≡ get_or_create_index T c pack m
  unfolding get_or_create_index
  get_or_create_index_again m c pack =
      let key = create_key T pack in
      let new = populate T.eq (make_index pack) m in
      let self = (eq_key_iff T pack pack).1 refl in
      ground (arith, find_index-append_end key c.indexes new, self)
