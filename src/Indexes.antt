-- ===== src/Indexes.antt =====
-- component_indexes.h: `ComponentIndexes`, all the indexes of an entity manager. A `BaseIndex*` is the
-- index's place in `indexes`, in the order of creation: indexes go only all at once.
pub mod SparseSet
pub mod Key
pub mod Exact
pub mod Registry
pub mod Events
pub mod Sorting
pub mod Query
pub mod TupleOrder
pub mod Listing
pub mod Rebuilding
use raccoon_ecs.Common.{
  ℕ, suc, zero, ◌+◌, ◌≡◌, Bool, true, false, List, [], ◌∷◌, ◌++◌, map, Option, none, some, length,
  if◌then◌else◌, find, modify, ensure, get_elem?, from_option,
}
use raccoon_ecs.Outcome.{Ptr}
use raccoon_ecs.TypeId.{TypeId}
use raccoon_ecs.ComponentMap.{ComponentMap}
use SparseSet.{
  Index, make_index, populate, try_add_entity, try_remove_entity, clear_index, repopulate,
}
use Key.{IndexKey, create_key, eq_key}

pub record ComponentIndexes (K : Type 0) : Type 0 where
  pub indexes : List (IndexKey K × Index K)
  pub indexes_having_component : List (K × List ℕ)

-- `ComponentIndexes()`, and what a copy constructor leaves.
unfoldable pub no_indexes : {K : Type 0} → ComponentIndexes K
no_indexes = record { indexes = []; indexes_having_component = [] }

module _ {K : Type 0} where
  -- A call through one `BaseIndex*`.
  unfoldable pub call_at :
      (Index K → Index K) → ℕ → List (IndexKey K × Index K) → List (IndexKey K × Index K)
  call_at f p [] = []
  call_at f zero ((key, ix) ∷ ixs) = (key, f ix) ∷ ixs
  call_at f (suc p) (entry ∷ ixs) = entry ∷ call_at f p ixs

  -- `for (BaseIndex* index : it->second)`
  unfoldable pub call_all :
      (Index K → Index K) → List ℕ → List (IndexKey K × Index K) → List (IndexKey K × Index K)
  unfolding call_at
  call_all f [] ixs = ixs
  call_all f (p ∷ ps) ixs = call_all f ps (call_at f p ixs)

  -- `onEntityRemoved`
  unfoldable pub on_entity_removed : ComponentIndexes K → ℕ → ComponentIndexes K
  on_entity_removed c e = record c {
    indexes = map (λ entry. (entry.0, try_remove_entity entry.1 e)) c.indexes;
  }

  -- `clear`
  unfoldable pub clear : ComponentIndexes K → ComponentIndexes K
  clear c = record c { indexes = []; indexes_having_component = [] }

module _ {K : Type 0} (T : TypeId K) where
  -- `onComponentAdded`
  unfoldable pub on_component_added :
      ComponentIndexes K → K → ℕ → ComponentMap K → ComponentIndexes K
  unfolding call_all
  on_component_added c t e m = elim (find T.eq t c.indexes_having_component) [
    | none ↦ c
    | some ps ↦ record c { indexes = call_all (λ ix. try_add_entity T.eq ix e m) ps c.indexes }
  ]

  -- `onComponentRemoved`
  unfoldable pub on_component_removed : ComponentIndexes K → K → ℕ → ComponentIndexes K
  unfolding call_all
  on_component_removed c t e = elim (find T.eq t c.indexes_having_component) [
    | none ↦ c
    | some ps ↦ record c { indexes = call_all (λ ix. try_remove_entity ix e) ps c.indexes }
  ]

  -- `mIndexes.find(key)`
  unfoldable pub find_index : IndexKey K → List (IndexKey K × Index K) → Option (Index K)
  find_index key [] = none
  find_index key ((k, ix) ∷ ixs) = if eq_key T k key then some ix else find_index key ixs

  -- `mIndexesHavingComponent[typeId].push_back(&index)` for each component type.
  unfoldable pub register : List K → ℕ → List (K × List ℕ) → List (K × List ℕ)
  register [] p having = having
  register (t ∷ ts) p having =
      register ts p (modify T.eq t (λ ps. ps ++ p ∷ []) (ensure T.eq t [] having))

  -- `getOrCreateIndex<Components...>`: the indexes after the call, and the one that it refers to.
  unfoldable pub get_or_create_index :
      ComponentIndexes K → List K → ComponentMap K → ComponentIndexes K × Index K
  unfolding find_index register
  get_or_create_index c pack m =
      let key = create_key T pack in
      elim (find_index key c.indexes) [
        | some ix ↦ (c, ix)
        | none ↦
            let ix = populate T.eq (make_index pack) m in
            (
              record {
                indexes_having_component =
                    register ix.component_types (length c.indexes) c.indexes_having_component;
                indexes = c.indexes ++ (key, ix) ∷ [];
              },
              ix,
            )
      ]

  -- `initializeIndex<Components...>`
  unfoldable pub initialize_index :
      ComponentIndexes K → List K → ComponentMap K → ComponentIndexes K
  unfolding get_or_create_index
  initialize_index c pack m = (get_or_create_index c pack m).0

  -- `getIndex<Components...>`
  unfoldable pub get_index :
      ComponentIndexes K → List K → ComponentMap K → ComponentIndexes K × List ℕ
  unfolding get_or_create_index
  get_index c pack m = let (c', ix) = get_or_create_index c pack m in (c', ix.matching_entities)

  -- `getIndexSize<Components...>`
  unfoldable pub get_index_size :
      ComponentIndexes K → List K → ComponentMap K → ComponentIndexes K × ℕ
  unfolding get_or_create_index
  get_index_size c pack m =
      let (c', ix) = get_or_create_index c pack m in (c', length ix.matching_entities)

  -- `getComponents<Components...>`: the tuples of the index that is found, which is read as an
  -- `Index<Components...>` whatever pack it was made for.
  unfoldable pub get_components :
      ComponentIndexes K → List K → ComponentMap K → ComponentIndexes K × List (List Ptr)
  unfolding get_or_create_index
  get_components c pack m =
      let (c', ix) = get_or_create_index c pack m in (c', ix.cached_components)

  -- `rebuild`
  unfoldable pub rebuild : ComponentIndexes K → ComponentMap K → ComponentIndexes K
  rebuild c m = record c { indexes = map (λ entry. (entry.0, repopulate T.eq entry.1 m)) c.indexes }
