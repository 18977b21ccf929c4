-- ===== src/Indexes/TupleOrder.antt =====
-- component_indexes.h: the order of the components in the tuples of an index.
use raccoon_ecs.Common.{◌≡◌, refl, List, none, some, arith, Option-cases, inl, inr, sym, ◌∙◌}
use raccoon_ecs.TypeId.{TypeId}
use raccoon_ecs.ComponentMap.{ComponentMap}
use raccoon_ecs.Indexes.SparseSet.{make_index, populate}
use raccoon_ecs.Indexes.Key.{create_key}
use raccoon_ecs.Indexes.Query.{FitsIds, IsPack, populate-Exact}
use raccoon_ecs.Indexes.{ComponentIndexes, find_index, get_or_create_index}

module _ {K : Type 0} (T : TypeId K) where
  -- The order of the tuples of a query: that of the index that is there for these types, which is the
  -- order of the pack that the index was made for, and that of the pack itself if there is none yet.
  abbrev pub tuple_order : ComponentIndexes K → List K → List K
  tuple_order c pack = elim (find_index T (create_key T pack) c.indexes) [
    | none ↦ pack
    | some ix ↦ ix.component_types
  ]

  pub tuple_order-get_or_create_index :
      (m : ComponentMap K) (c : ComponentIndexes K) (pack : List K)
      → FitsIds T m
      → IsPack T pack
      → (get_or_create_index T c pack m).1.component_types ≡ tuple_order c pack
  unfolding get_or_create_index
  tuple_order-get_or_create_index m c pack fits (some_type, distinct) =
      elim (Option-cases (find_index T (create_key T pack) c.indexes)) [
        | inr (ix, e) ↦
            let old : (get_or_create_index T c pack m).1.component_types ≡ ix.component_types =
              rw (e, get_or_create_index) refl in
            let order : tuple_order c pack ≡ ix.component_types = ground (arith, e) in
            old ∙ sym order
        | inl e ↦
            let new : (get_or_create_index T c pack m).1.component_types
                ≡ (populate T.eq (make_index pack) m).component_types =
              rw (e, get_or_create_index) refl in
            let order : tuple_order c pack ≡ pack = ground (arith, e) in
            new ∙ (populate-Exact T m pack fits some_type).1 ∙ sym order
      ]
