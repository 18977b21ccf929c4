-- ===== src/Indexes/Events.antt =====
-- component_indexes.h: `onComponentAdded`, `onComponentRemoved` and `onEntityRemoved`.
use raccoon_ecs.Common.{
  ℕ, ◌<◌, ◌≡◌, refl, Bool, true, false, [], Option, none, some, arith, elem, from_option, ◌≢◌,
  map_option, get_elem?, ℕ_discrete, if◌then◌else◌, Bool-cases, inl, inr, sym, ◌∙◌,
}
use raccoon_ecs.Outcome.{nullptr}
use raccoon_ecs.Entity.{u32_mod}
use raccoon_ecs.TypeId.{TypeId}
use raccoon_ecs.ComponentMap.{ComponentMap, component_at}
use raccoon_ecs.Indexes.SparseSet.{Index, try_add_entity, try_remove_entity}
use raccoon_ecs.Indexes.SparseSet.Add.{component_types-try_add_entity}
use raccoon_ecs.Indexes.SparseSet.Remove.{component_types-try_remove_entity}
use raccoon_ecs.Indexes.Key.{IndexKey}
use raccoon_ecs.Indexes.Exact.{
  Exact, SameBut, Exact-unaffected, try_add_entity-Exact, try_remove_entity-Exact,
  try_remove_entity-Exact_all, Exact-same,
}
use raccoon_ecs.Indexes.Registry.{
  IsConsistent, pointers, get_elem?-call_all, get_elem?-map, on_entry,
}
use raccoon_ecs.Indexes.{
  ComponentIndexes, call_all, on_component_added, on_component_removed, on_entity_removed,
}

module _ {K : Type 0} (f : Index K → Index K) where
  -- Where an entry comes from, if a call reached the place or not.
  origin :
      (o : Option (IndexKey K × Index K)) (b : Bool) (key : IndexKey K) (ix : Index K)
      → (if b then map_option (on_entry f) o else o) ≡ some (key, ix)
      → (old : Index K) × (o ≡ some (key, old)) × (ix ≡ (if b then f old else old))
  origin none true key ix h = cc
  origin none false key ix h = cc
  origin (some (k, old)) true key ix h = (old, ground arith, ground arith)
  origin (some (k, old)) false key ix h = (old, ground arith, ground arith)

  types_kept :
      (o : Option (IndexKey K × Index K)) (b : Bool)
      → ((ix : Index K) → (f ix).component_types ≡ ix.component_types)
      → from_option [] (
          map_option
            (λ entry. entry.1.component_types)
            (if b then map_option (on_entry f) o else o))
        ≡ from_option [] (map_option (λ entry. entry.1.component_types) o)
  types_kept none true kept = refl
  types_kept none false kept = refl
  types_kept (some (k, old)) true kept = kept old
  types_kept (some (k, old)) false kept = refl

module _ {K : Type 0} (T : TypeId K) where
  -- A change of the indexes, place by place, that keeps the component types.
  changed-IsConsistent :
      (m n : ComponentMap K) (c d : ComponentIndexes K) (hit : ℕ → Bool) (f : Index K → Index K)
      → IsConsistent T m c
      → d.indexes_having_component ≡ c.indexes_having_component
      → ((p : ℕ)
          → get_elem? d.indexes p ≡ (
              if hit p
              then map_option (on_entry f) (get_elem? c.indexes p)
              else get_elem? c.indexes p))
      → ((ix : Index K) → (f ix).component_types ≡ ix.component_types)
      → ((p : ℕ) (key : IndexKey K) (ix : Index K)
          → get_elem? c.indexes p ≡ some (key, ix)
          → Exact T.eq n (if hit p then f ix else ix))
      → IsConsistent T n d
  changed-IsConsistent m n c d hit f v same reads kept exact = record {
    exact = λ p key ix h.
        let (old, e, is) = origin f (get_elem? c.indexes p) (hit p) key ix (sym (reads p) ∙ h) in
        rw is (exact p key old e);
    keyed = λ p key ix h.
        let (old, e, is) = origin f (get_elem? c.indexes p) (hit p) key ix (sym (reads p) ∙ h) in
        ground (arith, v.keyed p key old e, kept old, is);
    registered = λ t p.
        rw (same, reads p, types_kept f (get_elem? c.indexes p) (hit p) kept) (v.registered t p);
    once = rw same v.once;
  }

  on_component_added-call_all :
      (c : ComponentIndexes K) (t : K) (e : ℕ) (m : ComponentMap K)
      → on_component_added T c t e m ≡ record c {
        indexes =
            call_all
              (λ ix. try_add_entity T.eq ix e m)
              (pointers T.eq c.indexes_having_component t)
              c.indexes;
      }
  unfolding on_component_added call_all
  on_component_added-call_all c t e m = ground arith

  on_component_removed-call_all :
      (c : ComponentIndexes K) (t : K) (e : ℕ)
      → on_component_removed T c t e ≡ record c {
        indexes =
            call_all
              (λ ix. try_remove_entity ix e)
              (pointers T.eq c.indexes_having_component t)
              c.indexes;
      }
  unfolding on_component_removed call_all
  on_component_removed-call_all c t e = ground arith

  module _ (m n : ComponentMap K) (c : ComponentIndexes K) (t : K) (e : ℕ)
      (v : IsConsistent T m c) where
    -- The calls through the pointers that are registered for a type.
    called-IsConsistent :
        (f : Index K → Index K)
        → SameBut T.eq m n t e
        → ((ix : Index K) → (f ix).component_types ≡ ix.component_types)
        → ((ix : Index K)
            → elem T.eq t ix.component_types ≡ true
            → Exact T.eq m ix
            → Exact T.eq n (f ix))
        → IsConsistent T n (record c {
          indexes = call_all f (pointers T.eq c.indexes_having_component t) c.indexes;
        })
    called-IsConsistent f s kept exact =
        changed-IsConsistent m n c _
          (λ p. elem ℕ_discrete p (pointers T.eq c.indexes_having_component t)) f v refl
          (λ p. get_elem?-call_all f _ p c.indexes (v.once t)) kept
          (λ p key ix h.
            let typed : elem ℕ_discrete p (pointers T.eq c.indexes_having_component t)
                ≡ elem T.eq t ix.component_types =
              ground (arith, v.registered t p) in
            elim (Bool-cases (elem T.eq t ix.component_types)) [
              | inl has ↦ rw (typed, has) (exact ix has (v.exact p key ix h))
              | inr not_has ↦
                  rw (typed, not_has) (Exact-unaffected T.eq s ix (v.exact p key ix h) not_has)
            ])

    -- If the component map gains the component of type `t` of the raw id `e`, which it lacked, and
    -- changes nowhere else, then `onComponentAdded` keeps all the indexes exact and registered.
    pub on_component_added-IsConsistent :
        SameBut T.eq m n t e
        → component_at T.eq m t e ≡ nullptr
        → e < u32_mod
        → IsConsistent T n (on_component_added T c t e n)
    on_component_added-IsConsistent s empty lt = rw on_component_added-call_all (
        called-IsConsistent (λ ix. try_add_entity T.eq ix e n) s
          (λ ix. component_types-try_add_entity T.eq ix e n)
          (λ ix has x. try_add_entity-Exact T.eq s ix x has empty lt))

    -- If the component map loses the component of type `t` of the raw id `e` and changes nowhere
    -- else, then `onComponentRemoved` keeps all the indexes exact and registered.
    pub on_component_removed-IsConsistent :
        SameBut T.eq m n t e
        → component_at T.eq n t e ≡ nullptr
        → IsConsistent T n (on_component_removed T c t e)
    on_component_removed-IsConsistent s empty = rw on_component_removed-call_all (
        called-IsConsistent (λ ix. try_remove_entity ix e) s
          (λ ix. component_types-try_remove_entity ix e)
          (λ ix has x. try_remove_entity-Exact T.eq s ix x has empty))

  -- If the component map loses all the components of the raw id `e` and changes nowhere else, then
  -- `onEntityRemoved` keeps all the indexes exact and registered.
  pub on_entity_removed-IsConsistent :
      (m n : ComponentMap K) (c : ComponentIndexes K) (e : ℕ)
      → IsConsistent T m c
      → ((k : K) → component_at T.eq n k e ≡ nullptr)
      → ((k : K) (j : ℕ) → e ≢ j → component_at T.eq n k j ≡ component_at T.eq m k j)
      → IsConsistent T n (on_entity_removed c e)
  unfolding on_entity_removed
  on_entity_removed-IsConsistent m n c e v empty same =
      changed-IsConsistent m n c _ (λ _. true) (λ ix. try_remove_entity ix e) v refl
        (λ p. get_elem?-map (λ ix. try_remove_entity ix e) p c.indexes)
        (λ ix. component_types-try_remove_entity ix e)
        (λ p key ix h. try_remove_entity-Exact_all T.eq m n e ix (v.exact p key ix h) empty same)

  -- A map that reads the same keeps the indexes as they are.
  pub IsConsistent-same :
      (m n : ComponentMap K) (c : ComponentIndexes K)
      → IsConsistent T m c
      → ((k : K) (j : ℕ) → component_at T.eq n k j ≡ component_at T.eq m k j)
      → IsConsistent T n c
  IsConsistent-same m n c v same = record {
    exact = λ p key ix h. Exact-same T.eq m n ix (v.exact p key ix h) same;
    keyed = v.keyed;
    registered = v.registered;
    once = v.once;
  }
