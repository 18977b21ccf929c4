-- ===== src/Indexes/Query.antt =====
-- component_indexes.h: `getOrCreateIndex` and the queries on it.
use raccoon_ecs.Common.{
  elem-append_end, Unique-append_end, ℕ, suc, ◌≤◌, ◌≡◌, refl, true, false, List, [], ◌∷◌, ◌++◌,
  none, some, arith, elem, Unique, ◌≢◌, length, get_elem?, get_elem?-push_back, ℕ_discrete,
  if◌then◌else◌, Bool-cases, Option-cases, inl, inr, sym, ap, subst, ◌∙◌, modify, ensure, ite,
  find-modify_self, find-modify_ne, find-ensure_self, find-ensure_ne, eq-or-ne, ◌==◌, map,
}
use raccoon_ecs.Entity.{u32_mod}
use raccoon_ecs.TypeId.{TypeId}
use raccoon_ecs.ComponentMap.{ComponentMap, get_component_vector_by_id}
use raccoon_ecs.Indexes.SparseSet.{
  Index, invalid_index, make_index, populate, shortest_vector_size, repopulate,
}
use raccoon_ecs.Indexes.SparseSet.Populate.{
  view-repopulate, length_sparse-repopulate, size-le-vector, expected, size, populate_new,
}
use raccoon_ecs.Indexes.Key.{IndexKey, create_key, eq_key, elem_of_eq_key}
use raccoon_ecs.Indexes.Exact.{Exact}
use raccoon_ecs.Indexes.Registry.{IsConsistent, pointers}
use raccoon_ecs.Indexes.{ComponentIndexes, find_index, register, get_or_create_index}

module _ {K : Type 0} (T : TypeId K) where
  -- The vectors are no longer than there can be raw ids.
  abbrev pub FitsIds : ComponentMap K → Type 0
  FitsIds m = (k : K) → length (get_component_vector_by_id T.eq m k) ≤ u32_mod

  -- A pack of component types that a query can name: one type at least, and none twice.
  abbrev pub IsPack : List K → Type 0
  IsPack pack = (pack ≢ []) × Unique T.eq pack

  bounded :
      (m : ComponentMap K) (ix : Index K)
      → FitsIds m
      → ix.component_types ≢ []
      → size T.eq m ix ≤ u32_mod
  bounded m ix fits some_type = go ix.component_types some_type
    where
      go :
          (types : List K)
          → types ≢ []
          → shortest_vector_size (map (get_component_vector_by_id T.eq m) types) invalid_index
            ≤ u32_mod
      go [] some_type' = absurd (some_type' refl)
      go (k ∷ ks) some_type' = omega (
        arith,
        fits k,
        size-le-vector T.eq m (k ∷ ks) invalid_index k (unfold elem in ground arith),
      )

  -- `repopulate` makes any index exact for the map at hand.
  pub repopulate-Exact :
      (m : ComponentMap K) (ix : Index K)
      → FitsIds m
      → ix.component_types ≢ []
      → Exact T.eq m (repopulate T.eq ix m)
        × ((repopulate T.eq ix m).component_types ≡ ix.component_types)
  repopulate-Exact m ix fits some_type =
      let small = bounded m ix fits some_type in
      let (v, types, reads) =
        view-repopulate T.eq m ix (unfold invalid_index in omega (arith, small)) in
      (
        record {
          valid = v;
          small = omega (arith, small, length_sparse-repopulate T.eq m ix);
          typed = rw types some_type;
          exact = λ e. reads e ∙ sym (ap (λ ts. expected T.eq m ts e) types);
        },
        types,
      )

  pub populate-Exact :
      (m : ComponentMap K) (pack : List K)
      → FitsIds m
      → pack ≢ []
      → Exact T.eq m (populate T.eq (make_index pack) m)
        × ((populate T.eq (make_index pack) m).component_types ≡ pack)
  unfolding make_index
  populate-Exact m pack fits some_type =
      rw populate_new (repopulate-Exact m (make_index pack) fits some_type)

  pointers-push :
      (k t : K) (p : ℕ) (having : List (K × List ℕ))
      → pointers T.eq (modify T.eq k (λ ps. ps ++ p ∷ []) (ensure T.eq k [] having)) t
        ≡ ite (T.eq k t) (pointers T.eq having t ++ p ∷ []) (pointers T.eq having t)
  pointers-push k t p having = elim (T.eq k t) [
    | yes same ↦ rw (← same, find-modify_self, find-ensure_self) (ground arith)
    | no other ↦
        rw
          (
            find-modify_ne T.eq k t (λ ps. ps ++ p ∷ []) (ensure T.eq k [] having) other,
            find-ensure_ne T.eq k t [] having other,
          )
          (ground arith)
  ]

  -- One `push_back` for each type of the pack.
  pointers-register :
      (ts : List K) (p : ℕ) (having : List (K × List ℕ)) (t : K)
      → Unique T.eq ts
      → pointers T.eq (register T ts p having) t
        ≡ (if elem T.eq t ts then pointers T.eq having t ++ p ∷ [] else pointers T.eq having t)
  unfolding register elem
  pointers-register [] p having t u = refl
  pointers-register (k ∷ ks) p having t u =
      let after = modify T.eq k (λ ps. ps ++ p ∷ []) (ensure T.eq k [] having) in
      ground (arith, pointers-register ks p after t u.1, pointers-push k t p having)

  get_elem?_end : (ixs : List (IndexKey K × Index K)) → get_elem? ixs (length ixs) ≡ none
  get_elem?_end [] = refl
  get_elem?_end (x ∷ ixs) = get_elem?_end ixs

  -- One more index, registered for each of its types.
  appended-IsConsistent :
      (m : ComponentMap K) (c : ComponentIndexes K) (ix : Index K)
      → IsConsistent T m c
      → Exact T.eq m ix
      → Unique T.eq ix.component_types
      → IsConsistent T m (record {
        indexes = c.indexes ++ (create_key T ix.component_types, ix) ∷ [];
        indexes_having_component =
            register T ix.component_types (length c.indexes) c.indexes_having_component;
      })
  appended-IsConsistent m c ix v x distinct = record {
    exact = λ p key old h. elim (eq-or-ne p n) [
      | inl last ↦ let is : ix ≡ old = ground (arith, reads p) in rw (← is) x
      | inr before ↦ v.exact p key old (ground (arith, reads p))
    ];
    keyed = λ p key old h. ground (arith, reads p, v.keyed p key old);
    registered = λ t p.
        rw (pointers-register types n having t distinct, reads p)
          (ground (
            arith,
            elem-append_end p n (pointers T.eq having t),
            v.registered t p,
            v.registered t n,
            unregistered t,
            get_elem?_end c.indexes,
          ));
    once = λ t. rw (pointers-register types n having t distinct) (
        ground (
          arith,
          v.once t,
          Unique-append_end n (pointers T.eq having t) (v.once t) (unregistered t),
        ));
  }
    where
      open ix use {component_types as types}
      open c use {indexes_having_component as having}

      n : ℕ
      n = length c.indexes

      reads :
          (p : ℕ)
          → get_elem? (c.indexes ++ (create_key T types, ix) ∷ []) p
            ≡ (if p == n then some (create_key T types, ix) else get_elem? c.indexes p)
      reads = get_elem?-push_back c.indexes (create_key T types, ix)

      unregistered : (t : K) → elem ℕ_discrete n (pointers T.eq having t) ≡ false
      unregistered t = unfold elem in ground (arith, v.registered t n, get_elem?_end c.indexes)

  -- A query keeps all the indexes exact and registered, also where it makes a new one.
  pub get_or_create_index-IsConsistent :
      (m : ComponentMap K) (c : ComponentIndexes K) (pack : List K)
      → IsConsistent T m c
      → FitsIds m
      → IsPack pack
      → IsConsistent T m (get_or_create_index T c pack m).0
  unfolding get_or_create_index
  get_or_create_index-IsConsistent m c pack v fits (some_type, distinct) =
      elim (Option-cases (find_index T (create_key T pack) c.indexes)) [
        | inr (ix, e) ↦ rw (e, get_or_create_index) v
        | inl e ↦
            let (x, types) = populate-Exact m pack fits some_type in
            rw (e, get_or_create_index)
              (subst
                (λ key. IsConsistent T m (record {
                  indexes = c.indexes ++ (key, populate T.eq (make_index pack) m) ∷ [];
                  indexes_having_component =
                      register T (populate T.eq (make_index pack) m).component_types
                        (length c.indexes) c.indexes_having_component;
                }))
                (ap (create_key T) types)
                (appended-IsConsistent m c (populate T.eq (make_index pack) m) v x
                  (subst (Unique T.eq) (sym types) distinct)))
      ]

  find_index-entry :
      (key : IndexKey K) (ixs : List (IndexKey K × Index K)) (ix : Index K)
      → find_index T key ixs ≡ some ix
      → (p : ℕ) × (k : IndexKey K) × (get_elem? ixs p ≡ some (k, ix)) × (eq_key T k key ≡ true)
  unfolding find_index
  find_index-entry key [] ix h = cc
  find_index-entry key ((k, old) ∷ ixs) ix h = elim (Bool-cases (eq_key T k key)) [
    | inl same ↦ (0, k, ground arith, same)
    | inr other ↦
        let (p, k', e, same) = find_index-entry key ixs ix (ground arith) in (suc p, k', e, same)
  ]

  -- A query gives an index that is exact for the map at hand and has the types of the pack, though
  -- maybe in another order.
  pub get_or_create_index-Exact :
      (m : ComponentMap K) (c : ComponentIndexes K) (pack : List K)
      → IsConsistent T m c
      → FitsIds m
      → IsPack pack
      → Exact T.eq m (get_or_create_index T c pack m).1
        × ((t : K)
            → elem T.eq t (get_or_create_index T c pack m).1.component_types ≡ elem T.eq t pack)
  unfolding get_or_create_index
  get_or_create_index-Exact m c pack v fits (some_type, distinct) =
      elim (Option-cases (find_index T (create_key T pack) c.indexes)) [
        | inr (ix, e) ↦
            let (p, k, at, same) = find_index-entry (create_key T pack) c.indexes ix e in
            rw (e, get_or_create_index)
              (
                v.exact p k ix at,
                λ t. elem_of_eq_key T ix.component_types pack t (rw (v.keyed p k ix at) at same),
              )
        | inl e ↦
            let (x, types) = populate-Exact m pack fits some_type in
            rw (e, get_or_create_index) (x, λ t. ap (elem T.eq t) types)
      ]
