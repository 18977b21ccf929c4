-- ===== src/Indexes/Registry.antt =====
-- component_indexes.h: the invariant of `ComponentIndexes`: each index is exact, and the lists of
-- `mIndexesHavingComponent` point to the indexes with that type, each of them once.
use raccoon_ecs.Common.{
  ℕ, zero, suc, ◌≡◌, refl, List, [], ◌∷◌, some, arith, ◌==◌, if◌then◌else◌, elem, Unique, find,
  from_option, map_option, get_elem?, ℕ_discrete, map,
}
use raccoon_ecs.TypeId.{TypeId}
use raccoon_ecs.ComponentMap.{ComponentMap}
use raccoon_ecs.Indexes.SparseSet.{Index}
use raccoon_ecs.Indexes.Key.{IndexKey, create_key}
use raccoon_ecs.Indexes.Exact.{Exact}
use raccoon_ecs.Indexes.{ComponentIndexes, no_indexes, call_at, call_all}

module _ {K : Type 0} where
  -- The types of the index behind a pointer; none behind a pointer to nothing.
  abbrev pub types_at : List (IndexKey K × Index K) → ℕ → List K
  types_at ixs p = from_option [] (map_option (λ entry. entry.1.component_types) (get_elem? ixs p))

  -- The pointers that are registered for a type.
  abbrev pub pointers : Discrete K → List (K × List ℕ) → K → List ℕ
  pointers dec having t = from_option [] (find dec t having)

  pub get_elem?-call_at :
      (f : Index K → Index K) (p q : ℕ) (ixs : List (IndexKey K × Index K))
      → get_elem? (call_at f p ixs) q ≡ (
          if p == q
          then map_option (λ entry. (entry.0, f entry.1)) (get_elem? ixs q)
          else get_elem? ixs q)
  unfolding call_at
  get_elem?-call_at f p q [] = ground arith
  get_elem?-call_at f zero zero (x ∷ ixs) = ground arith
  get_elem?-call_at f zero (suc q) (x ∷ ixs) = ground arith
  get_elem?-call_at f (suc p) zero (x ∷ ixs) = ground arith
  get_elem?-call_at f (suc p) (suc q) (x ∷ ixs) = ground (arith, get_elem?-call_at f p q ixs)

  -- Calls through distinct pointers reach each index at most once.
  pub get_elem?-call_all :
      (f : Index K → Index K) (ps : List ℕ) (q : ℕ) (ixs : List (IndexKey K × Index K))
      → Unique ℕ_discrete ps
      → get_elem? (call_all f ps ixs) q ≡ (
          if elem ℕ_discrete q ps
          then map_option (λ entry. (entry.0, f entry.1)) (get_elem? ixs q)
          else get_elem? ixs q)
  unfolding call_all elem
  get_elem?-call_all f [] q ixs u = refl
  get_elem?-call_all f (p ∷ ps) q ixs u =
      ground (arith, get_elem?-call_at f p q ixs, get_elem?-call_all f ps q (call_at f p ixs) u.1)

  -- A method call on the index of an entry.
  abbrev pub on_entry : (Index K → Index K) → IndexKey K × Index K → IndexKey K × Index K
  on_entry f entry = (entry.0, f entry.1)

  pub get_elem?-map :
      (f : Index K → Index K) (q : ℕ) (ixs : List (IndexKey K × Index K))
      → get_elem? (map (on_entry f) ixs) q ≡ map_option (on_entry f) (get_elem? ixs q)
  get_elem?-map f q [] = refl
  get_elem?-map f zero (x ∷ ixs) = refl
  get_elem?-map f (suc q) (x ∷ ixs) = get_elem?-map f q ixs

module _ {K : Type 0} (T : TypeId K) where
  pub record IsConsistent (m : ComponentMap K) (c : ComponentIndexes K) : Type 0 where
    pub exact :
        (p : ℕ) (key : IndexKey K) (ix : Index K)
        → get_elem? c.indexes p ≡ some (key, ix)
        → Exact T.eq m ix
    pub keyed :
        (p : ℕ) (key : IndexKey K) (ix : Index K)
        → get_elem? c.indexes p ≡ some (key, ix)
        → key ≡ create_key T ix.component_types
    pub registered :
        (t : K) (p : ℕ)
        → elem ℕ_discrete p (pointers T.eq c.indexes_having_component t)
          ≡ elem T.eq t (types_at c.indexes p)
    pub once : (t : K) → Unique ℕ_discrete (pointers T.eq c.indexes_having_component t)

  pub no_indexes-IsConsistent : (m : ComponentMap K) → IsConsistent m no_indexes
  unfolding no_indexes find elem
  no_indexes-IsConsistent m = record {
    exact = λ p key ix h. cc;
    keyed = λ p key ix h. cc;
    registered = λ t p. refl;
    once = λ t. tt;
  }
