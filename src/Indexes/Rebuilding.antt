-- ===== src/Indexes/Rebuilding.antt =====
-- component_indexes.h: `rebuild`.
use raccoon_ecs.Common.{
  List, [], ◌∷◌, map, refl, some-injective, ℕ, ◌≡◌, some, arith, get_elem?, map_option,
  Option-cases, inl, inr, ap, ◌∙◌, elem, sym,
}
use raccoon_ecs.TypeId.{TypeId}
use raccoon_ecs.ComponentMap.{ComponentMap}
use raccoon_ecs.Indexes.SparseSet.{Index, repopulate}
use raccoon_ecs.Indexes.Key.{IndexKey}
use raccoon_ecs.Indexes.Exact.{Exact}
use raccoon_ecs.Indexes.Registry.{IsConsistent, get_elem?-map, on_entry, types_at}
use raccoon_ecs.Indexes.Query.{FitsIds, repopulate-Exact}
use raccoon_ecs.Indexes.{ComponentIndexes, rebuild}

abbrev pub keys_of : {K : Type 0} → List (IndexKey K × Index K) → List (IndexKey K)
keys_of [] = []
keys_of ((key, ix) ∷ ixs) = key ∷ keys_of ixs

keys_of-map :
    {K : Type 0} (f : Index K → Index K) (ixs : List (IndexKey K × Index K))
    → keys_of (map (on_entry f) ixs) ≡ keys_of ixs
keys_of-map f [] = refl
keys_of-map f ((key, ix) ∷ ixs) = ap (◌∷◌ key) (keys_of-map f ixs)

module _ {K : Type 0} (T : TypeId K) (m n : ComponentMap K) (c : ComponentIndexes K)
    (v : IsConsistent T m c) (fits : FitsIds T n) where
  -- Each index after the call is an old one, repopulated.
  rebuilt :
      (p : ℕ) (key : IndexKey K) (ix : Index K)
      → get_elem? (rebuild T c n).indexes p ≡ some (key, ix)
      → (old : Index K) × (get_elem? c.indexes p ≡ some (key, old)) × (ix ≡ repopulate T.eq old n)
  unfolding rebuild
  rebuilt p key ix e =
      let at = get_elem?-map (λ old. repopulate T.eq old n) p c.indexes in
      elim (Option-cases (get_elem? c.indexes p)) [
        | inl absent ↦ absurd (ground (arith, at, absent, e))
        | inr (entry, there) ↦
            let same : ◌≡◌ {A = IndexKey K × Index K} (entry.0, repopulate T.eq entry.1 n)
                (key, ix) =
              some-injective
                (sym (at ∙ ap (map_option (on_entry (λ old. repopulate T.eq old n))) there) ∙ e) in
            (
              entry.1,
              there ∙ ap (λ (k : IndexKey K). some (k, entry.1)) (ap (λ r. r.0) same),
              sym (ap (λ r. r.1) same),
            )
      ]

  repopulated :
      (p : ℕ) (key : IndexKey K) (old : Index K)
      → get_elem? c.indexes p ≡ some (key, old)
      → Exact T.eq n (repopulate T.eq old n)
        × ((repopulate T.eq old n).component_types ≡ old.component_types)
  repopulated p key old there = repopulate-Exact T n old fits (v.exact p key old there).typed

  types_at-rebuild : (p : ℕ) → types_at (rebuild T c n).indexes p ≡ types_at c.indexes p
  unfolding rebuild
  types_at-rebuild p =
      let at = get_elem?-map (λ old. repopulate T.eq old n) p c.indexes in
      elim (Option-cases (get_elem? c.indexes p)) [
        | inl absent ↦ ground (arith, at, absent)
        | inr (entry, there) ↦
            let types = (repopulated p entry.0 entry.1 there).1 in rw (at, there) types
      ]

  -- If the indexes were consistent with some component map, then `rebuild` makes them consistent with
  -- the map at hand, whatever that is, as long as it has no more ids than a `RawId` can tell apart:
  -- each index says what that map says. The indexes are the same as before, under the same keys, each
  -- with its types, and registered for the same types.
  pub rebuild-IsConsistent :
      IsConsistent T n (rebuild T c n)
      × (keys_of (rebuild T c n).indexes ≡ keys_of c.indexes)
      × ((p : ℕ) → types_at (rebuild T c n).indexes p ≡ types_at c.indexes p)
      × ((rebuild T c n).indexes_having_component ≡ c.indexes_having_component)
  rebuild-IsConsistent = (
    record {
      exact = λ p key ix e.
          let (old, there, made) = rebuilt p key ix e in rw made (repopulated p key old there).0;
      keyed = λ p key ix e.
          let (old, there, made) = rebuilt p key ix e in
          rw (made, (repopulated p key old there).1) (v.keyed p key old there);
      registered =
          λ t p. unfold rebuild in v.registered t p ∙ ap (elem T.eq t) (sym (types_at-rebuild p));
      once = λ t. unfold rebuild in v.once t;
    },
    unfold rebuild in keys_of-map (λ old. repopulate T.eq old n) c.indexes,
    types_at-rebuild,
    unfold rebuild in refl,
  )
