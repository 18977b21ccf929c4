-- ===== src/EntityManager/Collecting.antt =====
-- entity_manager.h: the lists that `collectAllEntities` and `getEntitiesHavingComponents` make.
use raccoon_ecs.Common.{
  ℕ, zero, suc, ◌+◌, ◌%◌, ◌≤◌, ◌<◌, ◌≡◌, refl, Bool, true, false, not, List, [], ◌∷◌, ◌++◌, ◌&&◌,
  map, arith, get_or, length, min, all, elem, Unique, ℕ_discrete, ltb, leb, ◌==◌, if◌then◌else◌,
  get_or_beyond, ap, inl, inr, Bool-cases,
}
use raccoon_ecs.Outcome.{Ptr, nullptr, ok, ◌>>=◌}
use raccoon_ecs.Entity.{Entity, entity, u32_mod, eq_entity}
use raccoon_ecs.TypeId.{TypeId}
use raccoon_ecs.ComponentMap.{ComponentMap, component_at, get_component_vector_by_id}
use raccoon_ecs.Indexes.SparseSet.Add.{has_all}
use raccoon_ecs.EntityManager.{EntityManager}
use raccoon_ecs.EntityManager.Entities.{exists_at, has_entity, collect_loop, collect_all_entities}
use raccoon_ecs.EntityManager.Queries.{shortest_end, having_loop, get_entities_having_components}
use raccoon_ecs.EntityManager.Adding.{has_entity_by_id, at-get_or}
use raccoon_ecs.EntityManager.Owning.{exists-lt}
use raccoon_ecs.EntityManager.Invariant.{IsValid}

abbrev pub listed : Entity → List Entity → Bool
listed e [] = false
listed e (x ∷ xs) = if eq_entity x e then true else listed e xs

-- No entity is listed twice.
abbrev pub ListedOnce : List Entity → Type 0
ListedOnce [] = Unit
ListedOnce (x ∷ xs) = (listed x xs ≡ false) × ListedOnce xs

-- The entities of the flags that are set, from the id `i` on.
live_from : List Bool → List ℕ → ℕ → List Entity
live_from [] versions i = []
live_from (true ∷ flags) versions i =
    entity (i % u32_mod) (get_or versions i 0) ∷ live_from flags versions (i + 1)
live_from (false ∷ flags) versions i = live_from flags versions (i + 1)

collect_loop-live_from :
    (flags : List Bool) (versions : List ℕ) (i : ℕ)
    → i + length flags ≤ length versions
    → collect_loop flags versions i ≡ ok (live_from flags versions i)
unfolding collect_loop live_from
collect_loop-live_from [] versions i fit = refl
collect_loop-live_from (true ∷ flags) versions i fit =
    rw
      (
        at-get_or versions i 0 (omega arith),
        collect_loop-live_from flags versions (i + 1) (omega arith),
      )
      refl
collect_loop-live_from (false ∷ flags) versions i fit =
    collect_loop-live_from flags versions (i + 1) (omega arith)

-- The ids before the start of the loop are not listed.
listed-live_from_below :
    (flags : List Bool) (versions : List ℕ) (i : ℕ) (e : Entity)
    → i + length flags ≤ u32_mod
    → e.raw_id < i
    → listed e (live_from flags versions i) ≡ false
unfolding live_from eq_entity
listed-live_from_below [] versions i e small lt = refl
listed-live_from_below (true ∷ flags) versions i e small lt =
    ground (arith, listed-live_from_below flags versions (i + 1) e)
listed-live_from_below (false ∷ flags) versions i e small lt =
    listed-live_from_below flags versions (i + 1) e (omega arith) (omega arith)

listed-live_from :
    (flags : List Bool) (versions : List ℕ) (i j : ℕ) (e : Entity)
    → i + length flags ≤ u32_mod
    → e.raw_id ≡ i + j
    → listed e (live_from flags versions i)
      ≡ (get_or flags j false && get_or versions e.raw_id 0 == e.version)
unfolding live_from eq_entity
listed-live_from [] versions i j e small at = refl
listed-live_from (true ∷ flags) versions i zero e small at =
    ground
      (arith, listed-live_from_below flags versions (i + 1) e, ap (λ x. get_or versions x 0) at)
listed-live_from (false ∷ flags) versions i zero e small at =
    ground (arith, listed-live_from_below flags versions (i + 1) e)
listed-live_from (true ∷ flags) versions i (suc j) e small at =
    ground (arith, listed-live_from flags versions (i + 1) j e)
listed-live_from (false ∷ flags) versions i (suc j) e small at =
    listed-live_from flags versions (i + 1) j e (omega arith) (omega arith)

live_from-ListedOnce :
    (flags : List Bool) (versions : List ℕ) (i : ℕ)
    → i + length flags ≤ u32_mod
    → ListedOnce (live_from flags versions i)
unfolding live_from
live_from-ListedOnce [] versions i small = tt
live_from-ListedOnce (true ∷ flags) versions i small = (
  listed-live_from_below flags versions (i + 1) (entity (i % u32_mod) (get_or versions i 0))
      (omega arith) (omega arith),
  live_from-ListedOnce flags versions (i + 1) (omega arith),
)
live_from-ListedOnce (false ∷ flags) versions i small =
    live_from-ListedOnce flags versions (i + 1) (omega arith)

-- On a valid manager `collectAllEntities` returns, and lists exactly the entities that the manager has,
-- each once.
pub collect_all_entities_lem :
    {K W : Type 0} (T : TypeId K) (s : EntityManager K W)
    → IsValid T s
    → (es : List Entity) × (collect_all_entities s ≡ ok es)
      × ((e : Entity) → listed e es ≡ has_entity s e)
      × ListedOnce es
unfolding collect_all_entities exists_at
collect_all_entities_lem T s v =
    let flags = s.entity_existance_flags in
    let small : 0 + length flags ≤ u32_mod = omega (arith, v.few, v.parallel) in
    (
      live_from flags s.entity_versions 0,
      collect_loop-live_from flags s.entity_versions 0 (omega (arith, v.parallel)),
      λ e. ground (
        arith,
        listed-live_from flags s.entity_versions 0 e.raw_id e small,
        has_entity_by_id s e v.parallel,
      ),
      live_from-ListedOnce flags s.entity_versions 0 small,
    )

-- The ids that the second loop of `getEntitiesHavingComponents` finds.
having_ids : (ℕ → Bool) → ℕ → ℕ → List ℕ
having_ids f zero i = []
having_ids f (suc n) i = let rest = having_ids f n (i + 1) in if f i then i ∷ rest else rest

elem-having_ids :
    (f : ℕ → Bool) (n i x : ℕ)
    → elem ℕ_discrete x (having_ids f n i) ≡ (leb i x && ltb x (i + n) && f x)
unfolding having_ids elem
elem-having_ids f zero i x = ground arith
elem-having_ids f (suc n) i x = ground (arith, elem-having_ids f n (i + 1) x, ap f)

Unique-having_ids : (f : ℕ → Bool) (n i : ℕ) → Unique ℕ_discrete (having_ids f n i)
unfolding having_ids
Unique-having_ids f zero i = tt
Unique-having_ids f (suc n) i =
    ground (arith, elem-having_ids f n (i + 1) i, Unique-having_ids f n (i + 1))

shortest_end-le : (vs : List (List Ptr)) (n : ℕ) → shortest_end vs n ≤ n
unfolding shortest_end
shortest_end-le [] n = omega arith
shortest_end-le (v ∷ vs) n = omega (arith, shortest_end-le vs (min n (length v)))

module _ {K : Type 0} (dec : Discrete K) (m : ComponentMap K) where
  all-has_all :
      (types : List K) (i : ℕ)
      → all
          (λ v. not (get_or v i nullptr == nullptr))
          (map (get_component_vector_by_id dec m) types)
        ≡ has_all dec m types i
  unfolding has_all component_at
  all-has_all [] i = refl
  all-has_all (k ∷ ks) i = rw (all-has_all ks i)

  having_loop-having_ids :
      (types : List K) (versions : List ℕ) (n i : ℕ)
      → ((x : ℕ) → has_all dec m types x ≡ true → x < length versions)
      → having_loop (map (get_component_vector_by_id dec m) types) versions n i
        ≡ ok (
            map
              (λ x. entity (x % u32_mod) (get_or versions x 0))
              (having_ids (has_all dec m types) n i))
  unfolding having_loop having_ids
  having_loop-having_ids types versions zero i inside = refl
  having_loop-having_ids types versions (suc n) i inside =
      let rest = having_loop-having_ids types versions n (i + 1) inside in
      elim (Bool-cases (has_all dec m types i)) [
        | inl full ↦
            rw (all-has_all types i, full, at-get_or versions i 0 (inside i full), rest) refl
        | inr part ↦ rw (all-has_all types i, part) rest
      ]

  lt-shortest_end :
      (types : List K) (n x : ℕ)
      → has_all dec m types x ≡ true
      → x < n
      → x < shortest_end (map (get_component_vector_by_id dec m) types) n
  unfolding shortest_end has_all component_at
  lt-shortest_end [] n x h lt = lt
  lt-shortest_end (k ∷ ks) n x h lt =
      let vector = get_component_vector_by_id dec m k in
      ground (arith, get_or_beyond vector x nullptr, lt-shortest_end ks (min n (length vector)) x)

-- Who has components is an entity, so its version is there to be read.
found_inside :
    {K W : Type 0} (T : TypeId K) (s : EntityManager K W)
    → IsValid T s
    → (k : K) (ks : List K) (x : ℕ) → has_all T.eq s.components (k ∷ ks) x ≡ true
    → x < length s.entity_versions
unfolding has_all
found_inside T s v k ks x all_there = elim (Bool-cases (exists_at s x)) [
  | inl there ↦ omega (arith, (exists-lt T s x v there).0, v.parallel)
  | inr gone ↦ absurd (ground (arith, v.owned k x gone))
]

-- On a valid manager, for a list of types that is not empty, `getEntitiesHavingComponents` returns and
-- appends one entity for each raw
-- id that has all the components, but for the greatest `RawId`, which it leaves out.
pub get_entities_having_components_lem :
    {K W : Type 0} (T : TypeId K) (s : EntityManager K W) (k : K) (ks : List K) (out : List Entity)
    → IsValid T s
    → (ids : List ℕ) × (get_entities_having_components T s (k ∷ ks) out
        ≡ ok (out ++ map (λ x. entity (x % u32_mod) (get_or s.entity_versions x 0)) ids))
      × Unique ℕ_discrete ids
      × ((x : ℕ)
          → elem ℕ_discrete x ids ≡ (ltb x 4294967295 && has_all T.eq s.components (k ∷ ks) x))
unfolding get_entities_having_components
get_entities_having_components_lem T s k ks out v =
    let types = k ∷ ks in
    let vectors = map (get_component_vector_by_id T.eq s.components) types in
    let end = shortest_end vectors 4294967295 in
    let f = has_all T.eq s.components types in
    (
      having_ids f end 0,
      ap (λ r. r >>= λ found. ok (out ++ found))
          (having_loop-having_ids T.eq s.components types s.entity_versions end 0
            (found_inside T s v k ks)),
      Unique-having_ids f end 0,
      λ x. ground (
        arith,
        elem-having_ids f end 0 x,
        shortest_end-le vectors 4294967295,
        lt-shortest_end T.eq s.components types 4294967295 x,
      ),
    )
