-- ===== src/Ownership/Vectors.antt =====
-- entity_manager.h: the loop of `removeEntity` over a factory with pools.
use raccoon_ecs.Common.{
  [], ℕ, ◌≡◌, ◌∷◌, none, some, arith, ◌==◌, if◌then◌else◌, ite, ap, sym, ◌∙◌, find, Distinct,
  get_or, List, eq-or-ne, inl, inr,
}
use raccoon_ecs.Outcome.{Ptr, nullptr, ok}
use raccoon_ecs.Env.{call_deleter}
use raccoon_ecs.TypeId.{TypeId}
use raccoon_ecs.ComponentMap.{ComponentMap, component_at, get_component_vector_by_id}
use raccoon_ecs.ComponentFactory.{
  Maker, flag, pooled, ComponentFactory, Memory, delete, get_deletion_fn, factory_env,
}
use raccoon_ecs.ComponentFactory.Deleting.{delete-Deleted, delete_null}
use raccoon_ecs.EntityManager.Leaving.{Removes}
use raccoon_ecs.Ownership.Holding.{
  Replaces, Replaces-cases, IsPooled, Holds, Holds-same, Holds-Deleted,
}

module _ {K : Type 0} (T : TypeId K) where
  -- All component types are registered.
  abbrev pub KnowsAll : ComponentFactory K → Type 0
  KnowsAll F = (k : K) → (maker : Maker) × (find T.eq k F.component_creators ≡ some maker)

  -- What is held while the vectors that are left still have their components of the id.
  abbrev pub left : ComponentMap K → ℕ → ComponentMap K → K → ℕ → Ptr
  left all i rest k j = if i == j then component_at T.eq rest k i else component_at T.eq all k j

  pub left_all :
      (all : ComponentMap K) (i : ℕ) (k : K) (j : ℕ)
      → left all i all k j ≡ component_at T.eq all k j
  left_all all i k j = ground (arith, ap (component_at T.eq all k))

  pub left_none :
      (all : ComponentMap K) (i : ℕ) (k : K) (j : ℕ)
      → (if i == j then nullptr else component_at T.eq all k j) ≡ left all i [] k j
  unfolding component_at get_component_vector_by_id find
  left_none all i k j = ground arith

module _ {K V : Type 0} (T : TypeId K) (F : ComponentFactory K) (held held' : K → ℕ → Ptr)
    (m : Memory K V) (k : K) (i : ℕ) (h : Holds T F held m)
    (r : Replaces T k i nullptr held held') where
  pub forgotten :
      ((j : K) (x : ℕ) → IsPooled T F j → k ≡ j → i ≡ x → held j x ≡ nullptr) → Holds T F held' m
  forgotten none_held = Holds-same T F held held' m h (λ j x a.
      elim (Replaces-cases T k i nullptr held held' r j x) [
        | inl c ↦ c.2 ∙ sym (none_held j x a c.0 c.1)
        | inr c ↦ c.1
      ])

  pub delete-Holds :
      (maker : Maker)
      → find T.eq k F.component_creators ≡ some maker
      → Holds T F held' (delete maker (held k i) m)
  delete-Holds flag known =
      unfold delete in
      forgotten (λ j x (l, e) same _.
        absurd (ground (arith, e, known, ap (λ y. find T.eq y F.component_creators) same)))
  delete-Holds (pooled l) known = elim (eq-or-ne (held k i) nullptr) [
    | inl empty ↦
        let same : delete (pooled l) (held k i) m ≡ m =
          ap (λ p. delete (pooled l) p m) empty ∙ delete_null T m h.sound (pooled l) in
        rw same (forgotten (λ j x a e f. rw (sym e, sym f) empty))
    | inr real ↦
        let (used, not_static) = h.loaded k i (l, known) real in
        Holds-Deleted T F held held' m (delete (pooled l) (held k i) m) k i h
          (delete-Deleted T m h.sound l (held k i) (h.fits.in_range k l known) used not_static)
          (l, known) real r
  ]

module _ {K V : Type 0} (T : TypeId K) (default_component : K → V) (copy_component : V → V)
    (F : ComponentFactory K) where
  -- The deletion of what is held for a type and id.
  pub call_deleter-Holds :
      (held held' : K → ℕ → Ptr) (m : Memory K V) (k : K) (i : ℕ) (maker : Maker)
      → Holds T F held m
      → find T.eq k F.component_creators ≡ some maker
      → Replaces T k i nullptr held held'
      → (m' : Memory K V) × (call_deleter
            (factory_env T default_component copy_component F)
            k
            (held k i)
            m
          ≡ ok m')
        × Holds T F held' m'
  call_deleter-Holds held held' m k i maker h known r =
      let same : find T.eq k F.component_deleters ≡ some maker =
        ap (find T.eq k) h.fits.same_deleters ∙ known in
      (
        delete maker (held k i) m,
        unfold call_deleter factory_env get_deletion_fn in ground (arith, same),
        delete-Holds T F held held' m k i h r maker known,
      )

  pub component_at-cons :
      (k : K) (ps : List Ptr) (rest : ComponentMap K) (j : K) (i : ℕ)
      → component_at T.eq ((k, ps) ∷ rest) j i
        ≡ ite (T.eq k j) (get_or ps i nullptr) (component_at T.eq rest j i)
  unfolding component_at get_component_vector_by_id find
  component_at-cons k ps rest j i = ground arith

  pub component_at_absent :
      (k : K) (rest : ComponentMap K) (i : ℕ)
      → find T.eq k rest ≡ none
      → component_at T.eq rest k i ≡ nullptr
  unfolding component_at get_component_vector_by_id
  component_at_absent k rest i absent = ground (arith, absent)

  pub removes-Holds :
      (all : ComponentMap K) (i : ℕ)
      → KnowsAll T F
      → Removes
          (factory_env T default_component copy_component F)
          i
          (λ rest m. Distinct T.eq rest × Holds T F (left T all i rest) m)
  removes-Holds all i knows = record {
    deletes = λ k ps rest m ((absent, once), h) real.
        let (maker, known) = knows k in
        let r : Replaces T k i nullptr (left T all i ((k, ps) ∷ rest)) (left T all i rest) = λ j x.
          ground (arith, component_at-cons k ps rest j i, component_at_absent k rest i absent) in
        let (m', called, h') =
          call_deleter-Holds (left T all i ((k, ps) ∷ rest)) (left T all i rest) m k i maker h known
            r in
        let same : left T all i ((k, ps) ∷ rest) k i ≡ get_or ps i nullptr =
          ground (arith, component_at-cons k ps rest k i) in
        (m', rw same at called, (once, h'));
    skips = λ k ps rest m ((absent, once), h) none_there. (
      once,
      Holds-same T F (left T all i ((k, ps) ∷ rest)) (left T all i rest) m h (λ j x a. ground (
        arith,
        component_at-cons k ps rest j i,
        component_at_absent k rest i absent,
        none_there,
      )),
    );
  }
