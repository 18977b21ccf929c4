-- ===== src/CombinedView/Loop.antt =====
-- utils/combined_entity_manager_view.h: the loop over the records, where each call keeps the entities and
-- the components of its manager. Several records may refer to the same manager.
use raccoon_ecs.Common.{
  List, ℕ, ◌<◌, ◌≡◌, refl, [], ◌∷◌, some, length, arith, get_elem?, set, set-cases, ap, subst, inl,
  inr, sym, ◌∙◌, get_elem?_inside, length-set,
}
use raccoon_ecs.Outcome.{Outcome, ok}
use raccoon_ecs.TypeId.{TypeId}
use raccoon_ecs.EntityManager.{EntityManager}
use raccoon_ecs.EntityManager.Adding.{at-get_elem?}
use raccoon_ecs.EntityManager.Gone.{SameEntities}
use raccoon_ecs.EntityManager.Invariant.{IsValid}
use raccoon_ecs.EntityView.{Managers, call_manager}
use raccoon_ecs.CombinedView.{Record, CombinedView, for_each_record}

module _ {K W : Type 0} (order : EntityManager K W → List K) where
  -- The managers have the same entities with the same components, and the same order of tuples.
  abbrev pub Same : EntityManager K W → EntityManager K W → Type 0
  Same s s' = (s'.components ≡ s.components) × SameEntities s s' × (order s' ≡ order s)

  abbrev pub SameAll : Managers K W → Managers K W → Type 0
  SameAll ms ms' =
      (length ms' ≡ length ms)
      × ((i : ℕ) (s' : EntityManager K W)
          → get_elem? ms' i ≡ some s'
          → (s : EntityManager K W) × (get_elem? ms i ≡ some s) × Same s s')

module _ {K W : Type 0} where
  abbrev pub AllValid : TypeId K → Managers K W → Type 0
  AllValid T ms = (i : ℕ) (s : EntityManager K W) → get_elem? ms i ≡ some s → IsValid T s

module _ {K W D : Type 0} where
  -- No reference is dangling.
  abbrev pub InRange : CombinedView D → Managers K W → Type 0
  InRange [] ms = Unit
  InRange (r ∷ rs) ms = (r.entity_manager < length ms) × InRange rs ms

  -- One step for each record in turn, of the manager that it refers to.
  abbrev pub Runs {ℓ} :
      {A : Type ℓ}
      → (Record D → EntityManager K W → A → A → Type ℓ)
      → CombinedView D
      → Managers K W
      → A
      → A
      → Type ℓ
  Runs step [] ms a b = a ≡ b
  Runs {A} step (r ∷ rs) ms a b =
      (s : EntityManager K W) × (c : A) × (get_elem? ms r.entity_manager ≡ some s)
      × step r s a c
      × Runs step rs ms c b

module _ {K W : Type 0} (order : EntityManager K W → List K) where
  SameAll-set :
      (ms : Managers K W) (i : ℕ) (s s' : EntityManager K W)
      → get_elem? ms i ≡ some s
      → i < length ms
      → Same order s s'
      → SameAll order ms (set ms i s')
  SameAll-set ms i s s' at_s lt same = (
    length-set ms i s',
    λ j t at_t. elim (set-cases ms i j s' t lt at_t) [
      | inl c ↦ (s, ap (get_elem? ms) (sym c.0) ∙ at_s, subst (Same order s) c.1 same)
      | inr c ↦ (t, c.1, (refl, (refl, refl, refl), refl))
    ],
  )

  SameAll-then :
      (ms ms1 ms2 : Managers K W)
      → SameAll order ms ms1
      → SameAll order ms1 ms2
      → SameAll order ms ms2
  SameAll-then ms ms1 ms2 a b = (
    b.0 ∙ a.0,
    λ i s2 at_s2.
        let (s1, at_s1, same1) = b.1 i s2 at_s2 in
        let (s, at_s, same) = a.1 i s1 at_s1 in
        (
          s,
          at_s,
          (
            same1.0 ∙ same.0,
            (same1.1.0 ∙ same.1.0, same1.1.1 ∙ same.1.1, same1.1.2 ∙ same.1.2),
            same1.2 ∙ same.2,
          ),
        ),
  )

module _ {K W : Type 0} where
  pub AllValid-set :
      (T : TypeId K) (ms : Managers K W) (i : ℕ) (s' : EntityManager K W)
      → i < length ms
      → IsValid T s'
      → AllValid T ms
      → AllValid T (set ms i s')
  AllValid-set T ms i s' lt v all j t at_t = elim (set-cases ms i j s' t lt at_t) [
    | inl c ↦ subst (IsValid T) c.1 v
    | inr c ↦ all j t c.1
  ]

module _ {K W D : Type 0} where
  pub InRange-same :
      (rs : CombinedView D) (ms ms' : Managers K W)
      → length ms' ≡ length ms
      → InRange rs ms
      → InRange rs ms'
  InRange-same [] ms ms' same inside = tt
  InRange-same (r ∷ rs) ms ms' same (lt, inside) =
      (omega (arith, same, lt), InRange-same rs ms ms' same inside)

module _ {K W D A : Type 0} (T : TypeId K) (order : EntityManager K W → List K)
    (method : Record D → EntityManager K W → A → Outcome (EntityManager K W × A))
    (step : Record D → EntityManager K W → A → A → Type 0)
    (returns : (r : Record D) (s : EntityManager K W) (a : A)
      → IsValid T s
      → (s' : EntityManager K W) × (b : A) × (method r s a ≡ ok (s', b))
        × IsValid T s'
        × Same order s s'
        × step r s a b)
    (transport : (r : Record D) (s s' : EntityManager K W) (a b : A)
      → Same order s s'
      → step r s' a b
      → step r s a b) where
  Runs-SameAll :
      (rs : CombinedView D) (ms ms' : Managers K W) (a b : A)
      → SameAll order ms ms'
      → Runs step rs ms' a b
      → Runs step rs ms a b
  Runs-SameAll [] ms ms' a b same e = e
  Runs-SameAll (r ∷ rs) ms ms' a b same (s', c, at_s', run, later) =
      let (s, at_s, same_s) = same.1 r.entity_manager s' at_s' in
      (s, c, at_s, transport r s s' a c same_s run, Runs-SameAll rs ms ms' c b same later)

  pub for_each_record-Runs :
      (rs : CombinedView D) (ms : Managers K W) (a : A)
      → AllValid T ms
      → InRange rs ms
      → (ms' : Managers K W) × (b : A) × (for_each_record method rs ms a ≡ ok (ms', b))
        × AllValid T ms'
        × SameAll order ms ms'
        × Runs step rs ms a b
  unfolding for_each_record call_manager
  for_each_record-Runs [] ms a all inside =
      (ms, a, refl, all, (refl, λ i s at_s. (s, at_s, (refl, (refl, refl, refl), refl))), refl)
  for_each_record-Runs (r ∷ rs) ms a all (lt, inside) =
      let i = r.entity_manager in
      let (s, at_s) = get_elem?_inside ms i lt in
      let (s', c, done, valid, same, run) = returns r s a (all i s at_s) in
      let ms1 = set ms i s' in
      let same1 = SameAll-set order ms i s s' at_s lt same in
      let (ms', b, rest, all', same', later) =
        for_each_record-Runs rs ms1 c (AllValid-set T ms i s' lt valid all)
          (InRange-same rs ms ms1 same1.0 inside) in
      (
        ms',
        b,
        rw (at-get_elem? ms i s at_s, done) rest,
        all',
        SameAll-then order ms ms1 ms' same1 same',
        (s, c, at_s, run, Runs-SameAll rs ms ms1 c b same1 later),
      )
