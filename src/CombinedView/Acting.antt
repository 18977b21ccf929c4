-- ===== src/CombinedView/Acting.antt =====
-- utils/combined_entity_manager_view.h: `executeScheduledActions` of several managers.
use raccoon_ecs.Common.{
  ℕ, ◌≡◌, ◌≢◌, refl, Bool, true, false, ◌&&◌, [], ◌∷◌, some, arith, get_elem?, set, ◌==◌,
  if◌then◌else◌, inl, inr, ap, sym, ◌∙◌, subst, set-cases, get_elem?_inside, length-set, Bool-cases,
}
use raccoon_ecs.Outcome.{ok}
use raccoon_ecs.Env.{Env}
use raccoon_ecs.Env.Deleting.{HasDeleter}
use raccoon_ecs.Entity.{Entity}
use raccoon_ecs.TypeId.{TypeId}
use raccoon_ecs.EntityManager.{EntityManager}
use raccoon_ecs.EntityManager.Entities.{has_entity}
use raccoon_ecs.EntityManager.Schedule.{execute_scheduled_actions as execute_manager}
use raccoon_ecs.ComponentMap.{component_at}
use raccoon_ecs.EntityManager.Planned.{planned}
use raccoon_ecs.EntityManager.Collecting.{listed}
use raccoon_ecs.EntityManager.Scheduled.{AddsFresh}
use raccoon_ecs.EntityManager.Executing.{execute_scheduled_actions_lem}
use raccoon_ecs.EntityManager.Adding.{at-get_elem?}
use raccoon_ecs.EntityView.{Managers, call_manager}
use raccoon_ecs.CombinedView.{Record, CombinedView, for_each_record, execute_scheduled_actions}
use raccoon_ecs.CombinedView.Loop.{AllValid, AllValid-set, InRange, InRange-same}

-- Whether a record of the view refers to the manager.
abbrev pub refers : {D : Type 0} → ℕ → CombinedView D → Bool
refers i [] = false
refers i (r ∷ rs) = if r.entity_manager == i then true else refers i rs

module _ {K W : Type 0} where
  abbrev pub NothingScheduled : EntityManager K W → Type 0
  NothingScheduled s =
      (s.scheduled_component_additions ≡ [])
      × (s.scheduled_component_removals ≡ [])
      × (s.scheduled_entity_removals ≡ [])

module _ {K W : Type 0} (T : TypeId K) (E : Env K W) where
  -- `executeScheduledActions` ran on the manager with this number, once for each record that refers to
  -- it.
  abbrev pub Ran :
      {D : Type 0} → CombinedView D → ℕ → EntityManager K W → EntityManager K W → Type 0
  Ran [] i s s' = s' ≡ s
  Ran (r ∷ rs) i s s' =
      (r.entity_manager ≡ i
        → (s1 : EntityManager K W) × (w : W) × (w1 : W) × (execute_manager T E s w ≡ ok (s1, w1))
          × Ran rs i s1 s')
      × (r.entity_manager ≢ i → Ran rs i s s')

  -- What has become of the manager with this number.
  pub record Executed {D : Type 0} (view : CombinedView D) (i : ℕ) (s s' : EntityManager K W)
      : Type 0 where
    pub entities :
        (e : Entity)
        → has_entity s' e ≡ (
            if refers i view && listed e s.scheduled_entity_removals then false else has_entity s e)
    pub executed : refers i view ≡ true → NothingScheduled s'
    pub components :
        refers i view ≡ true
        → (j : K) (x : ℕ) → component_at T.eq s'.components j x ≡ planned T j x s
    pub others : refers i view ≡ false → s' ≡ s
    pub ran : Ran view i s s'

-- Where nothing is scheduled, nothing changes.
planned_nothing :
    {K W : Type 0} (T : TypeId K) (s : EntityManager K W)
    → NothingScheduled s
    → (j : K) (x : ℕ) → planned T j x s ≡ component_at T.eq s.components j x
planned_nothing T s (adds, removals, gone) j x = rw (adds, removals, gone) refl

module _ {K W D : Type 0} (T : TypeId K) (E : Env K W) (r : Record D) (rs : CombinedView D) (i : ℕ)
    (s s1 s' : EntityManager K W) where
  Executed-here :
      r.entity_manager ≡ i
      → ((e : Entity)
          → has_entity s1 e
            ≡ (if listed e s.scheduled_entity_removals then false else has_entity s e))
      → NothingScheduled s1
      → ((j : K) (x : ℕ) → component_at T.eq s1.components j x ≡ planned T j x s)
      → (w w1 : W) → execute_manager T E s w ≡ ok (s1, w1)
      → Executed T E rs i s1 s'
      → Executed T E (r ∷ rs) i s s'
  Executed-here here gone empty reads w w1 done x = record {
    entities = λ e. ground (arith, x.entities e, gone e, here, ap (listed e) empty.2);
    executed = λ h. elim (Bool-cases (refers i rs)) [
      | inl again ↦ x.executed again
      | inr last ↦ subst NothingScheduled (sym (x.others last)) empty
    ];
    components = λ h. elim (Bool-cases (refers i rs)) [
      | inl again ↦ λ j y. x.components again j y ∙ planned_nothing T s1 empty j y ∙ reads j y
      | inr last ↦ λ j y.
          ap (λ (q : EntityManager K W). component_at T.eq q.components j y) (x.others last)
          ∙ reads j y
    ];
    others = λ h. absurd (ground (arith, here, h));
    ran = (λ _. (s1, w, w1, done, x.ran), λ away. absurd (away here));
  }

  Executed-away : r.entity_manager ≢ i → Executed T E rs i s s' → Executed T E (r ∷ rs) i s s'
  Executed-away away x = record {
    entities = λ e. ground (arith, x.entities e, away);
    executed = λ h. x.executed (ground (arith, h, away));
    components = λ h. x.components (ground (arith, h, away));
    others = λ h. x.others (ground (arith, h, away));
    ran = (λ here. absurd (away here), λ _. x.ran);
  }

module _ {K W : Type 0} (T : TypeId K) (E : Env K W) where
  -- Each component that is scheduled to be added is one that its entity lacks by then.
  abbrev pub AllFresh : Managers K W → Type 0
  AllFresh ms =
      (i : ℕ) (s : EntityManager K W)
      → get_elem? ms i ≡ some s
      → (w : W) → AddsFresh T E s.scheduled_component_additions s w

module _ {K W D : Type 0} (T : TypeId K) (E : Env K W) (known : (k : K) → HasDeleter E k) where
  -- If the factory knows all component types, on valid managers, all references of the view leading to
  -- one of them, where each component that is scheduled to be added is one that its entity lacks by
  -- then, `executeScheduledActions` of the view returns. It runs `executeScheduledActions` of a manager
  -- once for each record that refers to it, and leaves the other managers as they are. The managers
  -- stay valid; those in the view have nothing scheduled, have lost just the entities that were
  -- scheduled for removal, and each of their components is what the additions, the removals of
  -- components and those of entities that were scheduled make of it, in this order.
  pub combined_execution :
      (view : CombinedView D) (ms : Managers K W) (w : W)
      → AllValid T ms
      → AllFresh T E ms
      → InRange view ms
      → (ms' : Managers K W) × (w' : W) × (execute_scheduled_actions T E view ms w ≡ ok (ms', w'))
        × AllValid T ms'
        × ((i : ℕ) (s' : EntityManager K W)
            → get_elem? ms' i ≡ some s'
            → (s : EntityManager K W) × (get_elem? ms i ≡ some s) × Executed T E view i s s')
  unfolding execute_scheduled_actions for_each_record call_manager
  combined_execution [] ms w all fresh inside = (
    ms,
    w,
    refl,
    all,
    λ i s' e. (
      s',
      e,
      record {
        entities = λ x. refl;
        executed = λ h. absurd (ground (arith, h));
        components = λ h. absurd (ground (arith, h));
        others = λ h. refl;
        ran = refl;
      },
    ),
  )
  combined_execution (r ∷ rs) ms w all fresh (lt, inside) =
      let j = r.entity_manager in
      let (s, at_s) = get_elem?_inside ms j lt in
      let (s1, w1, done, valid, gone, adds, removals, removed, reads) =
        execute_scheduled_actions_lem T E known s w (all j s at_s) (fresh j s at_s w) in
      let ms1 = set ms j s1 in
      let fresh1 : AllFresh T E ms1 = λ i t e u. elim (set-cases ms j i s1 t lt e) [
        | inl c ↦
            let none_left : t.scheduled_component_additions ≡ [] =
              ap (λ (q : EntityManager K W). q.scheduled_component_additions) (sym c.1) ∙ adds in
            rw none_left tt
        | inr c ↦ fresh i t c.1 u
      ] in
      let (ms', w', rest, all', each) =
        combined_execution rs ms1 w1 (AllValid-set T ms j s1 lt valid all) fresh1
          (InRange-same rs ms ms1 (length-set ms j s1) inside) in
      (
        ms',
        w',
        rw (at-get_elem? ms j s at_s, done) rest,
        all',
        λ i s' e.
            let (t, at_t, x) = each i s' e in
            elim (set-cases ms j i s1 t lt at_t) [
              | inl c ↦ (
                s,
                ap (get_elem? ms) (sym c.0) ∙ at_s,
                Executed-here T E r rs i s s1 s' c.0 gone (adds, removals, removed) reads w w1 done
                    (subst (λ q. Executed T E rs i q s') (sym c.1) x),
              )
              | inr c ↦ (t, c.1, Executed-away T E r rs i t s1 s' c.0 x)
            ],
      )
