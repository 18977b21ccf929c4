-- ===== src/Ownership/Holding.antt =====
-- component_factory.h with the pointers that its clients hold: which slots of the pools are in use.
use raccoon_ecs.Common.{
  ℕ, ◌≡◌, ◌≢◌, refl, some, arith, ◌==◌, if◌then◌else◌, ite, inl, inr, eq-or-ne, ap, sym, ◌∙◌, ◌⊎◌,
  find,
}
use raccoon_ecs.Outcome.{Ptr, nullptr}
use raccoon_ecs.TypeId.{TypeId}
use raccoon_ecs.ComponentPool.{component, slot_at}
use raccoon_ecs.ComponentFactory.{Maker, flag, pooled, ComponentFactory, Memory}
use raccoon_ecs.ComponentFactory.Sound.{IsUsed, IsSound, used_real}
use raccoon_ecs.ComponentFactory.Making.{Deleted}
use raccoon_ecs.ComponentFactory.Creating.{Fits, NotStatic, Makes}

module _ {K : Type 0} (T : TypeId K) where
  -- The pointer held for one type and id is replaced.
  abbrev pub Replaces : K → ℕ → Ptr → (K → ℕ → Ptr) → (K → ℕ → Ptr) → Type 0
  Replaces k i p held held' =
      (j : K) (x : ℕ) → held' j x ≡ ite (T.eq k j) (if i == x then p else held j x) (held j x)

  pub Replaces-cases :
      (k : K) (i : ℕ) (p : Ptr) (held held' : K → ℕ → Ptr)
      → Replaces k i p held held'
      → (j : K) (x : ℕ)
      → ((k ≡ j) × (i ≡ x) × (held' j x ≡ p)) ⊎ ((k ≡ j → i ≢ x) × (held' j x ≡ held j x))
  Replaces-cases k i p held held' r j x = elim (T.eq k j) [
    | no ne ↦ inr (λ e. absurd (ne e), ground (arith, r j x, ne))
    | yes same ↦ elim (eq-or-ne i x) [
      | inl here ↦ inl (same, here, ground (arith, r j x, same, here))
      | inr ne ↦ inr (λ _. ne, ground (arith, r j x, ne))
    ]
  ]

  -- The components of this type are in a pool.
  abbrev pub IsPooled : ComponentFactory K → K → Type 0
  IsPooled F k = (i : ℕ) × (find T.eq k F.component_creators ≡ some (pooled i))

module _ {K V : Type 0} (T : TypeId K) (F : ComponentFactory K) where
  -- Each pointer that is held for a type with a pool leads to a component of its own, and there are
  -- no components in the pools but these and the static ones.
  pub record Holds (held : K → ℕ → Ptr) (m : Memory K V) : Type 0 where
    pub sound : IsSound T m
    pub fits : Fits T F m
    pub loaded :
        (k : K) (j : ℕ)
        → IsPooled T F k
        → held k j ≢ nullptr
        → IsUsed m (held k j) × NotStatic T m (held k j)
    pub distinct :
        (k : K) (j : ℕ) (k' : K) (j' : ℕ)
        → IsPooled T F k
        → IsPooled T F k'
        → held k j ≢ nullptr
        → held k j ≡ held k' j'
        → (k ≡ k') × (j ≡ j')
    pub no_leak :
        (q : Ptr) (u : V)
        → slot_at m.heap q ≡ some (component u)
        → ((k : K) × (find T.eq k m.statics ≡ some q))
          ⊎ ((k : K) × (j : ℕ) × IsPooled T F k × (held k j ≡ q))

  -- What is held for types without a pool does not matter.
  pub Holds-same :
      (held held' : K → ℕ → Ptr) (m : Memory K V)
      → Holds held m
      → ((j : K) (x : ℕ) → IsPooled T F j → held' j x ≡ held j x)
      → Holds held' m
  Holds-same held held' m h same = record {
    sound = h.sound;
    fits = h.fits;
    loaded = λ j x a real. rw (same j x a) (h.loaded j x a (rw (same j x a) at real));
    distinct = λ j x j' x' a b real e.
        h.distinct j x j' x' a b (rw (same j x a) at real) (rw (same j x a, same j' x' b) at e);
    no_leak = λ q u used. elim (h.no_leak q u used) [
      | inl static ↦ inl static
      | inr o ↦ let (j, x, a, e) = o in inr (j, x, a, same j x a ∙ e)
    ];
  }

  module _ (held held' : K → ℕ → Ptr) (m m' : Memory K V) (k : K) (i : ℕ) (h : Holds held m) where
    -- A pointer that is not null, and not that of a component in a pool, comes or goes.
    pub Holds-Deleted :
        Deleted T m (held k i) m'
        → IsPooled T F k
        → held k i ≢ nullptr
        → Replaces T k i nullptr held held'
        → Holds held' m'
    Holds-Deleted d in_pool real r = record {
      sound = d.sound;
      fits = record {
        same_deleters = h.fits.same_deleters;
        same_cloners = h.fits.same_cloners;
        in_range = λ j l e. rw d.same_pools (h.fits.in_range j l e);
      };
      loaded = λ j x in_pool' real'. elim (Replaces-cases T k i nullptr held held' r j x) [
        | inl c ↦ absurd (real' c.2)
        | inr c ↦
            let (used, not_static) = h.loaded j x in_pool' (λ e. real' (c.1 ∙ e)) in
            let (v, at) = used in
            let ne : held k i ≢ held j x =
              λ e. let (a, b) = h.distinct k i j x in_pool in_pool' real e in c.0 a b in
            rw c.1 (
              (v, d.kept (held j x) v ne at),
              λ l e. not_static l (ap (find T.eq l) (sym d.same_statics) ∙ e),
            )
      ];
      distinct = λ j x j' x' a b real' e. elim (Replaces-cases T k i nullptr held held' r j x) [
        | inl c ↦ absurd (real' c.2)
        | inr c ↦ elim (Replaces-cases T k i nullptr held held' r j' x') [
          | inl c' ↦ absurd (real' (e ∙ c'.2))
          | inr c' ↦ h.distinct j x j' x' a b (λ e'. real' (c.1 ∙ e')) (sym c.1 ∙ e ∙ c'.1)
        ]
      ];
      no_leak = λ q u used. elim (h.no_leak q u (d.none_added q u used)) [
        | inl static ↦ inl (static.0, ap (find T.eq static.0) d.same_statics ∙ static.1)
        | inr o ↦
            let (j, x, in_pool', e) = o in
            elim (Replaces-cases T k i nullptr held held' r j x) [
              | inl c ↦
                  let same : held k i ≡ q = rw (c.0, c.1) e in
                  absurd (d.gone u (ap (slot_at m'.heap) same ∙ used))
              | inr c ↦ inr (j, x, in_pool', c.1 ∙ e)
            ]
      ];
    }

    made-owner :
        (default_component : K → V) (p : Ptr) (maker : Maker)
        → find T.eq k F.component_creators ≡ some maker
        → Makes T default_component F m k p m'
        → Replaces T k i p held held'
        → ((j : K) × (find T.eq j m'.statics ≡ some p))
          ⊎ ((j : K) × (x : ℕ) × IsPooled T F j × (held' j x ≡ p))
    made-owner default_component p flag known c r = inl (k, c.of_flag known)
    made-owner default_component p (pooled l) known c r =
        inr (k, i, (l, known), ground (arith, r k i))

    -- A component that is made is no component that was held.
    made_new :
        (default_component : K → V) (p : Ptr)
        → Makes T default_component F m k p m'
        → IsPooled T F k
        → (j : K) (x : ℕ) → IsPooled T F j
        → held j x ≢ p
    made_new default_component p c (l, known) j x a e =
        let (used, not_static) = h.loaded j x a (λ e'. c.real (sym e ∙ e')) in
        let (v, at) = used in (c.in_pool l known).1 v (ap (slot_at m.heap) (sym e) ∙ at)

    -- A component is made for a type and id that held none.
    pub Holds-made :
        (default_component : K → V) (p : Ptr) (maker : Maker)
        → find T.eq k F.component_creators ≡ some maker
        → Makes T default_component F m k p m'
        → held k i ≡ nullptr
        → Replaces T k i p held held'
        → Holds held' m'
    Holds-made default_component p maker known c empty r = record {
      sound = c.sound;
      fits = record {
        same_deleters = h.fits.same_deleters;
        same_cloners = h.fits.same_cloners;
        in_range = λ j l e. rw c.same_pools (h.fits.in_range j l e);
      };
      loaded = λ j x a real'. elim (Replaces-cases T k i p held held' r j x) [
        | inl d ↦
            let b : IsPooled T F k = (a.0, ap (λ y. find T.eq y F.component_creators) d.0 ∙ a.1) in
            rw d.2 (c.here, (c.in_pool b.0 b.1).0)
        | inr d ↦
            let ((v, at), not_static) = h.loaded j x a (λ e. real' (d.1 ∙ e)) in
            rw d.1 (
              (v, c.kept (held j x) v at),
              λ l e. elim (c.statics_old l (held j x) e) [
                | inl before ↦ not_static l before
                | inr missing ↦ absurd (ground (arith, missing, at))
              ],
            )
      ];
      distinct = λ j x j' x' a b real' e. elim (Replaces-cases T k i p held held' r j x) [
        | inl d ↦ elim (Replaces-cases T k i p held held' r j' x') [
          | inl d' ↦ (sym d.0 ∙ d'.0, sym d.1 ∙ d'.1)
          | inr d' ↦
              let k_pooled : IsPooled T F k =
                (a.0, ap (λ y. find T.eq y F.component_creators) d.0 ∙ a.1) in
              absurd (made_new default_component p c k_pooled j' x' b (sym d'.1 ∙ sym e ∙ d.2))
        ]
        | inr d ↦ elim (Replaces-cases T k i p held held' r j' x') [
          | inl d' ↦
              let k_pooled : IsPooled T F k =
                (b.0, ap (λ y. find T.eq y F.component_creators) d'.0 ∙ b.1) in
              absurd (made_new default_component p c k_pooled j x a (sym d.1 ∙ e ∙ d'.2))
          | inr d' ↦ h.distinct j x j' x' a b (λ e'. real' (d.1 ∙ e')) (sym d.1 ∙ e ∙ d'.1)
        ]
      ];
      no_leak = λ q u used. elim (eq-or-ne p q) [
        | inl same ↦ rw same at (made-owner default_component p maker known c r)
        | inr ne ↦
            let before = c.none_added q u ne used in
            elim (h.no_leak q u before) [
              | inl static ↦ inl (static.0, c.statics_kept static.0 q static.1)
              | inr o ↦
                  let (j, x, a, e) = o in
                  elim (Replaces-cases T k i p held held' r j x) [
                    | inl d ↦
                        let null : q ≡ nullptr = rw (sym d.0, sym d.1) at (sym e ∙ refl) ∙ empty in
                        absurd (used_real m q (u, before) null)
                    | inr d ↦ inr (j, x, a, d.1 ∙ e)
                  ]
            ]
      ];
    }
