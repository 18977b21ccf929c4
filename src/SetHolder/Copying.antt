-- ===== src/SetHolder/Copying.antt =====
-- component_set_holder.h: `removeAllComponents`, `copyComponentsFrom` and `overrideBy`.
use raccoon_ecs.Common.{
  some-injective, subst, ◌≡◌, refl, [], ◌∷◌, none, some, arith, find, ensure, Distinct,
  ensure-Distinct, find-ensure_self, find-ensure_ne, ap, ◌∙◌,
}
use raccoon_ecs.Outcome.{Ptr, ok}
use raccoon_ecs.Env.{Env}
use raccoon_ecs.Env.Deleting.{HasDeleter, call_deleter-HasDeleter}
use raccoon_ecs.Env.Cloning.{CanClone, IsClone}
use raccoon_ecs.TypeId.{TypeId}
use raccoon_ecs.SetHolder.{
  SetHolder, delete_components, remove_all_components, copy_components_from, override_by,
}

module _ {K W : Type 0} (T : TypeId K) (E : Env K W) where
  -- The second holder is the first with clones of the components of the original; an entry that the
  -- first had stays.
  pub record Copies (h original h' : SetHolder K) : Type 0 where
    pub others : (k : K) → find T.eq k original ≡ none → find T.eq k h' ≡ find T.eq k h
    pub cloned :
        (k : K) (p : Ptr)
        → find T.eq k original ≡ some p
        → find T.eq k h ≡ none
        → (q : Ptr) × (find T.eq k h' ≡ some q) × IsClone E k p q
    pub distinct : Distinct T.eq h → Distinct T.eq h'

  copy_components_from-found :
      (h original : SetHolder K) (k : K) (p : Ptr) (w : W) (f : Ptr → W → Ptr × W)
      → (E.get_clone_fn k w).0 ≡ some f
      → copy_components_from T E h ((k, p) ∷ original) w
        ≡ copy_components_from T E
            (ensure T.eq k (f p (E.get_clone_fn k w).1).0 h)
            original
            (f p (E.get_clone_fn k w).1).1
  unfolding copy_components_from
  copy_components_from-found h original k p w f found = rw (found, copy_components_from) refl

  Copies-cons :
      (h original h' : SetHolder K) (k : K) (p q : Ptr)
      → find T.eq k original ≡ none
      → IsClone E k p q
      → Copies (ensure T.eq k q h) original h'
      → Copies h ((k, p) ∷ original) h'
  unfolding find
  Copies-cons h original h' k p q absent clone c = record {
    others = λ j e. elim (T.eq k j) [
      | yes same ↦ absurd (ground (arith, e, same))
      | no ne ↦ c.others j (ground (arith, e, ne)) ∙ find-ensure_ne T.eq k j q h ne
    ];
    cloned = λ j x e empty. elim (T.eq k j) [
      | yes same ↦
          let empty_here : find T.eq k h ≡ none = ap (λ y. find T.eq y h) same ∙ empty in
          let here : find T.eq k h' ≡ some q =
            ground (arith, c.others k absent, find-ensure_self T.eq k q h, empty_here) in
          let p_is_x : p ≡ x = some-injective (ground (arith, e, same)) in
          subst (λ y. (z : Ptr) × (find T.eq j h' ≡ some z) × IsClone E j y z) p_is_x
            (subst (λ y. (z : Ptr) × (find T.eq y h' ≡ some z) × IsClone E y p z) same
              (q, here, clone))
      | no ne ↦ c.cloned j x (ground (arith, e, ne)) (find-ensure_ne T.eq k j q h ne ∙ empty)
    ];
    distinct = λ d. c.distinct (ensure-Distinct T.eq k q h d);
  }

  module _ (cloners : (k : K) → CanClone E k) where
    copy_components_from-Copies :
        (original h : SetHolder K) (w : W)
        → Distinct T.eq original
        → (h' : SetHolder K) × (w' : W) × (copy_components_from T E h original w ≡ ok (h', w'))
          × Copies h original h'
    unfolding copy_components_from find
    copy_components_from-Copies [] h w d = (
      h,
      w,
      refl,
      record {
        others = λ k e. refl;
        cloned = λ k p e empty. absurd (ground (arith, e));
        distinct = λ d. d;
      },
    )
    copy_components_from-Copies ((k, p) ∷ original) h w (absent, d) =
        let (f, found) = cloners k w in
        let (q, w1) = f p (E.get_clone_fn k w).1 in
        let (h', w', done, c) = copy_components_from-Copies original (ensure T.eq k q h) w1 d in
        (
          h',
          w',
          copy_components_from-found h original k p w f found ∙ done,
          Copies-cons h original h' k p q absent (f, w, (E.get_clone_fn k w).1, found, refl) c,
        )

  module _ (deleters : (k : K) → HasDeleter E k) where
    delete_components-total :
        (h : SetHolder K) (w : W) → (w' : W) × (delete_components T E h w ≡ ok w')
    unfolding delete_components
    delete_components-total [] w = (w, refl)
    delete_components-total ((k, p) ∷ h) w =
        let (w1, deleted) = call_deleter-HasDeleter E k p w (deleters k) in
        let (w', done) = delete_components-total h w1 in (w', rw (delete_components, deleted) done)

    -- If the factory knows how to delete and to clone all component types, `overrideBy` of a holder by
    -- another one with one entry at most for each type returns, and gives a holder with one entry at
    -- most for each type, that has a clone of each component of the original under the same type, and
    -- no other entries: the old ones are gone.
    pub holder_override :
        ((k : K) → CanClone E k)
        → (h original : SetHolder K) (w : W) → Distinct T.eq original
        → (h' : SetHolder K) × (w' : W) × (override_by T E h original w ≡ ok (h', w'))
          × Distinct T.eq h'
          × ((k : K) → find T.eq k original ≡ none → find T.eq k h' ≡ none)
          × ((k : K) (p : Ptr)
              → find T.eq k original ≡ some p
              → (q : Ptr) × (find T.eq k h' ≡ some q) × IsClone E k p q)
    unfolding override_by remove_all_components find
    holder_override cloners h original w d =
        let (w1, deleted) = delete_components-total h w in
        let (h', w', done, c) = copy_components_from-Copies cloners original [] w1 d in
        (h', w', rw deleted done, c.distinct tt, c.others, λ k p e. c.cloned k p e refl)
