-- ===== src/SetHolder/Laws.antt =====
-- component_set_holder.h: what a lookup gives after the other operations.
use raccoon_ecs.Common.{
  ◌≡◌, ◌≢◌, refl, true, false, not, [], ◌∷◌, ite, arith, find, is_some, Distinct, find-modify_self,
  find-modify_ne, find-ensure_self, find-ensure_ne, find-erase_self, find-erase_ne, erase-Distinct,
  ensure-Distinct, modify-Distinct, erase, ◌==◌, length, ensure, Option-cases, inl, inr,
}
use raccoon_ecs.Outcome.{Ptr, nullptr, ok}
use raccoon_ecs.Env.{Env, holder_component_already_added}
use raccoon_ecs.Env.Deleting.{HasDeleter, call_deleter-HasDeleter}
use raccoon_ecs.TypeId.{TypeId}
use raccoon_ecs.SetHolder.{
  SetHolder, has_any_components, does_component_exists, get_single_component, add_component_unsafe,
  add_component, remove_component,
}

length-ensure :
    {K : Type 0} (dec : Discrete K) (k : K) (p : Ptr) (h : SetHolder K)
    → length (ensure dec k p h) ≢ 0
unfolding ensure
length-ensure dec k p [] = ground arith
length-ensure dec k p (e ∷ h) = ground arith

module _ {K : Type 0} (T : TypeId K) where
  get_single-add_component_unsafe :
      (h : SetHolder K) (p : Ptr) (k j : K)
      → get_single_component T (add_component_unsafe T h p k) j
        ≡ ite (T.eq k j) p (get_single_component T h j)
  unfolding get_single_component add_component_unsafe
  get_single-add_component_unsafe h p k j = elim (T.eq k j) [
    | yes e ↦ rw (← e, find-modify_self, find-ensure_self) (ground arith)
    | no n ↦ rw (find-modify_ne, find-ensure_ne) (ground arith)
  ]

module _ {K W : Type 0} (T : TypeId K) (E : Env K W) (h : SetHolder K) (k : K) (w : W) where
  -- `addComponent` of a pointer that is not null: where the holder has no entry for the type, a
  -- lookup of that type then gives the pointer, the other types are as before and nothing is
  -- reported; where it has an entry, nothing changes and one error is reported.
  pub holder_add_component :
      (p : Ptr)
      → p ≢ nullptr
      → (h' : SetHolder K) × (w' : W) × (add_component T E h p k w ≡ (h', w'))
        × (Distinct T.eq h → Distinct T.eq h')
        × (is_some (find T.eq k h) ≡ false
            → (w' ≡ w)
              × ((j : K)
                  → get_single_component T h' j ≡ ite (T.eq k j) p (get_single_component T h j)))
        × (is_some (find T.eq k h) ≡ true
            → (h' ≡ h) × (w' ≡ E.report (holder_component_already_added k) w))
  unfolding add_component add_component_unsafe
  holder_add_component p real = elim (Option-cases (find T.eq k h)) [
    | inl missing ↦ (
      add_component_unsafe T h p k,
      w,
      ground (arith, missing),
      λ d.
          modify-Distinct T.eq k (λ _. p) (ensure T.eq k nullptr h)
            (ensure-Distinct T.eq k nullptr h d),
      λ _. (refl, get_single-add_component_unsafe T h p k),
      λ there. ground (arith, missing),
    )
    | inr (old, there) ↦ (
      h,
      E.report (holder_component_already_added k) w,
      ground (arith, there),
      λ d. d,
      λ missing. ground (arith, there),
      λ _. (refl, refl),
    )
  ]

  -- On a holder with one entry at most for each type, `removeComponent` of a type that the factory
  -- knows returns; a lookup of that type then gives `nullptr`, the other types are as before, and
  -- there is still one entry at most for each type.
  pub holder_remove_component :
      Distinct T.eq h
      → HasDeleter E k
      → (h' : SetHolder K) × (w' : W) × (remove_component T E h k w ≡ ok (h', w'))
        × Distinct T.eq h'
        × ((j : K)
            → get_single_component T h' j ≡ ite (T.eq k j) nullptr (get_single_component T h j))
  unfolding remove_component get_single_component
  holder_remove_component d known = elim (Option-cases (find T.eq k h)) [
    | inl missing ↦ (h, w, rw (missing, remove_component), d, λ j. ground (arith, missing))
    | inr (p, there) ↦
        let (w', deleted) = call_deleter-HasDeleter E k p w known in
        (
          erase T.eq k h,
          w',
          rw (there, remove_component, deleted),
          erase-Distinct T.eq k h d,
          λ j. ground (arith, find-erase_self T.eq k h d, find-erase_ne T.eq k j h),
        )
  ]

  -- `doesComponentExists` answers whether a lookup gives a pointer that is not null, and changes no
  -- lookup. But it makes an entry for a type that the holder lacks: the holder then counts as having
  -- components, and `addComponent` of that type reports an error and adds nothing.
  pub holder_does_component_exists :
      (p : Ptr)
      → p ≢ nullptr
      → (h' : SetHolder K) × (does_component_exists T h k
          ≡ (h', not (get_single_component T h k == nullptr)))
        × ((j : K) → get_single_component T h' j ≡ get_single_component T h j)
        × (has_any_components h' ≡ true)
        × (add_component T E h' p k w ≡ (h', E.report (holder_component_already_added k) w))
  unfolding does_component_exists get_single_component has_any_components add_component
  holder_does_component_exists p real =
      let self = find-ensure_self T.eq k nullptr h in
      (
        ensure T.eq k nullptr h,
        ground (arith, self),
        λ j. ground (arith, self, find-ensure_ne T.eq k j nullptr h),
        ground (arith, length-ensure T.eq k nullptr h),
        ground (arith, self),
      )
