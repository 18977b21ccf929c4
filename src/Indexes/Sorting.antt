-- ===== src/Indexes/Sorting.antt =====
-- component_indexes.h: the sorted type lists of the index keys.
use raccoon_ecs.Common.{
  ◌≡◌, refl, ◌↔◌, true, false, List, [], ◌∷◌, arith, ap, sym, ◌∙◌, elem, Unique, Bool-cases, inl,
  inr,
}
use raccoon_ecs.TypeId.{TypeId}
use raccoon_ecs.Indexes.Key.{
  insert_sorted, sorted_component_types, create_key, eq_key, eq_key_iff, elem_of_eq_key,
  elem-sorted_component_types,
}

module _ {K : Type 0} (T : TypeId K) where
  -- The type is less than each of the list.
  abbrev IsBefore : K → List K → Type 0
  IsBefore k [] = Unit
  IsBefore k (j ∷ js) = (T.less k j ≡ true) × IsBefore k js

  abbrev IsAscending : List K → Type 0
  IsAscending [] = Unit
  IsAscending (k ∷ ks) = IsBefore k ks × IsAscending ks

  less-IsBefore : (j k : K) (ks : List K) → T.less j k ≡ true → IsBefore k ks → IsBefore j ks
  less-IsBefore j k [] lt b = tt
  less-IsBefore j k (x ∷ ks) lt (first, b) =
      (T.less_trans j k x lt first, less-IsBefore j k ks lt b)

  less-of_elem : (k t : K) (ks : List K) → IsBefore k ks → elem T.eq t ks ≡ true → T.less k t ≡ true
  unfolding elem
  less-of_elem k t [] b e = absurd (ground (arith, e))
  less-of_elem k t (x ∷ ks) (first, b) e = elim (T.eq x t) [
    | yes same ↦ rw (← same) first
    | no ne ↦ less-of_elem k t ks b (ground (arith, e, ne))
  ]

  IsBefore-absent : (k : K) (ks : List K) → IsBefore k ks → elem T.eq k ks ≡ false
  IsBefore-absent k ks b = elim (Bool-cases (elem T.eq k ks)) [
    | inl e ↦ absurd (ground (arith, less-of_elem k k ks b e, T.less_irrefl k))
    | inr e ↦ e
  ]

  IsBefore-insert_sorted :
      (j k : K) (ks : List K)
      → T.less j k ≡ true
      → IsBefore j ks
      → IsBefore j (insert_sorted T k ks)
  unfolding insert_sorted
  IsBefore-insert_sorted j k [] lt b = (lt, tt)
  IsBefore-insert_sorted j k (x ∷ ks) lt (first, b) = elim (Bool-cases (T.less x k)) [
    | inl e ↦ rw e (first, IsBefore-insert_sorted j k ks lt b)
    | inr e ↦ rw e (lt, (first, b))
  ]

  IsAscending-insert_sorted :
      (k : K) (ks : List K)
      → IsAscending ks
      → elem T.eq k ks ≡ false
      → IsAscending (insert_sorted T k ks)
  unfolding insert_sorted elem
  IsAscending-insert_sorted k [] a out = (tt, tt)
  IsAscending-insert_sorted k (x ∷ ks) (b, a) out = elim (Bool-cases (T.less x k)) [
    | inl e ↦
        rw e (
          IsBefore-insert_sorted x k ks e b,
          IsAscending-insert_sorted k ks a (ground (arith, out)),
        )
    | inr e ↦
        let lt : T.less k x ≡ true = elim (Bool-cases (T.less k x)) [
          | inl lt ↦ lt
          | inr ge ↦ let same = T.less_total x k e ge in absurd (ground (arith, out, same))
        ] in
        rw e ((lt, less-IsBefore k x ks lt b), (b, a))
  ]

  sorted-IsAscending :
      (pack : List K) → Unique T.eq pack → IsAscending (sorted_component_types T pack)
  unfolding sorted_component_types
  sorted-IsAscending [] u = tt
  sorted-IsAscending (k ∷ ks) (out, u) =
      IsAscending-insert_sorted k (sorted_component_types T ks) (sorted-IsAscending ks u)
        (elem-sorted_component_types T k ks ∙ out)

  first_same :
      (j k : K) (js ks : List K)
      → IsBefore j js
      → IsBefore k ks
      → ((t : K) → elem T.eq t (j ∷ js) ≡ elem T.eq t (k ∷ ks))
      → j ≡ k
  unfolding elem
  first_same j k js ks bj bk same = elim (T.eq j k) [
    | yes e ↦ e
    | no ne ↦
        let j_there : elem T.eq j ks ≡ true = ground (arith, same j, ne) in
        let k_there : elem T.eq k js ≡ true = ground (arith, same k, ne) in
        let lt =
          T.less_trans k j k (less-of_elem k j ks bk j_there) (less-of_elem j k js bj k_there) in
        absurd (ground (arith, lt, T.less_irrefl k))
  ]

  -- Ascending lists with the same elements are equal.
  IsAscending-ext :
      (js ks : List K)
      → IsAscending js
      → IsAscending ks
      → ((t : K) → elem T.eq t js ≡ elem T.eq t ks)
      → js ≡ ks
  unfolding elem
  IsAscending-ext [] [] a b same = refl
  IsAscending-ext [] (k ∷ ks) a b same = absurd (ground (arith, same k))
  IsAscending-ext (j ∷ js) [] a b same = absurd (ground (arith, same j))
  IsAscending-ext (j ∷ js) (k ∷ ks) (bj, aj) (bk, ak) same =
      let e : j ≡ k = first_same j k js ks bj bk same in
      let rest : js ≡ ks = IsAscending-ext js ks aj ak (λ t. elim (T.eq j t) [
        | yes here ↦
            let gone_j = ap (λ x. elem T.eq x js) (sym here) ∙ IsBefore-absent j js bj in
            let gone_k = ap (λ x. elem T.eq x ks) (sym here ∙ e) ∙ IsBefore-absent k ks bk in
            gone_j ∙ sym gone_k
        | no ne ↦ ground (arith, same t, ne, e)
      ]) in
      rw (e, rest) refl

  -- For packs without repeated types the keys are equal exactly if the packs have the same types,
  -- whatever their order.
  pub eq_key-same_types :
      (a b : List K)
      → Unique T.eq a
      → Unique T.eq b
      → (eq_key T (create_key T a) (create_key T b) ≡ true)
        ↔ ((t : K) → elem T.eq t a ≡ elem T.eq t b)
  eq_key-same_types a b ua ub = (
    λ h t. elem_of_eq_key T a b t h,
    λ same. (eq_key_iff T a b).1 (
        IsAscending-ext (sorted_component_types T a) (sorted_component_types T b)
          (sorted-IsAscending a ua) (sorted-IsAscending b ub)
          (λ t.
            elem-sorted_component_types T t a ∙ same t ∙ sym (elem-sorted_component_types T t b))),
  )
