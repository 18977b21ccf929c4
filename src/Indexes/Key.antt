-- ===== src/Indexes/Key.antt =====
-- component_indexes.h: `IndexKey`, the sorted component types of an index with their hash.
use Prim.Native.Nat.{bit_xor}
use raccoon_ecs.Common.{
  ℕ, ◌+◌, ◌*◌, ◌/◌, ◌%◌, ◌^◌, ◌≡◌, refl, ◌↔◌, Bool, true, false, ◌&&◌, List, [], ◌∷◌, arith, ◌==◌,
  if◌then◌else◌, ite, ap, elem,
}
use raccoon_ecs.TypeId.{TypeId}

-- `std::rotl(x, 5)` on 64 bits, for `x` below `2 ^ 64`.
unfoldable pub rotl5 : ℕ → ℕ
rotl5 x = (x * 2 ^ 5) % 2 ^ 64 + x / 2 ^ 59

pub record IndexKey (K : Type 0) : Type 0 where
  pub hash : ℕ
  pub component_types : List K

module _ {K : Type 0} (T : TypeId K) where
  -- `std::sort`, as an insertion sort by `operator<`.
  unfoldable pub insert_sorted : K → List K → List K
  insert_sorted k [] = k ∷ []
  insert_sorted k (j ∷ js) = if T.less j k then j ∷ insert_sorted k js else k ∷ j ∷ js

  -- `getComponentTypes<Components...>`: the types of the pack, sorted.
  unfoldable pub sorted_component_types : List K → List K
  unfolding insert_sorted
  sorted_component_types [] = []
  sorted_component_types (k ∷ ks) = insert_sorted k (sorted_component_types ks)

  -- The loop of `calculateHash`.
  unfoldable pub hash_loop : List K → ℕ → ℕ
  unfolding rotl5
  hash_loop [] h = h
  hash_loop (k ∷ ks) h = hash_loop ks (rotl5 (bit_xor h (T.hash k)))

  -- `calculateHash`
  unfoldable pub calculate_hash : List K → ℕ
  unfolding hash_loop
  calculate_hash types = hash_loop types 0

  -- `IndexKey::Create<Components...>`
  unfoldable pub create_key : List K → IndexKey K
  unfolding calculate_hash sorted_component_types
  create_key pack =
      let types = sorted_component_types pack in
      record { hash = calculate_hash types; component_types = types }

  -- `operator==` of `std::vector<ComponentTypeId>`
  unfoldable pub eq_types : List K → List K → Bool
  eq_types [] [] = true
  eq_types [] (k ∷ ks) = false
  eq_types (j ∷ js) [] = false
  eq_types (j ∷ js) (k ∷ ks) = ite (T.eq j k) (eq_types js ks) false

  -- `IndexKey::operator==`
  unfoldable pub eq_key : IndexKey K → IndexKey K → Bool
  unfolding eq_types
  eq_key a b = a.hash == b.hash && eq_types a.component_types b.component_types

  eq_types_iff : (js ks : List K) → (eq_types js ks ≡ true) ↔ (js ≡ ks)
  unfolding eq_types
  eq_types_iff [] [] = ground arith
  eq_types_iff [] (k ∷ ks) = ground arith
  eq_types_iff (j ∷ js) [] = ground arith
  eq_types_iff (j ∷ js) (k ∷ ks) = ground (arith, eq_types_iff js ks)

  -- Two packs have equal keys exactly if their sorted lists of types are equal: the hash decides
  -- nothing more.
  pub eq_key_iff :
      (a b : List K)
      → (eq_key (create_key a) (create_key b) ≡ true)
        ↔ (sorted_component_types a ≡ sorted_component_types b)
  unfolding eq_key create_key
  eq_key_iff a b = (
    λ h. (eq_types_iff _ _).0 (ground arith),
    λ h. ground (
      arith,
      (eq_types_iff (sorted_component_types a) (sorted_component_types b)).1 h,
      ap calculate_hash h,
    ),
  )

  elem-insert_sorted :
      (t k : K) (ks : List K)
      → elem T.eq t (insert_sorted k ks) ≡ ite (T.eq k t) true (elem T.eq t ks)
  unfolding elem insert_sorted
  elem-insert_sorted t k [] = refl
  elem-insert_sorted t k (j ∷ js) = ground (arith, elem-insert_sorted t k js)

  -- Sorting keeps the elements.
  pub elem-sorted_component_types :
      (t : K) (pack : List K) → elem T.eq t (sorted_component_types pack) ≡ elem T.eq t pack
  unfolding elem sorted_component_types
  elem-sorted_component_types t [] = refl
  elem-sorted_component_types t (k ∷ ks) =
      rw (elem-insert_sorted t k (sorted_component_types ks), elem-sorted_component_types t ks)

  -- Packs with the same key have the same component types, whatever their order.
  pub elem_of_eq_key :
      (a b : List K) (t : K)
      → eq_key (create_key a) (create_key b) ≡ true
      → elem T.eq t a ≡ elem T.eq t b
  elem_of_eq_key a b t h = ground (
    arith,
    elem-sorted_component_types t a,
    elem-sorted_component_types t b,
    ap (elem T.eq t) ((eq_key_iff a b).0 h),
  )
