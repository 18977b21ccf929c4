-- ===== src/ComponentPool/Slots.antt =====
-- component_pool.h: chains of free slots in the heap, under a write and under a new chunk.
use raccoon_ecs.Common.{
  ◌⊎◌, Bool-cases, get_elem?_inside, ℕ, zero, suc, ◌+◌, ◌<◌, ◌≢◌, ◌≡◌, refl, sym, ◌∙◌, inl, inr,
  eq-or-ne, true, false, none, List, [], ◌∷◌, ◌++◌, some, length, get_elem?-set, lt-of-get_elem?,
  get_elem?-append, get_elem?-append_end, get_elem?_beyond, arith, get_elem?, ◌==◌, if◌then◌else◌,
  elem, Unique, ℕ_discrete, ap, ◌&&◌, ltb, leb, subst, length-append,
}
use mathlib.Core.List.{append_assoc}
use raccoon_ecs.Outcome.{Ptr, nullptr}
use raccoon_ecs.ComponentPool.{Slot, next_free_slot, component, Heap, linked_slots, slot_at, write}

module _ {V : Type 0} where
  -- The free list from `p` on runs through these slots.
  abbrev pub Chain : Heap V → Ptr → List Ptr → Type 0
  Chain h p [] = p ≡ nullptr
  Chain h p (q ∷ qs) =
      (p ≡ q) × (next : Ptr) × (slot_at h q ≡ some (next_free_slot next)) × Chain h next qs

  pub slot_at-write :
      (h : Heap V) (p q : Ptr) (old slot : Slot V)
      → slot_at h p ≡ some old
      → slot_at (write h p slot) q ≡ (if p == q then some slot else slot_at h q)
  unfolding slot_at write
  slot_at-write h zero q old slot e = absurd (ground (arith, e))
  slot_at-write h (suc i) zero old slot e = ground arith
  slot_at-write h (suc i) (suc j) old slot e =
      ground (arith, get_elem?-set h i j slot (lt-of-get_elem? h i old e))

  pub Chain-write :
      (h : Heap V) (p q : Ptr) (qs : List Ptr) (old slot : Slot V)
      → slot_at h p ≡ some old
      → elem ℕ_discrete p qs ≡ false
      → Chain h q qs
      → Chain (write h p slot) q qs
  unfolding elem
  Chain-write h p q [] old slot e out c = c
  Chain-write h p q (r ∷ qs) old slot e out (same, next, at, c) = (
    same,
    next,
    ground (arith, slot_at-write h p r old slot e, at),
    Chain-write h p next qs old slot e (ground arith) c,
  )

  -- A component is in no slot of the free list.
  pub used_not_free :
      (h : Heap V) (p q : Ptr) (qs : List Ptr) (v : V)
      → slot_at h p ≡ some (component v)
      → Chain h q qs
      → elem ℕ_discrete p qs ≡ false
  unfolding elem
  used_not_free h p q [] v used c = refl
  used_not_free h p q (r ∷ qs) v used (same, next, at, c) =
      ground (arith, used_not_free h p next qs v used c, at, used, ap (slot_at h))

pub length-linked_slots : (A : Type 0) (p n next : ℕ) → length (linked_slots {V = A} p n next) ≡ n
unfolding linked_slots
length-linked_slots A p zero next = refl
length-linked_slots A p (suc zero) next = refl
length-linked_slots A p (suc (suc n)) next = ap suc (length-linked_slots A (p + 1) (suc n) next)

-- The `n` pointers from `p` on.
abbrev pub pointers_from : Ptr → ℕ → List Ptr
pointers_from p zero = []
pointers_from p (suc n) = p ∷ pointers_from (p + 1) n

pub elem-pointers_from :
    (p n x : ℕ) → elem ℕ_discrete x (pointers_from p n) ≡ (leb p x && ltb x (p + n))
unfolding elem
elem-pointers_from p zero x = ground arith
elem-pointers_from p (suc n) x = ground (arith, elem-pointers_from (p + 1) n x)

pub Unique-pointers_from : (p n : ℕ) → Unique ℕ_discrete (pointers_from p n)
Unique-pointers_from p zero = tt
Unique-pointers_from p (suc n) =
    (ground (arith, elem-pointers_from (p + 1) n p), Unique-pointers_from (p + 1) n)

module _ {V : Type 0} where
  length-longer :
      (h : Heap V) (p : Ptr)
      → p ≡ suc (length h)
      → p + 1 ≡ suc (length (h ++ next_free_slot (p + 1) ∷ []))
  length-longer h p at = omega (arith, at, length-append h (next_free_slot (p + 1) ∷ []))

  pub Chain-linked_slots :
      (h : Heap V) (p : Ptr) (n : ℕ)
      → p ≡ suc (length h)
      → Chain (h ++ linked_slots p (suc n) nullptr) p (pointers_from p (suc n))
  unfolding linked_slots slot_at
  Chain-linked_slots h p zero at =
      (refl, nullptr, rw at (get_elem?-append_end h [] (next_free_slot nullptr)), refl)
  Chain-linked_slots h p (suc n) at =
      let more = linked_slots (p + 1) (suc n) nullptr in
      let longer = h ++ next_free_slot (p + 1) ∷ [] in
      let same : longer ++ more ≡ h ++ next_free_slot (p + 1) ∷ more =
        append_assoc h (next_free_slot (p + 1) ∷ []) more in
      (
        refl,
        p + 1,
        rw at (get_elem?-append_end h _ (next_free_slot (suc (length h) + 1))),
        subst (λ g. Chain g (p + 1) (pointers_from (p + 1) (suc n))) same
            (Chain-linked_slots longer (p + 1) n (length-longer h p at)),
      )

  -- The components of one heap are in the other, each in its slot.
  abbrev pub KeepsUsed : Heap V → Heap V → Type 0
  KeepsUsed h h' =
      (q : Ptr) (u : V) → slot_at h q ≡ some (component u) → slot_at h' q ≡ some (component u)

  pub slot_at-append : (h more : Heap V) → KeepsUsed h (h ++ more)
  unfolding slot_at
  slot_at-append h more zero u e = e
  slot_at-append h more (suc i) u e = get_elem?-append h more i (component u) e

  -- The slots that are there in the one heap are the same in the other.
  abbrev pub KeepsSlots : Heap V → Heap V → Type 0
  KeepsSlots h h' = (q : Ptr) (slot : Slot V) → slot_at h q ≡ some slot → slot_at h' q ≡ some slot

  pub KeepsSlots-append : (h more : Heap V) → KeepsSlots h (h ++ more)
  unfolding slot_at
  KeepsSlots-append h more zero slot e = e
  KeepsSlots-append h more (suc i) slot e = get_elem?-append h more i slot e

  -- No component is in the one heap that was not in the other.
  abbrev pub AddsNone : Heap V → Heap V → Type 0
  AddsNone h h' =
      (q : Ptr) (u : V) → slot_at h' q ≡ some (component u) → slot_at h q ≡ some (component u)

  linked_slots_links :
      (p : Ptr) (n : ℕ) (next : Ptr) (i : ℕ) (u : V)
      → get_elem? (linked_slots p n next) i ≢ some (component u)
  unfolding linked_slots
  linked_slots_links p zero next i u e = ground (arith, e)
  linked_slots_links p (suc zero) next zero u e = ground (arith, e)
  linked_slots_links p (suc zero) next (suc i) u e = ground (arith, e)
  linked_slots_links p (suc (suc n)) next zero u e = ground (arith, e)
  linked_slots_links p (suc (suc n)) next (suc i) u e =
      linked_slots_links (p + 1) (suc n) next i u e

  get_elem?-linked_slots :
      (h : Heap V) (p : Ptr) (n : ℕ) (next : Ptr) (i : ℕ) (u : V)
      → get_elem? (h ++ linked_slots p n next) i ≡ some (component u)
      → get_elem? h i ≡ some (component u)
  get_elem?-linked_slots [] p n next i u e = absurd (linked_slots_links p n next i u e)
  get_elem?-linked_slots (x ∷ h) p n next zero u e = e
  get_elem?-linked_slots (x ∷ h) p n next (suc i) u e = get_elem?-linked_slots h p n next i u e

  pub AddsNone-linked_slots :
      (h : Heap V) (p : Ptr) (n : ℕ) (next : Ptr) → AddsNone h (h ++ linked_slots p n next)
  unfolding slot_at
  AddsNone-linked_slots h p n next zero u e = e
  AddsNone-linked_slots h p n next (suc i) u e = get_elem?-linked_slots h p n next i u e

  pub slot_at_beyond : (h : Heap V) (q : Ptr) → length h < q → slot_at h q ≡ none
  unfolding slot_at
  slot_at_beyond h zero lt = refl
  slot_at_beyond h (suc i) lt = get_elem?_beyond h i (omega arith)

  -- A slot behind more slots is an old one, or one of these.
  pub slot_at-append_cases :
      (h more : Heap V) (x : Ptr) (slot : Slot V)
      → slot_at (h ++ more) x ≡ some slot
      → (slot_at h x ≡ some slot) ⊎ ((length h < x) × (x < length h + 1 + length more))
  unfolding slot_at
  slot_at-append_cases h more zero slot e = absurd (ground (arith, e))
  slot_at-append_cases h more (suc i) slot e = elim (Bool-cases (ltb i (length h))) [
    | inl lt ↦
        let (old, there) = get_elem?_inside h i (ground (arith, lt)) in
        inl (there ∙ sym (get_elem?-append h more i old there) ∙ e)
    | inr le ↦ inr (
      ground (arith, le),
      omega (arith, lt-of-get_elem? (h ++ more) i slot e, length-append h more),
    )
  ]

  -- Each link of the one heap is in the one list, or it is in the other heap too, where it is in the one
  -- list if it is in the other.
  abbrev pub KeepsFree : Heap V → List Ptr → Heap V → List Ptr → Type 0
  KeepsFree h free h' free' =
      (x next : Ptr)
      → slot_at h' x ≡ some (next_free_slot next)
      → (elem ℕ_discrete x free' ≡ true)
        ⊎ ((old : Ptr) × (slot_at h x ≡ some (next_free_slot old))
            × (elem ℕ_discrete x free ≡ true → elem ℕ_discrete x free' ≡ true))

  -- A chain stays where its slots stay.
  pub Chain-kept :
      (h h' : Heap V) (p : Ptr) (qs : List Ptr)
      → ((q : Ptr) (slot : Slot V)
          → elem ℕ_discrete q qs ≡ true
          → slot_at h q ≡ some slot
          → slot_at h' q ≡ some slot)
      → Chain h p qs
      → Chain h' p qs
  unfolding elem
  Chain-kept h h' p [] kept c = c
  Chain-kept h h' p (q ∷ qs) kept (same, next, at, c) = (
    same,
    next,
    kept q (next_free_slot next) (ground arith) at,
    Chain-kept h h' next qs (λ r slot e. kept r slot (ground (arith, e))) c,
  )

  pub slot_of_free :
      (h : Heap V) (p q : Ptr) (qs : List Ptr)
      → Chain h p qs
      → elem ℕ_discrete q qs ≡ true
      → (next : Ptr) × (slot_at h q ≡ some (next_free_slot next))
  unfolding elem
  slot_of_free h p q [] c e = cc
  slot_of_free h p q (r ∷ qs) (same, next, at, c) e = elim (eq-or-ne r q) [
    | inl here ↦ (next, ap (slot_at h) (sym here) ∙ at)
    | inr away ↦ slot_of_free h next q qs c (ground (arith, e))
  ]
