-- ===== src/Entity/Order.antt =====
-- entity.h: the comparison operators.
use raccoon_ecs.Common.{◌≡◌, refl, ◌↔◌, ◌⊎◌, true, false, not, arith}
use raccoon_ecs.Entity.{
  Entity, eq_entity, ne_entity, lt_entity, OptionalEntity, no_entity, some_entity, optional_eq,
  optional_ne,
}

-- `operator==` answers true exactly for the same entity, and `operator!=` is its negation.
pub eq_entity_iff :
    (a b : Entity) → ((eq_entity a b ≡ true) ↔ (a ≡ b)) × ((ne_entity a b ≡ true) ↔ (¬ (a ≡ b)))
unfolding eq_entity ne_entity
eq_entity_iff a b = ground arith

-- `operator<` is a strict total order: for any two entities exactly one of `a < b`, `a == b` and
-- `b < a` answers true, and `<` is transitive.
lt_entity_total :
    (a b c : Entity)
    → (((lt_entity a b ≡ true) × (eq_entity a b ≡ false) × (lt_entity b a ≡ false))
        ⊎ ((lt_entity a b ≡ false) × (eq_entity a b ≡ true) × (lt_entity b a ≡ false))
        ⊎ ((lt_entity a b ≡ false) × (eq_entity a b ≡ false) × (lt_entity b a ≡ true)))
      × (lt_entity a b ≡ true → lt_entity b c ≡ true → lt_entity a c ≡ true)
unfolding eq_entity lt_entity
lt_entity_total a b c = (ground arith, ground arith)

-- An `OptionalEntity` equals just the entity that it was made from; the empty one equals none, and
-- `operator!=` is the negation of `operator==`.
pub optional_eq_iff :
    (o : OptionalEntity) (a b : Entity)
    → ((optional_eq (some_entity a) b ≡ true) ↔ (a ≡ b))
      × (optional_eq no_entity b ≡ false)
      × (optional_ne o b ≡ not (optional_eq o b))
unfolding optional_eq optional_ne some_entity no_entity
optional_eq_iff o a b = (ground arith, refl, refl)
