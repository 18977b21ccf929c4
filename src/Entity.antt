-- ===== src/Entity.antt =====
-- entity.h: `Entity` and `OptionalEntity`. Ids and versions are `uint32_t`, kept as plain numbers.
pub mod Order
use raccoon_ecs.Common.{ℕ, ◌^◌, Bool, true, false, ◌&&◌, ◌||◌, not, ltb, ◌==◌}
use raccoon_ecs.Outcome.{Ptr}

-- The number of values of `Entity::RawId` and of `Entity::Version`.
abbrev pub u32_mod : ℕ
u32_mod = 2 ^ 32

pub record Entity : Type 0 where
  pub raw_id : ℕ
  pub version : ℕ

abbrev pub entity : ℕ → ℕ → Entity
entity i v = record { raw_id = i; version = v }

-- `operator==`
unfoldable pub eq_entity : Entity → Entity → Bool
eq_entity a b = a.raw_id == b.raw_id && a.version == b.version

-- `operator!=`
unfoldable pub ne_entity : Entity → Entity → Bool
unfolding eq_entity
ne_entity a b = not (eq_entity a b)

-- `operator<`
unfoldable pub lt_entity : Entity → Entity → Bool
lt_entity a b = ltb a.raw_id b.raw_id || (a.raw_id == b.raw_id && ltb a.version b.version)

pub record OptionalEntity : Type 0 where
  pub inner : Entity
  pub is_valid : Bool

-- `OptionalEntity()`
unfoldable pub no_entity : OptionalEntity
no_entity = record { inner = entity 0 0; is_valid = false }

-- `OptionalEntity(Entity)`
unfoldable pub some_entity : Entity → OptionalEntity
some_entity e = record { inner = e; is_valid = true }

-- `OptionalEntity::operator==(const Entity&)`
unfoldable pub optional_eq : OptionalEntity → Entity → Bool
unfolding eq_entity
optional_eq o e = o.is_valid && eq_entity o.inner e

-- `OptionalEntity::operator!=(const Entity&)`
unfoldable pub optional_ne : OptionalEntity → Entity → Bool
unfolding optional_eq
optional_ne o e = not (optional_eq o e)
