-- ===== src/Tests.antt =====
-- Concrete runs of the model: a world with a counter of pointers, and the theorems at work on it.
pub mod Concrete
pub mod Entities
pub mod Components
pub mod Indexes
pub mod Others
pub mod Actions
pub mod Pools
pub mod Factory
pub mod Views
