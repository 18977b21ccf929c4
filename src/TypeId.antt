-- ===== src/TypeId.antt =====
-- The interface of the template parameter `ComponentTypeId`: what the containers ask of a type of
-- component ids. `std::hash` gives a `size_t`; `operator<` is the order of `std::sort`.
use raccoon_ecs.Common.{ℕ, ◌≡◌, Bool, true, false}

pub record TypeId (K : Type 0) : Type 0 where
  pub eq : Discrete K
  pub hash : K → ℕ
  pub less : K → K → Bool
  pub less_irrefl : (a : K) → less a a ≡ false
  pub less_trans : (a b c : K) → less a b ≡ true → less b c ≡ true → less a c ≡ true
  pub less_total : (a b : K) → less a b ≡ false → less b a ≡ false → a ≡ b
