-- ===== src/Keys.antt =====
-- What a hash table is given: keys with a test of equality, and a hash of each key.
use ubuntu_projects.Base.{ℕ, ◌≡◌, ◌↔◌, Bool, true}

-- `Key_eq` is taken to decide equality, as `std::equal_to` does; `Hash` may be any function.
pub record Keys (K : Type 0) : Type 0 where
  pub key_eq : K → K → Bool
  pub key_eq_iff : (a b : K) → (key_eq a b ≡ true) ↔ (a ≡ b)
  pub hasher : K → ℕ
