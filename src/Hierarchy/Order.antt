-- ===== src/Hierarchy/Order.antt =====
-- The levels of the mutexes that one thread holds.
use ubuntu_projects.Base.{ℕ, ◌≡◌, ◌≢◌, ◌<◌, ◌≤◌, false, none, some, arith}
use ubuntu_projects.Hierarchy.{State, initial, check, update_hierarchy, release}

module _ (hierarchy : ℕ → ℕ) where
  -- The thread that holds a mutex is at its level or below, and was above it before. Of two mutexes
  -- that a thread holds, one is at a lower level, and it was locked below the other one.
  pub record Ordered (s : State) : Type 0 where
    pub below :
        (m t : ℕ)
        → s.owner m ≡ some t
        → (s.this_thread_h t ≤ hierarchy m) × (hierarchy m < s.prev_h m)
    pub nested :
        (m n t : ℕ)
        → s.owner m ≡ some t
        → s.owner n ≡ some t
        → m ≢ n
        → (hierarchy m ≢ hierarchy n) × (hierarchy m < hierarchy n → s.prev_h m ≤ hierarchy n)

  pub initial-Ordered : Ordered initial
  unfolding initial
  initial-Ordered = record { below = λ m t e. ground arith; nested = λ m n t e f d. ground arith }

  pub update_hierarchy-Ordered :
      (t m : ℕ) (s : State)
      → Ordered s
      → check hierarchy t m s ≡ false
      → s.owner m ≡ none
      → Ordered (update_hierarchy hierarchy t m s)
  unfolding check update_hierarchy
  update_hierarchy-Ordered t m s ordered checked free = record {
    below = λ n u held. ground (arith, ordered.below n u);
    nested = λ n k u held other differ.
        ground (arith, ordered.below n u, ordered.below k u, ordered.nested n k u);
  }

  pub release-Ordered :
      (t m : ℕ) (s : State)
      → Ordered s
      → s.this_thread_h t ≡ hierarchy m
      → s.owner m ≡ some t
      → Ordered (release hierarchy t m s)
  unfolding release
  release-Ordered t m s ordered level mine = record {
    below = λ n u held. ground (arith, ordered.below n u, ordered.below m t, ordered.nested m n t);
    nested = λ n k u held other differ. ground (arith, ordered.nested n k u);
  }
