-- ===== src/Threadpool/Tasks.antt =====
-- What the pool asks of the queue that its threads share.
use ubuntu_projects.Base.{ℕ, ◌≡◌, Option, none, some, List, [], ◌∷◌, ◌++◌}

module _ {T S : Type 0} (Holds : S → List T → Type 0) where
  -- Nothing is undefined, and the queue then holds the tasks.
  abbrev pub Becomes : List T → Option S → Type 0
  Becomes xs none = ⊥
  Becomes xs (some s) = Holds s xs

  -- The first one of the tasks is given out, if there is one, and the queue holds the others.
  abbrev pub GivesFirst : List T → Option (Option T × S) → Type 0
  GivesFirst xs none = ⊥
  GivesFirst [] (some (r, s)) = (r ≡ none) × Holds s []
  GivesFirst (x ∷ xs) (some (r, s)) = (r ≡ some x) × Holds s xs

-- A push is given the address of its new node.
pub record TaskQueue (T : Type 0) : Type 1 where
  pub Shared : Type 0
  pub push : ℕ → T → Shared → Option Shared
  pub pop : Shared → Option (Option T × Shared)
  pub Holds : Shared → List T → Type 0
  pub IsNew : Shared → ℕ → Type 0
  pub push-Becomes :
      (a : ℕ) (task : T) (s : Shared) (xs : List T)
      → Holds s xs
      → IsNew s a
      → Becomes Holds (xs ++ task ∷ []) (push a task s)
  pub pop-GivesFirst : (s : Shared) (xs : List T) → Holds s xs → GivesFirst Holds xs (pop s)
