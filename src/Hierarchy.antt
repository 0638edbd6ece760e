-- ===== src/Hierarchy.antt =====
-- cppprojects/include/ts_lib/hierarchy_mutex.h: mutexes with levels, which a thread may lock in
-- descending order only. Threads and mutexes are named by numbers.
pub mod Order
pub mod Deadlock
mod Tests
use ubuntu_projects.Base.{
  ℕ, ◌-◌, ◌^◌, Bool, true, false, not, Option, none, some, List, [], ◌∷◌, ◌==◌, leb, if◌then◌else◌,
}

-- a table by numbers, with another value at one of them
abbrev pub put : {A : Type 0} → (ℕ → A) → ℕ → A → ℕ → A
put f i a j = if i == j then a else f j

-- `mut_` of each mutex, by the thread that holds it, `prev_h_` of each mutex and `this_thread_h_` of
-- each thread
pub record State : Type 0 where
  pub owner : ℕ → Option ℕ
  pub prev_h : ℕ → ℕ
  pub this_thread_h : ℕ → ℕ

-- The end of a call: an exception, waiting for the thread that holds the mutex, a result, or
-- undefined behaviour, when a thread unlocks a mutex that it does not hold.
pub data Outcome (R : Type 0) : Type 0 where
  hierarchy_violation : Outcome R
  blocked : Outcome R
  done : R → State → Outcome R
  undefined : Outcome R

-- `numeric_limits<T>::max()` for `std::size_t`
abbrev pub max_level : ℕ
max_level = 2 ^ 64 - 1

unfoldable pub initial : State
initial = record { owner = λ m. none; prev_h = λ m. 0; this_thread_h = λ t. max_level }

-- `hierarchy_` of each mutex, which does not change
module _ (hierarchy : ℕ → ℕ) where
  -- whether `check` throws
  unfoldable pub check : ℕ → ℕ → State → Bool
  check t m s = leb (s.this_thread_h t) (hierarchy m)

  -- `update_hierarchy`, with the lock taken
  unfoldable pub update_hierarchy : ℕ → ℕ → State → State
  update_hierarchy t m s = record {
    owner = put s.owner m (some t);
    prev_h = put s.prev_h m (s.this_thread_h t);
    this_thread_h = put s.this_thread_h t (hierarchy m);
  }

  unfoldable pub lock : ℕ → ℕ → State → Outcome (Unit {0})
  lock t m s =
      if check t m s
      then hierarchy_violation
      else elim (s.owner m) [ some u ↦ blocked | none ↦ done tt (update_hierarchy t m s) ]

  unfoldable pub release : ℕ → ℕ → State → State
  release t m s = record {
    owner = put s.owner m none;
    prev_h = s.prev_h;
    this_thread_h = put s.this_thread_h t (s.prev_h m);
  }

  unfoldable pub unlock : ℕ → ℕ → State → Outcome (Unit {0})
  unlock t m s =
      if not (s.this_thread_h t == hierarchy m) then hierarchy_violation else elim (s.owner m) [
        | none ↦ undefined
        | some u ↦ if u == t then done tt (release t m s) else undefined
      ]

  unfoldable pub try_lock : ℕ → ℕ → State → Outcome Bool
  try_lock t m s =
      if check t m s
      then hierarchy_violation
      else elim (s.owner m) [ some u ↦ done false s | none ↦ done true (update_hierarchy t m s) ]
