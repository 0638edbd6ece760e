-- ===== src/Queue/Wait.antt =====
-- The methods of threadsafe_queue.h that wait, under the lock of the head.
pub mod Outcome
use ubuntu_projects.Base.{ℕ, Bool, not, ◌||◌, ◌==◌, Option, none, some, List, [], ◌∷◌}
use ubuntu_projects.Base.Int.{ℤ}
use ubuntu_projects.Waits.{PopStatus, Moment, Call, returned, untimed, timed}
use ubuntu_projects.Queue.{State, get_tail_protected, pop_unprotected_unchecked, pop_n_unprotected}

module _ {A : Type 0} where
  abbrev pub interrupted : State A → Bool
  interrupted s = s.1.interrupt_waiting

  -- the condition that is waited for
  unfoldable pub can_go : State A → Bool
  can_go s = not (s.1.head == get_tail_protected s) || s.1.interrupt_waiting

  -- the pop at the end of a call for one item
  pub take_one : State A → Option (Call A × State A)
  take_one s = elim (pop_unprotected_unchecked s) [
    | none ↦ none
    | some (x, t) ↦ some (returned PopStatus.ready (x ∷ []), t)
  ]

  -- The pop at the end of a call for `count` items; `possible_tail` is the tail that the condition has
  -- read.
  pub take_n : ℕ → ℤ → State A → Option (Call A × State A)
  take_n fuel count s = elim (pop_n_unprotected fuel count (get_tail_protected s) s) [
    | none ↦ none
    | some (out, t) ↦ some (returned PopStatus.ready out, t)
  ]

  unfoldable pub wait_and_pop : Moment → State A → Option (Call A × State A)
  wait_and_pop m s = untimed interrupted can_go take_one m s

  -- This one returns the items only, so that its caller has no status.
  unfoldable pub wait_and_pop_n : ℕ → ℤ → Moment → State A → Option (Call A × State A)
  wait_and_pop_n fuel count m s = untimed interrupted can_go (take_n fuel count) m s

  unfoldable pub wait_for_and_pop : Moment → State A → Option (Call A × State A)
  wait_for_and_pop m s = timed interrupted can_go take_one m s

  unfoldable pub wait_for_and_pop_n : ℕ → ℤ → Moment → State A → Option (Call A × State A)
  wait_for_and_pop_n fuel count m s = timed interrupted can_go (take_n fuel count) m s

  unfoldable pub wait_until_and_pop : Moment → State A → Option (Call A × State A)
  wait_until_and_pop m s = timed interrupted can_go take_one m s

  unfoldable pub wait_until_and_pop_n : ℕ → ℤ → Moment → State A → Option (Call A × State A)
  wait_until_and_pop_n fuel count m s = timed interrupted can_go (take_n fuel count) m s
