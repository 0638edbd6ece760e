-- ===== src/Stack/Wait.antt =====
-- The methods of threadsafe_stack.h that wait.
pub mod Outcome
use ubuntu_projects.Base.{Bool, true, false, not, ◌||◌, Option, none, some, List, [], ◌∷◌}
use ubuntu_projects.Base.Int.{ℤ}
use ubuntu_projects.Stack.{Stack, pop_unprotected, is_empty, pop_n_unprotected}
use ubuntu_projects.Waits.{PopStatus, Moment, Call, returned, untimed, timed}

module _ {A : Type 0} where
  abbrev pub interrupted : Stack A → Bool
  interrupted s = s.interrupt_waiting

  -- the condition that is waited for
  unfoldable pub can_go : Stack A → Bool
  can_go s = not (is_empty s) || s.interrupt_waiting

  -- the pop at the end of a call for one item
  pub take_one : Stack A → Option (Call A × Stack A)
  take_one s = elim (pop_unprotected s) [
    | none ↦ none
    | some (x, t) ↦ some (returned PopStatus.ready (x ∷ []), t)
  ]

  -- the pop at the end of a call for `count` items
  pub take_n : ℤ → Stack A → Option (Call A × Stack A)
  take_n count s =
      let (out, t) = pop_n_unprotected count s in some (returned PopStatus.ready out, t)

  unfoldable pub wait_and_pop : Moment → Stack A → Option (Call A × Stack A)
  wait_and_pop m s = untimed interrupted can_go take_one m s

  -- This one returns the items only, so that its caller has no status.
  unfoldable pub wait_and_pop_n : ℤ → Moment → Stack A → Option (Call A × Stack A)
  wait_and_pop_n count m s = untimed interrupted can_go (take_n count) m s

  unfoldable pub wait_for_and_pop : Moment → Stack A → Option (Call A × Stack A)
  wait_for_and_pop m s = timed interrupted can_go take_one m s

  unfoldable pub wait_for_and_pop_n : ℤ → Moment → Stack A → Option (Call A × Stack A)
  wait_for_and_pop_n count m s = timed interrupted can_go (take_n count) m s

  unfoldable pub wait_until_and_pop : Moment → Stack A → Option (Call A × Stack A)
  wait_until_and_pop m s = timed interrupted can_go take_one m s

  unfoldable pub wait_until_and_pop_n : ℤ → Moment → Stack A → Option (Call A × Stack A)
  wait_until_and_pop_n count m s = timed interrupted can_go (take_n count) m s
