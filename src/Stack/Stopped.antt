-- ===== src/Stack/Stopped.antt =====
-- After `stop_waitings` no call that waits is given an item.
use ubuntu_projects.Waits.{PopStatus, Moment, returned}
use ubuntu_projects.Base.{◌≡◌, true, Option, none, some, List, []}
use ubuntu_projects.Base.Int.{ℤ}
use ubuntu_projects.Stack.{Stack}
use ubuntu_projects.Stack.Wait.{wait_for_and_pop, wait_for_and_pop_n}

module _ {A : Type 0} where
  -- The request to stop is there.
  abbrev pub Stopped : Option (List A × Stack A) → Type 0
  Stopped none = ⊥
  Stopped (some (out, t)) = t.interrupt_waiting ≡ true

  -- Both waits, for one item and for `n`, are interrupted and leave the stack as it is.
  abbrev pub Interrupts : ℤ → Moment → Option (List A × Stack A) → Type 0
  Interrupts n m none = ⊥
  Interrupts n m (some (out, t)) =
      (wait_for_and_pop m t ≡ some (returned PopStatus.interrupted [], t))
      × (wait_for_and_pop_n n m t ≡ some (returned PopStatus.interrupted [], t))
