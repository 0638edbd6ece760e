-- ===== src/Stack/Wait/Outcome.antt =====
-- How the calls that wait end at each moment at which they hold the lock.
use ubuntu_projects.Base.{◌≡◌, refl, false, some, List, [], ◌∷◌, arith}
use ubuntu_projects.Base.Int.{ℤ}
use ubuntu_projects.Stack.{Stack, with_items, pop_unprotected, is_empty, pop_n}
use ubuntu_projects.Waits.{PopStatus, Moment, called, woken, Call, returned}
use ubuntu_projects.Waits.Outcome.{outcome_of, timed-outcome, untimed-outcome}
use ubuntu_projects.Stack.Wait.{
  interrupted, can_go, take_one, take_n, wait_and_pop, wait_and_pop_n, wait_for_and_pop,
  wait_for_and_pop_n, wait_until_and_pop, wait_until_and_pop_n,
}

module _ {A : Type 0} where
  abbrev pub outcome : Moment → Stack A → List A × Stack A → Call A × Stack A
  outcome m s taken = outcome_of interrupted is_empty m s taken

  -- the item on the top, and the stack without it
  abbrev pub top : Stack A → List A × Stack A
  top s = elim s.items [ [] ↦ ([], s) | x ∷ xs ↦ (x ∷ [], with_items xs s) ]

  take_one-top :
      (s : Stack A)
      → is_empty s ≡ false
      → take_one s ≡ some (returned PopStatus.ready (top s).0, (top s).1)
  unfolding take_one pop_unprotected is_empty
  take_one-top s some_item = ground (arith, some_item)

  pub wait_for_and_pop_lem :
      (m : Moment) (s : Stack A)
      → (wait_for_and_pop m s ≡ some (outcome m s (top s)))
        × (wait_until_and_pop m s ≡ some (outcome m s (top s)))
  unfolding wait_for_and_pop wait_until_and_pop can_go
  wait_for_and_pop_lem m s =
      let ends =
        timed-outcome interrupted can_go is_empty take_one s (top s) refl (take_one-top s) m in
      (ends, ends)

  pub wait_for_and_pop_n_lem :
      (count : ℤ) (m : Moment) (s : Stack A)
      → (wait_for_and_pop_n count m s ≡ some (outcome m s (pop_n count s)))
        × (wait_until_and_pop_n count m s ≡ some (outcome m s (pop_n count s)))
  unfolding wait_for_and_pop_n wait_until_and_pop_n can_go take_n pop_n
  wait_for_and_pop_n_lem count m s =
      let ends =
        timed-outcome interrupted can_go is_empty (take_n count) s (pop_n count s) refl (λ e. refl)
          m in
      (ends, ends)

  pub wait_and_pop_lem :
      (count : ℤ) (s : Stack A)
      → (wait_and_pop called s ≡ some (outcome called s (top s)))
        × (wait_and_pop woken s ≡ some (outcome woken s (top s)))
        × (wait_and_pop_n count called s ≡ some (outcome called s (pop_n count s)))
        × (wait_and_pop_n count woken s ≡ some (outcome woken s (pop_n count s)))
  unfolding wait_and_pop wait_and_pop_n can_go take_n pop_n
  wait_and_pop_lem count s =
      let (one_called, one_woken) =
        untimed-outcome interrupted can_go is_empty take_one s (top s) refl (take_one-top s) in
      let (n_called, n_woken) =
        untimed-outcome interrupted can_go is_empty (take_n count) s (pop_n count s) refl
          (λ e. refl) in
      (one_called, one_woken, n_called, n_woken)

  -- At each moment at which it holds the lock, each of the calls that wait, for one item or for
  -- `count` items, with or without a time limit, pops no empty stack and ends as `outcome` says:
  -- it returns `interrupted` if that was requested, otherwise what a pop takes if the stack is not
  -- empty, and otherwise it waits on, or returns `timeout` when its time is over.
  pub waits_lem :
      (count : ℤ) (m : Moment) (s : Stack A)
      → ((wait_for_and_pop m s ≡ some (outcome m s (top s)))
          × (wait_until_and_pop m s ≡ some (outcome m s (top s))))
        × ((wait_for_and_pop_n count m s ≡ some (outcome m s (pop_n count s)))
            × (wait_until_and_pop_n count m s ≡ some (outcome m s (pop_n count s))))
        × (wait_and_pop called s ≡ some (outcome called s (top s)))
        × (wait_and_pop woken s ≡ some (outcome woken s (top s)))
        × (wait_and_pop_n count called s ≡ some (outcome called s (pop_n count s)))
        × (wait_and_pop_n count woken s ≡ some (outcome woken s (pop_n count s)))
  waits_lem count m s =
      let (a, b, c, d) = wait_and_pop_lem count s in
      (wait_for_and_pop_lem m s, wait_for_and_pop_n_lem count m s, a, b, c, d)
