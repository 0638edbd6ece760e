-- ===== src/Waits/Outcome.antt =====
-- How a call that waits ends at each moment at which it holds the lock.
use ubuntu_projects.Base.{
  ◌≡◌, Bool, true, false, not, ◌||◌, Option, some, List, [], if◌then◌else◌, arith,
}
use ubuntu_projects.Waits.{
  PopStatus, Moment, called, woken, expired, Call, waiting, returned, finish, wait, start, time_out,
  untimed, timed,
}

-- on an empty container
abbrev pub no_item : {A : Type 0} → Moment → Call A
no_item called = waiting
no_item woken = waiting
no_item expired = returned PopStatus.timeout []

module _ {S A : Type 0} (interrupt_waiting is_empty : S → Bool) where
  -- A call is interrupted once that was asked for; otherwise it waits for an item until its time is
  -- over, and takes what is given if there is one.
  abbrev pub outcome_of : Moment → S → List A × S → Call A × S
  outcome_of m s (out, t) =
      if interrupt_waiting s
      then (returned PopStatus.interrupted [], s)
      else if is_empty s
      then (no_item m, s)
      else (returned PopStatus.ready out, t)

  module _ (m : Moment) (s : S) (taken : List A × S) where
    pub outcome-interrupted :
        interrupt_waiting s ≡ true → outcome_of m s taken ≡ (returned PopStatus.interrupted [], s)
    outcome-interrupted flag = rw flag

    pub outcome-no_item :
        interrupt_waiting s ≡ false → is_empty s ≡ true → outcome_of m s taken ≡ (no_item m, s)
    outcome-no_item flag nil = rw (flag, nil)

    pub outcome-ready :
        interrupt_waiting s ≡ false
        → is_empty s ≡ false
        → outcome_of m s taken ≡ (returned PopStatus.ready taken.0, taken.1)
    outcome-ready flag item = rw (flag, item)

module _ {S A : Type 0} (interrupt_waiting can_go is_empty : S → Bool)
    (take : S → Option (Call A × S)) (s : S) (taken : List A × S)
    (goes : can_go s ≡ (not (is_empty s) || interrupt_waiting s))
    (takes : is_empty s ≡ false → take s ≡ some (returned PopStatus.ready taken.0, taken.1)) where
  start-outcome :
      start interrupt_waiting can_go take s
      ≡ some (outcome_of interrupt_waiting is_empty called s taken)
  unfolding start wait finish
  start-outcome = ground (arith, goes, takes)

  wait-outcome :
      wait interrupt_waiting can_go take s
      ≡ some (outcome_of interrupt_waiting is_empty woken s taken)
  unfolding wait finish
  wait-outcome = ground (arith, goes, takes)

  time_out-outcome :
      time_out interrupt_waiting can_go take s
      ≡ some (outcome_of interrupt_waiting is_empty expired s taken)
  unfolding time_out finish
  time_out-outcome = ground (arith, goes, takes)

  pub timed-outcome :
      (m : Moment)
      → timed interrupt_waiting can_go take m s
        ≡ some (outcome_of interrupt_waiting is_empty m s taken)
  unfolding timed
  timed-outcome called = start-outcome
  timed-outcome woken = wait-outcome
  timed-outcome expired = time_out-outcome

  pub untimed-outcome :
      (untimed interrupt_waiting can_go take called s
        ≡ some (outcome_of interrupt_waiting is_empty called s taken))
      × (untimed interrupt_waiting can_go take woken s
          ≡ some (outcome_of interrupt_waiting is_empty woken s taken))
  unfolding untimed
  untimed-outcome = (start-outcome, wait-outcome)
