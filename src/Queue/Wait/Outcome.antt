-- ===== src/Queue/Wait/Outcome.antt =====
-- How the calls that wait on a queue end at each moment at which they hold the lock.
use ubuntu_projects.Base.{
  ℕ, ◌<◌, ◌≡◌, refl, ap, Bool, true, false, not, ◌||◌, Option, none, some, List, [], ◌∷◌, length,
  arith,
}
use ubuntu_projects.Base.Int.{ℤ, pos}
use ubuntu_projects.Waits.{PopStatus, Moment, Call, returned, timed}
use ubuntu_projects.Waits.Outcome.{
  no_item, outcome_of, outcome-interrupted, outcome-no_item, outcome-ready, timed-outcome,
}
use ubuntu_projects.Queue.Memory.{Sized}
use ubuntu_projects.Queue.Push.{Holds}
use ubuntu_projects.Queue.Pop.{part, popped, advance-popped, PopsN, pop_n-PopsN}
use ubuntu_projects.Queue.Concurrent.{popped-Holds, empty-head}
use ubuntu_projects.Queue.{State, is_empty, get_tail_protected, pop_n}
use ubuntu_projects.Queue.Wait.{
  interrupted, can_go, take_one, take_n, wait_for_and_pop, wait_for_and_pop_n, wait_until_and_pop,
  wait_until_and_pop_n,
}

module _ {A : Type 0} ⦃sized : Sized A⦄ where
  -- What the call has come to, for a queue that held these items: an interrupt, if that was requested,
  -- and else no item, or what `count` takes from the front.
  abbrev pub Ends : Bool → Moment → ℤ → List A → Option (Call A × State A) → Type 0
  Ends flag m count xs none = ⊥
  Ends true m count xs (some (c, u)) = (c ≡ returned PopStatus.interrupted []) × Holds u xs
  Ends false m count [] (some (c, u)) = (c ≡ no_item m) × Holds u []
  Ends false m count (x ∷ xs) (some (c, u)) =
      (c ≡ returned PopStatus.ready (part count (x ∷ xs)).0) × Holds u (part count (x ∷ xs)).1

  Ends-nil :
      (m : Moment) (count : ℤ) (s : State A) (b : Bool) (taken : List A × State A)
      → Holds s []
      → is_empty s ≡ true
      → s.1.interrupt_waiting ≡ b
      → Ends b m count [] (some (outcome_of interrupted is_empty m s taken))
  Ends-nil m count s true taken holds nil flag =
      rw (outcome-interrupted interrupted is_empty m s taken flag) (refl, holds)
  Ends-nil m count s false taken holds nil flag =
      rw (outcome-no_item interrupted is_empty m s taken flag nil) (refl, holds)

  Ends-cons :
      (m : Moment) (count : ℤ) (s : State A) (b : Bool) (x : A) (xs out : List A) (u : State A)
      → Holds s (x ∷ xs)
      → is_empty s ≡ false
      → s.1.interrupt_waiting ≡ b
      → PopsN count (x ∷ xs) (some (out, u))
      → Ends b m count (x ∷ xs) (some (outcome_of interrupted is_empty m s (out, u)))
  Ends-cons m count s true x xs out u holds item flag pops =
      rw (outcome-interrupted interrupted is_empty m s (out, u) flag) (refl, holds)
  Ends-cons m count s false x xs out u holds item flag pops =
      rw (outcome-ready interrupted is_empty m s (out, u) flag item)
        (ap (λ o. returned PopStatus.ready o) pops.0, pops.1)

  empty-nil : (s : State A) → Holds s [] → is_empty s ≡ true
  unfolding is_empty
  empty-nil s holds = ground (arith, empty-head s.0 s.1 holds.cells holds.linked holds.listed)

  empty-cons : (s : State A) (x : A) (xs : List A) → Holds s (x ∷ xs) → is_empty s ≡ false
  unfolding is_empty
  empty-cons s x xs holds =
      let (n, here, ne, after) =
        popped-Holds s.0 s.1 x xs holds.cells holds.linked holds.listed holds.ended holds.fits in
      ground (arith, ne)

  goes : (s : State A) → can_go s ≡ (not (is_empty s) || s.1.interrupt_waiting)
  unfolding can_go is_empty get_tail_protected
  goes s = refl

  take_one-first :
      (s : State A) (x : A) (xs : List A)
      → Holds s (x ∷ xs)
      → (u : State A) × (take_one s ≡ some (returned PopStatus.ready (x ∷ []), u)) × Holds u xs
  unfolding take_one
  take_one-first s x xs holds =
      let (n, here, ne, after) =
        popped-Holds s.0 s.1 x xs holds.cells holds.linked holds.listed holds.ended holds.fits in
      (popped s n, rw (take_one, (advance-popped s x n here).1), after)

  take_n-part :
      (count : ℤ) (xs : List A) (o : Option (List A × State A))
      → PopsN count xs o
      → (out : List A) × (u : State A) × (o ≡ some (out, u)) × PopsN count xs (some (out, u))
  take_n-part count xs none pops = absurd pops
  take_n-part count xs (some (out, u)) pops = (out, u, refl, pops)

  take_n-ready :
      (fuel : ℕ) (count : ℤ) (s : State A) (out : List A) (u : State A)
      → pop_n fuel count s ≡ some (out, u)
      → take_n fuel count s ≡ some (returned PopStatus.ready out, u)
  unfolding take_n pop_n
  take_n-ready fuel count s out u ran = rw (take_n, ran)

  -- for one item, `count` is 1
  timed_one-Ends :
      (m : Moment) (s : State A) (xs : List A)
      → Holds s xs
      → Ends s.1.interrupt_waiting m (pos 1) xs (timed interrupted can_go take_one m s)
  timed_one-Ends m s [] holds =
      let nil = empty-nil s holds in
      rw
        (timed-outcome interrupted can_go is_empty take_one s ([], s) (goes s)
          (λ e. absurd (ground (arith, nil, e))) m)
        (Ends-nil m (pos 1) s s.1.interrupt_waiting ([], s) holds nil refl)
  timed_one-Ends m s (x ∷ xs) holds =
      let (u, takes, after) = take_one-first s x xs holds in
      rw (timed-outcome interrupted can_go is_empty take_one s (x ∷ [], u) (goes s) (λ e. takes) m)
        (Ends-cons m (pos 1) s s.1.interrupt_waiting x xs (x ∷ []) u holds (empty-cons s x xs holds)
          refl (refl, after))

  timed_n-Ends :
      (fuel : ℕ) (count : ℤ) (m : Moment) (s : State A) (xs : List A)
      → Holds s xs
      → length xs < fuel
      → Ends s.1.interrupt_waiting m count xs (timed interrupted can_go (take_n fuel count) m s)
  timed_n-Ends fuel count m s [] holds lt =
      let nil = empty-nil s holds in
      rw
        (timed-outcome interrupted can_go is_empty (take_n fuel count) s ([], s) (goes s)
          (λ e. absurd (ground (arith, nil, e))) m)
        (Ends-nil m count s s.1.interrupt_waiting ([], s) holds nil refl)
  timed_n-Ends fuel count m s (x ∷ xs) holds lt =
      let (out, u, ran, pops) =
        take_n-part count (x ∷ xs) (pop_n fuel count s)
          (pop_n-PopsN fuel count s (x ∷ xs) holds lt) in
      rw
        (timed-outcome interrupted can_go is_empty (take_n fuel count) s (out, u) (goes s)
          (λ e. take_n-ready fuel count s out u ran) m)
        (Ends-cons m count s s.1.interrupt_waiting x xs out u holds (empty-cons s x xs holds) refl
          pops)

  -- When the queue holds `xs` and there is fuel for each item, at each moment at which it holds
  -- the lock each of the calls with a time limit, for one item and for `count` items, does nothing
  -- undefined and ends as `Ends` says: interrupted, with nothing taken, if that was requested;
  -- with no item it waits on, or returns `timeout` when its time is over; and otherwise it returns
  -- what the count takes from the front.
  pub waits-Ends :
      (fuel : ℕ) (count : ℤ) (m : Moment) (s : State A) (xs : List A)
      → Holds s xs
      → length xs < fuel
      → Ends s.1.interrupt_waiting m (pos 1) xs (wait_for_and_pop m s)
        × Ends s.1.interrupt_waiting m (pos 1) xs (wait_until_and_pop m s)
        × Ends s.1.interrupt_waiting m count xs (wait_for_and_pop_n fuel count m s)
        × Ends s.1.interrupt_waiting m count xs (wait_until_and_pop_n fuel count m s)
  unfolding wait_for_and_pop wait_until_and_pop wait_for_and_pop_n wait_until_and_pop_n
  waits-Ends fuel count m s xs holds lt =
      let one = timed_one-Ends m s xs holds in
      let n = timed_n-Ends fuel count m s xs holds lt in (one, one, n, n)
