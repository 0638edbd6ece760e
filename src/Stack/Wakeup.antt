-- ===== src/Stack/Wakeup.antt =====
-- Threads that sleep until there is an item on the stack: a push holds the lock under which they look.
use ubuntu_projects.Base.{
  suc, ◌+◌, ◌<◌, ◌≤◌, ◌≡◌, refl, ap, sym, ◌∙◌, true, false, some, List, length, arith,
}
use ubuntu_projects.Base.Int.{pos}
use ubuntu_projects.Waits.{Notify, PopStatus, woken, Call, waiting, returned}
use ubuntu_projects.Waits.Wakeup.{Container, Threads, Reach, Counts, Attended, Reach-Attended}
use ubuntu_projects.Stack.{
  Stack, push, push_unprotected, push_and_notify_one, stop_waitings, is_empty,
}
use ubuntu_projects.Stack.Wait.{wait_and_pop}
use ubuntu_projects.Stack.Wait.Outcome.{outcome, top, wait_and_pop_lem}

module _ {A : Type 0} where
  abbrev pub stack_container : Container (Stack A)
  stack_container = record {
    Puts = λ n s t. (x : A) × (push_and_notify_one x s ≡ (n, t));
    Ends = λ s t.
        (status : PopStatus) × (out : List A) × (wait_and_pop woken s
          ≡ some (returned status out, t));
    NoItem = λ s. wait_and_pop woken s ≡ some (waiting, s);
    Stops = λ n s t. stop_waitings s ≡ (n, t);
    put_locks = true;
  }

  puts-size :
      (x : A) (n : Notify) (s t : Stack A)
      → push_and_notify_one x s ≡ (n, t)
      → (n ≡ Notify.one)
        × (length t.items ≡ suc (length s.items))
        × (t.interrupt_waiting ≡ s.interrupt_waiting)
  unfolding push_and_notify_one push push_unprotected
  puts-size x n s t e = (
    sym (ap (λ r. r.0) e),
    sym (ap (λ r. length r.1.items) e),
    sym (ap (λ r. r.1.interrupt_waiting) e),
  )

  stops-all : (n : Notify) (s t : Stack A) → stop_waitings s ≡ (n, t) → n ≡ Notify.all
  unfolding stop_waitings
  stops-all n s t e = sym (ap (λ r. r.0) e)

  outcome-returned :
      (s t : Stack A) (status : PopStatus) (out : List A)
      → outcome woken s (top s) ≡ (returned status out, t)
      → (s.interrupt_waiting ≡ false → length s.items ≡ suc (length t.items))
        × (t.interrupt_waiting ≡ s.interrupt_waiting)
  unfolding is_empty
  outcome-returned s t status out e = (λ f. ground (arith, e, f), ground (arith, e))

  outcome-waiting :
      (s : Stack A)
      → outcome woken s (top s) ≡ (waiting, s)
      → (length s.items ≡ 0) × (s.interrupt_waiting ≡ false)
  unfolding is_empty
  outcome-waiting s e = (ground (arith, e), ground (arith, e))

  outcome-ends :
      (s : Stack A) (r : Call A × Stack A)
      → wait_and_pop woken s ≡ some r
      → outcome woken s (top s) ≡ r
  outcome-ends s r e = let ends = (wait_and_pop_lem (pos 1) s).1 in let both = sym ends ∙ e in cc

  stack_counts : Counts stack_container
  stack_counts = record {
    size = λ s. length s.items;
    stopped = λ s. s.interrupt_waiting;
    locks = refl;
    puts = λ n s t (x, e). puts-size x n s t e;
    stops = λ n s t e. stops-all n s t e;
    ends = λ s t (status, out, e). outcome-returned s t status out (outcome-ends s _ e);
    no_item = λ s e. outcome-waiting s (outcome-ends s _ e);
  }

  abbrev pub start : Stack A → Threads (Stack A)
  start s = record {
    container = s;
    checking = false;
    asleep = 0;
    awake = 0;
    pending = 0;
    pending_all = 0;
  }

  start-Attended : (s : Stack A) → Attended stack_container stack_counts (start s)
  start-Attended s = record {
    asleep_attended = λ lt. absurd (omega (arith, lt));
    checking_attended = λ e. ground (arith, e);
  }

  -- In every state that threads which call `push_and_notify_one`, `wait_and_pop` and
  -- `stop_waitings` reach from a start at which none of them sleeps or looks, as long as a thread
  -- sleeps nobody has asked to stop, and the items on the stack are at most as many as the threads
  -- that are awake in `wait_and_pop` and the notifications to come, each of one thread.
  pub asleep-attended :
      (s : Stack A) (t : Threads (Stack A))
      → Reach stack_container (start s) t
      → 0 < t.asleep
      → (t.container.interrupt_waiting ≡ false) × (length t.container.items ≤ t.pending + t.awake)
  unfolding stack_counts
  asleep-attended s t reached lt =
      (Reach-Attended stack_container stack_counts reached (start-Attended s)).asleep_attended lt
