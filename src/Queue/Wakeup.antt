-- ===== src/Queue/Wakeup.antt =====
-- Threads that sleep until there is an item in the queue: a push takes the lock of the tail, and not
-- the lock of the head, under which they look.
use ubuntu_projects.Queue.Memory.{Sized}
use ubuntu_projects.Base.{ℕ, ◌≡◌, refl, false, Option, none, some, List, [], ◌∷◌, arith}
use ubuntu_projects.Waits.{PopStatus, Notify, woken, waiting, returned, untimed, wait}
use ubuntu_projects.Waits.Wakeup.{
  Container, Threads, put, notify_none, call, check, sleep, Reach, here, later,
}
use ubuntu_projects.Queue.Push.{Holds, Becomes, emplace-Holds}
use ubuntu_projects.Queue.Concurrent.{empty-head}
use ubuntu_projects.Queue.{
  State, emplace, push, push_and_notify_one, stop_waitings, get_tail_protected,
}
use ubuntu_projects.Queue.Wait.{can_go, wait_and_pop}

module _ {A : Type 0} ⦃sized : Sized A⦄ where
  abbrev pub queue_container : Container (State A)
  queue_container = record {
    Puts = λ n s t. (a : ℕ) × (x : A) × (push_and_notify_one a x s ≡ some (n, t));
    Ends = λ s t.
        (status : PopStatus) × (out : List A) × (wait_and_pop woken s
          ≡ some (returned status out, t));
    NoItem = λ s. wait_and_pop woken s ≡ some (waiting, s);
    Stops = λ n s t. stop_waitings s ≡ (n, t);
    put_locks = false;
  }

  -- The lock of a push is not the one under which a wait looks.
  abbrev pub start : State A → Threads (State A)
  start s = record {
    container = s;
    checking = false;
    asleep = 0;
    awake = 0;
    pending = 0;
    pending_all = 0;
  }

  empty-waiting :
      (s : State A)
      → Holds s []
      → s.1.interrupt_waiting ≡ false
      → wait_and_pop woken s ≡ some (waiting, s)
  unfolding wait_and_pop untimed wait can_go get_tail_protected
  empty-waiting s holds flag =
      ground (arith, flag, empty-head s.0 s.1 holds.cells holds.linked holds.listed)

  push-runs :
      (a : ℕ) (x : A) (s : State A) (o : Option (State A))
      → o ≡ emplace a x s
      → Becomes o (x ∷ [])
      → (t : State A) × (push_and_notify_one a x s ≡ some (Notify.one, t)) × Holds t (x ∷ [])
  unfolding push_and_notify_one push
  push-runs a x s none e holds = absurd holds
  push-runs a x s (some t) e holds = (t, rw (← e) refl, holds)

  -- A thread looks and finds nothing, another one pushes and notifies, and then the first one sleeps.
  lost_steps :
      (s t : State A)
      → queue_container.NoItem s
      → queue_container.Puts Notify.one s t
      → Reach queue_container (start s) (record {
        container = t;
        checking = false;
        asleep = 1;
        awake = 0;
        pending = 0;
        pending_all = 0;
      })
  lost_steps s t nothing puts =
      later (later (later (later (later here call) (check nothing)) (put puts refl)) notify_none)
        sleep

  -- On an empty queue without a request to stop, with an address for a new node, the steps of a
  -- thread that waits and of one that runs `push_and_notify_one` can be ordered so that the queue
  -- holds the item, the notification has been given, and the first thread sleeps: the wakeup is
  -- lost.
  lost_wakeup :
      (a : ℕ) (x : A) (s : State A)
      → Holds s []
      → s.1.interrupt_waiting ≡ false
      → s.0 a ≡ none
      → (t : State A) × Holds t (x ∷ [])
        × Reach queue_container (start s) (record {
          container = t;
          checking = false;
          asleep = 1;
          awake = 0;
          pending = 0;
          pending_all = 0;
        })
  lost_wakeup a x s holds flag free =
      let (t, ran, after) =
        push-runs a x s (emplace a x s) refl (emplace-Holds a x s [] holds free) in
      (t, after, lost_steps s t (empty-waiting s holds flag) (a, x, ran))
