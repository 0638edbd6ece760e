-- ===== src/Waits.antt =====
-- What the stack and the queue of cppprojects/include/ts_lib (threadsafe_stack.h,
-- threadsafe_queue.h) have in common: the status of a pop, and the calls that wait for an item. Such
-- a call runs under the lock at some moments, and releases it between them.
pub mod Outcome
pub mod Wakeup
use ubuntu_projects.Base.{
  ℕ, zero, suc, Bool, true, false, Option, none, some, List, [], ◌∷◌, if◌then◌else◌,
}
use ubuntu_projects.Base.Int.{ℤ, pos, negsuc, minus_one}

pub data PopStatus : Type 0 where
  empty : PopStatus
  ready : PopStatus
  try_lock_fail : PopStatus
  interrupted : PopStatus
  timeout : PopStatus

-- which of the threads that wait are notified
pub data Notify : Type 0 where
  one : Notify
  all : Notify

-- `--count`
abbrev pub pred : ℤ → ℤ
pred (pos zero) = minus_one
pred (pos (suc n)) = pos n
pred (negsuc n) = negsuc (suc n)

-- When a call takes the lock: when it starts, when it has woken up from its wait, notified or
-- not, and when its time is over.
pub data Moment : Type 0 where
  called : Moment
  woken : Moment
  expired : Moment

-- What has become of a call: it waits on, or it has returned a status and the items it took out.
pub data Call (A : Type 0) : Type 0 where
  waiting : Call A
  returned : PopStatus → List A → Call A

-- `S` is the state of the container, with `m_interrupt_waiting`, the condition that is waited for and
-- the pop at the end of the call.
module _ {S A : Type 0} (interrupt_waiting can_go : S → Bool) (take : S → Option (Call A × S)) where
  -- what follows the wait
  unfoldable pub finish : S → Option (Call A × S)
  finish s = if interrupt_waiting s then some (returned PopStatus.interrupted [], s) else take s

  -- `m_cb.wait`: a thread goes on when the condition holds
  unfoldable pub wait : S → Option (Call A × S)
  wait s = if can_go s then finish s else some (waiting, s)

  -- the start of each of these calls
  unfoldable pub start : S → Option (Call A × S)
  start s = if interrupt_waiting s then some (returned PopStatus.interrupted [], s) else wait s

  -- `m_cb.wait_for` and `m_cb.wait_until` return the condition when the time is over
  unfoldable pub time_out : S → Option (Call A × S)
  time_out s = if can_go s then finish s else some (returned PopStatus.timeout [], s)

  -- A call without a time limit does not expire.
  unfoldable pub untimed : Moment → S → Option (Call A × S)
  untimed called s = start s
  untimed woken s = wait s
  untimed expired s = some (waiting, s)

  unfoldable pub timed : Moment → S → Option (Call A × S)
  timed called s = start s
  timed woken s = wait s
  timed expired s = time_out s
