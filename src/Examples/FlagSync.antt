-- ===== src/Examples/FlagSync.antt =====
-- cppprojects/examples/future_sync_on_cv.cpp: `getflag` waits on a condition variable for the flag
-- that `setflag` sets, each in a thread of its own. A step of a thread goes from one moment at which
-- it holds the mutex `m`, or calls the condition variable, to the next. What the threads print
-- is left out.
pub mod Wakeup
mod Tests
use ubuntu_projects.Base.{Bool, true, false, if◌then◌else◌}

-- where `setflag` is: in front of the lock, in front of the notification, and at the end
pub data Setter : Type 0 where
  unset set notified : Setter

-- where `getflag` is: in front of the lock, in the wait with the mutex and the flag found false,
-- in the wait without the mutex, woken up, and at the end
pub data Getter : Type 0 where
  starts checking asleep awake returned : Getter

pub record State : Type 0 where
  pub cvflag : Bool
  pub setter : Setter
  pub getter : Getter

pub data Thread : Type 0 where
  sets gets : Thread

-- A thread moves, waits for the mutex or for a notification, or has returned.
pub data Result : Type 0 where
  moved : State → Result
  blocked : Result
  finished : Result

-- `getflag` holds the mutex between two of its steps only while it checks.
abbrev pub locked : Getter → Bool
locked Getter.checking = true
locked _ = false

-- `cv.notify_one()`
abbrev pub notify_one : Getter → Getter
notify_one Getter.asleep = Getter.awake
notify_one g = g

unfoldable pub setflag : State → Result
setflag s = elim s.setter [
  | Setter.unset ↦
      if locked s.getter then blocked else moved (record s { cvflag = true; setter = Setter.set })
  | Setter.set ↦ moved (record s { setter = Setter.notified; getter = notify_one s.getter })
  | Setter.notified ↦ finished
]

-- the test of the flag in `cv.wait`, and the one behind it, which ends the loop
unfoldable pub look : State → Result
look s =
    if s.cvflag
    then moved (record s { getter = if s.cvflag then Getter.returned else Getter.starts })
    else moved (record s { getter = Getter.checking })

unfoldable pub getflag : State → Result
getflag s = elim s.getter [
  | Getter.starts ↦ look s
  | Getter.checking ↦ moved (record s { getter = Getter.asleep })
  | Getter.asleep ↦ blocked
  | Getter.awake ↦ look s
  | Getter.returned ↦ finished
]

abbrev pub step : Thread → State → Result
step Thread.sets s = setflag s
step Thread.gets s = getflag s

-- A wait may wake up without being notified, as the C++ standard allows.
abbrev pub wake_up : State → State
wake_up s = record s { getter = notify_one s.getter }

-- the two threads that `main` starts
abbrev pub start : State
start = record { cvflag = false; setter = Setter.unset; getter = Getter.starts }
