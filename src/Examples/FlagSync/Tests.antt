-- ===== src/Examples/FlagSync/Tests.antt =====
-- The theorem on future_sync_on_cv.cpp where `getflag` sleeps before the flag is set.
use ubuntu_projects.Base.{refl, false}
use ubuntu_projects.Examples.FlagSync.{Setter, Getter, State, Thread, getflag, look}
use ubuntu_projects.Examples.FlagSync.Wakeup.{Reach, Goes, Reach-Goes}

abbrev checks : State
checks = record { cvflag = false; setter = Setter.unset; getter = Getter.checking }

abbrev sleeps : State
sleeps = record { cvflag = false; setter = Setter.unset; getter = Getter.asleep }

sleeps-Reach : Reach sleeps
unfolding getflag look
sleeps-Reach = Reach.steps {s = checks} Thread.gets (Reach.steps Thread.gets Reach.here refl) refl

Reach-Goes_example : Goes sleeps
Reach-Goes_example = Reach-Goes sleeps sleeps-Reach
