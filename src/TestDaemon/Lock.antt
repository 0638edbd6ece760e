-- ===== src/TestDaemon/Lock.antt =====
-- `already_running`: one instance holds the lock on the file.
use native.Mathlib.Omega.{arith}
use ubuntu_projects.Base.{
  ℕ, ◌≤◌, ◌≡◌, Bool, true, false, List, [], ◌∷◌, ◌++◌, ◌==◌, if◌then◌else◌, length,
}
use ubuntu_projects.Base.Int.{is_neg}
use ubuntu_projects.Sys.{Call, Os, Proc, Outcome, Halt, returned, halted}
use ubuntu_projects.Sys.Descriptors.{is_open, Fresh}
use ubuntu_projects.TestDaemon.{lockfile, fail_on_file, write_pid, refused, already_running}

abbrev pub opened : List Call → List Call
opened h = Call.open_file lockfile ∷ h

abbrev pub locked : Os → List Call → List Call
locked os h = Call.flock (os.answer (opened h)).ret ∷ opened h

-- the history when the process number has been asked for
abbrev pub numbered : Os → List Call → List Call
numbered os h = Call.getpid ∷ Call.ftruncate (os.answer (opened h)).ret ∷ locked os h

-- What `already_running` promises of descriptor `k`: it returns 0 with the lock, and 1 without it.
abbrev pub LockEnds : (ℕ → Bool) → Os → ℕ → List Call → Outcome ℕ × Proc → Type 0
LockEnds start os k h (returned n, q) =
    if n == 0
    then (is_neg (os.answer (locked os h)).ret ≡ false)
      × (is_open start os q.calls k ≡ is_open start os (opened h) k)
      × (q.calls
          ≡ Call.write (os.answer (opened h)).ret
              (os.decimal (os.answer (numbered os h)).ret ++ 0 ∷ [])
            ∷ numbered os h)
    else (is_neg (os.answer (locked os h)).ret ≡ true)
      × (is_open start os q.calls k ≡ is_open start os h k)
      × ((os.answer (locked os h)).errno ≡ os.ewouldblock)
LockEnds start os k h (halted e, q) = Unit {0}

-- How the call ends, by the answers of `open` and `flock`.
abbrev pub lock_outcome : Os → List Call → Outcome ℕ
lock_outcome os h =
    if is_neg (os.answer (opened h)).ret
    then halted (Halt.exited 1)
    else if is_neg (os.answer (locked os h)).ret
    then (if (os.answer (locked os h)).errno == os.ewouldblock
        then returned 1
        else halted (Halt.exited 1))
    else returned 0

-- When `open` gives a descriptor that was not open and the printed process number has at most 15
-- bytes, `already_running` ends as `lock_outcome` says: it returns 0 exactly when both `open` and
-- `flock` succeed, 1 when `flock` fails with `EWOULDBLOCK`, and the process exits with 1 after any
-- other failure. When it returns 0, the file stays open and its last calls emptied the file and
-- wrote the process number with a zero byte; when it returns 1, the same descriptors are open as
-- before (both of every descriptor `k`).
pub already_running_lem :
    (start : ℕ → Bool) (os : Os) (p : Proc) (k : ℕ)
    → Fresh start os (Call.open_file lockfile) p.calls
    → length (os.decimal (os.answer (numbered os p.calls)).ret) ≤ 15
    → ((already_running os p).0 ≡ lock_outcome os p.calls)
      × LockEnds start os k p.calls (already_running os p)
unfolding already_running fail_on_file write_pid refused
already_running_lem start os p k fresh short = (ground arith, ground (arith, fresh k))
