-- ===== src/TestDaemon/Main.antt =====
-- `main` of test_daemon: the daemon runs when it is the only instance.
use native.Mathlib.Omega.{arith}
use mathlib.Core.Path.{subst}
use ubuntu_projects.Base.{
  ℕ, zero, suc, ◌≤◌, ◌≡◌, ◌∙◌, ap, sym, refl, Bool, true, false, not, List, ◌∷◌, ◌++◌, [], ◌==◌,
  ltb, if◌then◌else◌, length,
}
use ubuntu_projects.Base.Int.{pos, is_neg, eq_ℤ}
use ubuntu_projects.Sys.{
  Bytes, text, Call, Handler, Os, Proc, Outcome, Halt, returned, halted, and_then,
}
use ubuntu_projects.Sys.Trace.{after}
use ubuntu_projects.Sys.Descriptors.{gained, is_open, Fresh, Lowest}
use ubuntu_projects.Daemonize.Detached.{
  Succeeds, limit, null_call, swept, one_open, two_open, three_open, daemonize-Detached,
}
use ubuntu_projects.TestDaemon.{
  lockfile, already_running, command_name, sleep_on, fail_with, start, main,
}
use ubuntu_projects.TestDaemon.Lock.{
  opened, locked, numbered, LockEnds, lock_outcome, already_running_lem,
}

-- the history when the process has become a daemon
abbrev pub detached_as : Bytes → Os → List Call → List Call
detached_as argv0 os h =
    Call.openlog (command_name argv0) os.log_options os.log_daemon ∷ three_open os h

-- the histories on the way to the sleep
abbrev pub handles : Os → List Call → List Call
handles os h = Call.sigaction os.sighup Handler.sig_dfl ∷ h

abbrev pub masks : Os → List Call → List Call
masks os h = Call.pthread_sigmask ∷ handles os h

abbrev pub threads : Os → List Call → List Call
threads os h = Call.pthread_create ∷ masks os h

abbrev pub started : Os → List Call → List Call
started os h = Call.syslog os.log_info (text "test_daemon started") ∷ threads os h

-- How the process goes on behind the lock: it sleeps on when each of the three calls succeeds.
abbrev pub start_outcome : Os → List Call → Outcome ℕ
start_outcome os h =
    if is_neg (os.answer (handles os h)).ret
    then returned 1
    else if not (eq_ℤ (os.answer (masks os h)).ret (pos 0))
    then returned 1
    else if not (eq_ℤ (os.answer (threads os h)).ret (pos 0))
    then returned 1
    else halted Halt.out_of_fuel

-- the history when the process number has been written to the file
abbrev pub written : Os → List Call → List Call
written os h =
    Call.write (os.answer (opened h)).ret (os.decimal (os.answer (numbered os h)).ret ++ 0 ∷ [])
    ∷ numbered os h

-- How the process ends, by how the call for the lock does and what would follow it.
abbrev pub on_lock : Outcome ℕ → Outcome ℕ → Outcome ℕ
on_lock (returned n) next = if n == 0 then next else returned 1
on_lock (halted e) next = halted e

abbrev pub run_outcome : Os → List Call → Outcome ℕ
run_outcome os h = on_lock (lock_outcome os h) (start_outcome os (written os h))

-- When another instance has the lock: the last call is the message about it, and besides 0, 1 and 2 only
-- the descriptor is open that the message has opened.
abbrev pub Refused : (ℕ → Bool) → Os → ℕ → List Call → Type 0
Refused begin os k calls =
    (h : List Call) × (calls
      ≡ Call.syslog os.log_err (text "another instance of test_daemon already running") ∷ h)
    × (is_open begin os calls k ≡ gained (os.answer calls).ret (λ n. ltb n 3) k)

-- What `main` promises, for a run that has become a daemon with the history `h`.
abbrev pub RunEnds : (ℕ → Bool) → Os → List Call → Outcome ℕ × Proc → Type 0
RunEnds begin os h r =
    (r.0 ≡ run_outcome os h)
    × ((k : ℕ)
        → r.0 ≡ halted Halt.out_of_fuel
        → is_open begin os r.1.calls k
          ≡ gained (os.answer (started os (written os h))).ret
              (gained (os.answer (opened h)).ret (λ n. ltb n 3)) k)
    × ((k : ℕ) → lock_outcome os h ≡ returned 1 → Refused begin os k r.1.calls)

sleeps : (fuel : ℕ) (os : Os) (p : Proc) → (sleep_on fuel os p).0 ≡ halted Halt.out_of_fuel
unfolding sleep_on
sleeps zero os p = refl
sleeps (suc fuel) os p = sleeps fuel os (after os (Call.sleep 1 ∷ p.calls))

is_open-sleep_on :
    (begin : ℕ → Bool) (fuel : ℕ) (os : Os) (p : Proc) (k : ℕ)
    → is_open begin os (sleep_on fuel os p).1.calls k ≡ is_open begin os p.calls k
unfolding sleep_on
is_open-sleep_on begin zero os p k = refl
is_open-sleep_on begin (suc fuel) os p k =
    is_open-sleep_on begin fuel os (after os (Call.sleep 1 ∷ p.calls)) k

start-outcome : (fuel : ℕ) (os : Os) (p : Proc) → (start fuel os p).0 ≡ start_outcome os p.calls
unfolding start fail_with
start-outcome fuel os p = ground (arith, sleeps fuel os (after os (started os p.calls)))

is_open-start :
    (begin : ℕ → Bool) (fuel : ℕ) (os : Os) (p : Proc) (k : ℕ)
    → (start fuel os p).0 ≡ halted Halt.out_of_fuel
    → is_open begin os (start fuel os p).1.calls k
      ≡ gained (os.answer (started os p.calls)).ret (is_open begin os p.calls) k
unfolding start fail_with
is_open-start begin fuel os p k stuck =
    ground (arith, stuck, is_open-sleep_on begin fuel os (after os (started os p.calls)) k)

lock_stops : (os : Os) (h : List Call) → lock_outcome os h ≡ halted Halt.out_of_fuel → ⊥
lock_stops os h e = ground (arith, e)

positive : (n : ℕ) → (suc n == 0) ≡ false
positive n = ground arith

without_lock :
    (begin : ℕ → Bool) (os : Os) (k n : ℕ) (h : List Call) (q : Proc)
    → (n == 0) ≡ false
    → LockEnds begin os k h (returned n, q)
    → is_open begin os q.calls k ≡ is_open begin os h k
without_lock begin os k n h q e ends = (subst (λ b. Found b) e ends).1
  where
    Found : Bool → Type 0
    Found b =
        if b
        then (is_neg (os.answer (locked os h)).ret ≡ false)
          × (is_open begin os q.calls k ≡ is_open begin os (opened h) k)
          × (q.calls ≡ written os h)
        else (is_neg (os.answer (locked os h)).ret ≡ true)
          × (is_open begin os q.calls k ≡ is_open begin os h k)
          × ((os.answer (locked os h)).errno ≡ os.ewouldblock)

on_lock-refused :
    (n : ℕ) (next : Outcome ℕ) → (n == 0) ≡ false → returned 1 ≡ on_lock (returned n) next
on_lock-refused n next e = rw e refl

module _ (begin : ℕ → Bool) (fuel : ℕ) (os : Os) (h : List Call)
    (std : (k : ℕ) → is_open begin os h k ≡ ltb k 3) where
  behind_lock :
      (r : Outcome ℕ × Proc)
      → r.0 ≡ lock_outcome os h
      → ((k : ℕ) → LockEnds begin os k h r)
      → RunEnds begin os h (
          and_then r
            (λ running.
              if not (running == 0)
              then fail_with (text "another instance of test_daemon already running")
              else start fuel)
            os)
  unfolding fail_with
  behind_lock (returned zero, q) e ends = (
    start-outcome fuel os q
        ∙ (ap (start_outcome os) (ends 0).2
            ∙ ap (λ o. on_lock o (start_outcome os (written os h))) e),
    λ k stuck.
        is_open-start begin fuel os q k stuck
        ∙ (ap (λ b. gained (os.answer (started os q.calls)).ret (λ _. b) k)
              ((ends k).1
                ∙ ap (λ b. if eq_ℤ (os.answer (opened h)).ret (pos k) then true else b) (std k))
            ∙ ap
                (λ c.
                  gained (os.answer (started os c)).ret
                    (gained (os.answer (opened h)).ret (λ n. ltb n 3)) k)
                (ends k).2),
    λ k other. cc,
  )
  behind_lock (returned (suc n), q) e ends = rw (positive n) (
    on_lock-refused (suc n) (start_outcome os (written os h)) (positive n)
        ∙ ap (λ o. on_lock o (start_outcome os (written os h))) e,
    λ k stuck. cc,
    λ k other. (
      _,
      refl,
      ap
          (λ b.
            gained
              (os.answer (
                Call.syslog os.log_err (text "another instance of test_daemon already running")
                ∷ q.calls)).ret
              (λ _. b) k)
          (without_lock begin os k (suc n) h q (positive n) (ends k) ∙ std k),
    ),
  )
  behind_lock (halted x, q) e ends = (
    ap (λ o. on_lock o (start_outcome os (written os h))) e,
    λ k stuck. absurd (lock_stops os h (sym e ∙ stuck)),
    λ k other. cc,
  )

-- When no call of `daemonize` fails, every descriptor that is open before is below the limit, the
-- kernel gives out the lowest free descriptors in it and one that was not open for the lock file,
-- and the printed process number has at most 15 bytes, `main` ends as `run_outcome` says: the
-- daemon sleeps on, for as long as there is fuel, exactly when the lock is taken and the handler,
-- the mask and the thread of the signals are set up; the process exits with 1 when the lock fails,
-- and `main` returns 1 when another instance has it or one of the three calls fails. While it
-- sleeps exactly the descriptors 0, 1, 2, that of the lock file and the one to the log that the
-- message before the sleep has opened, if it has, are open (this holds of every descriptor `k`);
-- when another instance has the lock, only the first three and the one to the log that the message
-- about it has opened, if it has.
pub main-RunEnds :
    (begin : ℕ → Bool) (fuel : ℕ) (argv0 : Bytes) (os : Os) (p : Proc)
    → Succeeds os
    → ((n : ℕ) → limit os p.calls ≤ n → is_open begin os p.calls n ≡ false)
    → Lowest begin os null_call (swept os p.calls)
    → Lowest begin os (Call.dup (pos 0)) (one_open os p.calls)
    → Lowest begin os (Call.dup (pos 0)) (two_open os p.calls)
    → Fresh begin os (Call.open_file lockfile) (detached_as argv0 os p.calls)
    → length (os.decimal (os.answer (numbered os (detached_as argv0 os p.calls))).ret) ≤ 15
    → RunEnds begin os (detached_as argv0 os p.calls) (main fuel argv0 os p)
unfolding main
main-RunEnds begin fuel argv0 os p ok covered first second third fresh short =
    let h = detached_as argv0 os p.calls in
    let daemon = daemonize-Detached begin os (command_name argv0) p ok covered first second third in
    let lock = λ (k : ℕ). already_running_lem begin os (after os h) k fresh short in
    rw (daemon.0) (
      behind_lock begin fuel os h daemon.1 (already_running os (after os h)) (lock 0).0
        (λ k. (lock k).1))
