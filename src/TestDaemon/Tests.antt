-- ===== src/TestDaemon/Tests.antt =====
-- The theorems on test_daemon.c at concrete answers.
use native.Mathlib.Omega.{arith}
use ubuntu_projects.Base.{ℕ, ◌≡◌, refl, Bool, List, [], ◌∷◌, ltb}
use ubuntu_projects.Base.Int.{ℤ, pos}
use ubuntu_projects.Sys.{Call, Reply, Os, Halt, halted}
use ubuntu_projects.Sys.Trace.{after}
use ubuntu_projects.Sys.Sample.{reply, sample, fresh}
use ubuntu_projects.TestDaemon.{main, thrfun}
use ubuntu_projects.Daemonize.Detached.{Succeeds}
use ubuntu_projects.TestDaemon.Main.{RunEnds, detached_as, main-RunEnds}
use ubuntu_projects.TestDaemon.Signals.{exit_line, handled, thrfun_lem}

abbrev three : ℕ → Bool
three n = ltb n 3

abbrev limit_three : Reply
limit_three = record {
  ret = pos 0;
  errno = 0;
  bytes = [];
  controllen = 0;
  value = pos 3;
  infos = [];
}

-- the descriptor that `open` gives: the lock file is opened behind the log
abbrev opens_as : List Call → ℕ
opens_as (Call.openlog ident options facility ∷ h) = 3
opens_as _ = 0

abbrev dups_as : List Call → ℕ
dups_as (Call.open_file path ∷ h) = 1
dups_as _ = 2

-- No call fails.
abbrev kernel : List Call → Reply
kernel (Call.getrlimit ∷ h) = limit_three
kernel (Call.open_file path ∷ h) = reply (pos (opens_as h))
kernel (Call.dup fd ∷ h) = reply (pos (dups_as h))
kernel _ = reply (pos 0)

abbrev os : Os
os = sample kernel

os-Succeeds : Succeeds os
os-Succeeds = record {
  forks = λ h. refl;
  handles = λ h. refl;
  moves = λ h. refl;
  limits = λ h. refl;
  opens = λ h. refl;
  dups = λ h. refl;
}

main-RunEnds_example : RunEnds three os (detached_as [] os []) (main 1 [] os fresh)
main-RunEnds_example =
    main-RunEnds three 1 [] os fresh os-Succeeds (λ n h. ground arith)
      (λ n e. (ground arith, λ k lt. absurd (ground arith)))
      (λ n e. (ground arith, λ k lt. ground arith)) (λ n e. (ground arith, λ k lt. ground arith))
      (λ n e. ground arith) (omega arith)

abbrev signal : ℤ → Reply
signal n = record { ret = pos 0; errno = 0; bytes = []; controllen = 0; value = n; infos = [] }

-- SIGHUP, and then SIGTERM
abbrev signals : List Call → Reply
signals (Call.sigwait ∷ []) = signal (pos 1)
signals (Call.sigwait ∷ c ∷ h) = signal (pos 15)
signals _ = reply (pos 0)

thrfun_lem_example : thrfun 2 (sample signals) fresh ≡ (
  halted (Halt.exited 0),
  after
      (sample signals)
      (exit_line (sample signals) ∷ Call.sigwait ∷ handled (sample signals) (pos 1 ∷ []) []),
)
thrfun_lem_example =
    thrfun_lem 2 (pos 1 ∷ []) (sample signals) fresh (omega arith) (omega arith)
      (refl, refl, refl, (refl, refl))
