-- ===== src/Daemonize.antt =====
-- c_projects/daemonize/daemonize.h: a process that leaves its terminal, its directory and its
-- descriptors behind.
pub mod Detached
mod Tests
use ubuntu_projects.Base.{
  ℕ, zero, suc, ◌+◌, Bool, true, false, not, ◌||◌, List, [], ◌∷◌, ◌++◌, ◌==◌, if◌then◌else◌,
}
use ubuntu_projects.Base.Int.{ℤ, pos, is_neg, to_ℕ, eq_ℤ}
use ubuntu_projects.Sys.{Bytes, text, Call, Handler, M, Os, ◌>>=◌, ◌>>◌, pure, exit, sys, ask, when}

-- the process that goes on is the child
pub fork_child : ℕ → M (Unit {0})
fork_child failure = do
  pid ← sys Call.fork
  when (is_neg pid.ret) (exit failure)
  when (not (eq_ℤ pid.ret (pos 0))) (exit 0)

-- for (i = from; i < from + n; ++i) close(i)
pub close_from : ℕ → ℕ → M (Unit {0})
close_from zero i = pure tt
close_from (suc n) i = sys (Call.close (pos i)) >> close_from n (i + 1)

-- `rl.rlim_max`, or 1024 where there is no limit
pub descriptor_limit : M ℕ
descriptor_limit = do
  rl ← sys Call.getrlimit
  when (is_neg rl.ret) (exit 1)
  infinity ← ask (λ os. os.rlim_infinity)
  pure (if to_ℕ rl.value == infinity then 1024 else to_ℕ rl.value)

-- the three standard descriptors on /dev/null
pub open_null : Bytes → M (Unit {0})
open_null cmd = do
  fd0 ← sys (Call.open_file (text "/dev/null"))
  fd1 ← sys (Call.dup (pos 0))
  fd2 ← sys (Call.dup (pos 0))
  option ← ask (λ os. os.log_options)
  facility ← ask (λ os. os.log_daemon)
  sys (Call.openlog cmd option facility)
  decimal ← ask (λ os. os.decimal)
  priority ← ask (λ os. os.log_err)
  when (not (eq_ℤ fd0.ret (pos 0)) || (not (eq_ℤ fd1.ret (pos 1)) || not (eq_ℤ fd2.ret (pos 2)))) (
      sys (
        Call.syslog priority (
          text "faulure file descriptors "
          ++ (decimal fd0.ret ++ (text " " ++ (decimal fd1.ret ++ (text " " ++ decimal fd2.ret))))))
      >> exit 2)

unfoldable pub daemonize : Bytes → M (Unit {0})
daemonize cmd = do
  sys (Call.umask 0)
  fork_child 2
  sys Call.setsid
  hup ← ask (λ os. os.sighup)
  sa ← sys (Call.sigaction hup Handler.sig_ign)
  when (is_neg sa.ret) (exit 3)
  fork_child 4
  dir ← sys (Call.chdir (text "/"))
  when (is_neg dir.ret) (exit 5)
  max ← descriptor_limit
  close_from max 0
  open_null cmd
