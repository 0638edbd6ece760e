-- ===== src/TestDaemon.antt =====
-- c_projects/daemonize/test_daemon.c: a daemon of which one instance runs, and which reads signals
-- in a thread of its own.
pub mod Lock
pub mod Main
pub mod Signals
pub mod Name
mod Tests
use ubuntu_projects.Base.{
  ℕ, zero, suc, Bool, true, false, not, Option, none, some, List, [], ◌∷◌, ◌++◌, ◌==◌, ltb,
  if◌then◌else◌, length,
}
use ubuntu_projects.Base.Int.{ℤ, pos, is_neg, eq_ℤ}
use ubuntu_projects.Sys.{
  Bytes, text, Call, Handler, M, ◌>>=◌, ◌>>◌, Halt, pure, halt, exit, sys, ask, get_errno, when,
}
use ubuntu_projects.Daemonize.{daemonize}

-- `#define LOCKFILE`
abbrev pub lockfile : Bytes
lockfile = text "/var/run/test_daemon.pid"

-- `syslog(LOG_ERR, "...%s: %s", LOCKFILE, strerror(errno))` and exit
pub fail_on_file : Bytes → M ℕ
fail_on_file msg = do
  priority ← ask (λ os. os.log_err)
  err ← get_errno
  reason ← ask (λ os. os.strerror err)
  sys (Call.syslog priority (msg ++ (lockfile ++ (text ": " ++ reason))))
  exit 1

-- the lock is taken: the file holds the process number and a zero byte
pub write_pid : ℤ → M ℕ
write_pid fd = do
  sys (Call.ftruncate fd)
  decimal ← ask (λ os. os.decimal)
  pid ← sys Call.getpid
  when (ltb 15 (length (decimal pid.ret))) (halt Halt.undefined)
  sys (Call.write fd (decimal pid.ret ++ 0 ∷ []))
  pure 0

-- the lock is not taken: another instance holds it, or `flock` has failed
pub refused : ℤ → M ℕ
refused fd = do
  err ← get_errno
  would_block ← ask (λ os. os.ewouldblock)
  if err == would_block
      then (do sys (Call.close fd); pure 1)
      else fail_on_file (text "can't block file ")

unfoldable pub already_running : M ℕ
already_running = do
  fd ← sys (Call.open_file lockfile)
  if is_neg fd.ret then fail_on_file (text "can't open ") else do
    lock ← sys (Call.flock fd.ret)
    if is_neg lock.ret then refused fd.ret else write_pid fd.ret

-- `syslog` at a priority with a text
pub log : ℕ → Bytes → M (Unit {0})
log priority msg = sys (Call.syslog priority msg) >> pure tt

-- the `switch` of `thrfun`; `reread` is empty
pub on_signal : ℤ → M (Unit {0})
on_signal signo = do
  hup ← ask (λ os. os.sighup)
  term ← ask (λ os. os.sigterm)
  info ← ask (λ os. os.log_info)
  decimal ← ask (λ os. os.decimal)
  if eq_ℤ signo (pos hup)
      then log info (text "read configuration file")
      else if eq_ℤ signo (pos term)
      then (log info (text "SIGTERM signal received, exiting") >> exit 0)
      else log info (text "receive signal " ++ (decimal signo ++ text "\n"))

-- the loop of the thread, on fuel: one round for each signal
unfoldable pub thrfun : ℕ → M (Unit {0})
thrfun zero = halt Halt.out_of_fuel
thrfun (suc fuel) = do
  r ← sys Call.sigwait
  priority ← ask (λ os. os.log_err)
  when (not (eq_ℤ r.ret (pos 0))) (log priority (text "error in calling sigwait") >> exit 1)
  on_signal r.value
  thrfun fuel

-- `strrchr(argv[0], '/')`: what stands behind the last slash, if there is one
pub behind_slash : Bytes → Option Bytes
behind_slash [] = none
behind_slash (c ∷ s) = elim (behind_slash s) [
  | some name ↦ some name
  | none ↦ if c == b'/' then some s else none
]

pub command_name : Bytes → Bytes
command_name path = elim (behind_slash path) [ some name ↦ name | none ↦ path ]

-- while(true) sleep(1), on fuel
unfoldable pub sleep_on : ℕ → M ℕ
sleep_on zero = halt Halt.out_of_fuel
sleep_on (suc fuel) = sys (Call.sleep 1) >> sleep_on fuel

-- a step of `main` that fails: it is logged and `main` returns 1
unfoldable pub fail_with : Bytes → M ℕ
fail_with msg = do priority ← ask (λ os. os.log_err); sys (Call.syslog priority msg); pure 1

-- `main` from the point where no other instance runs
unfoldable pub start : ℕ → M ℕ
start fuel = do
  hup ← ask (λ os. os.sighup)
  sa ← sys (Call.sigaction hup Handler.sig_dfl)
  err ← get_errno
  reason ← ask (λ os. os.strerror err)
  if is_neg sa.ret then fail_with (text "can't set default handler to SIGHUP: " ++ reason) else do
    mask ← sys Call.pthread_sigmask
    if not (eq_ℤ mask.ret (pos 0)) then fail_with (text "error set SIG_BLOCK") else do
      thread ← sys Call.pthread_create
      if not (eq_ℤ thread.ret (pos 0)) then fail_with (text "error in pthread_create") else do
        info ← ask (λ os. os.log_info)
        sys (Call.syslog info (text "test_daemon started"))
        sleep_on fuel

unfoldable pub main : ℕ → Bytes → M ℕ
main fuel argv0 = do
  daemonize (command_name argv0)
  running ← already_running
  if not (running == 0)
      then fail_with (text "another instance of test_daemon already running")
      else start fuel
