-- ===== src/Server.antt =====
-- c_projects/sockets/server.c and server.h: the uptime service.
pub mod Addresses
pub mod Init
pub mod Serve
mod Tests
use ubuntu_projects.Base.{
  ℕ, zero, suc, Bool, true, false, not, ◌||◌, List, [], ◌∷◌, ◌++◌, ◌==◌, if◌then◌else◌,
}
use ubuntu_projects.Base.Int.{ℤ, pos, is_neg, is_positive, minus_one, to_ℕ, eq_ℤ}
use ubuntu_projects.Sys.{
  Bytes, text, AddrInfo, Call, M, ◌>>=◌, ◌>>◌, Halt, pure, halt, exit, sys, ask, get_errno,
  set_errno, when,
}
use ubuntu_projects.ErrFuncs.{err_sys, err_quit}
use ubuntu_projects.Daemonize.{daemonize}

-- `errout`
pub give_up : ℤ → ℕ → M ℤ
give_up fd err = do sys (Call.close fd); set_errno err; pure minus_one

unfoldable pub initserver : ℕ → AddrInfo → ℕ → ℕ → M ℤ
initserver type addr alen qlen = do
  fd ← sys (Call.socket addr.sa_family type)
  if is_neg fd.ret then pure minus_one else do
    b ← sys (Call.bind fd.ret addr.ai_addr alen)
    if is_neg b.ret then get_errno >>= give_up fd.ret else do
      stream ← ask (λ os. os.sock_stream)
      seqpacket ← ask (λ os. os.sock_seqpacket)
      if type == stream || type == seqpacket
          then (do
            l ← sys (Call.listen fd.ret qlen)
            if is_neg l.ret then get_errno >>= give_up fd.ret else pure fd.ret)
          else pure fd.ret

-- `syslog(LOG_ERR, "...: %s", strerror(errno))`
pub log_errno : Bytes → M (Unit {0})
log_errno msg = do
  priority ← ask (λ os. os.log_err)
  err ← get_errno
  reason ← ask (λ os. os.strerror err)
  sys (Call.syslog priority (msg ++ reason))
  pure tt

-- whether one of the two calls of `dup2` has not given the descriptor that was asked for
pub redirect : ℤ → M Bool
redirect clfd = do
  out ← sys (Call.dup2 clfd (pos 1))
  if not (eq_ℤ out.ret (pos 1))
      then pure true
      else do err ← sys (Call.dup2 clfd (pos 2)); pure (not (eq_ℤ err.ret (pos 2)))

-- the child: it comes back to the loop when `execl` fails
pub serve_child : ℤ → M (Unit {0})
serve_child clfd = do
  failed ← redirect clfd
  priority ← ask (λ os. os.log_err)
  when failed (sys (Call.syslog priority (text "ruptimed: error in dup2 call")) >> exit 1)
  sys (Call.close clfd)
  r ← sys (Call.execl (text "/usr/bin/uptime") (text "uptime"))
  when (not (is_neg r.ret)) (halt (Halt.replaced (text "/usr/bin/uptime")))
  log_errno (text "ruptimed: unexpected return from exec: ")

pub serve_parent : ℤ → ℤ → M (Unit {0})
serve_parent clfd pid = do sys (Call.close clfd); sys (Call.waitpid pid); pure tt

-- one round of the loop
pub serve_one : ℤ → M (Unit {0})
serve_one sockfd = do
  cl ← sys (Call.accept sockfd)
  when (is_neg cl.ret) (log_errno (text "ruptimed: error accept call: ") >> exit 1)
  pid ← sys Call.fork
  when (is_neg pid.ret) (log_errno (text "ruptimed: error call fork: ") >> exit 1)
  if eq_ℤ pid.ret (pos 0) then serve_child cl.ret else serve_parent cl.ret pid.ret

-- the loop, on fuel: it has no exit of its own
unfoldable pub serve : ℕ → ℤ → M (Unit {0})
serve zero sockfd = halt Halt.out_of_fuel
serve (suc fuel) sockfd = serve_one sockfd >> serve fuel sockfd

-- `#define QLEN 10`
abbrev pub qlen : ℕ
qlen = 10

unfoldable pub try_addresses : ℕ → List AddrInfo → M ℤ
try_addresses fuel [] = exit 1
try_addresses fuel (pai ∷ rest) = do
  stream ← ask (λ os. os.sock_stream)
  sockfd ← initserver stream pai pai.ai_addrlen qlen
  if is_neg sockfd then try_addresses fuel rest else (serve fuel sockfd >> pure (pos 0))

-- HOST_NAME_MAX, where `sysconf` knows no limit
pub host_name_max : M ℕ
host_name_max = do
  n ← sys Call.sysconf_host_name_max
  pure (if is_neg n.ret then 256 else to_ℕ n.ret)

pub unresolved : ℤ → M (Unit {0})
unresolved err = do
  priority ← ask (λ os. os.log_err)
  reason ← ask (λ os. os.gai_strerror err)
  sys (Call.syslog priority (text "ruptimed: error call getaddrinfo: " ++ (reason ++ text ".")))
  exit 1

-- `argc != 1`
abbrev pub extra : List Bytes → Bool
extra [] = false
extra (_ ∷ _) = true

-- the message for `gethostname`, which prints the buffer as it stands
pub host_message : Bytes → ℕ → M Bytes
host_message host n = do
  decimal ← ask (λ os. os.decimal)
  pure (text "error call gethostname(" ++ (host ++ (text ", " ++ (decimal (pos n) ++ text ")"))))

-- `main`, with the arguments behind the program's name
unfoldable pub main : ℕ → List Bytes → M ℤ
main fuel args = do
  when (extra args) (err_quit (text "not need arguments to execute"))
  n ← host_name_max
  host ← sys (Call.malloc n)
  when (not (is_positive host.ret)) (err_sys (text "error in call calloc"))
  name ← sys (Call.gethostname n)
  unnamed ← host_message name.bytes n
  when (is_neg name.ret) (err_sys unnamed)
  daemonize (text "ruptimed")
  r ← sys (Call.getaddrinfo name.bytes (text "ruptime"))
  when (not (eq_ℤ r.ret (pos 0))) (unresolved r.ret)
  try_addresses fuel r.infos
