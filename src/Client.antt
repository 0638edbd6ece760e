-- ===== src/Client.antt =====
-- c_projects/sockets/client.c: the client of the uptime service. A `size_t` is a number below
-- 2 ^ 64 whose shift wraps round; `sleep` takes an `unsigned int`.
pub mod Retry
pub mod Overflow
pub mod Main
pub mod Uptime
mod Tests
use ubuntu_projects.Base.{
  ℕ, zero, suc, ◌+◌, ◌*◌, ◌/◌, ◌%◌, ◌^◌, Bool, true, false, not, List, [], ◌∷◌, ◌++◌, leb, ◌==◌,
  if◌then◌else◌,
}
use ubuntu_projects.Base.Int.{ℤ, pos, is_neg, is_positive, minus_one, eq_ℤ}
use ubuntu_projects.Sys.{
  Bytes, text, AddrInfo, Call, M, ◌>>=◌, ◌>>◌, Halt, pure, halt, sys, ask, get_errno, when,
}
use ubuntu_projects.ErrFuncs.{err_sys, err_quit}

-- `time <<= 1`
abbrev pub shift : ℕ → ℕ
shift time = time * 2 % 2 ^ 64

-- the loop over `time`, on fuel
pub retry_loop : ℕ → ℤ → ℕ → ℕ → (seconds time : ℕ) → M ℤ
retry_loop zero fd addr alen seconds time = halt Halt.out_of_fuel
retry_loop (suc fuel) fd addr alen seconds time =
    if leb time seconds
    then (do
      r ← sys (Call.connect fd addr alen)
      if eq_ℤ r.ret (pos 0) then pure (pos 0) else do
        when (leb time (seconds / 2)) (sys (Call.sleep (time % 2 ^ 32)) >> pure tt)
        retry_loop fuel fd addr alen seconds (shift time))
    else pure minus_one

unfoldable pub connect_retry : ℕ → ℤ → ℕ → ℕ → ℕ → M ℤ
connect_retry fuel fd addr alen seconds =
    retry_loop fuel fd addr alen (if seconds == 0 then 1 else seconds) 1

-- `#define BUFLEN 128`
abbrev pub buflen : ℕ
buflen = 128

-- On fuel: one round for each `recv`.
unfoldable pub print_uptime : ℕ → ℤ → M (Unit {0})
print_uptime zero fd = halt Halt.out_of_fuel
print_uptime (suc fuel) fd = do
  r ← sys (Call.recv fd buflen)
  if is_positive r.ret
      then (sys (Call.write (pos 1) r.bytes) >> print_uptime fuel fd)
      else when (is_neg r.ret) (err_sys (text "error in call recv"))

-- the loop over the addresses, both of whose branches return
unfoldable pub try_addresses : ℕ → Bytes → List AddrInfo → M ℤ
try_addresses fuel host [] = pure (pos 0)
try_addresses fuel host (pai ∷ rest) = do
  stream ← ask (λ os. os.sock_stream)
  s ← sys (Call.socket pai.ai_family stream)
  c ← connect_retry fuel s.ret pai.ai_addr pai.ai_addrlen 120
  if is_neg c
      then (do
        err ← get_errno
        reason ← ask (λ os. os.strerror err)
        sys (
            Call.fputs_stderr
              (text "can't connect to " ++ (host ++ (text ": " ++ (reason ++ text "\n")))))
        pure minus_one)
      else (print_uptime fuel s.ret >> pure (pos 0))

-- `main`, without the program's name; what is not set in `hint` is zero
unfoldable pub main : ℕ → List Bytes → M ℤ
main fuel (host ∷ []) = do
  r ← sys (Call.getaddrinfo host (text "ruptime"))
  reason ← ask (λ os. os.gai_strerror r.ret)
  when (not (eq_ℤ r.ret (pos 0))) (err_quit (text "error call getaddrinfo: " ++ reason))
  try_addresses fuel host r.infos
main fuel _ = do err_quit (text "Execute: client hostname"); pure (pos 0)
