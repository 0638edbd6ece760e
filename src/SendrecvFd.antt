-- ===== src/SendrecvFd.antt =====
-- c_projects/sockets/sendrecv_fd.c: descriptors and error messages over a local socket. The static
-- pointer `cmptr` is a flag, whether the control buffer has been allocated, that goes in and comes
-- back. A `char` is the number of its bits, and an `int` is an integer without bounds.
pub mod Send
pub mod Scan
pub mod Receive
pub mod RoundTrip
mod Tests
use ubuntu_projects.Base.{
  ℕ, zero, suc, ◌+◌, ◌-◌, ◌%◌, Bool, true, false, not, Option, none, some, List, [], ◌∷◌, leb, ltb,
  ◌==◌, if◌then◌else◌, length, get_or, take,
}
use ubuntu_projects.Base.Int.{ℤ, pos, is_neg, is_positive, neg, minus_one, eq_ℤ, to_byte}
use ubuntu_projects.Sys.{Bytes, text, Call, Reply, M, Os, ◌>>=◌, ◌>>◌, Halt, pure, halt, sys, ask}
use ubuntu_projects.CString.{maxline}
use ubuntu_projects.ErrFuncs.{err_sys, err_ret, err_dump}

-- `cmptr == NULL && (cmptr = malloc(CONTROLLEN)) == NULL`: whether there is a control buffer
abbrev pub control_buffer : Bool → M Bool
control_buffer true = pure true
control_buffer false = do
  size ← ask (λ os. os.controllen)
  r ← sys (Call.malloc size)
  pure (is_positive r.ret)

-- `-1` if `sendmsg` has not sent the two bytes
abbrev pub sent : ℤ → ℤ
sent n = if eq_ℤ n (pos 2) then pos 0 else minus_one

-- `sending_fd` is a descriptor, or the negated code of an error.
unfoldable pub send_fd : ℤ → ℤ → Bool → M (ℤ × Bool)
send_fd fd sending_fd cmptr =
    if is_neg sending_fd
    then (do
      r ← sys (Call.sendmsg fd (0 ∷ to_byte (neg sending_fd) ∷ []) none)
      pure (sent r.ret, cmptr))
    else do
      there ← control_buffer cmptr
      if not there
          then pure (minus_one, false)
          else do r ← sys (Call.sendmsg fd (0 ∷ 0 ∷ []) (some sending_fd)); pure (sent r.ret, true)

-- the message, if it has been written whole; `write` is not called for an empty one
pub write_msg : ℤ → Bytes → M Bool
write_msg fd msg =
    if ltb 0 (length msg)
    then (do r ← sys (Call.write fd msg); pure (eq_ℤ r.ret (pos (length msg))))
    else pure true

unfoldable pub send_err : ℤ → ℤ → Bytes → Bool → M (ℤ × Bool)
send_err fd errcode msg cmptr = do
  written ← write_msg fd msg
  if not written then pure (minus_one, cmptr) else do
    (r, cmptr') ← send_fd fd (if is_neg errcode then errcode else minus_one) cmptr
    pure (if is_neg r then minus_one else pos 0, cmptr')

-- `nr > 0 && (*userfunc)(STDERR_FILENO, buf, nr) != nr`, negated
pub accepted : (Bytes → M ℤ) → Bytes → M Bool
accepted userfunc buf =
    if ltb 0 (length buf)
    then (do n ← userfunc buf; pure (eq_ℤ n (pos (length buf))))
    else pure true

-- the descriptor of a message with status 0
pub fd_of : Reply → ℕ → M ℤ
fd_of r size = do
  if r.controllen == size then pure tt else err_dump (text "received code zero without fd")
  pure r.value

-- the code of the sender behind the zero byte, with `ptr` at index `i`
pub read_status : Reply → ℕ → M ℤ
read_status r i = do
  if i == length r.bytes - 1 then pure tt else err_dump (text "message format violation")
  let status = get_or r.bytes i 0 % 256
  size ← ask (λ os. os.controllen)
  if status == 0 then fd_of r size else pure (neg (pos status))

-- The inner loop, with `ptr` at index `i` and `rest` the bytes from there on: the value to return,
-- or `none` when it ends and the next message is awaited.
pub scan : (Bytes → M ℤ) → Reply → ℕ → Bytes → M (Option ℤ)
scan userfunc r i [] = pure none
scan userfunc r i (b ∷ rest) =
    if b == 0
    then (do
      newfd ← read_status r (i + 1)
      fine ← accepted userfunc (take (length r.bytes - 2) r.bytes)
      pure (some (if fine then newfd else minus_one)))
    else do
      fine ← accepted userfunc r.bytes
      if fine then scan userfunc r (i + 1) rest else pure (some minus_one)

-- What follows a `recvmsg`. The number that it returns is that of the bytes received, if not negative.
pub handle : (Bytes → M ℤ) → Reply → M (Option ℤ)
handle userfunc r =
    if is_neg r.ret
    then (do err_sys (text "error call recvmsg"); pure none)
    else if length r.bytes == 0
    then (do err_ret (text "connection closed by a server"); pure (some minus_one))
    else scan userfunc r 0 r.bytes

-- The outer loop, on fuel: one round for each message.
pub recv_fd : ℕ → ℤ → (Bytes → M ℤ) → Bool → M (ℤ × Bool)
recv_fd zero fd userfunc cmptr = halt Halt.out_of_fuel
recv_fd (suc fuel) fd userfunc cmptr = do
  there ← control_buffer cmptr
  if not there then pure (minus_one, false) else do
    r ← sys (Call.recvmsg fd maxline)
    result ← handle userfunc r
    elim result [ some newfd ↦ pure (newfd, true) | none ↦ recv_fd fuel fd userfunc true ]
