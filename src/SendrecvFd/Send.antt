-- ===== src/SendrecvFd/Send.antt =====
-- The sender's side: `send_err`.
use ubuntu_projects.Base.{ℕ, suc, ◌%◌, ◌≡◌, true, false, none, [], ◌∷◌, length, arith}
use ubuntu_projects.Base.Int.{ℤ, pos, negsuc, minus_one, eq_ℤ}
use ubuntu_projects.Sys.{Bytes, Call, Os, Proc, returned}
use ubuntu_projects.Sys.Trace.{after}
use ubuntu_projects.SendrecvFd.{sent, send_fd, write_msg, send_err}

-- the byte sent for an error code: a code that is not negative counts as -1
abbrev pub code_byte : ℤ → ℕ
code_byte (pos n) = 1
code_byte (negsuc n) = suc n % 256

-- An error with a message that is not empty: if the message is not written whole, `send_err`
-- returns -1 and sends nothing; otherwise it sends a zero byte and the code, without a descriptor,
-- and returns 0 exactly when both bytes have been sent, and -1 otherwise.
send_err_lem :
    (fd errcode : ℤ) (b : ℕ) (m : Bytes) (os : Os) (p : Proc)
    → let msg = b ∷ m in
      let wrote = Call.write fd msg ∷ p.calls in
      let ended = Call.sendmsg fd (0 ∷ code_byte errcode ∷ []) none ∷ wrote in
      (eq_ℤ (os.answer wrote).ret (pos (length msg)) ≡ false
        → send_err fd errcode msg true os p ≡ (returned (minus_one, true), after os wrote))
      × (eq_ℤ (os.answer wrote).ret (pos (length msg)) ≡ true
          → send_err fd errcode msg true os p
            ≡ (returned (sent (os.answer ended).ret, true), after os ended))
unfolding send_err send_fd write_msg
send_err_lem fd errcode b m os p = (λ e. ground arith, λ e. ground arith)
