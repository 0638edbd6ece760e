-- ===== src/SendrecvFd/Tests.antt =====
-- The theorems on sendrecv_fd.c at concrete messages.
use native.Mathlib.Omega.{arith}
use ubuntu_projects.Base.{ℕ, ◌≡◌, refl, true, false, List, [], ◌∷◌, length}
use ubuntu_projects.Base.Int.{pos, negsuc}
use ubuntu_projects.Sys.{Call, Reply, returned}
use ubuntu_projects.Sys.Trace.{after}
use ubuntu_projects.Sys.Sample.{reply, delivers, sample, silent, fresh}
use ubuntu_projects.CString.{maxline}
use ubuntu_projects.SendrecvFd.{send_fd, recv_fd}
use ubuntu_projects.SendrecvFd.Scan.{to_stderr, WritesAll}
use ubuntu_projects.SendrecvFd.Receive.{heard, buffered, recv_fd_lem}
use ubuntu_projects.SendrecvFd.RoundTrip.{send_fd-recv_fd}

-- "hi" comes by itself, behind the call for the control buffer, then "!" with code 3; writes are whole.
abbrev talk : List Call → Reply
talk (Call.write fd buf ∷ h) = reply (pos (length buf))
talk (Call.malloc n ∷ h) = reply (pos 1)
talk (Call.recvmsg fd n ∷ Call.malloc k ∷ h) = delivers (104 ∷ 105 ∷ [])
talk (Call.recvmsg fd n ∷ c ∷ h) = delivers (33 ∷ 0 ∷ 3 ∷ [])
talk _ = reply (pos 0)

talk-WritesAll : WritesAll (sample talk)
talk-WritesAll buf h = refl

recv_fd_lem_example : recv_fd 2 (pos 4) to_stderr false (sample talk) fresh ≡ (
  returned (negsuc 2, true),
  after
      (sample talk)
      (heard (pos 4) ((104 ∷ 105 ∷ []) ∷ []) (33 ∷ []) 3 (buffered false (sample talk) [])),
)
recv_fd_lem_example =
    recv_fd_lem (sample talk) 2 (pos 4) ((104 ∷ 105 ∷ []) ∷ []) (33 ∷ []) 3 false fresh
      talk-WritesAll
      (
        refl,
        refl,
        omega arith,
        (refl, (refl, tt)),
        (refl, refl, (refl, tt), λ e. absurd (omega arith)),
      )
      (omega arith) (omega arith)

-- One message of a zero byte and a code, from a sender of an error.
abbrev code_only : ℕ → List Call → Reply
code_only code h = delivers (0 ∷ code ∷ [])

send_fd-recv_fd_example : recv_fd 1 (pos 4) to_stderr false (sample (code_only 9)) fresh ≡ (
  returned (negsuc 8, true),
  after
      (sample (code_only 9))
      (Call.recvmsg (pos 4) maxline ∷ buffered false (sample (code_only 9)) []),
)
unfolding send_fd
send_fd-recv_fd_example =
    send_fd-recv_fd (λ fd. fd) (negsuc 8) (pos 3) (pos 4) silent (sample (code_only 9)) fresh fresh
      to_stderr 0 true false (omega arith) refl (refl, refl, refl)
