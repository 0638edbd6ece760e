-- ===== src/SendrecvFd/Receive.antt =====
-- `recv_fd` on a stream that delivers a message in pieces, and then its last piece with the zero
-- byte and the code.
use mathlib.Core.List.{append-nil}
use mathlib.Core.Path.{subst}
use ubuntu_projects.Base.{
  ℕ, zero, suc, ◌<◌, ◌≡◌, ap, sym, ◌∙◌, true, false, none, some, List, [], ◌∷◌, ◌++◌, ◌==◌, length,
  length-append, Bool, refl, Bool-cases, inl, inr, arith,
}
use ubuntu_projects.Base.Int.{ℤ, is_neg, is_positive, minus_one}
use ubuntu_projects.Sys.{Bytes, Call, Reply, M, Os, Proc, Outcome, returned}
use ubuntu_projects.Sys.Trace.{after}
use ubuntu_projects.CString.{maxline}
use ubuntu_projects.SendrecvFd.{scan, handle, recv_fd}
use ubuntu_projects.SendrecvFd.Scan.{
  to_stderr, WritesAll, NoZero, shown, shown_once, code_result, scan-message, scan-code,
  accepted-shown_once,
}

-- the history up to the request for the next message, which comes after the pieces
abbrev pub await : ℤ → List Bytes → List Call → List Call
await fd [] h = Call.recvmsg fd maxline ∷ h
await fd (c ∷ cs) h = await fd cs (shown (length c) c (Call.recvmsg fd maxline ∷ h))

-- the history when `recv_fd` has returned
abbrev pub heard : ℤ → List Bytes → Bytes → ℕ → List Call → List Call
heard fd cs m code h = shown_once m (shown (length m) (m ++ 0 ∷ code ∷ []) (await fd cs h))

-- `recvmsg` delivers the pieces `cs`, and then `m` with a zero byte and the code.
abbrev pub Delivers : Os → ℤ → List Bytes → Bytes → ℕ → List Call → Type 0
Delivers os fd [] m code h =
    let r = os.answer (Call.recvmsg fd maxline ∷ h) in
    (is_neg r.ret ≡ false)
    × (r.bytes ≡ m ++ 0 ∷ code ∷ [])
    × NoZero m
    × (code ≡ 0 → r.controllen ≡ os.controllen)
Delivers os fd (c ∷ cs) m code h =
    let r = os.answer (Call.recvmsg fd maxline ∷ h) in
    (is_neg r.ret ≡ false)
    × (r.bytes ≡ c)
    × (0 < length c)
    × NoZero c
    × Delivers os fd cs m code (shown (length c) c (Call.recvmsg fd maxline ∷ h))

-- The number of bytes is not negative and not 0: they are scanned.
pub enter :
    (u : Bytes → M ℤ) (os : Os) (r : Reply)
    → is_neg r.ret ≡ false
    → 0 < length r.bytes
    → (p : Proc) → handle u r os p ≡ scan u r 0 r.bytes os p
unfolding handle
enter u os r fine lt p =
    let received : (length r.bytes == 0) ≡ false = ground arith in rw (fine, received)

module _ (os : Os) (writes : WritesAll os) (r : Reply) (fine : is_neg r.ret ≡ false) where
  nonempty : (m : Bytes) (code : ℕ) → r.bytes ≡ m ++ 0 ∷ code ∷ [] → 0 < length r.bytes
  nonempty m code e = omega (arith, ap length e, length-append m (0 ∷ code ∷ []))

  handle-piece :
      (c : Bytes) (h : List Call)
      → r.bytes ≡ c
      → 0 < length c
      → NoZero c
      → handle to_stderr r os (after os h) ≡ (returned none, after os (shown (length c) c h))
  unfolding scan
  handle-piece c h e lt no_zero =
      enter to_stderr os r fine (omega (arith, ap length e)) (after os h)
      ∙ ap (λ s. scan to_stderr r 0 s os (after os h)) (e ∙ sym (append-nil c))
      ∙ scan-message os writes r 0 c [] h (omega (arith, ap length e)) no_zero
      ∙ ap (λ b. (returned none, after os (shown (length c) b h))) e

  handle-last :
      (m : Bytes) (code : ℕ) (h : List Call)
      → r.bytes ≡ m ++ 0 ∷ code ∷ []
      → NoZero m
      → code < 256
      → (code ≡ 0 → r.controllen ≡ os.controllen)
      → handle to_stderr r os (after os h) ≡ (
        returned (some (code_result code r.value)),
        after os (shown_once m (shown (length m) (m ++ 0 ∷ code ∷ []) h)),
      )
  handle-last m code h e no_zero lt control =
      enter to_stderr os r fine (nonempty m code e) (after os h)
      ∙ ap (λ s. scan to_stderr r 0 s os (after os h)) e
      ∙ scan-message os writes r 0 m (0 ∷ code ∷ []) h (nonempty m code e) no_zero
      ∙ ap (λ i. scan to_stderr r i (0 ∷ code ∷ []) os (after os (shown (length m) r.bytes h)))
          (omega arith)
      ∙ scan-code to_stderr os r m code _ _ e lt control
          (accepted-shown_once os writes m (shown (length m) r.bytes h))
      ∙ ap
          (λ b. (
            returned (some (code_result code r.value)),
            after os (shown_once m (shown (length m) b h)),
          ))
          e

recv_fd-buffered :
    (os : Os) (fuel : ℕ) (fd : ℤ) (cs : List Bytes) (m : Bytes) (code : ℕ) (p : Proc)
    → WritesAll os
    → Delivers os fd cs m code p.calls
    → code < 256
    → length cs < fuel
    → recv_fd fuel fd to_stderr true os p ≡ (
      returned (code_result code (os.answer (await fd cs p.calls)).value, true),
      after os (heard fd cs m code p.calls),
    )
unfolding recv_fd
recv_fd-buffered os zero fd cs m code p writes d lt enough = absurd (omega arith)
recv_fd-buffered os (suc fuel) fd [] m code p writes d lt enough =
    let h = Call.recvmsg fd maxline ∷ p.calls in
    rw (handle-last os writes (os.answer h) d.0 m code h d.1 d.2 lt d.3)
recv_fd-buffered os (suc fuel) fd (c ∷ cs) m code p writes d lt enough =
    let h = Call.recvmsg fd maxline ∷ p.calls in
    rw (handle-piece os writes (os.answer h) d.0 c h d.1 d.2 d.3) (
      recv_fd-buffered os fuel fd cs m code (after os (shown (length c) c h)) writes d.4 lt
        (omega arith))

-- the history when the control buffer has been asked for, which is done once
abbrev pub buffered : Bool → Os → List Call → List Call
buffered true os h = h
buffered false os h = Call.malloc os.controllen ∷ h

-- whether there is a control buffer then
abbrev pub has_buffer : Bool → Os → List Call → Bool
has_buffer true os h = true
has_buffer false os h = is_positive (os.answer (buffered false os h)).ret

pub recv_fd-first :
    (os : Os) (fuel : ℕ) (fd : ℤ) (u : Bytes → M ℤ) (cmptr : Bool) (p : Proc)
    → has_buffer cmptr os p.calls ≡ true
    → (q : Proc) × (q.calls ≡ buffered cmptr os p.calls)
      × (recv_fd (suc fuel) fd u cmptr os p ≡ recv_fd (suc fuel) fd u true os q)
unfolding recv_fd
recv_fd-first os fuel fd u true p there = (p, refl, refl)
recv_fd-first os fuel fd u false p there =
    (after os (buffered false os p.calls), refl, rw there refl)

recv_fd-no_buffer :
    (os : Os) (fuel : ℕ) (fd : ℤ) (u : Bytes → M ℤ) (cmptr : Bool) (p : Proc)
    → has_buffer cmptr os p.calls ≡ false
    → recv_fd (suc fuel) fd u cmptr os p
      ≡ (returned (minus_one, false), after os (buffered cmptr os p.calls))
unfolding recv_fd
recv_fd-no_buffer os fuel fd u true p there = ground (arith, there)
recv_fd-no_buffer os fuel fd u false p there = rw there refl

-- what `recv_fd` does, by whether there is a control buffer, with the history `h` when it is asked for
abbrev pub recv_ends :
    Os → ℤ → List Bytes → Bytes → ℕ → List Call → Bool → Outcome (ℤ × Bool) × Proc
recv_ends os fd cs m code h true = (
  returned (code_result code (os.answer (await fd cs h)).value, true),
  after os (heard fd cs m code h),
)
recv_ends os fd cs m code h false = (returned (minus_one, false), after os h)

-- When `recvmsg` delivers pieces of a message and then its rest with a zero byte and a code, and
-- `write` is the function called back and writes all, `recv_fd` with fuel for each piece, at a
-- later call or at the first one, which asks `malloc` for the control buffer, returns. If `malloc`
-- fails, it returns -1 and has received nothing. Otherwise it returns for code 0 the descriptor of
-- the control message, for another code its negation. Before it returns it has written each piece,
-- and the whole of the last message, once for each of its bytes that precede the zero byte, and
-- then the rest of the message once more without the two last bytes.
pub recv_fd_lem :
    (os : Os) (fuel : ℕ) (fd : ℤ) (cs : List Bytes) (m : Bytes) (code : ℕ) (cmptr : Bool) (p : Proc)
    → WritesAll os
    → Delivers os fd cs m code (buffered cmptr os p.calls)
    → code < 256
    → length cs < fuel
    → recv_fd fuel fd to_stderr cmptr os p
      ≡ recv_ends os fd cs m code (buffered cmptr os p.calls) (has_buffer cmptr os p.calls)
recv_fd_lem os zero fd cs m code cmptr p writes d lt enough = absurd (omega arith)
recv_fd_lem os (suc fuel) fd cs m code cmptr p writes d lt enough =
    let h = buffered cmptr os p.calls in
    elim (Bool-cases (has_buffer cmptr os p.calls)) [
      | inl there ↦
          let (q, same, first) = recv_fd-first os fuel fd to_stderr cmptr p there in
          first
          ∙ recv_fd-buffered os (suc fuel) fd cs m code q writes
              (subst (Delivers os fd cs m code) (sym same) d) lt enough
          ∙ ap (λ h. recv_ends os fd cs m code h true) same
          ∙ ap (recv_ends os fd cs m code h) (sym there)
      | inr fails ↦
          recv_fd-no_buffer os fuel fd to_stderr cmptr p fails
          ∙ ap (recv_ends os fd cs m code h) (sym fails)
    ]
