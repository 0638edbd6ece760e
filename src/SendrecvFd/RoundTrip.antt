-- ===== src/SendrecvFd/RoundTrip.antt =====
-- What one process sends by `send_fd` and another receives by `recv_fd`.
use native.Mathlib.Omega.{arith}
use mathlib.Core.Path.{subst}
use ubuntu_projects.Base.{
  ℕ, suc, ◌%◌, ◌<◌, ◌≡◌, refl, ap, ◌∙◌, Bool, Bool-cases, inl, inr, true, false, Option, none, some,
  List, [], ◌∷◌, ◌==◌, length,
}
use ubuntu_projects.Base.Int.{ℤ, pos, negsuc, is_neg}
use ubuntu_projects.Sys.{Bytes, text, Call, Reply, M, Os, Proc, returned}
use ubuntu_projects.Sys.Trace.{after}
use ubuntu_projects.CString.{maxline}
use ubuntu_projects.Sys.Stops.{Stops, before-Stops}
use ubuntu_projects.ErrFuncs.{err_dump}
use ubuntu_projects.ErrFuncs.Stops.{err_dump-Stops}
use ubuntu_projects.SendrecvFd.{fd_of, read_status, scan, handle, recv_fd, send_fd}
use ubuntu_projects.SendrecvFd.Scan.{accepted-nothing, code_result, scan-code}
use ubuntu_projects.SendrecvFd.Receive.{enter, buffered, has_buffer, recv_fd-first}

-- What the kernel makes of a sent message: the same bytes, and for a descriptor in the control
-- message a new descriptor of the receiver.
abbrev pub Carried : Bytes → Option ℤ → (ℤ → ℤ) → Os → Reply → Type 0
Carried payload none duplicate os r =
    (is_neg r.ret ≡ false) × (r.bytes ≡ payload) × (r.controllen ≡ 0)
Carried payload (some fd) duplicate os r =
    (is_neg r.ret ≡ false)
    × (r.bytes ≡ payload)
    × (r.controllen ≡ os.controllen)
    × (r.value ≡ duplicate fd)

-- The last call of the sender is a `sendmsg`, and the reply carries its message.
abbrev pub Arrives : List Call → (ℤ → ℤ) → Os → Reply → Type 0
Arrives (Call.sendmsg fd payload control ∷ h) duplicate os r =
    Carried payload control duplicate os r
Arrives _ duplicate os r = ⊥

-- `-255 ≤ n`
abbrev pub IsSendable : ℤ → Type 0
IsSendable (pos n) = Unit {0}
IsSendable (negsuc n) = n < 255

abbrev pub received : (ℤ → ℤ) → ℤ → ℤ
received duplicate (pos n) = duplicate (pos n)
received duplicate (negsuc n) = negsuc n

receive-two :
    (u : Bytes → M ℤ) (os : Os) (fuel : ℕ) (fd : ℤ) (c : ℕ) (p : Proc)
    → let r = os.answer (Call.recvmsg fd maxline ∷ p.calls) in
      is_neg r.ret ≡ false
      → r.bytes ≡ 0 ∷ c ∷ []
      → c < 256
      → (c ≡ 0 → r.controllen ≡ os.controllen)
      → recv_fd (suc fuel) fd u true os p
        ≡ (returned (code_result c r.value, true), after os (Call.recvmsg fd maxline ∷ p.calls))
unfolding recv_fd
receive-two u os fuel fd c p fine e lt control =
    let h = Call.recvmsg fd maxline ∷ p.calls in
    let r = os.answer h in
    let scanned : handle u r os (after os h)
        ≡ (returned (some (code_result c r.value)), after os h) =
      enter u os r fine (omega (arith, ap length e)) (after os h)
      ∙ ap (λ s. scan u r 0 s os (after os h)) e
      ∙ scan-code u os r [] c _ _ e lt control (accepted-nothing u os (after os h)) in
    rw scanned

-- the calls of the sender of a descriptor that has no control buffer yet
send_fd-calls :
    (n : ℕ) (fd : ℤ) (os : Os) (p : Proc)
    → (has_buffer false os p.calls ≡ true
        → (send_fd fd (pos n) false os p).1.calls
          ≡ Call.sendmsg fd (0 ∷ 0 ∷ []) (some (pos n)) ∷ buffered false os p.calls)
      × (has_buffer false os p.calls ≡ false
          → (send_fd fd (pos n) false os p).1.calls ≡ buffered false os p.calls)
unfolding send_fd
send_fd-calls n fd os p = (λ e. rw e refl, λ e. rw e refl)

-- A descriptor arrives only if it has been sent, with a control buffer.
descriptor-Arrives :
    (duplicate : ℤ → ℤ) (n : ℕ) (fd : ℤ) (cmptr : Bool) (os : Os) (p : Proc) (receiver : Os)
    (r : Reply)
    → Arrives (send_fd fd (pos n) cmptr os p).1.calls duplicate receiver r
    → Carried (0 ∷ 0 ∷ []) (some (pos n)) duplicate receiver r
unfolding send_fd
descriptor-Arrives duplicate n fd true os p receiver r there = there
descriptor-Arrives duplicate n fd false os p receiver r there =
    let arrive = λ (h : List Call). Arrives h duplicate receiver r in
    elim (Bool-cases (has_buffer false os p.calls)) [
      | inl e ↦ subst arrive ((send_fd-calls n fd os p).0 e) there
      | inr e ↦ absurd (subst arrive ((send_fd-calls n fd os p).1 e) there)
    ]

code-Arrives :
    (duplicate : ℤ → ℤ) (n : ℕ) (fd : ℤ) (cmptr : Bool) (os : Os) (p : Proc) (receiver : Os)
    (r : Reply)
    → Arrives (send_fd fd (negsuc n) cmptr os p).1.calls duplicate receiver r
    → Carried (0 ∷ suc n % 256 ∷ []) none duplicate receiver r
unfolding send_fd
code-Arrives duplicate n fd cmptr os p receiver r there = there

receive-first :
    (u : Bytes → M ℤ) (os : Os) (fuel : ℕ) (fd : ℤ) (c : ℕ) (cmptr : Bool) (p : Proc)
    → let h = Call.recvmsg fd maxline ∷ buffered cmptr os p.calls in
      let r = os.answer h in
      has_buffer cmptr os p.calls ≡ true
      → is_neg r.ret ≡ false
      → r.bytes ≡ 0 ∷ c ∷ []
      → c < 256
      → (c ≡ 0 → r.controllen ≡ os.controllen)
      → recv_fd (suc fuel) fd u cmptr os p ≡ (returned (code_result c r.value, true), after os h)
receive-first u os fuel fd c cmptr p buffer fine e lt control =
    let (q, same, first) = recv_fd-first os fuel fd u cmptr p buffer in
    first
    ∙ subst
        (λ calls. recv_fd (suc fuel) fd u true os q ≡ (
          returned (code_result c (os.answer (Call.recvmsg fd maxline ∷ calls)).value, true),
          after os (Call.recvmsg fd maxline ∷ calls),
        ))
        same (receive-two u os fuel fd c q (rw same fine) (rw same e) lt (rw same control))

-- What `send_fd` sends, at its first call or a later one, a descriptor or the negation of an error
-- code from 1 to 255, `recv_fd` returns when `recvmsg` delivers the message and the receiver has a
-- control buffer, from an earlier call or now from `malloc`: the receiver's copy of the
-- descriptor, or the negated code. It receives one message and hands nothing to the function that
-- is called back.
pub send_fd-recv_fd :
    (duplicate : ℤ → ℤ) (s fd fd' : ℤ) (sender receiver : Os) (p q : Proc) (u : Bytes → M ℤ)
    (fuel : ℕ) (sender_cmptr cmptr : Bool)
    → IsSendable s
    → has_buffer cmptr receiver q.calls ≡ true
    → Arrives
        (send_fd fd s sender_cmptr sender p).1.calls
        duplicate
        receiver
        (receiver.answer (Call.recvmsg fd' maxline ∷ buffered cmptr receiver q.calls))
    → recv_fd (suc fuel) fd' u cmptr receiver q ≡ (
      returned (received duplicate s, true),
      after receiver (Call.recvmsg fd' maxline ∷ buffered cmptr receiver q.calls),
    )
send_fd-recv_fd duplicate (pos n) fd fd' sender receiver p q u fuel sender_cmptr cmptr ok buffer
      there =
    let carried = descriptor-Arrives duplicate n fd sender_cmptr sender p receiver _ there in
    rw (
      receive-first u receiver fuel fd' 0 cmptr q buffer carried.0 carried.1 (omega arith)
          (λ _. carried.2),
      carried.3,
    )
send_fd-recv_fd duplicate (negsuc n) fd fd' sender receiver p q u fuel sender_cmptr cmptr ok buffer
      there =
    let small : suc n % 256 ≡ suc n = omega arith in
    let carried = code-Arrives duplicate n fd sender_cmptr sender p receiver _ there in
    receive-first u receiver fuel fd' (suc n) cmptr q buffer carried.0
      (carried.1 ∙ ap (λ c. 0 ∷ c ∷ []) small) (omega arith) (λ e. absurd (omega arith))

status_zero-Stops :
    (os : Os) (r : Reply) (p : Proc)
    → r.bytes ≡ 0 ∷ 0 ∷ []
    → r.controllen ≡ 0
    → 0 < os.controllen
    → Stops (read_status r 1 os p).0
unfolding read_status fd_of
status_zero-Stops os r p e none_there size =
    let differs : (0 == os.controllen) ≡ false = ground arith in
    rw (e, none_there, differs)
      (before-Stops _ os (err_dump (text "received code zero without fd") os p)
        (err_dump-Stops (text "received code zero without fd") os p))

handle_zero-Stops :
    (u : Bytes → M ℤ) (os : Os) (r : Reply) (p : Proc)
    → is_neg r.ret ≡ false
    → r.bytes ≡ 0 ∷ 0 ∷ []
    → r.controllen ≡ 0
    → 0 < os.controllen
    → Stops (handle u r os p).0
unfolding scan
handle_zero-Stops u os r p fine e none_there size =
    let scanned =
      enter u os r fine (omega (arith, ap length e)) p ∙ ap (λ s. scan u r 0 s os p) e in
    rw scanned
      (before-Stops _ os (read_status r 1 os p) (status_zero-Stops os r p e none_there size))

-- An error code that is a multiple of 256 is sent as code 0, with no descriptor: the receiver does
-- not return, since it ends by `err_dump`.
pub recv_fd-code_wraps :
    (duplicate : ℤ → ℤ) (n : ℕ) (fd fd' : ℤ) (sender receiver : Os) (p q : Proc) (u : Bytes → M ℤ)
    (fuel : ℕ)
    → suc n % 256 ≡ 0
    → 0 < receiver.controllen
    → Arrives
        (send_fd fd (negsuc n) true sender p).1.calls
        duplicate
        receiver
        (receiver.answer (Call.recvmsg fd' maxline ∷ q.calls))
    → Stops (recv_fd (suc fuel) fd' u true receiver q).0
unfolding send_fd recv_fd
recv_fd-code_wraps duplicate n fd fd' sender receiver p q u fuel multiple size there =
    let h = Call.recvmsg fd' maxline ∷ q.calls in
    let r = receiver.answer h in
    let zeros : r.bytes ≡ 0 ∷ 0 ∷ [] = there.1 ∙ ap (λ c. 0 ∷ c ∷ []) multiple in
    before-Stops _ receiver (handle u r receiver (after receiver h))
      (handle_zero-Stops u receiver r (after receiver h) there.0 zeros there.2 size)
