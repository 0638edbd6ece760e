-- ===== src/Server/Serve.antt =====
-- The loop `serve`: the parent's rounds, and the child of a round.
use native.Mathlib.Omega.{arith}
use ubuntu_projects.Base.{ℕ, zero, suc, ◌<◌, ◌≡◌, refl, ◌∙◌, Bool, true, false, List, ◌∷◌, ◌++◌}
use ubuntu_projects.Base.Int.{ℤ, pos, is_neg, is_positive}
use ubuntu_projects.Sys.{text, Call, Os, Proc, Halt, returned, halted}
use ubuntu_projects.Sys.Trace.{after}
use ubuntu_projects.Sys.Descriptors.{is_open, Fresh}
use ubuntu_projects.Server.{log_errno, redirect, serve_child, serve_parent, serve_one, serve}

module _ (os : Os) (sockfd : ℤ) where
  -- the history with a connection accepted and the process forked
  abbrev pub accepted : List Call → List Call
  accepted h = Call.accept sockfd ∷ h

  abbrev pub forked : List Call → List Call
  forked h = Call.fork ∷ accepted h

  -- the descriptor of the connection
  abbrev pub connection : List Call → ℤ
  connection h = (os.answer (accepted h)).ret

  -- the parent's history after a round
  abbrev pub round : List Call → List Call
  round h = Call.waitpid (os.answer (forked h)).ret ∷ Call.close (connection h) ∷ forked h

  abbrev pub rounds : ℕ → List Call → List Call
  rounds zero h = h
  rounds (suc n) h = rounds n (round h)

  -- the child's history up to `execl`
  abbrev pub execs : List Call → List Call
  execs h =
      Call.execl (text "/usr/bin/uptime") (text "uptime")
      ∷ Call.close (connection h)
      ∷ Call.dup2 (connection h) (pos 2)
      ∷ Call.dup2 (connection h) (pos 1)
      ∷ forked h

  parent_round :
      (p : Proc)
      → is_neg (connection p.calls) ≡ false
      → is_positive (os.answer (forked p.calls)).ret ≡ true
      → serve_one sockfd os p ≡ (returned tt, after os (round p.calls))
  unfolding serve_one serve_parent
  parent_round p conn parent = ground arith

  round-is_open :
      (start : ℕ → Bool) (h : List Call) (k : ℕ)
      → Fresh start os (Call.accept sockfd) h
      → is_neg (connection h) ≡ false
      → is_open start os (round h) k ≡ is_open start os h k
  round-is_open start h k fresh conn = ground (arith, fresh k)

-- While every `accept` gives a new descriptor and every `fork` returns in the parent, the loop
-- does not end, each round makes the calls `accept`, `fork`, `close` and `waitpid`, and after any
-- number of rounds the same descriptors are open as before.
pub serve-rounds :
    (start : ℕ → Bool) (fuel : ℕ) (sockfd : ℤ) (os : Os) (p : Proc) (k : ℕ)
    → ((i : ℕ) → Fresh start os (Call.accept sockfd) (rounds os sockfd i p.calls))
    → ((i : ℕ) → is_neg (connection os sockfd (rounds os sockfd i p.calls)) ≡ false)
    → ((i : ℕ) → is_positive (os.answer (forked os sockfd (rounds os sockfd i p.calls))).ret ≡ true)
    → ((serve fuel sockfd os p).0 ≡ halted Halt.out_of_fuel)
      × ((serve fuel sockfd os p).1.calls ≡ rounds os sockfd fuel p.calls)
      × (is_open start os (rounds os sockfd fuel p.calls) k ≡ is_open start os p.calls k)
unfolding serve
serve-rounds start zero sockfd os p k fresh conn parent = (refl, refl, refl)
serve-rounds start (suc fuel) sockfd os p k fresh conn parent =
    let h = p.calls in
    let rest =
      serve-rounds start fuel sockfd os (after os (round os sockfd h)) k (λ i. fresh (suc i))
        (λ i. conn (suc i)) (λ i. parent (suc i)) in
    rw (parent_round os sockfd p (conn 0) (parent 0))
      (rest.0, rest.1, rest.2 ∙ round-is_open os sockfd start h k (fresh 0) (conn 0))

-- the line in the log when `execl` has come back
abbrev pub exec_failed : Os → List Call → Call
exec_failed os h =
    Call.syslog os.log_err
      (text "ruptimed: unexpected return from exec: " ++ os.strerror (os.answer h).errno)

-- When `execl` fails, the child goes on with the loop of the parent.
serve-child_continues :
    (fuel : ℕ) (sockfd : ℤ) (os : Os) (p : Proc)
    → is_neg (connection os sockfd p.calls) ≡ false
    → (os.answer (forked os sockfd p.calls)).ret ≡ pos 0
    → ((h : List Call) (fd : ℤ) (n : ℕ) → (os.answer (Call.dup2 fd (pos n) ∷ h)).ret ≡ pos n)
    → is_neg (os.answer (execs os sockfd p.calls)).ret ≡ true
    → let h = execs os sockfd p.calls in
      serve (suc fuel) sockfd os p ≡ serve fuel sockfd os (after os (exec_failed os h ∷ h))
unfolding serve serve_one serve_child redirect log_errno
serve-child_continues fuel sockfd os p conn child dups failed =
    rw (conn, child, dups _ _ 1, dups _ _ 2, failed)

-- When `execl` succeeds, the child is replaced by the program.
serve-child_replaced :
    (fuel : ℕ) (sockfd : ℤ) (os : Os) (p : Proc)
    → is_neg (connection os sockfd p.calls) ≡ false
    → (os.answer (forked os sockfd p.calls)).ret ≡ pos 0
    → ((h : List Call) (fd : ℤ) (n : ℕ) → (os.answer (Call.dup2 fd (pos n) ∷ h)).ret ≡ pos n)
    → is_neg (os.answer (execs os sockfd p.calls)).ret ≡ false
    → let h = execs os sockfd p.calls in
      serve (suc fuel) sockfd os p ≡ (halted (Halt.replaced (text "/usr/bin/uptime")), after os h)
unfolding serve serve_one serve_child redirect
serve-child_replaced fuel sockfd os p conn child dups gone =
    rw (conn, child, dups _ _ 1, dups _ _ 2, gone)

-- the descriptors of the child at `execl`
execs-is_open :
    (start : ℕ → Bool) (sockfd : ℤ) (os : Os) (h : List Call) (n : ℕ)
    → ((h : List Call) (fd : ℤ) (k : ℕ) → (os.answer (Call.dup2 fd (pos k) ∷ h)).ret ≡ pos k)
    → connection os sockfd h ≡ pos n
    → 2 < n
    → (is_open start os (execs os sockfd h) 1 ≡ true)
      × (is_open start os (execs os sockfd h) 2 ≡ true)
      × (is_open start os (execs os sockfd h) n ≡ false)
execs-is_open start sockfd os h n dups number large = (
  ground (arith, dups (forked os sockfd h) (connection os sockfd h) 1),
  ground (
    arith,
    dups (Call.dup2 (connection os sockfd h) (pos 1) ∷ forked os sockfd h) (connection os sockfd h)
        2,
  ),
  ground arith,
)

-- what becomes of the child, by the answer of `execl`, with the histories that it has then
abbrev pub ChildEnds : ℕ → ℤ → Os → Proc → Bool → Type 0
ChildEnds fuel sockfd os p true =
    let h = execs os sockfd p.calls in
    serve (suc fuel) sockfd os p ≡ serve fuel sockfd os (after os (exec_failed os h ∷ h))
ChildEnds fuel sockfd os p false =
    let h = execs os sockfd p.calls in
    serve (suc fuel) sockfd os p ≡ (halted (Halt.replaced (text "/usr/bin/uptime")), after os h)

-- When `accept` gives a connection with a descriptor above 2, `fork` returns in the child and both
-- `dup2` calls succeed: if `execl` succeeds, the child is replaced by the program; if it fails,
-- the child logs it and goes on with the loop that accepts connections on the listening socket, as
-- a second server. At the call of `execl` descriptors 1 and 2 are open and the descriptor of the
-- connection is closed.
pub serve-ChildEnds :
    (start : ℕ → Bool) (fuel : ℕ) (sockfd : ℤ) (os : Os) (p : Proc) (n : ℕ)
    → is_neg (connection os sockfd p.calls) ≡ false
    → (os.answer (forked os sockfd p.calls)).ret ≡ pos 0
    → ((h : List Call) (fd : ℤ) (k : ℕ) → (os.answer (Call.dup2 fd (pos k) ∷ h)).ret ≡ pos k)
    → connection os sockfd p.calls ≡ pos n
    → 2 < n
    → let h = execs os sockfd p.calls in
      ChildEnds fuel sockfd os p (is_neg (os.answer h).ret)
      × ((is_open start os h 1 ≡ true)
          × (is_open start os h 2 ≡ true)
          × (is_open start os h n ≡ false))
serve-ChildEnds start fuel sockfd os p n conn child dups number large = (
  ends (is_neg (os.answer (execs os sockfd p.calls)).ret) refl,
  execs-is_open start sockfd os p.calls n dups number large,
)
  where
    ends :
        (b : Bool)
        → is_neg (os.answer (execs os sockfd p.calls)).ret ≡ b
        → ChildEnds fuel sockfd os p b
    ends true failed = serve-child_continues fuel sockfd os p conn child dups failed
    ends false gone = serve-child_replaced fuel sockfd os p conn child dups gone
