-- ===== src/TestDaemon/Signals.antt =====
-- `thrfun`: one line in the log for each signal, until SIGTERM.
use native.Mathlib.Omega.{arith}
use ubuntu_projects.Base.{
  ℕ, zero, suc, ◌<◌, ◌≡◌, ◌≢◌, inl, inr, Bool-cases, true, false, List, [], ◌∷◌, ◌++◌,
  if◌then◌else◌, length,
}
use ubuntu_projects.Base.Int.{ℤ, pos, eq_ℤ}
use ubuntu_projects.Sys.{text, Call, Os, Proc, Halt, returned, halted}
use ubuntu_projects.Sys.Trace.{after}
use ubuntu_projects.TestDaemon.{log, on_signal, thrfun}

-- what is logged for a signal that does not end the process
abbrev pub signal_line : Os → ℤ → Call
signal_line os n = Call.syslog os.log_info (
    if eq_ℤ n (pos os.sighup)
    then text "read configuration file"
    else text "receive signal " ++ (os.decimal n ++ text "\n"))

abbrev pub exit_line : Os → Call
exit_line os = Call.syslog os.log_info (text "SIGTERM signal received, exiting")

-- The history when the signals have been handled.
abbrev pub handled : Os → List ℤ → List Call → List Call
handled os [] h = h
handled os (n ∷ ns) h = handled os ns (signal_line os n ∷ Call.sigwait ∷ h)

-- `sigwait` gives the signals, none of which is SIGTERM, and then SIGTERM.
abbrev pub Raises : Os → List ℤ → List Call → Type 0
Raises os [] h =
    let r = os.answer (Call.sigwait ∷ h) in (eq_ℤ r.ret (pos 0) ≡ true) × (r.value ≡ pos os.sigterm)
Raises os (n ∷ ns) h =
    let r = os.answer (Call.sigwait ∷ h) in
    (eq_ℤ r.ret (pos 0) ≡ true)
    × (r.value ≡ n)
    × (eq_ℤ n (pos os.sigterm) ≡ false)
    × Raises os ns (signal_line os n ∷ Call.sigwait ∷ h)

term_is_term : (n : ℕ) → eq_ℤ (pos n) (pos n) ≡ true
term_is_term n = ground arith

differ : (a b : ℕ) → b ≢ a → eq_ℤ (pos a) (pos b) ≡ false
differ a b h = ground arith

module _ (os : Os) where
  on_signal-line :
      (n : ℤ) (p : Proc)
      → eq_ℤ n (pos os.sigterm) ≡ false
      → on_signal n os p ≡ (returned tt, after os (signal_line os n ∷ p.calls))
  unfolding on_signal log
  on_signal-line n p other = elim (Bool-cases (eq_ℤ n (pos os.sighup))) [
    | inl hup ↦ rw hup
    | inr more ↦ rw (more, other)
  ]

  on_signal-term :
      (p : Proc)
      → os.sighup ≢ os.sigterm
      → on_signal (pos os.sigterm) os p
        ≡ (halted (Halt.exited 0), after os (exit_line os ∷ p.calls))
  unfolding on_signal log
  on_signal-term p apart = rw (differ os.sigterm os.sighup apart, term_is_term os.sigterm)

-- When SIGHUP and SIGTERM are two signals and `sigwait` gives signals other than SIGTERM and then
-- SIGTERM, `thrfun` with fuel for each signal logs one line for each of them, in order, then the
-- line on SIGTERM, and exits with 0.
pub thrfun_lem :
    (fuel : ℕ) (ns : List ℤ) (os : Os) (p : Proc)
    → length ns < fuel
    → os.sighup ≢ os.sigterm
    → Raises os ns p.calls
    → thrfun fuel os p
      ≡ (halted (Halt.exited 0), after os (exit_line os ∷ Call.sigwait ∷ handled os ns p.calls))
unfolding thrfun
thrfun_lem zero ns os p lt apart raised = absurd (omega arith)
thrfun_lem (suc fuel) [] os p lt apart raised =
    rw (raised.0, raised.1, on_signal-term os (after os (Call.sigwait ∷ p.calls)) apart)
thrfun_lem (suc fuel) (n ∷ ns) os p lt apart raised =
    rw (raised.0, raised.1, on_signal-line os n (after os (Call.sigwait ∷ p.calls)) raised.2)
      (thrfun_lem fuel ns os (after os (signal_line os n ∷ Call.sigwait ∷ p.calls)) (omega arith)
        apart raised.3)
