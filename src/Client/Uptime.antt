-- ===== src/Client/Uptime.antt =====
-- `print_uptime`: the bytes of the connection go to the standard output, in order.
use native.Mathlib.Omega.{arith}
use ubuntu_projects.Base.{ℕ, zero, suc, ◌<◌, ◌≡◌, true, List, [], ◌∷◌, length, refl}
use ubuntu_projects.Base.Int.{ℤ, pos, negsuc, is_positive}
use ubuntu_projects.Sys.{Bytes, text, Call, Os, Proc, Outcome, returned}
use ubuntu_projects.Sys.Trace.{after}
use ubuntu_projects.ErrFuncs.Line.{err_sys_ends, err_sys_lem}
use ubuntu_projects.Client.{buflen, print_uptime}

-- The history up to the `recv` that follows the pieces `cs`, each written when it has come.
abbrev pub copied : ℤ → List Bytes → List Call → List Call
copied fd [] h = Call.recv fd buflen ∷ h
copied fd (c ∷ cs) h = copied fd cs (Call.write (pos 1) c ∷ Call.recv fd buflen ∷ h)

-- `recv` delivers the pieces one by one.
abbrev pub Streams : Os → ℤ → List Bytes → List Call → Type 0
Streams os fd [] h = Unit {0}
Streams os fd (c ∷ cs) h =
    let r = os.answer (Call.recv fd buflen ∷ h) in
    (is_positive r.ret ≡ true)
    × (r.bytes ≡ c)
    × Streams os fd cs (Call.write (pos 1) c ∷ Call.recv fd buflen ∷ h)

-- How `print_uptime` ends by what the last `recv` returns: it returns at the end of the stream, and
-- ends like `err_sys` after an error, both behind the calls of the history.
abbrev pub Ends : ℤ → List Call → Os → Outcome (Unit {0}) × Proc → Type 0
Ends (pos zero) h os r = r ≡ (returned tt, after os h)
Ends (pos (suc n)) h os r = Unit {0}
Ends (negsuc n) h os r = r ≡ err_sys_ends (text "error in call recv") os (after os h)

print_uptime-Ends :
    (n : ℤ) (fuel : ℕ) (fd : ℤ) (os : Os) (p : Proc)
    → (os.answer (Call.recv fd buflen ∷ p.calls)).ret ≡ n
    → Ends n (Call.recv fd buflen ∷ p.calls) os (print_uptime (suc fuel) fd os p)
unfolding print_uptime
print_uptime-Ends (pos zero) fuel fd os p e = rw e
print_uptime-Ends (pos (suc n)) fuel fd os p e = tt
print_uptime-Ends (negsuc n) fuel fd os p e =
    rw (e, err_sys_lem (text "error in call recv") os (after os (Call.recv fd buflen ∷ p.calls)))

-- When `recv` delivers pieces and then returns 0 or less, `print_uptime` with fuel for each piece
-- has called `write` with every piece once, whole and in order. It then returns if the last `recv`
-- gives 0, and ends as `err_sys` does after an error.
pub print_uptime_lem :
    (fuel : ℕ) (fd : ℤ) (cs : List Bytes) (os : Os) (p : Proc)
    → length cs < fuel
    → Streams os fd cs p.calls
    → Ends
        (os.answer (copied fd cs p.calls)).ret
        (copied fd cs p.calls)
        os
        (print_uptime fuel fd os p)
unfolding print_uptime
print_uptime_lem zero fd cs os p lt s = absurd (omega arith)
print_uptime_lem (suc fuel) fd [] os p lt s = print_uptime-Ends _ fuel fd os p refl
print_uptime_lem (suc fuel) fd (c ∷ cs) os p lt s =
    rw (s.0, s.1)
      (print_uptime_lem fuel fd cs os
        (after os (Call.write (pos 1) c ∷ Call.recv fd buflen ∷ p.calls)) (omega arith) s.2)
