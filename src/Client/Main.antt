-- ===== src/Client/Main.antt =====
-- `main` of the client: from the name of the host to the bytes on the standard output.
use native.Mathlib.Omega.{arith}
use ubuntu_projects.Base.{
  ℕ, zero, suc, ◌+◌, ◌^◌, ◌≤◌, ◌<◌, ◌≡◌, Bool, true, false, List, [], ◌∷◌, ◌++◌, length, refl, ap,
  ◌∙◌,
}
use ubuntu_projects.Base.Int.{ℤ, pos, negsuc, minus_one}
use ubuntu_projects.Sys.{Bytes, text, AddrInfo, Call, Os, Proc, Outcome, returned, and_then, pure}
use ubuntu_projects.ErrFuncs.Line.{err_sys_ends, err_sys_ends-last}
use ubuntu_projects.Sys.Trace.{after}
use ubuntu_projects.Client.{print_uptime, try_addresses, main}
use ubuntu_projects.Client.Retry.{
  slept, attempts, connected, FirstFail, connect_retry-succeeds, connect_retry-fails,
}
use ubuntu_projects.Client.Uptime.{copied, Streams, Ends, print_uptime_lem}

module _ (os : Os) (host : Bytes) (pai : AddrInfo) where
  -- the history when the host has been looked up
  abbrev pub looked_up : List Call → List Call
  looked_up h = Call.getaddrinfo host (text "ruptime") ∷ h

  -- the history when the socket for the address has been asked for
  abbrev pub opened : List Call → List Call
  opened h = Call.socket pai.ai_family os.sock_stream ∷ looked_up h

  -- what `socket` has returned
  abbrev pub sockfd : List Call → ℤ
  sockfd h = (os.answer (opened h)).ret

  -- the history of the attempt after `n` failed ones
  abbrev pub attempted : ℕ → List Call → List Call
  attempted n h = attempts (sockfd h) pai.ai_addr pai.ai_addrlen n 1 (opened h)

  -- what the program says when it gives up
  abbrev pub complaint : List Call → Call
  complaint h = Call.fputs_stderr (
      text "can't connect to "
      ++ (host ++ (text ": " ++ (os.strerror (os.answer h).errno ++ text "\n"))))

  -- The host has addresses, `pai` the first of them.
  abbrev pub Found : List AddrInfo → List Call → Type 0
  Found rest h =
      ((os.answer (looked_up h)).ret ≡ pos 0) × ((os.answer (looked_up h)).infos ≡ pai ∷ rest)

  -- The first `n` attempts fail, and the one after them has the outcome `ok`.
  abbrev pub Attempts : ℕ → Bool → List Call → Type 0
  Attempts n ok h =
      FirstFail (sockfd h) pai.ai_addr pai.ai_addrlen os n 1 (opened h)
      × (connected (sockfd h) pai.ai_addr pai.ai_addrlen os (attempted n h) ≡ ok)

-- How `main` ends by what the last `recv` returns.
abbrev pub MainEnds : ℤ → List Call → Os → Outcome ℤ × Proc → Type 0
MainEnds (pos zero) h os r = r ≡ (returned (pos 0), after os h)
MainEnds (pos (suc n)) h os r = Unit {0}
MainEnds (negsuc n) h os r = r ≡ err_sys_ends (text "error in call recv") os (after os h)

-- `main` returns 0 as soon as `print_uptime` has returned.
Ends-MainEnds :
    (n : ℤ) (h : List Call) (os : Os) (r : Outcome (Unit {0}) × Proc)
    → Ends n h os r
    → MainEnds n h os (and_then r (λ _. pure (pos 0)) os)
Ends-MainEnds (pos zero) h os r e = rw e
Ends-MainEnds (pos (suc n)) h os r e = tt
Ends-MainEnds (negsuc n) h os r e =
    ap (λ r. and_then r (λ _. pure (pos 0)) os) e
    ∙ err_sys_ends-last (λ _. pure (pos 0)) (text "error in call recv") os (after os h)

-- the part of `main` behind the look-up, by what `connect_retry` does
tries :
    (fuel n : ℕ) (host : Bytes) (pai : AddrInfo) (rest : List AddrInfo) (cs : List Bytes) (os : Os)
    (p : Proc)
    → n < fuel
    → length cs < fuel
    → 2 ^ n ≤ 120
    → Found os host pai rest p.calls
    → Attempts os host pai n true p.calls
    → Streams os (sockfd os host pai p.calls) cs (attempted os host pai n p.calls)
    → let h = copied (sockfd os host pai p.calls) cs (attempted os host pai n p.calls) in
      MainEnds
        (os.answer h).ret
        h
        os
        (try_addresses fuel host (pai ∷ rest) os (after os (looked_up os host pai p.calls)))
unfolding try_addresses
tries fuel n host pai rest cs os p lt long le found ok streams =
    let fd = sockfd os host pai p.calls in
    let h = copied fd cs (attempted os host pai n p.calls) in
    let q = after os (attempted os host pai n p.calls) in
    rw
      ((connect_retry-succeeds fd pai.ai_addr pai.ai_addrlen 120 fuel n os
        (after os (opened os host pai p.calls)) (omega arith) lt (omega arith) ok.0 ok.1).0)
      (Ends-MainEnds (os.answer h).ret h os (print_uptime fuel fd os q)
        (print_uptime_lem fuel fd cs os q long streams))

-- When the look-up of the host finds addresses, the first `n` attempts to connect to the first of
-- them fail and the next one succeeds, `2 ^ n` is at most 120, and `recv` then delivers pieces and
-- at last returns 0 or less, `main` with fuel for each attempt and each piece has called `write`
-- for every piece once, with the whole piece and in order, by the time of the last `recv`, after
-- calls of `socket`, `connect` and `sleep` for 1, 2, 4, ... seconds (what `write` returns makes no
-- difference); it then returns 0 if that `recv` returns 0. After an error of `recv` the same calls
-- are followed by the line of `err_sys` with the text of `errno`, and the process exits with 1, if
-- that line has at most 4094 bytes without its newline; the behaviour of a longer one is
-- undefined.
pub main-MainEnds :
    (fuel n : ℕ) (host : Bytes) (pai : AddrInfo) (rest : List AddrInfo) (cs : List Bytes) (os : Os)
    (p : Proc)
    → n < fuel
    → length cs < fuel
    → 2 ^ n ≤ 120
    → Found os host pai rest p.calls
    → Attempts os host pai n true p.calls
    → Streams os (sockfd os host pai p.calls) cs (attempted os host pai n p.calls)
    → let h = copied (sockfd os host pai p.calls) cs (attempted os host pai n p.calls) in
      MainEnds (os.answer h).ret h os (main fuel (host ∷ []) os p)
unfolding main try_addresses
main-MainEnds fuel n host pai rest cs os p lt long le found ok streams =
    rw (found.0, found.1) (tries fuel n host pai rest cs os p lt long le found ok streams)

-- When the look-up of the host finds addresses and the seven attempts to connect to the first of
-- them fail, `main` with fuel above 7 sleeps 63 seconds in all, says that it cannot connect and
-- why, and returns -1, with no call for another address.
pub main-gives_up :
    (fuel : ℕ) (host : Bytes) (pai : AddrInfo) (rest : List AddrInfo) (os : Os) (p : Proc)
    → 7 < fuel
    → Found os host pai rest p.calls
    → Attempts os host pai 6 false p.calls
    → let h =
        complaint os host pai (attempted os host pai 6 p.calls) ∷ attempted os host pai 6 p.calls in
      (main fuel (host ∷ []) os p ≡ (returned minus_one, after os h))
      × (slept h ≡ slept p.calls + 63)
unfolding main try_addresses
main-gives_up fuel host pai rest os p lt found fail =
    let fd = sockfd os host pai p.calls in
    rw (found.0, found.1) rw
      ((connect_retry-fails fd pai.ai_addr pai.ai_addrlen 120 fuel 6 os
        (after os (opened os host pai p.calls)) (omega arith) lt (omega arith) (omega arith) fail.0
        fail.1).0)
      (refl, omega arith)
