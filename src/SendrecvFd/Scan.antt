-- ===== src/SendrecvFd/Scan.antt =====
-- The inner loop of `recv_fd` over a message, with `write` as the function that is called back.
use native.Mathlib.Omega.{arith}
use ubuntu_projects.Base.{
  ℕ, zero, suc, ◌+◌, ◌-◌, ◌%◌, ◌<◌, ◌≡◌, refl, ap, ◌∙◌, true, false, some, List, [], ◌∷◌, ◌++◌,
  ◌==◌, ==_iff, length, get_or, take, take-append, length-append,
}
use ubuntu_projects.Base.Int.{ℤ, pos, negsuc, eq_ℤ}
use ubuntu_projects.Sys.{Bytes, Call, Reply, M, Os, Proc, ◌>>=◌, returned, pure, sys}
use ubuntu_projects.Sys.Trace.{after}
use ubuntu_projects.SendrecvFd.{accepted, fd_of, read_status, scan}

-- `write`, whose type is that of `userfunc`
abbrev pub to_stderr : Bytes → M ℤ
to_stderr buf = do r ← sys (Call.write (pos 2) buf); pure r.ret

-- Every write to the standard error stream is whole.
abbrev pub WritesAll : Os → Type 0
WritesAll os =
    (buf : Bytes) (h : List Call) → (os.answer (Call.write (pos 2) buf ∷ h)).ret ≡ pos (length buf)

abbrev pub NoZero : Bytes → Type 0
NoZero [] = Unit {0}
NoZero (b ∷ s) = ((b == 0) ≡ false) × NoZero s

-- the history with `n` more writes of the same bytes
abbrev pub shown : ℕ → Bytes → List Call → List Call
shown zero buf h = h
shown (suc n) buf h = shown n buf (Call.write (pos 2) buf ∷ h)

eq_ℤ-self : (n : ℕ) → eq_ℤ (pos n) (pos n) ≡ true
eq_ℤ-self n = ground arith

module _ (os : Os) (writes : WritesAll os) where
  pub accepted_lem :
      (buf : Bytes) (h : List Call)
      → 0 < length buf
      → accepted to_stderr buf os (after os h)
        ≡ (returned true, after os (Call.write (pos 2) buf ∷ h))
  unfolding accepted
  accepted_lem [] h lt = elim lt [ ]
  accepted_lem (b ∷ buf) h lt = ground (arith, writes (b ∷ buf) h, eq_ℤ-self (length (b ∷ buf)))

  -- Each byte of the message has the whole buffer written once.
  pub scan-message :
      (r : Reply) (i : ℕ) (m rest : Bytes) (h : List Call)
      → 0 < length r.bytes
      → NoZero m
      → scan to_stderr r i (m ++ rest) os (after os h)
        ≡ scan to_stderr r (i + length m) rest os (after os (shown (length m) r.bytes h))
  unfolding scan
  scan-message r i [] rest h lt no_zero =
      ap (λ j. scan to_stderr r j rest os (after os h)) (omega arith)
  scan-message r i (b ∷ m) rest h lt no_zero =
      rw (no_zero.0, accepted_lem r.bytes h lt)
        (scan-message r (i + 1) m rest (Call.write (pos 2) r.bytes ∷ h) lt no_zero.1
          ∙ ap
              (λ j.
                scan to_stderr r j rest os
                  (after os (shown (length m) r.bytes (Call.write (pos 2) r.bytes ∷ h))))
              (omega arith))

-- the history with one write of the bytes, if there are any
abbrev pub shown_once : Bytes → List Call → List Call
shown_once [] h = h
shown_once (b ∷ m) h = Call.write (pos 2) (b ∷ m) ∷ h

-- What the receiver returns for a code: the descriptor for 0, and the negated code for an error.
abbrev pub code_result : ℕ → ℤ → ℤ
code_result zero fd = fd
code_result (suc n) fd = negsuc n

last_index : (m : Bytes) (c : ℕ) → (length m + 1 == length (m ++ 0 ∷ c ∷ []) - 1) ≡ true
last_index m c = (==_iff _ _).1 (omega (arith, length-append m (0 ∷ c ∷ [])))

code_at : (m : Bytes) (c : ℕ) → get_or (m ++ 0 ∷ c ∷ []) (length m + 1) 0 ≡ c
code_at [] c = refl
code_at (b ∷ m) c =
    let e : suc (length m) + 1 ≡ suc (length m + 1) = omega arith in rw e (code_at m c)

read_status_lem :
    (os : Os) (r : Reply) (m : Bytes) (c : ℕ) (p : Proc)
    → r.bytes ≡ m ++ 0 ∷ c ∷ []
    → c < 256
    → (c ≡ 0 → r.controllen ≡ os.controllen)
    → read_status r (length m + 1) os p ≡ (returned (code_result c r.value), p)
unfolding read_status fd_of
read_status_lem os r m zero p e lt control =
    rw (e, last_index m zero, code_at m zero) (ground (arith, control refl))
read_status_lem os r m (suc n) p e lt control =
    rw (e, last_index m (suc n), code_at m (suc n))
      (let small : suc n % 256 ≡ suc n = omega arith in
        let error : (suc n == 0) ≡ false = ground arith in rw (small, error))

take_message : (m : Bytes) (c : ℕ) → take (length (m ++ 0 ∷ c ∷ []) - 2) (m ++ 0 ∷ c ∷ []) ≡ m
take_message m c =
    let e : length (m ++ 0 ∷ c ∷ []) - 2 ≡ length m = omega (arith, length-append m (0 ∷ c ∷ [])) in
    rw e (take-append m (0 ∷ c ∷ []))

pub accepted-shown_once :
    (os : Os)
    → WritesAll os
    → (m : Bytes) (h : List Call)
    → accepted to_stderr m os (after os h) ≡ (returned true, after os (shown_once m h))
unfolding accepted
accepted-shown_once os writes [] h = refl
accepted-shown_once os writes (b ∷ m) h =
    ground (arith, writes (b ∷ m) h, eq_ℤ-self (length (b ∷ m)))

pub accepted-nothing :
    (u : Bytes → M ℤ) (os : Os) (p : Proc) → accepted u [] os p ≡ (returned true, p)
unfolding accepted
accepted-nothing u os p = refl

-- At the two bytes that end the message, what came before them is handed over without them.
pub scan-code :
    (u : Bytes → M ℤ) (os : Os) (r : Reply) (m : Bytes) (c : ℕ) (p q : Proc)
    → r.bytes ≡ m ++ 0 ∷ c ∷ []
    → c < 256
    → (c ≡ 0 → r.controllen ≡ os.controllen)
    → accepted u m os p ≡ (returned true, q)
    → scan u r (length m) (0 ∷ c ∷ []) os p ≡ (returned (some (code_result c r.value)), q)
unfolding scan
scan-code u os r m c p q e lt control taken =
    let cut : take (length r.bytes - 2) r.bytes ≡ m = rw e (take_message m c) in
    rw (read_status_lem os r m c p e lt control, cut, taken)
