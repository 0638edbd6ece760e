-- ===== src/ErrFuncs/Line.antt =====
-- `err_doit`: the whole line is printed when it fits in the buffer, and otherwise the
-- newline with its zero byte has no room in the buffer.
use native.Mathlib.Omega.{arith}
use native.Mathlib.Decide.{dec_lt}
use mathlib.Core.Path.{subst}
use ubuntu_projects.Base.{
  ℕ, ◌+◌, ◌≤◌, ◌<◌, ◌≡◌, refl, ap, ◌∙◌, Bool, true, false, List, ◌∷◌, ◌++◌, if◌then◌else◌, length,
  length-append, sym, inl, inr, Bool-cases, ltb,
}
use ubuntu_projects.Sys.{
  Bytes, text, Call, M, Os, Proc, Halt, Outcome, returned, halted, and_then, exit,
}
use ubuntu_projects.Sys.Trace.{after}
use ubuntu_projects.CString.{maxline, snprintf}
use ubuntu_projects.CString.Fits.{
  snprintf_fits, snprintf_at_end_fits, snprintf_full, snprintf_at_end_full, strcat_fits,
  strcat_overflows,
}
use ubuntu_projects.ErrFuncs.{message, err_doit, err_sys}

-- The message as it is meant: nothing is cut off.
abbrev pub full_message : Bool → ℕ → Bytes → Os → Bytes
full_message errnoflag error msg os =
    if errnoflag then msg ++ (text ": " ++ os.strerror error) else msg

-- The calls that print a line, the last one first.
abbrev pub printed : Bytes → List Call → List Call
printed line calls = Call.fflush_all ∷ Call.fputs_stderr line ∷ Call.fflush_stdout ∷ calls

pub length-newline : length (text "\n") ≡ 1
unfolding text
length-newline = refl

-- The cut text is the whole text, or fills the array.
length-snprintf :
    (msg reason : Bytes)
    → maxline ≤ length msg + length reason + 1
    → maxline ≤ length (snprintf maxline msg) + length reason + 1
length-snprintf msg reason h = elim (dec_lt (length msg) maxline) [
  | yes p ↦ rw (snprintf_fits maxline msg p) h
  | no p ↦ omega (arith, snprintf_full maxline msg)
]

module _ (error : ℕ) (msg : Bytes) (os : Os) where
  message_fits :
      (flag : Bool)
      → length (full_message flag error msg os) < maxline
      → message flag error msg os ≡ full_message flag error msg os
  unfolding message
  message_fits false h = snprintf_fits maxline msg h
  message_fits true h =
      let reason = text ": " ++ os.strerror error in
      let room : length msg + length reason < maxline = omega (arith, length-append msg reason) in
      rw (snprintf_fits maxline msg (omega arith)) (snprintf_at_end_fits maxline msg reason room)

  message_full :
      (flag : Bool)
      → maxline ≤ length (full_message flag error msg os) + 1
      → maxline ≤ length (message flag error msg os) + 1
  unfolding message
  message_full false h = snprintf_full maxline msg h
  message_full true h =
      let reason = text ": " ++ os.strerror error in
      snprintf_at_end_full maxline (snprintf maxline msg) reason
        (length-snprintf msg reason (omega (arith, length-append msg reason)))

  pub line_fits :
      (flag : Bool) (p : Proc)
      → length (full_message flag error msg os) + 1 < maxline
      → err_doit flag error msg os p
        ≡ (returned tt, after os (printed (full_message flag error msg os ++ text "\n") p.calls))
  unfolding err_doit
  line_fits flag p h =
      let line = full_message flag error msg os in
      rw (
        message_fits flag (omega arith),
        strcat_fits maxline line (text "\n") (omega (arith, length-newline)),
      )

  line_overflows :
      (flag : Bool) (p : Proc)
      → maxline ≤ length (full_message flag error msg os) + 1
      → err_doit flag error msg os p ≡ (halted Halt.undefined, p)
  unfolding err_doit
  line_overflows flag p h =
      let buf = message flag error msg os in
      rw (
        strcat_overflows maxline buf (text "\n")
          (omega (arith, message_full flag h, length-newline)))

-- what `err_doit` does with a line, by whether it fits in the array
abbrev pub line_ends : Os → Proc → Bytes → Bool → Outcome (Unit {0}) × Proc
line_ends os p line true = (returned tt, after os (printed (line ++ text "\n") p.calls))
line_ends os p line false = (halted Halt.undefined, p)

-- A line of at most 4094 bytes without its newline is printed whole between two flushes. A longer
-- one, cut to 4095 bytes, leaves no room in the array for the newline with its zero byte: the
-- behaviour is undefined.
pub err_doit_lem :
    (flag : Bool) (error : ℕ) (msg : Bytes) (os : Os) (p : Proc)
    → let line = full_message flag error msg os in
      err_doit flag error msg os p ≡ line_ends os p line (ltb (length line + 1) maxline)
err_doit_lem flag error msg os p =
    let line = full_message flag error msg os in
    elim (Bool-cases (ltb (length line + 1) maxline)) [
      | inl fits ↦
          subst (λ b. err_doit flag error msg os p ≡ line_ends os p line b) (sym fits)
            (line_fits error msg os flag p (ground (arith, fits)))
      | inr full ↦
          subst (λ b. err_doit flag error msg os p ≡ line_ends os p line b) (sym full)
            (line_overflows error msg os flag p (ground (arith, full)))
    ]

-- `err_sys`: the process ends with 1 when its line has been printed.
abbrev pub exit_ends : {A : Type 0} → Os → Proc → Bytes → Bool → Outcome A × Proc
exit_ends os p line true = (halted (Halt.exited 1), after os (printed (line ++ text "\n") p.calls))
exit_ends os p line false = (halted Halt.undefined, p)

abbrev pub err_sys_ends : {A : Type 0} → Bytes → Os → Proc → Outcome A × Proc
err_sys_ends msg os p =
    let line = full_message true p.errno msg os in
    exit_ends os p line (ltb (length line + 1) maxline)

pub err_sys_lem : (msg : Bytes) (os : Os) (p : Proc) → err_sys msg os p ≡ err_sys_ends msg os p
unfolding err_sys
err_sys_lem msg os p =
    let line = full_message true p.errno msg os in
    ap (λ r. and_then {B = Unit {0}} r (λ _. exit 1) os) (err_doit_lem true p.errno msg os p)
    ∙ go line (ltb (length line + 1) maxline)
  where
    go :
        (line : Bytes) (b : Bool)
        → and_then {B = Unit {0}} (line_ends os p line b) (λ _. exit 1) os
          ≡ exit_ends {A = Unit {0}} os p line b
    go line true = refl
    go line false = refl

-- nothing follows it
pub err_sys_ends-last :
    {A B : Type 0} (f : A → M B) (msg : Bytes) (os : Os) (p : Proc)
    → and_then (err_sys_ends {A = A} msg os p) f os ≡ err_sys_ends {A = B} msg os p
err_sys_ends-last {A} {B} f msg os p =
    let line = full_message true p.errno msg os in go line (ltb (length line + 1) maxline)
  where
    go :
        (line : Bytes) (b : Bool)
        → and_then (exit_ends {A = A} os p line b) f os ≡ exit_ends {A = B} os p line b
    go line true = refl
    go line false = refl
