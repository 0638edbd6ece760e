-- ===== src/Examples/StateMachine/Replay.antt =====
-- The machine against a reference: the commands in the input, replayed.
use mathlib.Core.Option.{map}
use ubuntu_projects.Base.{
  ℕ, zero, suc, ◌≤◌, ◌≡◌, ap, Bool, true, false, Bool-cases, ◌⊎◌, inl, inr, Option, none, some,
  List, [], ◌∷◌, ◌++◌, ◌==◌, length, refl, if◌then◌else◌, arith,
}
use ubuntu_projects.Sys.{Bytes, text}
use ubuntu_projects.Examples.StateMachine.{
  State, Machine, is_space, read_char, ignore, switch, in_state1, in_state2, in_state3, in_exit,
  call, run_loop, run, main,
}

-- The commands in an input: the first byte of each line that is not white space, where the
-- lines of white space alone have none. The flag says that the rest of a line is skipped.
abbrev pub commands : Bool → Bytes → List ℕ
commands skip [] = []
commands true (c ∷ cs) = commands (if c == 10 then false else true) cs
commands false (c ∷ cs) = if is_space c then commands false cs else c ∷ commands true cs

-- The state that a command leads to, and what is said of a command that is unknown.
abbrev pub next : State → ℕ → State
next s c =
    if c == 49
    then State.state1
    else if c == 50
    then State.state2
    else if c == 51
    then State.state3
    else s

abbrev pub said : ℕ → List Bytes
said c =
    if (c == 49)
    then []
    else if c == 50
    then []
    else if c == 51
    then []
    else (text "undefined state:" ++ (c ∷ [])) ∷ []

-- the line that a state begins with
abbrev pub banner : State → Bytes
banner State.state1 = text "state 1:\nto change state press number\nto exit press \"q\""
banner State.state2 = text "state 2:\nto change state press number\nto exit press \"q\""
banner State.state3 = text "state 3:\nto change state press number\nto exit press \"q\""
banner State.exit = text "exit state:exiting"

-- The lines that the commands give, behind those in `out`, up to the command `q`; none if there
-- is no such command.
abbrev pub replay : State → List ℕ → List Bytes → Option (List Bytes)
replay s [] out = none
replay s (c ∷ cs) out =
    if c == 113
    then some (banner State.exit ∷ banner s ∷ out)
    else replay (next s c) cs (said c ++ (banner s ∷ out))

-- The pointer does not point to `exit`.
abbrev pub Asks : State → Type 0
Asks State.exit = ⊥
Asks _ = Unit {0}

abbrev pub machine : State → Bytes → List Bytes → Machine
machine s input out = record { state_ptr = s; rdy_to_exit = false; input = input; output = out }

-- What `read_char` and `ignore` do to the commands that are left.
abbrev Read : ℕ × Bytes → Bytes → Type 0
Read r input =
    ((commands false input ≡ []) × (r ≡ (0, [])))
    ⊎ ((commands false input ≡ r.0 ∷ commands false (ignore r.1))
        × (suc (length (ignore r.1)) ≤ length input))

ignore-commands : (cs : Bytes) → commands true cs ≡ commands false (ignore cs)
unfolding ignore
ignore-commands [] = refl
ignore-commands (c ∷ cs) = elim (Bool-cases (c == 10)) [
  | inl e ↦ rw e refl
  | inr e ↦ rw e (ignore-commands cs)
]

length-ignore : (cs : Bytes) → length (ignore cs) ≤ length cs
unfolding ignore
length-ignore [] = omega arith
length-ignore (c ∷ cs) = elim (Bool-cases (c == 10)) [
  | inl e ↦ rw e (omega arith)
  | inr e ↦ rw e (omega (arith, length-ignore cs))
]

read_char-Read : (input : Bytes) → Read (read_char input) input
unfolding read_char
read_char-Read [] = inl (refl, refl)
read_char-Read (c ∷ cs) = elim (Bool-cases (is_space c)) [
  | inl e ↦
      rw e (elim (read_char-Read cs) [ inl h ↦ inl h | inr h ↦ inr (h.0, omega (arith, h.1)) ])
  | inr e ↦ rw e (inr (ap (λ l. c ∷ l) (ignore-commands cs), omega (arith, length-ignore cs)))
]

call-Asks :
    (s : State) (input : Bytes) (out : List Bytes)
    → Asks s
    → call s (machine s input out)
      ≡ switch (read_char input).0 (machine s (ignore (read_char input).1) (banner s ∷ out))
unfolding in_state1 in_state2 in_state3
call-Asks State.state1 input out h = refl
call-Asks State.state2 input out h = refl
call-Asks State.state3 input out h = refl
call-Asks State.exit input out h = absurd h

switch-next :
    (c : ℕ) (s : State) (input : Bytes) (out : List Bytes)
    → (c == 113) ≡ false
    → switch c (machine s input out) ≡ machine (next s c) input (said c ++ out)
unfolding switch
switch-next c s input out e = ground arith

next-Asks : (c : ℕ) (s : State) → Asks s → Asks (next s c)
next-Asks c s h = elim (Bool-cases (c == 49)) [
  | inl e ↦ rw e tt
  | inr e ↦ rw e (elim (Bool-cases (c == 50)) [
    | inl e' ↦ rw e' tt
    | inr e' ↦ rw e' (elim (Bool-cases (c == 51)) [ inl e'' ↦ rw e'' tt | inr e'' ↦ rw e'' h ])
  ])
]

-- Without a command in the input the machine reads on for good.
idle :
    (fuel : ℕ) (s : State) (input : Bytes) (out : List Bytes)
    → Asks s
    → read_char input ≡ (0, [])
    → run_loop fuel (machine s input out) ≡ none
unfolding run_loop switch read_char ignore
idle zero s input out h e = refl
idle (suc fuel) s input out h e = rw (call-Asks s input out h, e) (idle fuel s [] _ h refl)

exits :
    (fuel c : ℕ) (s : State) (input : Bytes) (out : List Bytes)
    → 2 ≤ fuel
    → (c == 113) ≡ true
    → map (λ m. m.output) (run_loop fuel (switch c (machine s input out)))
      ≡ some (banner State.exit ∷ out)
unfolding run_loop switch in_exit
exits zero c s input out le e = absurd (omega arith)
exits (suc zero) c s input out le e = absurd (omega arith)
exits (suc (suc fuel)) c s input out le e = rw e refl

waits_on :
    (fuel : ℕ) (s : State) (out : List Bytes)
    → Asks s
    → run_loop fuel (switch 0 (machine s (ignore []) out)) ≡ none
unfolding switch read_char ignore
waits_on fuel s out h = idle fuel s [] _ h refl

replays :
    (fuel : ℕ) (s : State) (input : Bytes) (out : List Bytes)
    → suc (suc (length input)) ≤ fuel
    → Asks s
    → map (λ m. m.output) (run_loop fuel (machine s input out))
      ≡ replay s (commands false input) out
unfolding run_loop
replays zero s input out le h = absurd (omega arith)
replays (suc fuel) s input out le h = rw (call-Asks s input out h) (elim (read_char-Read input) [
  | inl nil ↦ rw (nil.0, nil.1) rw (waits_on fuel s (banner s ∷ out) h) refl
  | inr (e, shorter) ↦ rw e (
      go (read_char input).0 (ignore (read_char input).1) shorter (Bool-cases _) (
        replays fuel (next s (read_char input).0) (ignore (read_char input).1)
          (said (read_char input).0 ++ (banner s ∷ out)) (omega arith)
          (next-Asks (read_char input).0 s h)))
])
  where
    go :
        (c : ℕ) (rest : Bytes)
        → suc (length rest) ≤ length input
        → ((c == 113) ≡ true) ⊎ ((c == 113) ≡ false)
        → map (λ m. m.output) (run_loop fuel (machine (next s c) rest (said c ++ (banner s ∷ out))))
          ≡ replay (next s c) (commands false rest) (said c ++ (banner s ∷ out))
        → map (λ m. m.output) (run_loop fuel (switch c (machine s rest (banner s ∷ out))))
          ≡ replay s (c ∷ commands false rest) out
    go c rest shorter (inl e) ih = rw (exits fuel c s rest (banner s ∷ out) (omega arith) e, e) refl
    go c rest shorter (inr e) ih = rw (switch-next c s rest (banner s ∷ out) e, e) ih

-- With fuel above the bytes of the input by 2, the state machine writes the lines that a replay of
-- the commands in its input gives, where a command is the first byte of a line that is not white
-- space, and ends behind the command `q`; when the input has no such command it does not end.
pub main-replay :
    (fuel : ℕ) (input : Bytes)
    → suc (suc (length input)) ≤ fuel
    → map (λ m. m.output) (main fuel input)
      ≡ replay State.state1 (commands false input) (text "state_machine is started" ∷ [])
unfolding main run
main-replay fuel input le =
    replays fuel State.state1 input (text "state_machine is started" ∷ []) le tt
