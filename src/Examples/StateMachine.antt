-- ===== src/Examples/StateMachine.antt =====
-- cppprojects/examples/state_machine_example.cpp: a machine whose state is a pointer to a method,
-- and whose methods read a character from the console and set the pointer.
-- `std::cin` is the list of the bytes up to the end of the input, after which every `>>` fails and
-- leaves its variable as it was; what is written to `std::cout` up to a `std::endl` is one line.
pub mod Replay
mod Tests
use ubuntu_projects.Base.{
  ℕ, zero, suc, Bool, true, false, ◌&&◌, ◌||◌, Option, none, some, List, [], ◌∷◌, ◌++◌, leb, ◌==◌,
  if◌then◌else◌,
}
use ubuntu_projects.Sys.{Bytes, text}

-- what `state_ptr_` points to
pub data State : Type 0 where
  state1 state2 state3 exit : State

pub record Machine : Type 0 where
  pub state_ptr : State
  pub rdy_to_exit : Bool
  pub input : Bytes
  pub output : List Bytes  -- the last line first

-- `isspace` in the locale "C"
abbrev pub is_space : ℕ → Bool
is_space c = (c == 32) || (leb 9 c && leb c 13)

-- `char c{}; std::cin >> c`: the character, and the rest of the input
unfoldable pub read_char : Bytes → ℕ × Bytes
read_char [] = (0, [])
read_char (c ∷ cs) = if is_space c then read_char cs else (c, cs)

-- `std::cin.ignore(std::numeric_limits<std::streamsize>::max(), '\n')`
unfoldable pub ignore : Bytes → Bytes
ignore [] = []
ignore (c ∷ cs) = if c == 10 then cs else ignore cs

abbrev pub print : Bytes → Machine → Machine
print line m = record m { output = line ∷ m.output }

-- the `switch` in each of the three states
unfoldable pub switch : ℕ → Machine → Machine
switch c m =
    if c == 113
    then record m { state_ptr = State.exit }
    else if c == 49
    then record m { state_ptr = State.state1 }
    else if c == 50
    then record m { state_ptr = State.state2 }
    else if c == 51
    then record m { state_ptr = State.state3 }
    else print (text "undefined state:" ++ (c ∷ [])) m

-- what the three states do between the first line and the end
abbrev pub read_and_switch : Machine → Machine
read_and_switch m = let r = read_char m.input in switch r.0 (record m { input = ignore r.1 })

unfoldable pub in_state1 : Machine → Machine
in_state1 m =
    read_and_switch (print (text "state 1:\nto change state press number\nto exit press \"q\"") m)

unfoldable pub in_state2 : Machine → Machine
in_state2 m =
    read_and_switch (print (text "state 2:\nto change state press number\nto exit press \"q\"") m)

unfoldable pub in_state3 : Machine → Machine
in_state3 m =
    read_and_switch (print (text "state 3:\nto change state press number\nto exit press \"q\"") m)

unfoldable pub in_exit : Machine → Machine
in_exit m = record (print (text "exit state:exiting") m) { rdy_to_exit = true }

-- `(this->*state_ptr_)()`
abbrev pub call : State → Machine → Machine
call State.state1 m = in_state1 m
call State.state2 m = in_state2 m
call State.state3 m = in_state3 m
call State.exit m = in_exit m

-- the loop of `run`, on fuel
unfoldable pub run_loop : ℕ → Machine → Option Machine
run_loop zero m = none
run_loop (suc fuel) m = if m.rdy_to_exit then some m else run_loop fuel (call m.state_ptr m)

unfoldable pub run : ℕ → Machine → Option Machine
run fuel m =
    run_loop fuel (record (print (text "state_machine is started") m) { state_ptr = State.state1 })

-- `main`: a machine that has been made on the console with the given input
unfoldable pub main : ℕ → Bytes → Option Machine
main fuel input =
    run fuel (record { state_ptr = State.state1; rdy_to_exit = false; input = input; output = [] })
