-- ===== src/Examples/CallOnce.antt =====
-- cppprojects/examples/once_flag_call_once.cpp: threads that call a function through
-- `std::call_once`, which runs one call at a time, lets the next one try when a call has thrown, and
-- none any more when a call has returned, as the C++ standard says.
pub mod Exactly
pub mod Kept
pub mod Progress
pub mod Sound
mod Tests
use ubuntu_projects.Base.{
  ℕ, zero, suc, Bool, true, false, Option, none, some, List, [], ◌∷◌, if◌then◌else◌, get_elem?, set,
}
use ubuntu_projects.Sys.{Bytes, text}

-- `std::once_flag`: no call has returned, a thread is in the call, or a call has returned
pub data OnceFlag : Type 0 where
  idle : OnceFlag
  running : ℕ → OnceFlag
  done : OnceFlag

-- where a thread is in the function that calls `std::call_once`
pub data Place : Type 0 where
  outside inside ended : Place

-- what a call of the function writes, by how it ends
pub data Line : Type 0 where
  threw returned : Line

pub record State : Type 0 where
  pub flag : OnceFlag
  pub places : List Place
  pub output : List Line  -- the last line first
  pub i : Option ℕ  -- the member of `onceinit`, if it has been set

-- A thread moves, or waits for the call that runs, or has come to its end.
pub data Result : Type 0 where
  moved : State → Result
  blocked : Result
  finished : Result

-- a function that is called once: its lines, and the number that it sets
pub record Function : Type 0 where
  pub on_throw : Bytes
  pub on_return : Bytes
  pub sets : Option ℕ

abbrev pub simple : Function
simple = record { on_throw = []; on_return = text "Simple example: called once\n"; sets = none }

abbrev pub may_throw_function : Function
may_throw_function = record {
  on_throw = text "throw: call_once will retry\n";
  on_return = text "Didn't throw, call_once will not attempt again\n";
  sets = none;
}

-- `onceinit::do_init`
abbrev pub do_init : Function
do_init = record {
  on_throw = text "onceinit::do_init throw\n";
  on_return = text "onceinit::do_init initted\n";
  sets = some 125;
}

abbrev pub printed : Function → Line → Bytes
printed f Line.threw = f.on_throw
printed f Line.returned = f.on_return

-- A thread that comes to `std::call_once`.
unfoldable pub arrive : ℕ → State → Result
arrive t s = elim s.flag [
  | OnceFlag.idle ↦
      moved (record s { flag = OnceFlag.running t; places = set s.places t Place.inside })
  | OnceFlag.running u ↦ blocked
  | OnceFlag.done ↦ moved (record s { places = set s.places t Place.ended })
]

-- The end of the call in a thread, which throws or returns; the exception is caught.
unfoldable pub leave_call : Function → Bool → ℕ → State → Result
leave_call f true t s = moved (record s {
  flag = OnceFlag.idle;
  places = set s.places t Place.ended;
  output = Line.threw ∷ s.output;
})
leave_call f false t s = moved (record {
  flag = OnceFlag.done;
  places = set s.places t Place.ended;
  output = Line.returned ∷ s.output;
  i = f.sets;
})

-- the argument of a thread
abbrev pub throws_in : List Bool → ℕ → Bool
throws_in args t = elim (get_elem? args t) [ none ↦ false | some b ↦ b ]

-- `do_once` and `onceinit::get`, in the thread of number `t`
unfoldable pub do_once : Function → List Bool → ℕ → State → Result
do_once f args t s = elim (get_elem? s.places t) [
  | none ↦ finished
  | some Place.outside ↦ arrive t s
  | some Place.inside ↦ leave_call f (throws_in args t) t s
  | some Place.ended ↦ finished
]

-- the threads that `main` starts
abbrev pub outsides : List Bool → List Place
outsides [] = []
outsides (b ∷ args) = Place.outside ∷ outsides args

abbrev pub started : List Bool → State
started args = record { flag = OnceFlag.idle; places = outsides args; output = []; i = none }

-- the arguments in `main`: true, true, false, true
abbrev pub main_args : List Bool
main_args = true ∷ true ∷ false ∷ true ∷ []
