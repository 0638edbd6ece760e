-- ===== src/Jointhread.antt =====
-- cppprojects/include/ts_lib/jointhread.h and thread_guard.h: handles of threads that are joined
-- before they go. Objects and threads are named by numbers.
pub mod Kept
pub mod Known
pub mod Move
mod Tests
use ubuntu_projects.Base.{
  ℕ, Bool, true, false, not, Option, none, some, List, [], ◌∷◌, ◌==◌, if◌then◌else◌,
}

-- The thread of the `std::thread` in each object, if it has one, and the threads that have been
-- joined and detached.
pub record Threads : Type 0 where
  pub handle : ℕ → Option ℕ
  pub joined : List ℕ
  pub detached : List ℕ

-- `std::terminate`, `std::system_error`, and a failed `assert`
pub data Outcome : Type 0 where
  done : Threads → Outcome
  terminated : Outcome
  system_error : Outcome
  assert_failed : Outcome

abbrev pub and_then : Outcome → (Threads → Outcome) → Outcome
and_then (done s) f = f s
and_then terminated f = terminated
and_then system_error f = system_error
and_then assert_failed f = assert_failed

abbrev pub put : (ℕ → Option ℕ) → ℕ → Option ℕ → ℕ → Option ℕ
put f i h j = if i == j then h else f j

abbrev pub with_handle : ℕ → Option ℕ → Threads → Threads
with_handle i h s = record s { handle = put s.handle i h }

unfoldable pub joinable : ℕ → Threads → Bool
joinable i s = elim (s.handle i) [ none ↦ false | some t ↦ true ]

-- An exception ends the program where it would leave a function that is `noexcept`.
abbrev pub no_throw : Outcome → Outcome
no_throw (done s) = done s
no_throw terminated = terminated
no_throw system_error = terminated
no_throw assert_failed = assert_failed

-- `std::thread::join`, called by thread `self`, which cannot wait for itself. A thread that is joined
-- comes to its end.
unfoldable pub join : ℕ → ℕ → Threads → Outcome
join self i s = elim (s.handle i) [
  | none ↦ system_error
  | some t ↦
      if t == self
      then system_error
      else done
          (record { handle = put s.handle i none; joined = t ∷ s.joined; detached = s.detached })
]

-- `std::thread::detach`
unfoldable pub detach : ℕ → Threads → Outcome
detach i s = elim (s.handle i) [
  | none ↦ system_error
  | some t ↦
      done (record { handle = put s.handle i none; joined = s.joined; detached = t ∷ s.detached })
]

-- the handle moved out of object `j` into object `i`, whose own handle is overwritten
abbrev pub moved : ℕ → ℕ → Threads → Threads
moved i j s = with_handle i (s.handle j) (with_handle j none s)

-- The move assignment of `std::thread`, from another object, terminates when there is a thread.
unfoldable pub thread_assign : ℕ → ℕ → Threads → Outcome
thread_assign i j s = if joinable i s then terminated else done (moved i j s)

-- the destructor of `std::thread`
unfoldable pub thread_destroy : ℕ → Threads → Outcome
thread_destroy i s = if joinable i s then terminated else done s

unfoldable pub check_join : ℕ → ℕ → Threads → Outcome
check_join self i s = no_throw (if joinable i s then join self i s else done s)

unfoldable pub assign : ℕ → ℕ → ℕ → Threads → Outcome
assign self i j s = and_then (check_join self i s) (thread_assign i j)

unfoldable pub destroy : ℕ → ℕ → Threads → Outcome
destroy self i s = and_then (check_join self i s) (thread_destroy i)

-- the constructor that starts thread `t`, in a new object `i`
unfoldable pub start : ℕ → ℕ → Threads → Outcome
start i t s = done (with_handle i (some t) s)

-- the move constructor: a new object `i`
unfoldable pub construct : ℕ → ℕ → Threads → Outcome
construct i j s = done (moved i j s)

unfoldable pub swap : ℕ → ℕ → Threads → Outcome
swap i j s = done (with_handle i (s.handle j) (with_handle j (s.handle i) s))

-- `thread_guard`, with its assertions compiled in
unfoldable pub guard_construct : ℕ → ℕ → Threads → Outcome
guard_construct i j s = let t = moved i j s in if joinable i t then done t else assert_failed

unfoldable pub guard_join : ℕ → ℕ → Threads → Outcome
guard_join self i s = if joinable i s then join self i s else assert_failed

-- A destructor is `noexcept`.
unfoldable pub guard_destroy : ℕ → ℕ → Threads → Outcome
guard_destroy self i s =
    and_then (no_throw (if joinable i s then join self i s else done s)) (thread_destroy i)

unfoldable pub guard_assign : ℕ → ℕ → Threads → Outcome
guard_assign i j s = thread_assign i j s
