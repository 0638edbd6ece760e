-- ===== src/Flist/Tests.antt =====
-- The theorems on ts_fine_graited_flist.h on a new list.
use ubuntu_projects.Base.{ℕ, refl, ◌==◌, Bool, false, Option, none, some, arith}
use ubuntu_projects.Flist.Items.{Changes, step-Changes}
use ubuntu_projects.Flist.Quiet.{Calls, call_lem}
use ubuntu_projects.Flist.{
  remove_first_if, call, look, decide, look_events, remove_if, for_each, State, Result, done, flist,
  begin, push_front, go_on, lock_next,
}
use ubuntu_projects.Flist.Progress.{SomeMoves, some_thread-Moves}
use ubuntu_projects.Flist.Holds.{Holds}
use ubuntu_projects.Flist.Safe.{
  Step, Reach, here, later, pushes, begins, goes_on, Defined, reached-Defined,
}

-- the state of a result that is one
abbrev state_of : Result ℕ → State ℕ
state_of (done s) = s
state_of _ = flist 1

abbrev is_seven : Option ℕ → Bool
is_seven none = false
is_seven (some n) = n == 7

abbrev pushed : State ℕ
pushed = state_of (push_front 2 7 (flist 1))

abbrev begun : State ℕ
begun = state_of (begin 4 (remove_if is_seven) pushed)

-- The thread 4 has the locks of both nodes.
abbrev locked : State ℕ
locked = state_of (go_on 4 (begun.cursor 4) begun)

reached : Reach (flist 1) locked
unfolding flist push_front begin go_on lock_next
reached =
    later (later (later here (pushes 2 7 refl refl)) (begins 4 (remove_if is_seven) refl refl))
      (goes_on 4 refl)

reached-Defined_example :
    Defined (go_on 4 (locked.cursor 4) locked)
    × Defined (begin 5 for_each locked)
    × Defined (push_front 3 8 locked)
    × Holds 4 (locked.cursor 4) locked.chain
unfolding flist push_front begin go_on lock_next
reached-Defined_example = reached-Defined 1 4 3 for_each 8 locked reached refl

some_thread-Moves_example : SomeMoves locked
unfolding flist push_front begin go_on lock_next
some_thread-Moves_example = some_thread-Moves 1 4 locked reached (λ e. ground (arith, e))

abbrev removed : State ℕ
removed = state_of (go_on 4 (locked.cursor 4) locked)

-- The thread removes the node in which there is a 7.
removal : Step locked removed
unfolding flist push_front begin go_on lock_next look decide look_events
removal = goes_on 4 refl

step-Changes_example : Changes locked removed removal
unfolding flist push_front begin go_on lock_next look decide look_events
step-Changes_example = step-Changes 1 locked removed removal reached

abbrev two_pushed : State ℕ
two_pushed = state_of (push_front 3 8 pushed)

quiet : Reach (flist 1) two_pushed
unfolding flist push_front
quiet = later (later here (pushes 2 7 refl refl)) (pushes 3 8 refl refl)

call_lem_example :
    Calls 4 (remove_first_if is_seven) two_pushed (call 6 4 (remove_first_if is_seven) two_pushed)
unfolding flist push_front
call_lem_example =
    call_lem 1 6 4 (remove_first_if is_seven) two_pushed quiet (λ u. refl) (omega arith)
