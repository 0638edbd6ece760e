-- ===== src/Examples/StateMachine/Tests.antt =====
-- The theorem on state_machine_example.cpp on a short input.
use mathlib.Core.Option.{map}
use ubuntu_projects.Base.{◌≡◌, some, [], ◌∷◌, ◌++◌, arith}
use ubuntu_projects.Sys.{Bytes, text}
use ubuntu_projects.Examples.StateMachine.{State, main}
use ubuntu_projects.Examples.StateMachine.Replay.{banner, main-replay}

-- "2", " x1" and "q" on a line each
abbrev typed : Bytes
typed = 50 ∷ 10 ∷ 32 ∷ 120 ∷ 49 ∷ 10 ∷ 113 ∷ 10 ∷ []

main-replay_example :
    map (λ m. m.output) (main 10 typed)
    ≡ some (
        text "exit state:exiting"
        ∷ banner State.state2
        ∷ (text "undefined state:" ++ (120 ∷ []))
        ∷ banner State.state2
        ∷ banner State.state1
        ∷ text "state_machine is started"
        ∷ [])
main-replay_example = main-replay 10 typed (omega arith)
