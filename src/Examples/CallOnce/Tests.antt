-- ===== src/Examples/CallOnce/Tests.antt =====
-- The theorem on once_flag_call_once.cpp where the four threads of `onceinit` start, the first one
-- throws and the third one returns.
use ubuntu_projects.Base.{refl, ◌≤◌, some, none, List, [], ◌∷◌, count}
use ubuntu_projects.Examples.CallOnce.{
  OnceFlag, Place, Line, State, arrive, leave_call, do_init, do_once, main_args,
}
use ubuntu_projects.Examples.CallOnce.Sound.{is_returned, Reach}
use ubuntu_projects.Examples.CallOnce.Exactly.{Goes, do_once-returns_once}

abbrev places_at : Place → Place → List Place
places_at p q = p ∷ Place.outside ∷ q ∷ Place.outside ∷ []

abbrev tried : State
tried = record {
  flag = OnceFlag.running 0;
  places = places_at Place.inside Place.outside;
  output = [];
  i = none;
}

abbrev thrown : State
thrown = record {
  flag = OnceFlag.idle;
  places = places_at Place.ended Place.outside;
  output = Line.threw ∷ [];
  i = none;
}

abbrev tried_again : State
tried_again = record {
  flag = OnceFlag.running 2;
  places = places_at Place.ended Place.inside;
  output = Line.threw ∷ [];
  i = none;
}

abbrev set_once : State
set_once = record {
  flag = OnceFlag.done;
  places = places_at Place.ended Place.ended;
  output = Line.returned ∷ Line.threw ∷ [];
  i = some 125;
}

set_once-Reach : Reach do_init main_args set_once
unfolding do_once arrive leave_call
set_once-Reach =
    Reach.later {s = tried_again} 2
      (Reach.later {s = thrown} 2 (Reach.later {s = tried} 0 (Reach.later 0 Reach.begins refl) refl)
        refl)
      refl

do_once-returns_once_example :
    (count is_returned set_once.output ≤ 1) × Goes do_init main_args set_once
do_once-returns_once_example = do_once-returns_once do_init main_args set_once set_once-Reach
