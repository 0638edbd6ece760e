-- ===== src/Examples/CallOnce/Kept.antt =====
-- Each step of a thread through `std::call_once` keeps what holds of the states.
use mathlib.Core.Path.{subst}
use ubuntu_projects.Base.{ℕ, ◌≡◌, refl, Bool, true, false, Option, none, some, List, get_elem?, set}
use ubuntu_projects.Examples.CallOnce.{
  OnceFlag, Place, State, Result, moved, blocked, finished, Function, arrive, leave_call, throws_in,
  do_once,
}
use ubuntu_projects.Examples.CallOnce.Sound.{
  Reach, begins, later, Sound, started-Sound, enters, passes, throws, returns,
}

module _ (f : Function) (args : List Bool) where
  abbrev After : Result → Type 0
  After (moved u) = Sound f args u
  After blocked = Unit {0}
  After finished = Unit {0}

  arrive-After :
      (t : ℕ) (s : State)
      → Sound f args s
      → get_elem? s.places t ≡ some Place.outside
      → After (arrive t s)
  unfolding arrive
  arrive-After t s a at_t = go s.flag refl
    where
      go :
          (flag : OnceFlag)
          → s.flag ≡ flag
          → After (elim flag [
            | OnceFlag.idle ↦
                moved (record s { flag = OnceFlag.running t; places = set s.places t Place.inside })
            | OnceFlag.running u ↦ blocked
            | OnceFlag.done ↦ moved (record s { places = set s.places t Place.ended })
          ])
      go OnceFlag.idle e = enters f args t s a at_t e
      go (OnceFlag.running u) e = tt
      go OnceFlag.done e = passes f args t s a at_t e

  leave_call-After :
      (t : ℕ) (s : State) (b : Bool)
      → Sound f args s
      → get_elem? s.places t ≡ some Place.inside
      → throws_in args t ≡ b
      → After (leave_call f b t s)
  unfolding leave_call
  leave_call-After t s true a at_t e = throws f args t s a at_t e
  leave_call-After t s false a at_t e = returns f args t s a at_t e

  do_once-After : (t : ℕ) (s : State) → Sound f args s → After (do_once f args t s)
  unfolding do_once
  do_once-After t s a = go (get_elem? s.places t) refl
    where
      go :
          (o : Option Place)
          → get_elem? s.places t ≡ o
          → After (elim o [
            | none ↦ finished
            | some Place.outside ↦ arrive t s
            | some Place.inside ↦ leave_call f (throws_in args t) t s
            | some Place.ended ↦ finished
          ])
      go none e = tt
      go (some Place.outside) e = arrive-After t s a e
      go (some Place.inside) e = leave_call-After t s (throws_in args t) a e refl
      go (some Place.ended) e = tt

  pub Reach-Sound : {s : State} → Reach f args s → Sound f args s
  Reach-Sound begins = started-Sound f args
  Reach-Sound (later {s} t r e) = subst After e (do_once-After t s (Reach-Sound r))
