-- ===== src/Examples/CallOnce/Progress.antt =====
-- Some thread has a step, which brings it nearer to its end, until all have come to their ends.
use mathlib.Core.Path.{subst}
use ubuntu_projects.Base.{
  ℕ, zero, suc, ◌≡◌, ◌+◌, ◌<◌, refl, sym, Bool, Bool-cases, ◌⊎◌, inl, inr, some, List, [], ◌∷◌,
  arith, get_elem?, set,
}
use ubuntu_projects.Examples.CallOnce.{
  OnceFlag, Place, Line, State, Result, moved, blocked, Function, arrive, leave_call, throws_in,
  do_once,
}
use ubuntu_projects.Examples.CallOnce.Sound.{Sound}

-- what is left to do
abbrev pub place_left : Place → ℕ
place_left Place.outside = 2
place_left Place.inside = 1
place_left Place.ended = 0

abbrev pub left : List Place → ℕ
left [] = 0
left (p ∷ ps) = place_left p + left ps

left-set :
    (ps : List Place) (t : ℕ) (p v : Place)
    → get_elem? ps t ≡ some p
    → place_left v < place_left p
    → left (set ps t v) < left ps
left-set [] t p v e lt = absurd (ground (arith, e))
left-set (x ∷ ps) zero p v e lt = ground (arith, e, lt)
left-set (x ∷ ps) (suc t) p v e lt = let rest = left-set ps t p v e lt in omega arith

module _ (f : Function) (args : List Bool) where
  -- the threads have come to their ends
  abbrev pub AllEnded : List Place → Type 0
  AllEnded ps = (t : ℕ) (p : Place) → get_elem? ps t ≡ some p → p ≡ Place.ended

  -- The thread has a step, which leaves less to do.
  abbrev pub Moves : State → ℕ → Type 0
  Moves s t = (u : State) × (do_once f args t s ≡ moved u) × (left u.places < left s.places)

  thrown : ℕ → State → State
  thrown t s = record s {
    flag = OnceFlag.idle;
    places = set s.places t Place.ended;
    output = Line.threw ∷ s.output;
  }

  come_back : ℕ → State → State
  come_back t s = record {
    flag = OnceFlag.done;
    places = set s.places t Place.ended;
    output = Line.returned ∷ s.output;
    i = f.sets;
  }

  inside-Moves : (t : ℕ) (s : State) → get_elem? s.places t ≡ some Place.inside → Moves s t
  unfolding do_once leave_call thrown come_back
  inside-Moves t s e = elim (Bool-cases (throws_in args t)) [
    | inl bad ↦ (thrown t s, rw (do_once, e, leave_call, bad) refl, less)
    | inr good ↦ (come_back t s, rw (do_once, e, leave_call, good) refl, less)
  ]
    where
      less : left (set s.places t Place.ended) < left s.places
      less = left-set s.places t Place.inside Place.ended e (omega arith)

  outside-Moves :
      (t : ℕ) (s : State)
      → Sound f args s
      → get_elem? s.places t ≡ some Place.outside
      → (u : ℕ) × Moves s u
  unfolding do_once arrive
  outside-Moves t s a e = go s.flag refl
    where
      go : (flag : OnceFlag) → s.flag ≡ flag → (u : ℕ) × Moves s u
      go OnceFlag.idle free = (
        t,
        (
          record s { flag = OnceFlag.running t; places = set s.places t Place.inside },
          rw (do_once, e, arrive, free) refl,
          left-set s.places t Place.outside Place.inside e (omega arith),
        ),
      )
      go (OnceFlag.running u) busy = (u, inside-Moves u s (a.within u busy))
      go OnceFlag.done over = (
        t,
        (
          record s { places = set s.places t Place.ended },
          rw (do_once, e, arrive)
              (subst
                (λ flag.
                  elim flag as (λ _. Result) [
                    | OnceFlag.idle ↦ moved (record s {
                      flag = OnceFlag.running t;
                      places = set s.places t Place.inside;
                    })
                    | OnceFlag.running u ↦ blocked
                    | OnceFlag.done ↦ moved (record s { places = set s.places t Place.ended })
                  ]
                  ≡ moved (record s { places = set s.places t Place.ended }))
                (sym over) refl),
          left-set s.places t Place.outside Place.ended e (omega arith),
        ),
      )

  Waiting : List Place → Type 0
  Waiting ps =
      (t : ℕ) × ((get_elem? ps t ≡ some Place.outside) ⊎ (get_elem? ps t ≡ some Place.inside))

  AllEnded-cases : (ps : List Place) → AllEnded ps ⊎ Waiting ps
  unfolding Waiting
  AllEnded-cases [] = inl (λ t p e. absurd (ground (arith, e)))
  AllEnded-cases (Place.outside ∷ ps) = inr (0, inl refl)
  AllEnded-cases (Place.inside ∷ ps) = inr (0, inr refl)
  AllEnded-cases (Place.ended ∷ ps) = elim (AllEnded-cases ps) [
    | inl all ↦ inl (behind all)
    | inr (t, w) ↦ inr (suc t, w)
  ]
    where
      behind : AllEnded ps → AllEnded (Place.ended ∷ ps)
      behind all zero p e = ground (arith, e)
      behind all (suc t) p e = all t p e

  pub Sound-Moves : (s : State) → Sound f args s → AllEnded s.places ⊎ ((t : ℕ) × Moves s t)
  unfolding Waiting
  Sound-Moves s a = elim (AllEnded-cases s.places) [
    | inl all ↦ inl all
    | inr (t, inl out) ↦ inr (outside-Moves t s a out)
    | inr (t, inr in_call) ↦ inr (t, inside-Moves t s in_call)
  ]
