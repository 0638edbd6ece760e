-- ===== src/Examples/CallOnce/Exactly.antt =====
-- However the threads go on: the function returns once.
use mathlib.Core.Path.{subst}
use ubuntu_projects.Base.{
  ℕ, zero, suc, ◌≤◌, ◌≡◌, refl, sym, ap, ◌∙◌, Bool, true, false, ◌⊎◌, inl, inr, Option, some, none,
  List, [], ◌∷◌, arith, count, get_elem?, some-same,
}
use ubuntu_projects.Examples.CallOnce.{OnceFlag, Place, State, Function, throws_in}
use ubuntu_projects.Examples.CallOnce.Sound.{is_returned, is_some, Reach, times, value, Sound}
use ubuntu_projects.Examples.CallOnce.Kept.{Reach-Sound}
use ubuntu_projects.Examples.CallOnce.Progress.{AllEnded, Moves, Sound-Moves}

-- whether the function returns for one of the arguments
abbrev pub returns_in : List Bool → Bool
returns_in [] = false
returns_in (true ∷ args) = returns_in args
returns_in (false ∷ args) = true

returns_in-cases :
    (args : List Bool)
    → ((returns_in args ≡ true) × ((t : ℕ) × (get_elem? args t ≡ some false)))
      ⊎ ((returns_in args ≡ false) × ((t : ℕ) → get_elem? args t ≡ some false → ⊥))
returns_in-cases [] = inr (refl, λ t e. ground (arith, e))
returns_in-cases (false ∷ args) = inl (refl, (0, refl))
returns_in-cases (true ∷ args) = elim (returns_in-cases args) [
  | inl (e, (t, at)) ↦ inl (e, (suc t, at))
  | inr (e, never) ↦ inr (e, behind never)
]
  where
    behind :
        ((t : ℕ) → get_elem? args t ≡ some false → ⊥)
        → (t : ℕ) → get_elem? (true ∷ args) t ≡ some false
        → ⊥
    behind never zero e = ground (arith, e)
    behind never (suc t) e = never t e

module _ (f : Function) (args : List Bool) where
  at_most_once : (flag : OnceFlag) → times f args flag ≤ 1
  at_most_once OnceFlag.idle = omega arith
  at_most_once (OnceFlag.running t) = omega arith
  at_most_once OnceFlag.done = omega arith

  -- how often the function has returned, and what it has set, at the end
  abbrev pub Ends : State → Bool → Type 0
  Ends s true = (count is_returned s.output ≡ 1) × (s.i ≡ f.sets)
  Ends s false = (count is_returned s.output ≡ 0) × (s.i ≡ none)

  -- All threads have come to their ends, or one of them has a step that leaves less to do.
  pub data Goes (s : State) : Type 0 where
    ended : AllEnded f args s.places → Ends s (returns_in args) → Goes s
    goes : (t : ℕ) → Moves f args s t → Goes s

  some-throws_in : (bs : List Bool) (t : ℕ) → get_elem? bs t ≡ some false → throws_in bs t ≡ false
  some-throws_in [] t e = absurd (ground (arith, e))
  some-throws_in (b ∷ bs) zero e = some-same b false e
  some-throws_in (b ∷ bs) (suc t) e = some-throws_in bs t e

  calm-done :
      (s : State) (t : ℕ)
      → Sound f args s
      → AllEnded f args s.places
      → get_elem? args t ≡ some false
      → s.flag ≡ OnceFlag.done
  calm-done s t a all at = go (get_elem? s.places t) refl
    where
      go : (o : Option Place) → get_elem? s.places t ≡ o → s.flag ≡ OnceFlag.done
      go none e = let h = sym (a.extent t) ∙ ap is_some e in let g = ap is_some at in cc
      go (some p) e = a.waited t (some-throws_in args t at) (e ∙ ap some (all t p e))

  never-Ends :
      (s : State) (flag : OnceFlag)
      → Sound f args s
      → ((t : ℕ) → get_elem? args t ≡ some false → ⊥)
      → s.flag ≡ flag
      → Ends s false
  never-Ends s OnceFlag.idle a never e =
      (a.counted ∙ ap (times f args) e, a.set_by ∙ ap (value f args) e)
  never-Ends s (OnceFlag.running t) a never e =
      (a.counted ∙ ap (times f args) e, a.set_by ∙ ap (value f args) e)
  never-Ends s OnceFlag.done a never e = let (t, at) = a.cause e in absurd (never t at)

  AllEnded-Ends : (s : State) → Sound f args s → AllEnded f args s.places → Ends s (returns_in args)
  AllEnded-Ends s a all = elim (returns_in-cases args) [
    | inl (e, (t, at)) ↦
        let over = calm-done s t a all at in
        subst (Ends s) (sym e)
          (a.counted ∙ ap (times f args) over, a.set_by ∙ ap (value f args) over)
    | inr (e, never) ↦ subst (Ends s) (sym e) (never-Ends s s.flag a never refl)
  ]

  -- In every state that threads reach which call a function through `std::call_once`, in any order
  -- of their steps, at most one call of the function has returned, and one of two things holds.
  -- Either all threads have come to their ends; then, if the function returns for one of the
  -- arguments, exactly one call has returned and the member is what the function sets, and
  -- otherwise no call has returned and the member is not set. Or one of the threads has a step,
  -- which leaves less to do.
  pub do_once-returns_once :
      (s : State) → Reach f args s → (count is_returned s.output ≤ 1) × Goes s
  do_once-returns_once s r =
      let a = Reach-Sound f args r in
      (
        subst (λ n. n ≤ 1) (sym a.counted) (at_most_once s.flag),
        elim (Sound-Moves f args s a) [
          | inl all ↦ ended all (AllEnded-Ends s a all)
          | inr (t, m) ↦ goes t m
        ],
      )
