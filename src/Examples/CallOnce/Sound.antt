-- ===== src/Examples/CallOnce/Sound.antt =====
-- The states that the threads of once_flag_call_once.cpp lead to, and what holds in each of them.
use ubuntu_projects.Base.{
  ℕ, zero, suc, ◌≡◌, refl, sym, ap, ◌∙◌, Bool, true, false, ◌⊎◌, inl, inr, Option, none, some, List,
  [], ◌∷◌, arith, count, get_elem?, set, get_elem?-set_ne,
}
use native.Mathlib.Decide.{ℕ_discrete}
use ubuntu_projects.Examples.CallOnce.{
  OnceFlag, Place, Line, State, moved, Function, throws_in, do_once, outsides, started,
}

abbrev pub is_returned : Line → Bool
is_returned Line.threw = false
is_returned Line.returned = true

abbrev pub is_some : {A : Type 0} → Option A → Bool
is_some none = false
is_some (some x) = true

module _ (f : Function) (args : List Bool) where
  -- the states that the threads lead to, in any order of their steps
  pub data Reach : State → Type 0 where
    begins : Reach (started args)
    later : {s u : State} (t : ℕ) → Reach s → do_once f args t s ≡ moved u → Reach u

  -- how often the function has returned, and what it has set, by the flag
  abbrev pub times : OnceFlag → ℕ
  times OnceFlag.done = 1
  times _ = 0

  abbrev pub value : OnceFlag → Option ℕ
  value OnceFlag.done = f.sets
  value _ = none

  -- an argument for which the function returns
  abbrev pub Calm : Type 0
  Calm = (t : ℕ) × (get_elem? args t ≡ some false)

  -- There is a thread for each argument, and a call has returned only if the function returns for one
  -- of them. Only the thread that runs the call is in it, and a thread that does not throw has not come to
  -- its end before a call has returned.
  pub record Sound (s : State) : Type 0 where
    pub counted : count is_returned s.output ≡ times s.flag
    pub set_by : s.i ≡ value s.flag
    pub alone : (t : ℕ) → get_elem? s.places t ≡ some Place.inside → s.flag ≡ OnceFlag.running t
    pub within : (t : ℕ) → s.flag ≡ OnceFlag.running t → get_elem? s.places t ≡ some Place.inside
    pub waited :
        (t : ℕ)
        → throws_in args t ≡ false
        → get_elem? s.places t ≡ some Place.ended
        → s.flag ≡ OnceFlag.done
    pub extent : (t : ℕ) → is_some (get_elem? s.places t) ≡ is_some (get_elem? args t)
    pub cause : s.flag ≡ OnceFlag.done → Calm

  outsides-outside :
      (bs : List Bool) (t : ℕ) (p : Place) → get_elem? (outsides bs) t ≡ some p → p ≡ Place.outside
  outsides-outside [] t p e = ground (arith, e)
  outsides-outside (b ∷ bs) zero p e = ground (arith, e)
  outsides-outside (b ∷ bs) (suc t) p e = outsides-outside bs t p e

  is_some-outsides :
      (bs : List Bool) (t : ℕ) → is_some (get_elem? (outsides bs) t) ≡ is_some (get_elem? bs t)
  is_some-outsides [] t = ground arith
  is_some-outsides (b ∷ bs) zero = refl
  is_some-outsides (b ∷ bs) (suc t) = is_some-outsides bs t

  is_some-set :
      (xs : List Place) (t u : ℕ) (v : Place)
      → is_some (get_elem? (set xs t v) u) ≡ is_some (get_elem? xs u)
  is_some-set [] t u v = refl
  is_some-set (x ∷ xs) zero zero v = refl
  is_some-set (x ∷ xs) zero (suc u) v = refl
  is_some-set (x ∷ xs) (suc t) zero v = refl
  is_some-set (x ∷ xs) (suc t) (suc u) v = is_some-set xs t u v

  throws_in-some :
      (bs : List Bool) (t : ℕ)
      → is_some (get_elem? bs t) ≡ true
      → throws_in bs t ≡ false
      → get_elem? bs t ≡ some false
  throws_in-some [] t there calm = ground (arith, there)
  throws_in-some (b ∷ bs) zero there calm = ap some calm
  throws_in-some (b ∷ bs) (suc t) there calm = throws_in-some bs t there calm

  pub started-Sound : Sound (started args)
  started-Sound = record {
    counted = refl;
    set_by = refl;
    alone = λ t e. let o = outsides-outside args t Place.inside e in cc;
    within = λ t e. cc;
    waited = λ t calm e. let o = outsides-outside args t Place.ended e in cc;
    extent = is_some-outsides args;
    cause = λ e. cc;
  }

  pub at_set :
      (xs : List Place) (t : ℕ) (p v : Place)
      → get_elem? xs t ≡ some p
      → get_elem? (set xs t v) t ≡ some v
  at_set [] t p v e = absurd (ground (arith, e))
  at_set (x ∷ xs) zero p v e = refl
  at_set (x ∷ xs) (suc t) p v e = at_set xs t p v e

  -- where a thread is when thread `t` has come to `v`
  pub set-cases :
      (xs : List Place) (t u : ℕ) (p v x : Place)
      → get_elem? xs t ≡ some p
      → get_elem? (set xs t v) u ≡ some x
      → ((t ≡ u) × (v ≡ x)) ⊎ ((t ≡ u → ⊥) × (get_elem? xs u ≡ some x))
  set-cases xs t u p v x at_t e = elim (ℕ_discrete t u) [
    | yes same ↦
        let there = at_set xs t p v at_t in
        let now = ap (get_elem? (set xs t v)) same ∙ e in inl (same, cc)
    | no other ↦ inr (other, sym (get_elem?-set_ne xs t u v other) ∙ e)
  ]

  module _ (t : ℕ) (s : State) (a : Sound s) where
    pub enters :
        get_elem? s.places t ≡ some Place.outside
        → s.flag ≡ OnceFlag.idle
        → Sound (record s { flag = OnceFlag.running t; places = set s.places t Place.inside })
    enters at_t free = record {
      counted = a.counted ∙ ap times free;
      set_by = a.set_by ∙ ap value free;
      alone = λ u e. elim (set-cases s.places t u Place.outside Place.inside Place.inside at_t e) [
        | inl (same, _) ↦ ap OnceFlag.running same
        | inr (_, old) ↦ let h = a.alone u old in cc
      ];
      within = λ u e. elim (ℕ_discrete t u) [
        | yes same ↦
            ap (get_elem? (set s.places t Place.inside)) (sym same)
            ∙ at_set s.places t Place.outside Place.inside at_t
        | no other ↦ absurd (other cc)
      ];
      waited = λ u calm e.
          elim (set-cases s.places t u Place.outside Place.inside Place.ended at_t e) [
            | inl (_, no_place) ↦ cc
            | inr (_, old) ↦ let h = a.waited u calm old in cc
          ];
      extent = λ u. is_some-set s.places t u Place.inside ∙ a.extent u;
      cause = λ e. cc;
    }

    pub passes :
        get_elem? s.places t ≡ some Place.outside
        → s.flag ≡ OnceFlag.done
        → Sound (record s { places = set s.places t Place.ended })
    passes at_t over = record {
      counted = a.counted;
      set_by = a.set_by;
      alone = λ u e. elim (set-cases s.places t u Place.outside Place.ended Place.inside at_t e) [
        | inl (_, no_place) ↦ cc
        | inr (_, old) ↦ a.alone u old
      ];
      within = λ u e. cc;
      waited = λ u calm e. over;
      extent = λ u. is_some-set s.places t u Place.ended ∙ a.extent u;
      cause = a.cause;
    }

    pub throws :
        get_elem? s.places t ≡ some Place.inside
        → throws_in args t ≡ true
        → Sound (record s {
          flag = OnceFlag.idle;
          places = set s.places t Place.ended;
          output = Line.threw ∷ s.output;
        })
    throws at_t bad =
        let mine = a.alone t at_t in
        record {
          counted = a.counted ∙ ap times mine;
          set_by = a.set_by ∙ ap value mine;
          alone = λ u e.
              elim (set-cases s.places t u Place.inside Place.ended Place.inside at_t e) [
                | inl (_, no_place) ↦ cc
                | inr (other, old) ↦ let h = a.alone u old in absurd (other cc)
              ];
          within = λ u e. cc;
          waited = λ u calm e.
              elim (set-cases s.places t u Place.inside Place.ended Place.ended at_t e) [
                | inl (same, _) ↦ let h = ap (throws_in args) same in cc
                | inr (_, old) ↦ let h = a.waited u calm old in cc
              ];
          extent = λ u. is_some-set s.places t u Place.ended ∙ a.extent u;
          cause = λ e. cc;
        }

    pub returns :
        get_elem? s.places t ≡ some Place.inside
        → throws_in args t ≡ false
        → Sound (record {
          flag = OnceFlag.done;
          places = set s.places t Place.ended;
          output = Line.returned ∷ s.output;
          i = f.sets;
        })
    returns at_t calm_here =
        let mine = a.alone t at_t in
        record {
          counted = ap suc (a.counted ∙ ap times mine);
          set_by = refl;
          alone = λ u e.
              elim (set-cases s.places t u Place.inside Place.ended Place.inside at_t e) [
                | inl (_, no_place) ↦ cc
                | inr (other, old) ↦ let h = a.alone u old in absurd (other cc)
              ];
          within = λ u e. cc;
          waited = λ u calm e. refl;
          extent = λ u. is_some-set s.places t u Place.ended ∙ a.extent u;
          cause = λ e. (t, throws_in-some args t (sym (a.extent t) ∙ ap is_some at_t) calm_here);
        }
