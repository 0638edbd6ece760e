-- ===== src/Flist/Walk.antt =====
-- A thread on its way through the list, from node to node, until it is behind the last one.
use mathlib.Core.Path.{subst}
use ubuntu_projects.Base.{
  ℕ, suc, ◌≡◌, refl, ap, sym, ◌∙◌, Option, none, some, List, [], ◌∷◌, ◌++◌, ◌==◌, if◌then◌else◌,
  arith,
}
use ubuntu_projects.Flist.Chain.{Node, node, find, set_holder}
use ubuntu_projects.Flist.Distinct.{Distinct, set-Distinct}
use ubuntu_projects.Flist.Contents.{contents}
use ubuntu_projects.Flist.Place.{Free, find-at, set-at, Free-append, contents-append}
use ubuntu_projects.Flist.{
  Method, Cursor, out, prev, both, Event, State, done, move_to, note, lock_next, look, end_events,
  run,
}
use ubuntu_projects.Flist.Alone.{handed, handed-end, Ends}

module _ {A : Type 0} where
  -- The thread is at a node, with nodes before it and behind it, and holds no other lock than that of
  -- this node; nobody holds another one.
  pub record Walk (t : ℕ) (m : Method A) (pre : List (Node A)) (a : ℕ) (x : Option A)
      (suf : List (Node A)) (s : State A) : Type 0 where
    pub at : s.chain ≡ pre ++ node a (some t) x ∷ suf
    pub distinct : Distinct (pre ++ node a (some t) x ∷ suf)
    pub before : Free pre
    pub behind : Free suf
    pub cursor : s.cursor t ≡ prev m a

  pub stopped-Ends :
      (fuel t : ℕ) (xs : List (Option A)) (es : List (Event A)) (u : State A)
      → u.cursor t ≡ out
      → contents u.chain ≡ xs
      → u.log ≡ es
      → Free u.chain
      → Distinct u.chain
      → Ends t xs es (run (suc fuel) t u)
  unfolding run
  stopped-Ends fuel t xs es u free e l f d = rw (free, Ends, run) (e, l, free, f, d)

  pub Ends-cast :
      (t : ℕ) (xs ys : List (Option A)) (es fs : List (Event A)) (o : Option (State A))
      → xs ≡ ys
      → es ≡ fs
      → Ends t xs es o
      → Ends t ys fs o
  Ends-cast t xs ys es fs o e f ends =
      subst (λ zs. Ends t zs fs o) e (subst (λ zs. Ends t xs zs o) f ends)

  pub run-prev :
      (fuel t : ℕ) (m : Method A) (a : ℕ) (s u : State A)
      → s.cursor t ≡ prev m a
      → lock_next t m a s ≡ done u
      → run (suc fuel) t s ≡ run fuel t u
  unfolding run
  run-prev fuel t m a s u e step = rw (e, step, run) refl

  pub run-both :
      (fuel t : ℕ) (m : Method A) (a b : ℕ) (s u : State A)
      → s.cursor t ≡ both m a b
      → look t m a b s ≡ done u
      → run (suc fuel) t s ≡ run fuel t u
  unfolding run
  run-both fuel t m a b s u e step = rw (e, step, run) refl

  pub cursor_self : (t : ℕ) (k l : Cursor A) → (if t == t then k else l) ≡ k
  cursor_self t k l = ground arith

  pub end-Ends :
      (fuel t : ℕ) (m : Method A) (pre : List (Node A)) (a : ℕ) (x : Option A) (s : State A)
      → Walk t m pre a x [] s
      → Ends t (contents pre ++ x ∷ []) (s.log ++ handed t m []) (run (suc (suc fuel)) t s)
  unfolding lock_next
  end-Ends fuel t m pre a x s walk =
      let u = note (end_events t m) (move_to t out (set_holder a none s.chain) s) in
      let found_it = ap (λ c. find c a) walk.at ∙ find-at pre [] a (some t) x walk.distinct in
      let chain : u.chain ≡ pre ++ node a none x ∷ [] =
        ap (set_holder a none) walk.at ∙ set-at pre [] a (some t) none x walk.distinct in
      let step : lock_next t m a s ≡ done u = rw (found_it, lock_next) refl in
      subst (Ends t (contents pre ++ x ∷ []) (s.log ++ handed t m []))
        (sym (run-prev (suc fuel) t m a s u walk.cursor step))
        (stopped-Ends fuel t _ _ u (cursor_self t out (s.cursor t))
          (ap contents chain ∙ contents-append pre (node a none x ∷ []))
          (ap (λ es. s.log ++ es) (handed-end t m))
          (subst Free (sym chain) (Free-append pre (node a none x ∷ []) walk.before (refl, tt)))
          (set-Distinct a none s.chain (subst Distinct (sym walk.at) walk.distinct)))
