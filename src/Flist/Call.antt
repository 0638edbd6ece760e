-- ===== src/Flist/Call.antt =====
-- The whole way of a thread that calls a method when no other one is in a method.
use mathlib.Core.Path.{subst}
use mathlib.Core.List.{append-nil, append_assoc}
use ubuntu_projects.Base.{
  ℕ, zero, suc, ◌+◌, ◌*◌, ◌≤◌, ◌≡◌, refl, ap, sym, ◌∙◌, Option, none, some, List, [], ◌∷◌, ◌++◌,
  length, arith,
}
use ubuntu_projects.Flist.Chain.{Node, node, find, set_holder, remove_next}
use ubuntu_projects.Flist.Distinct.{Distinct, set-Distinct, remove-Distinct}
use ubuntu_projects.Flist.Contents.{contents}
use ubuntu_projects.Flist.Place.{
  Free, find-second, set-second, find-at, set-at, remove-at, snoc-append, Free-append,
  contents-append,
}
use ubuntu_projects.Flist.{
  Method, out, prev, both, Event, State, done, Decision, decide, move_to, note, lock_next, take_out,
  act, look, look_events, run,
}
use ubuntu_projects.Flist.Alone.{
  left, handed, left_by, handed_by, left-step, handed-step, left-nil, Ends,
}
use ubuntu_projects.Flist.Walk.{
  Walk, stopped-Ends, Ends-cast, run-prev, run-both, cursor_self, end-Ends,
}

module _ {A : Type 0} where
  -- The thread has the locks of two nodes, one behind the other.
  record Look (t : ℕ) (m : Method A) (pre : List (Node A)) (a : ℕ) (x : Option A) (b : ℕ)
      (y : Option A) (suf : List (Node A)) (s : State A) : Type 0 where
    at : s.chain ≡ pre ++ node a (some t) x ∷ node b (some t) y ∷ suf
    distinct : Distinct (pre ++ node a (some t) x ∷ node b (some t) y ∷ suf)
    before : Free pre
    behind : Free suf
    cursor : s.cursor t ≡ both m a b

  lock-Look :
      (t : ℕ) (m : Method A) (pre : List (Node A)) (a : ℕ) (x : Option A) (b : ℕ) (y : Option A)
      (suf : List (Node A)) (s : State A)
      → Walk t m pre a x (node b none y ∷ suf) s
      → (u : State A) × (lock_next t m a s ≡ done u) × (u.log ≡ s.log) × Look t m pre a x b y suf u
  unfolding lock_next
  lock-Look t m pre a x b y suf s walk =
      let u = move_to t (both m a b) (set_holder b (some t) s.chain) s in
      let found_it =
        ap (λ c. find c a) walk.at ∙ find-at pre (node b none y ∷ suf) a (some t) x walk.distinct in
      let next =
        ap (λ c. find c b) walk.at
        ∙ find-second pre suf (node a (some t) x) b none y walk.distinct in
      let chain : u.chain ≡ pre ++ node a (some t) x ∷ node b (some t) y ∷ suf =
        ap (set_holder b (some t)) walk.at
        ∙ set-second pre suf (node a (some t) x) b none (some t) y walk.distinct in
      (
        u,
        rw (found_it, next, lock_next) refl,
        refl,
        record {
          at = chain;
          distinct =
              subst Distinct chain
                (set-Distinct b (some t) s.chain (subst Distinct (sym walk.at) walk.distinct));
          before = walk.before;
          behind = walk.behind.1;
          cursor = cursor_self t (both m a b) (s.cursor t);
        },
      )

  look-done :
      (t : ℕ) (m : Method A) (pre : List (Node A)) (a : ℕ) (x : Option A) (b : ℕ) (y : Option A)
      (suf : List (Node A)) (s : State A)
      → Look t m pre a x b y suf s
      → look t m a b s ≡ done (note (look_events t m y) (act t m a b (decide m y) s))
  unfolding look
  look-done t m pre a x b y suf s l =
      let found_it =
        ap (λ c. find c a) l.at ∙ find-at pre (node b (some t) y ∷ suf) a (some t) x l.distinct in
      let next =
        ap (λ c. find c b) l.at ∙ find-second pre suf (node a (some t) x) b (some t) y l.distinct in
      rw (found_it, next, look) refl

  -- the chain when the second node has been taken out
  taken_out :
      (t : ℕ) (m : Method A) (pre : List (Node A)) (a : ℕ) (x : Option A) (b : ℕ) (y : Option A)
      (suf : List (Node A)) (s : State A)
      → Look t m pre a x b y suf s
      → take_out a b s.chain ≡ pre ++ node a (some t) x ∷ suf
  taken_out t m pre a x b y suf s l =
      let free : set_holder b none s.chain ≡ pre ++ node a (some t) x ∷ node b none y ∷ suf =
        ap (set_holder b none) l.at
        ∙ set-second pre suf (node a (some t) x) b (some t) none y l.distinct in
      ap (remove_next a) free
      ∙ remove-at pre suf a (some t) x (node b none y)
          (subst Distinct free (set-Distinct b none s.chain (subst Distinct (sym l.at) l.distinct)))

  take_out-Distinct : (a b : ℕ) (c : List (Node A)) → Distinct c → Distinct (take_out a b c)
  take_out-Distinct a b c d = remove-Distinct a (set_holder b none c) (set-Distinct b none c d)

  -- A walk from so many nodes on ends as it should.
  abbrev WalkEnds : ℕ → Method A → List (Node A) → Type 0
  WalkEnds t m suf =
      (fuel : ℕ) (pre : List (Node A)) (a : ℕ) (x : Option A) (s : State A)
      → length suf * 2 + 2 ≤ fuel
      → Walk t m pre a x suf s
      → Ends t (contents pre ++ x ∷ left m (contents suf)) (s.log ++ handed t m (contents suf))
          (run fuel t s)

  contents-snoc :
      (pre : List (Node A)) (a : ℕ) (h : Option ℕ) (x : Option A) (zs : List (Option A))
      → contents (pre ++ node a h x ∷ []) ++ zs ≡ contents pre ++ x ∷ zs
  contents-snoc [] a h x zs = refl
  contents-snoc (node i j z ∷ pre) a h x zs = ap (λ ws. z ∷ ws) (contents-snoc pre a h x zs)

  -- After the two nodes have been passed, with the lock of the second one or without it.
  passed :
      (t : ℕ) (m : Method A) (pre : List (Node A)) (a : ℕ) (x : Option A) (b : ℕ) (y : Option A)
      (suf : List (Node A)) (s : State A)
      → Look t m pre a x b y suf s
      → set_holder a none s.chain ≡ (pre ++ node a none x ∷ []) ++ node b (some t) y ∷ suf
  passed t m pre a x b y suf s l =
      ap (set_holder a none) l.at
      ∙ set-at pre (node b (some t) y ∷ suf) a (some t) none x l.distinct
      ∙ sym (snoc-append pre (node b (some t) y ∷ suf) (node a none x))

  Look-Distinct :
      (t : ℕ) (m : Method A) (pre : List (Node A)) (a : ℕ) (x : Option A) (b : ℕ) (y : Option A)
      (suf : List (Node A)) (s : State A)
      → Look t m pre a x b y suf s
      → Distinct s.chain
  Look-Distinct t m pre a x b y suf s l = subst Distinct (sym l.at) l.distinct

  act-Ends :
      (fuel t : ℕ) (m : Method A) (pre : List (Node A)) (a : ℕ) (x : Option A) (b : ℕ)
      (y : Option A) (suf : List (Node A)) (s : State A) (es : List (Event A)) (d : Decision)
      → Look t m pre a x b y suf s
      → WalkEnds t m suf
      → length suf * 2 + 2 ≤ suc fuel
      → Ends t
          (contents pre ++ x ∷ left_by d y (contents suf) (left m (contents suf)))
          ((s.log ++ es) ++ handed_by d (handed t m (contents suf)))
          (run (suc fuel) t (note es (act t m a b d s)))
  act-Ends fuel t m pre a x b y suf s es Decision.goes_on l walks enough =
      let u = note es (act t m a b Decision.goes_on s) in
      let chain = passed t m pre a x b y suf s l in
      Ends-cast t _ _ _ _ (run (suc fuel) t u)
        (contents-snoc pre a none x (y ∷ left m (contents suf))) refl
        (walks (suc fuel) (pre ++ node a none x ∷ []) b y u enough (record {
          at = chain;
          distinct =
              subst Distinct chain
                (set-Distinct a none s.chain (Look-Distinct t m pre a x b y suf s l));
          before = Free-append pre (node a none x ∷ []) l.before (refl, tt);
          behind = l.behind;
          cursor = cursor_self t (prev m b) (s.cursor t);
        }))
  act-Ends fuel t m pre a x b y suf s es Decision.removes l walks enough =
      let u = note es (act t m a b Decision.removes s) in
      let chain = taken_out t m pre a x b y suf s l in
      walks (suc fuel) pre a x u enough (record {
        at = chain;
        distinct =
            subst Distinct chain
              (take_out-Distinct a b s.chain (Look-Distinct t m pre a x b y suf s l));
        before = l.before;
        behind = l.behind;
        cursor = cursor_self t (prev m a) (s.cursor t);
      })
  act-Ends fuel t m pre a x b y suf s es Decision.returns l walks enough =
      let u = note es (act t m a b Decision.returns s) in
      let q = pre ++ node a none x ∷ [] in
      let distinct = Look-Distinct t m pre a x b y suf s l in
      let over = passed t m pre a x b y suf s l in
      let kept = subst Distinct over (set-Distinct a none s.chain distinct) in
      let chain : u.chain ≡ q ++ node b none y ∷ suf =
        ap (set_holder b none) over ∙ set-at q suf b (some t) none y kept in
      stopped-Ends fuel t _ _ u (cursor_self t out (s.cursor t))
        (ap contents chain
          ∙ contents-append q (node b none y ∷ suf)
          ∙ contents-snoc pre a none x (y ∷ contents suf))
        (sym (append-nil (s.log ++ es)))
        (subst Free (sym chain) (
          Free-append q (node b none y ∷ suf)
            (Free-append pre (node a none x ∷ []) l.before (refl, tt)) (refl, l.behind)))
        (set-Distinct b none (set_holder a none s.chain) (set-Distinct a none s.chain distinct))
  act-Ends fuel t m pre a x b y suf s es Decision.removes_and_returns l walks enough =
      let u = note es (act t m a b Decision.removes_and_returns s) in
      let distinct = take_out-Distinct a b s.chain (Look-Distinct t m pre a x b y suf s l) in
      let gone = taken_out t m pre a x b y suf s l in
      let chain : u.chain ≡ pre ++ node a none x ∷ suf =
        ap (set_holder a none) gone
        ∙ set-at pre suf a (some t) none x (subst Distinct gone distinct) in
      stopped-Ends fuel t _ _ u (cursor_self t out (s.cursor t))
        (ap contents chain ∙ contents-append pre (node a none x ∷ suf))
        (sym (append-nil (s.log ++ es)))
        (subst Free (sym chain) (Free-append pre (node a none x ∷ suf) l.before (refl, l.behind)))
        (set-Distinct a none (take_out a b s.chain) distinct)

  pub walk-Ends : (t : ℕ) (m : Method A) (suf : List (Node A)) → WalkEnds t m suf
  walk-Ends t m suf zero pre a x s enough walk = absurd (omega (arith, enough))
  walk-Ends t m suf (suc zero) pre a x s enough walk = absurd (omega (arith, enough))
  walk-Ends t m [] (suc (suc fuel)) pre a x s enough walk =
      Ends-cast t _ _ _ _ (run (suc (suc fuel)) t s)
        (ap (λ ys. contents pre ++ x ∷ ys) (left-nil m)) refl (end-Ends fuel t m pre a x s walk)
  walk-Ends t m (node b (some u) y ∷ suf) (suc (suc fuel)) pre a x s enough walk =
      absurd (ground (arith, walk.behind))
  walk-Ends t m (node b none y ∷ suf) (suc (suc zero)) pre a x s enough walk =
      absurd (omega (arith, enough))
  walk-Ends t m (node b none y ∷ suf) (suc (suc (suc fuel))) pre a x s enough walk =
      let (v, locked, log, l) = lock-Look t m pre a x b y suf s walk in
      let u = note (look_events t m y) (act t m a b (decide m y) v) in
      let ends =
        act-Ends fuel t m pre a x b y suf v (look_events t m y) (decide m y) l (walk-Ends t m suf)
          (omega (arith, enough)) in
      let steps =
        run-prev (suc (suc fuel)) t m a s v walk.cursor locked
        ∙ run-both (suc fuel) t m a b v u l.cursor (look-done t m pre a x b y suf v l) in
      subst
        (Ends t (contents pre ++ x ∷ left m (y ∷ contents suf))
          (s.log ++ handed t m (y ∷ contents suf)))
        (sym steps)
        (Ends-cast t _ _ _ _ (run (suc fuel) t u)
          (ap (λ ys. contents pre ++ x ∷ ys) (left-step m y (contents suf)))
          (append_assoc v.log (look_events t m y)
              (handed_by (decide m y) (handed t m (contents suf)))
            ∙ ap (λ es. v.log ++ es) (handed-step t m y (contents suf))
            ∙ ap (λ es. es ++ handed t m (y ∷ contents suf)) log)
          ends)
