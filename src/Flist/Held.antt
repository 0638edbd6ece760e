-- ===== src/Flist/Held.antt =====
-- One step of a thread: the nodes that the threads have pointers to stay in the list, with their locks.
use mathlib.Core.Path.{subst}
use native.Mathlib.Decide.{ℕ_discrete}
use ubuntu_projects.Base.{ℕ, ◌≡◌, ◌≢◌, sym, ◌∙◌, none, some, List, ◌==◌, if◌then◌else◌, arith}
use ubuntu_projects.Flist.Chain.{
  Node, node, Found, found, first, find, set_holder, insert_next, remove_next, first-set_holder,
  first-insert_next, first-remove_next, find-first, find-next, find-set_self, find-set_ne,
  find-remove_self,
}
use ubuntu_projects.Flist.{
  Method, Cursor, out, prev, both, Event, State, note, end_events, look_events, Result, undefined,
  blocked, done, Decision, decide, move_to, begin, lock_next, act, look, go_on, push_front,
}
use ubuntu_projects.Flist.Holds.{
  some-other, Holds, Safe, Stays, Stays-Holds, set_holder-Stays, insert_next-Stays, take_out-Stays,
}

module _ {A : Type 0} where
  -- A step of one thread that leaves the nodes of the others as they are.
  move_to-Safe :
      (t : ℕ) (k : Cursor A) (c : List (Node A)) (s : State A)
      → Safe s
      → first c ≡ first s.chain
      → Holds t k c
      → ((u : ℕ) → t ≢ u → Stays u s.chain c)
      → Safe (move_to t k c s)
  move_to-Safe t k c s safe same mine others = record {
    begins = same ∙ safe.begins;
    holds = λ u. elim (ℕ_discrete t u) [
      | yes e ↦
          let moved : (if t == u then k else s.cursor u) ≡ k = ground (arith, e) in
          subst (λ j. Holds u j c) (sym moved) (subst (λ v. Holds v k c) e mine)
      | no ne ↦
          let kept : (if t == u then k else s.cursor u) ≡ s.cursor u = ground (arith, ne) in
          subst (λ j. Holds u j c) (sym kept)
            (Stays-Holds u (s.cursor u) s.chain c (others u ne) (safe.holds u))
    ];
  }

  -- A call is not undefined, and leaves a safe state.
  abbrev pub Goes : Result A → Type 0
  Goes undefined = ⊥
  Goes blocked = Unit {0}
  Goes (done s) = Safe s

  act-Safe :
      (t : ℕ) (m : Method A) (a b : ℕ) (d : Decision) (s : State A)
      → Safe s
      → Holds t (both m a b) s.chain
      → Safe (act t m a b d s)
  act-Safe t m a b Decision.goes_on s safe (ne, (x, at), (y, n, there)) =
      move_to-Safe t (prev m b) (set_holder a none s.chain) s safe (first-set_holder a none s.chain)
        (y, n, find-set_ne s.chain a b none ne ∙ there)
        (λ u off. set_holder-Stays u a (some t) none x (some b) s.chain at (some-other t u off))
  act-Safe t m a b Decision.returns s safe (ne, (x, at), (y, n, there)) =
      let c = set_holder a none s.chain in
      move_to-Safe t out (set_holder b none c) s safe
        (first-set_holder b none c ∙ first-set_holder a none s.chain) tt
        (λ u off d z k here.
          set_holder-Stays u b (some t) none y n c (find-set_ne s.chain a b none ne ∙ there)
            (some-other t u off) d z k
            (set_holder-Stays u a (some t) none x (some b) s.chain at (some-other t u off) d z k
              here))
  act-Safe t m a b Decision.removes s safe (ne, (x, at), there) =
      let c = set_holder b none s.chain in
      let kept = find-set_ne s.chain b a none (λ e. ne (sym e)) ∙ at in
      let (n, here) = find-remove_self c a b (some t) x kept in
      move_to-Safe t (prev m a) (remove_next a c) s safe
        (first-remove_next a c ∙ first-set_holder b none s.chain) (x, n, here)
        (λ u off. take_out-Stays t u a b s.chain m off (ne, (x, at), there))
  act-Safe t m a b Decision.removes_and_returns s safe (ne, (x, at), there) =
      let c = set_holder b none s.chain in
      let kept = find-set_ne s.chain b a none (λ e. ne (sym e)) ∙ at in
      let (n, here) = find-remove_self c a b (some t) x kept in
      let d = remove_next a c in
      move_to-Safe t out (set_holder a none d) s safe
        (first-set_holder a none d ∙ first-remove_next a c ∙ first-set_holder b none s.chain) tt
        (λ u off e z k held.
          set_holder-Stays u a (some t) none x n d here (some-other t u off) e z k
            (take_out-Stays t u a b s.chain m off (ne, (x, at), there) e z k held))

  note-Safe : (es : List (Event A)) (s : State A) → Safe s → Safe (note es s)
  note-Safe es s safe = record { begins = safe.begins; holds = safe.holds }

  look-Goes :
      (t : ℕ) (m : Method A) (a b : ℕ) (s : State A)
      → Safe s
      → Holds t (both m a b) s.chain
      → Goes (look t m a b s)
  unfolding look
  look-Goes t m a b s safe (ne, (x, at), (y, n, there)) =
      rw (at, there, Goes, look)
        (note-Safe (look_events t m y) (act t m a b (decide m y) s)
          (act-Safe t m a b (decide m y) s safe (ne, (x, at), (y, n, there))))

  lock_next-Goes :
      (t : ℕ) (m : Method A) (a : ℕ) (s : State A)
      → Safe s
      → Holds t (prev m a) s.chain
      → Goes (lock_next t m a s)
  unfolding lock_next
  lock_next-Goes t m a s safe (x, none, at) =
      rw (at, Goes, lock_next)
        (note-Safe (end_events t m) (move_to t out (set_holder a none s.chain) s) (
          move_to-Safe t out (set_holder a none s.chain) s safe (first-set_holder a none s.chain) tt
            (λ u off. set_holder-Stays u a (some t) none x none s.chain at (some-other t u off))))
  lock_next-Goes t m a s safe (x, some b, at) =
      let (f, there) = find-next s.chain a b (some t) x at in
      rw (at, there, Goes, lock_next) (go f there)
    where
      go :
          (f : Found A)
          → find s.chain b ≡ some f
          → Goes (elim f [
            | found (some u) y n ↦ blocked
            | found none y n ↦ done (move_to t (both m a b) (set_holder b (some t) s.chain) s)
          ])
      go (found (some u) y n) there = tt
      go (found none y n) there =
          let apart : b ≢ a = λ e. ground (arith, at, there, e) in
          move_to-Safe t (both m a b) (set_holder b (some t) s.chain) s safe
            (first-set_holder b (some t) s.chain)
            (
              (λ e. apart (sym e)),
              (x, find-set_ne s.chain b a (some t) apart ∙ at),
              (y, n, find-set_self s.chain b none (some t) y n there),
            )
            (λ u off. set_holder-Stays u b none (some t) y n s.chain there (λ e. ground (arith, e)))

  pub go_on-Goes :
      (t : ℕ) (k : Cursor A) (s : State A) → Safe s → Holds t k s.chain → Goes (go_on t k s)
  unfolding go_on
  go_on-Goes t out s safe h = safe
  go_on-Goes t (prev m a) s safe h = lock_next-Goes t m a s safe h
  go_on-Goes t (both m a b) s safe h = look-Goes t m a b s safe h

  pub begin-Goes : (t : ℕ) (m : Method A) (s : State A) → Safe s → Goes (begin t m s)
  unfolding begin
  begin-Goes t m s safe =
      let (f, at) = find-first s.chain s.before_begin safe.begins in rw (at, Goes, begin) (go f at)
    where
      go :
          (f : Found A)
          → find s.chain s.before_begin ≡ some f
          → Goes (elim f [
            | found (some u) x n ↦ blocked
            | found none x n ↦
                done
                  (move_to t (prev m s.before_begin) (set_holder s.before_begin (some t) s.chain) s)
          ])
      go (found (some u) x n) at = tt
      go (found none x n) at =
          move_to-Safe t (prev m s.before_begin) (set_holder s.before_begin (some t) s.chain) s safe
            (first-set_holder s.before_begin (some t) s.chain)
            (x, n, find-set_self s.chain s.before_begin none (some t) x n at)
            (λ u off.
              set_holder-Stays u s.before_begin none (some t) x n s.chain at
                (λ e. ground (arith, e)))

  pub push_front-Goes :
      (a : ℕ) (v : A) (s : State A) → Safe s → find s.chain a ≡ none → Goes (push_front a v s)
  unfolding push_front
  push_front-Goes a v s safe new =
      let (f, at) = find-first s.chain s.before_begin safe.begins in
      rw (at, Goes, push_front) (go f at)
    where
      go :
          (f : Found A)
          → find s.chain s.before_begin ≡ some f
          → Goes (elim f [
            | found (some u) y n ↦ blocked
            | found none y n ↦
                done
                  (record s { chain = insert_next s.before_begin (node a none (some v)) s.chain })
          ])
      go (found (some u) y n) at = tt
      go (found none y n) at =
          let c = insert_next s.before_begin (node a none (some v)) s.chain in
          record {
            begins = first-insert_next s.before_begin (node a none (some v)) s.chain ∙ safe.begins;
            holds = λ t.
                Stays-Holds t (s.cursor t) s.chain c
                  (insert_next-Stays t s.before_begin a none y (some v) n s.chain at new)
                  (safe.holds t);
          }
