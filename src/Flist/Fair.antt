-- ===== src/Flist/Fair.antt =====
-- What every step of the threads keeps: each node has one place, and each lock a thread that is at it.
use mathlib.Core.Path.{subst}
use ubuntu_projects.Base.{ℕ, ◌≡◌, refl, inl, inr, Option, none, some, arith, some-same}
use ubuntu_projects.Flist.Chain.{
  node, Found, found, find, set_holder, insert_next, find-first, find-next,
}
use ubuntu_projects.Flist.Distinct.{Distinct, set-Distinct, insert-Distinct, remove-Distinct}
use ubuntu_projects.Flist.Attended.{
  Has, Locked, Attended, move_to-Attended, set-Locked, insert-Locked, release-Locked, act-Attended,
}
use ubuntu_projects.Flist.Holds.{Holds, Safe}
use ubuntu_projects.Flist.Safe.{Step, begins, goes_on, pushes, Reach, here, later, Reach-Safe}
use ubuntu_projects.Flist.{
  Method, Cursor, out, prev, both, State, Result, undefined, blocked, done, Decision, decide,
  move_to, flist, begin, lock_next, take_out, act, look, go_on, push_front,
}

module _ {A : Type 0} where
  abbrev pub Fair : State A → Type 0
  Fair s = Distinct s.chain × Attended s

  -- A result that is a state is a fair one.
  abbrev pub Leaves : Result A → Type 0
  Leaves undefined = Unit {0}
  Leaves blocked = Unit {0}
  Leaves (done s) = Fair s

  act-Distinct :
      (t : ℕ) (m : Method A) (a b : ℕ) (d : Decision) (s : State A)
      → Distinct s.chain
      → Distinct (act t m a b d s).chain
  act-Distinct t m a b Decision.goes_on s d = set-Distinct a none s.chain d
  act-Distinct t m a b Decision.returns s d =
      set-Distinct b none (set_holder a none s.chain) (set-Distinct a none s.chain d)
  act-Distinct t m a b Decision.removes s d =
      remove-Distinct a (set_holder b none s.chain) (set-Distinct b none s.chain d)
  act-Distinct t m a b Decision.removes_and_returns s d =
      set-Distinct a none (take_out a b s.chain)
        (remove-Distinct a (set_holder b none s.chain) (set-Distinct b none s.chain d))

  look-Leaves :
      (t : ℕ) (m : Method A) (a b : ℕ) (s : State A)
      → Fair s
      → Holds t (both m a b) s.chain
      → ((e : ℕ) → Locked s.chain t e → Has (both m a b) e)
      → Leaves (look t m a b s)
  unfolding look
  look-Leaves t m a b s fair (ne, (x, at), (y, n, there)) own =
      rw (at, there, Leaves, look)
        (
          act-Distinct t m a b (decide m y) s fair.0,
          act-Attended t m a b (decide m y) s fair.0 fair.1 (ne, (x, at), (y, n, there)) own,
        )

  -- A thread takes a lock that is free.
  take-Fair :
      (t a : ℕ) (k : Cursor A) (x : Option A) (n : Option ℕ) (s : State A)
      → Fair s
      → find s.chain a ≡ some (found none x n)
      → Has k a
      → ((e : ℕ) → Locked s.chain t e → Has k e)
      → Fair (move_to t k (set_holder a (some t) s.chain) s)
  take-Fair t a k x n s fair at has own = (
    set-Distinct a (some t) s.chain fair.0,
    move_to-Attended t k (set_holder a (some t) s.chain) s fair.1
        (λ e locked. elim (set-Locked a (some t) (found none x n) s.chain t e at locked) [
          | inl same ↦ subst (Has k) same.0 has
          | inr other ↦ own e other.1
        ])
        (λ u e off locked. elim (set-Locked a (some t) (found none x n) s.chain u e at locked) [
          | inl same ↦ absurd (off (some-same t u same.1))
          | inr other ↦ other.1
        ]),
  )

  lock_next-Leaves :
      (t : ℕ) (m : Method A) (a : ℕ) (s : State A)
      → Fair s
      → Holds t (prev m a) s.chain
      → ((e : ℕ) → Locked s.chain t e → Has (prev m a) e)
      → Leaves (lock_next t m a s)
  unfolding lock_next
  lock_next-Leaves t m a s fair (x, none, at) own =
      let was = λ (u : ℕ) (e : ℕ). release-Locked a (found (some t) x none) s.chain u e at in
      rw (at, Leaves, lock_next)
        (
          set-Distinct a none s.chain fair.0,
          move_to-Attended t out (set_holder a none s.chain) s fair.1
              (λ e locked. absurd ((was t e locked).0 (own e (was t e locked).1)))
              (λ u e off locked. (was u e locked).1),
        )
  lock_next-Leaves t m a s fair (x, some b, at) own =
      let (f, there) = find-next s.chain a b (some t) x at in
      rw (at, there, Leaves, lock_next) (go f there)
    where
      go :
          (f : Found A)
          → find s.chain b ≡ some f
          → Leaves (elim f [
            | found (some u) y n ↦ blocked
            | found none y n ↦ done (move_to t (both m a b) (set_holder b (some t) s.chain) s)
          ])
      go (found (some u) y n) there = tt
      go (found none y n) there =
          take-Fair t b (both m a b) y n s fair there (inr refl) (λ e locked. inl (own e locked))

  go_on-Leaves :
      (t : ℕ) (s : State A) (k : Cursor A)
      → Fair s
      → Holds t k s.chain
      → ((e : ℕ) → Locked s.chain t e → Has k e)
      → Leaves (go_on t k s)
  unfolding go_on
  go_on-Leaves t s out fair h own = fair
  go_on-Leaves t s (prev m a) fair h own = lock_next-Leaves t m a s fair h own
  go_on-Leaves t s (both m a b) fair h own = look-Leaves t m a b s fair h own

  begin-Leaves :
      (t : ℕ) (m : Method A) (s : State A)
      → Safe s
      → Fair s
      → s.cursor t ≡ out
      → Leaves (begin t m s)
  unfolding begin
  begin-Leaves t m s safe fair free =
      let (f, at) = find-first s.chain s.before_begin safe.begins in
      rw (at, Leaves, begin) (go f at)
    where
      go :
          (f : Found A)
          → find s.chain s.before_begin ≡ some f
          → Leaves (elim f [
            | found (some u) x n ↦ blocked
            | found none x n ↦
                done
                  (move_to t (prev m s.before_begin) (set_holder s.before_begin (some t) s.chain) s)
          ])
      go (found (some u) x n) at = tt
      go (found none x n) at =
          take-Fair t s.before_begin (prev m s.before_begin) x n s fair at refl
            (λ e locked. absurd (subst (λ k. Has k e) free (fair.1 t e locked)))

  push_front-Leaves :
      (a : ℕ) (v : A) (s : State A)
      → Safe s
      → Fair s
      → find s.chain a ≡ none
      → Leaves (push_front a v s)
  unfolding push_front
  push_front-Leaves a v s safe fair new =
      let (f, at) = find-first s.chain s.before_begin safe.begins in
      rw (at, Leaves, push_front) (go f at)
    where
      go :
          (f : Found A)
          → find s.chain s.before_begin ≡ some f
          → Leaves (elim f [
            | found (some u) y n ↦ blocked
            | found none y n ↦
                done
                  (record s { chain = insert_next s.before_begin (node a none (some v)) s.chain })
          ])
      go (found (some u) y n) at = tt
      go (found none y n) at = (
        insert-Distinct s.before_begin a none (some v) s.chain new fair.0,
        λ u e locked.
            fair.1 u e (insert-Locked s.before_begin a u e (some v) s.chain y n at new locked),
      )

  Step-Fair : {s u : State A} → Step s u → Safe s → Fair s → Fair u
  Step-Fair {s} (begins t m free e) safe fair = subst Leaves e (begin-Leaves t m s safe fair free)
  Step-Fair {s} (goes_on t e) safe fair =
      subst Leaves e (go_on-Leaves t s (s.cursor t) fair (safe.holds t) (fair.1 t))
  Step-Fair {s} (pushes a v new e) safe fair =
      subst Leaves e (push_front-Leaves a v s safe fair new)

  pub flist-Fair : (a : ℕ) → Fair (flist a)
  unfolding flist
  flist-Fair a = ((refl, tt), λ u b (x, n, e). absurd (ground (arith, e)))

  pub Reach-Fair : {s u : State A} → Reach s u → Safe s → Fair s → Fair u
  Reach-Fair here safe fair = fair
  Reach-Fair (later r step) safe fair = Step-Fair step (Reach-Safe r safe) (Reach-Fair r safe fair)
