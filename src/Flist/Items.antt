-- ===== src/Flist/Items.antt =====
-- How a step of one thread among others changes the items of a list.
use mathlib.Core.Path.{subst}
use ubuntu_projects.Base.{
  ℕ, ◌≡◌, refl, sym, ◌∙◌, ◌⊎◌, inl, inr, Bool, true, false, Option, none, some, List, ◌∷◌,
  if◌then◌else◌,
}
use ubuntu_projects.Flist.Chain.{node, Found, found, set_holder, insert_next, find-first, find-next}
use ubuntu_projects.Flist.Distinct.{Distinct}
use ubuntu_projects.Flist.Holds.{Holds, Safe}
use ubuntu_projects.Flist.Safe.{Step, begins, goes_on, pushes, Reach, Reach-Safe, flist-Safe}
use ubuntu_projects.Flist.Fair.{Reach-Fair, flist-Fair}
use ubuntu_projects.Flist.{
  Method, for_each, for_first_of, remove_if, remove_first_if, Cursor, out, prev, both, State,
  Result, undefined, blocked, done, Decision, decide, move_to, flist, begin, lock_next, take_out,
  act, look, go_on, push_front,
}
use ubuntu_projects.Flist.Contents.{
  items, Takes, items-set_holder, items-insert_next, Takes-take_out,
}

-- A decision to remove has a reason.
abbrev Justified : Decision → Type 0 → Type 0
Justified Decision.removes P = P
Justified Decision.removes_and_returns P = P
Justified _ P = Unit {0}

module _ {A : Type 0} where
  -- The predicate of the method picks the data.
  abbrev pub Picks : Method A → Option A → Type 0
  Picks (remove_if p) y = p y ≡ true
  Picks (remove_first_if p) y = p y ≡ true
  Picks _ y = ⊥

  -- A step in a method: the items stay, or the thread is at one that the method picks, and it is taken
  -- out.
  abbrev pub Went : Cursor A → List (Option A) → List (Option A) → Type 0
  Went out xs ys = ys ≡ xs
  Went (prev m a) xs ys = ys ≡ xs
  Went (both m a b) xs ys = (ys ≡ xs) ⊎ ((y : Option A) × Picks m y × Takes y xs ys)

  -- if the result is a state
  abbrev IfDone : (State A → Type 0) → Result A → Type 0
  IfDone P undefined = Unit {0}
  IfDone P blocked = Unit {0}
  IfDone P (done s) = P s

  decide-Justified : (m : Method A) (y : Option A) → Justified (decide m y) (Picks m y)
  unfolding decide
  decide-Justified for_each y = tt
  decide-Justified (for_first_of p) y = go (p y)
    where
      go : (b : Bool) → Justified (if b then Decision.returns else Decision.goes_on) ⊥
      go true = tt
      go false = tt
  decide-Justified (remove_if p) y = go (p y) refl
    where
      go :
          (b : Bool)
          → p y ≡ b
          → Justified (if b then Decision.removes else Decision.goes_on) (p y ≡ true)
      go true e = e
      go false e = tt
  decide-Justified (remove_first_if p) y = go (p y) refl
    where
      go :
          (b : Bool)
          → p y ≡ b
          → Justified (if b then Decision.removes_and_returns else Decision.goes_on) (p y ≡ true)
      go true e = e
      go false e = tt

  act-Went :
      (t : ℕ) (m : Method A) (a b : ℕ) (d : Decision) (y : Option A) (s : State A)
      → Justified d (Picks m y)
      → Takes y (items s.chain) (items (take_out a b s.chain))
      → Went (both m a b) (items s.chain) (items (act t m a b d s).chain)
  act-Went t m a b Decision.goes_on y s why taken = inl (items-set_holder a none s.chain)
  act-Went t m a b Decision.returns y s why taken =
      inl (items-set_holder b none (set_holder a none s.chain) ∙ items-set_holder a none s.chain)
  act-Went t m a b Decision.removes y s why taken = inr (y, why, taken)
  act-Went t m a b Decision.removes_and_returns y s why taken = inr (
    y,
    why,
    subst (λ zs. Takes y (items s.chain) zs) (sym (items-set_holder a none (take_out a b s.chain)))
        taken,
  )

  go_on-Went :
      (t : ℕ) (k : Cursor A) (s : State A)
      → Distinct s.chain
      → Holds t k s.chain
      → IfDone (λ u. Went k (items s.chain) (items u.chain)) (go_on t k s)
  unfolding go_on look lock_next
  go_on-Went t out s d h = refl
  go_on-Went t (prev m a) s d (x, none, at) =
      rw (at, IfDone, go_on, lock_next) (items-set_holder a none s.chain)
  go_on-Went t (prev m a) s d (x, some b, at) =
      let (f, there) = find-next s.chain a b (some t) x at in
      rw (at, there, IfDone, go_on, lock_next) (go f)
    where
      go :
          (f : Found A)
          → IfDone
              (λ u. Went (prev m a) (items s.chain) (items u.chain))
              (elim f [
                | found (some u) y n ↦ blocked
                | found none y n ↦ done (move_to t (both m a b) (set_holder b (some t) s.chain) s)
              ])
      go (found (some u) y n) = tt
      go (found none y n) = items-set_holder b (some t) s.chain
  go_on-Went t (both m a b) s d (ne, (x, at), (y, n, there)) =
      rw (at, there, IfDone, go_on, look)
        (act-Went t m a b (decide m y) y s (decide-Justified m y)
          (Takes-take_out t m a b y n s.chain d x ne at there))

  begin-same :
      (t : ℕ) (m : Method A) (s : State A)
      → Safe s
      → IfDone (λ u. items u.chain ≡ items s.chain) (begin t m s)
  unfolding begin
  begin-same t m s safe =
      let (f, at) = find-first s.chain s.before_begin safe.begins in rw (at, IfDone, begin) (go f)
    where
      go :
          (f : Found A)
          → IfDone
              (λ u. items u.chain ≡ items s.chain)
              (elim f [
                | found (some u) x n ↦ blocked
                | found none x n ↦ done (
                    move_to t
                      (prev m s.before_begin)
                      (set_holder s.before_begin (some t) s.chain)
                      s)
              ])
      go (found (some u) x n) = tt
      go (found none x n) = items-set_holder s.before_begin (some t) s.chain

  push_front-front :
      (a : ℕ) (v : A) (s : State A)
      → Safe s
      → IfDone (λ u. items u.chain ≡ some v ∷ items s.chain) (push_front a v s)
  unfolding push_front
  push_front-front a v s safe =
      let (f, at) = find-first s.chain s.before_begin safe.begins in
      rw (at, IfDone, push_front) (go f)
    where
      go :
          (f : Found A)
          → IfDone
              (λ u. items u.chain ≡ some v ∷ items s.chain)
              (elim f [
                | found (some u) y n ↦ blocked
                | found none y n ↦
                    done (record s {
                      chain = insert_next s.before_begin (node a none (some v)) s.chain;
                    })
              ])
      go (found (some u) y n) = tt
      go (found none y n) = items-insert_next s.before_begin a none (some v) s.chain safe.begins

  -- What a step does to the items.
  abbrev pub Changes : (s u : State A) → Step s u → Type 0
  Changes s u (begins t m free e) = items u.chain ≡ items s.chain
  Changes s u (goes_on t e) = Went (s.cursor t) (items s.chain) (items u.chain)
  Changes s u (pushes a v new e) = items u.chain ≡ some v ∷ items s.chain

  -- In every state that threads reach from a new list, in any order of their steps: a push puts
  -- its item in front of the others; the beginning of a method leaves the items as they are; and a
  -- further step in a method leaves them as they are, or takes out one item that the predicate of
  -- the `remove_if` or `remove_first_if` of that thread picks, and the others stay in their order.
  pub step-Changes :
      (start : ℕ) (s u : State A) (step : Step s u) → Reach (flist start) s → Changes s u step
  step-Changes start s u step reached =
      let safe = Reach-Safe reached (flist-Safe start) in
      let fair = Reach-Fair reached (flist-Safe start) (flist-Fair start) in go step safe fair.0
    where
      go : (step : Step s u) → Safe s → Distinct s.chain → Changes s u step
      go (begins t m free e) safe d =
          subst (IfDone (λ u. items u.chain ≡ items s.chain)) e (begin-same t m s safe)
      go (goes_on t e) safe d =
          subst (IfDone (λ u. Went (s.cursor t) (items s.chain) (items u.chain))) e
            (go_on-Went t (s.cursor t) s d (safe.holds t))
      go (pushes a v new e) safe d =
          subst (IfDone (λ u. items u.chain ≡ some v ∷ items s.chain)) e
            (push_front-front a v s safe)
