-- ===== src/Flist/Attended.antt =====
-- A lock that a thread holds is one that the thread is going to release: its cursor is at the node.
use mathlib.Core.Path.{subst}
use native.Mathlib.Decide.{ℕ_discrete}
use ubuntu_projects.Base.{
  ℕ, ◌≡◌, ◌≢◌, sym, ◌∙◌, ◌⊎◌, inl, inr, Option, none, some, List, ◌==◌, if◌then◌else◌, arith,
}
use ubuntu_projects.Flist.Chain.{
  Node, node, Found, found, find, set_holder, insert_next, remove_next, find-set_self, find-set_ne,
  find-insert_ne, find-insert_self, find-insert_new, find-remove_ne, find-remove_self,
}
use ubuntu_projects.Flist.Distinct.{Distinct, remove-gone, set-Distinct}
use ubuntu_projects.Flist.{Method, Cursor, out, prev, both, State, Decision, move_to, take_out, act}
use ubuntu_projects.Flist.Holds.{Holds}

module _ {A : Type 0} where
  -- The thread has a pointer to the node.
  abbrev pub Has : Cursor A → ℕ → Type 0
  Has out a = ⊥
  Has (prev m b) a = b ≡ a
  Has (both m b c) a = (b ≡ a) ⊎ (c ≡ a)

  -- The node is locked by the thread.
  abbrev pub Locked : List (Node A) → ℕ → ℕ → Type 0
  Locked c u a = (x : Option A) × (n : Option ℕ) × (find c a ≡ some (found (some u) x n))

  abbrev pub Attended : State A → Type 0
  Attended s = (u a : ℕ) → Locked s.chain u a → Has (s.cursor u) a

  -- When nothing is locked but what was, and by the same threads, or by one thread that moves.
  pub move_to-Attended :
      (t : ℕ) (k : Cursor A) (c : List (Node A)) (s : State A)
      → Attended s
      → ((a : ℕ) → Locked c t a → Has k a)
      → ((u a : ℕ) → t ≢ u → Locked c u a → Locked s.chain u a)
      → Attended (move_to t k c s)
  move_to-Attended t k c s attended mine others = λ u a locked. elim (ℕ_discrete t u) [
    | yes e ↦
        let moved : (if t == u then k else s.cursor u) ≡ k = ground (arith, e) in
        subst (λ j. Has j a) (sym moved) (mine a (subst (λ v. Locked c v a) (sym e) locked))
    | no ne ↦
        let kept : (if t == u then k else s.cursor u) ≡ s.cursor u = ground (arith, ne) in
        subst (λ j. Has j a) (sym kept) (attended u a (others u a ne locked))
  ]

  -- What is locked when a lock has been taken or released: that node, if it has been taken, or another
  -- one that was.
  pub set-Locked :
      (b : ℕ) (k : Option ℕ) (f : Found A) (c : List (Node A)) (u a : ℕ)
      → find c b ≡ some f
      → Locked (set_holder b k c) u a
      → ((b ≡ a) × (k ≡ some u)) ⊎ ((b ≢ a) × Locked c u a)
  set-Locked b k (found h y i) c u a at (x, n, e) = elim (ℕ_discrete b a) [
    | yes same ↦ inl (same, ground (arith, same, e, find-set_self c b h k y i at))
    | no ne ↦ inr (ne, (x, n, sym (find-set_ne c b a k ne) ∙ e))
  ]

  pub remove-Locked :
      (a b : ℕ) (h : Option ℕ) (x : Option A) (c : List (Node A)) (u d : ℕ)
      → Distinct c
      → find c a ≡ some (found h x (some b))
      → Locked (remove_next a c) u d
      → (b ≢ d) × Locked c u d
  remove-Locked a b h x c u d distinct at (y, n, e) =
      let off : b ≢ d = λ eq. ground (arith, eq, e, remove-gone c a b h x distinct at) in
      (
        off,
        elim (ℕ_discrete a d) [
          | yes same ↦ (x, some b, ground (arith, same, at, e, find-remove_self c a b h x at))
          | no ne ↦ (y, n, sym (find-remove_ne c a b d h x at ne off) ∙ e)
        ],
      )

  -- what is locked when a node has been put in
  pub insert-Locked :
      (b d u a : ℕ) (v : Option A) (c : List (Node A)) (y : Option A) (n : Option ℕ)
      → find c b ≡ some (found none y n)
      → find c d ≡ none
      → Locked (insert_next b (node d none v) c) u a
      → Locked c u a
  insert-Locked b d u a v c y n at new (x, i, e) =
      let (m, made) = find-insert_new c b d none v (found none y n) at new in
      let old : b ≢ a = λ eq. ground (arith, eq, e, find-insert_self c b d none none y v n at) in
      let other : d ≢ a = λ eq. ground (arith, eq, e, made) in
      (x, i, sym (find-insert_ne c b a d none v old other) ∙ e)

  -- what is locked when a lock has been released
  pub release-Locked :
      (b : ℕ) (f : Found A) (c : List (Node A)) (u a : ℕ)
      → find c b ≡ some f
      → Locked (set_holder b none c) u a
      → (b ≢ a) × Locked c u a
  release-Locked b f c u a at locked = elim (set-Locked b none f c u a at locked) [
    | inl same ↦ absurd (ground (arith, same))
    | inr other ↦ other
  ]

  -- what is locked when a node has been taken out
  pub take_out-Locked :
      (t : ℕ) (m : Method A) (a b : ℕ) (c : List (Node A)) (u d : ℕ)
      → Distinct c
      → Holds t (both m a b) c
      → Locked (take_out a b c) u d
      → (b ≢ d) × Locked c u d
  take_out-Locked t m a b c u d distinct (ne, (x, at), (y, n, there)) locked =
      let kept = find-set_ne c b a none (λ e. ne (sym e)) ∙ at in
      let before =
        remove-Locked a b (some t) x (set_holder b none c) u d (set-Distinct b none c distinct) kept
          locked in
      release-Locked b (found (some t) y n) c u d there before.1

  pub act-Attended :
      (t : ℕ) (m : Method A) (a b : ℕ) (d : Decision) (s : State A)
      → Distinct s.chain
      → Attended s
      → Holds t (both m a b) s.chain
      → ((e : ℕ) → Locked s.chain t e → Has (both m a b) e)
      → Attended (act t m a b d s)
  act-Attended t m a b Decision.goes_on s distinct attended (ne, (x, at), (y, n, there)) own =
      let was = λ (u : ℕ) (e : ℕ). release-Locked a (found (some t) x (some b)) s.chain u e at in
      move_to-Attended t (prev m b) (set_holder a none s.chain) s attended
        (λ e locked. ground (arith, own e (was t e locked).1, (was t e locked).0))
        (λ u e off locked. (was u e locked).1)
  act-Attended t m a b Decision.returns s distinct attended (ne, (x, at), (y, n, there)) own =
      let c = set_holder a none s.chain in
      let was = λ (u : ℕ) (e : ℕ). release-Locked a (found (some t) x (some b)) s.chain u e at in
      let released = λ (u : ℕ) (e : ℕ).
        release-Locked b (found (some t) y n) c u e (find-set_ne s.chain a b none ne ∙ there) in
      move_to-Attended t out (set_holder b none c) s attended
        (λ e locked.
          let last = released t e locked in
          let first = was t e last.1 in ground (arith, own e first.1, first.0, last.0))
        (λ u e off locked. (was u e (released u e locked).1).1)
  act-Attended t m a b Decision.removes s distinct attended h own =
      let was = λ (u : ℕ) (e : ℕ). take_out-Locked t m a b s.chain u e distinct h in
      move_to-Attended t (prev m a) (take_out a b s.chain) s attended
        (λ e locked. ground (arith, own e (was t e locked).1, (was t e locked).0))
        (λ u e off locked. (was u e locked).1)
  act-Attended t m a b Decision.removes_and_returns s distinct attended (ne, (x, at), there) own =
      let c = take_out a b s.chain in
      let kept = find-set_ne s.chain b a none (λ e. ne (sym e)) ∙ at in
      let (n, here) = find-remove_self (set_holder b none s.chain) a b (some t) x kept in
      let was =
        λ (u : ℕ) (e : ℕ). take_out-Locked t m a b s.chain u e distinct (ne, (x, at), there) in
      let released = λ (u : ℕ) (e : ℕ). release-Locked a (found (some t) x n) c u e here in
      move_to-Attended t out (set_holder a none c) s attended
        (λ e locked.
          let last = released t e locked in
          let first = was t e last.1 in ground (arith, own e first.1, first.0, last.0))
        (λ u e off locked. (was u e (released u e locked).1).1)
