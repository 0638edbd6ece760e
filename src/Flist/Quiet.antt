-- ===== src/Flist/Quiet.antt =====
-- A list that no thread is in, and a thread that calls a method of it.
use mathlib.Core.Path.{subst}
use ubuntu_projects.Base.{
  ℕ, suc, ◌+◌, ◌*◌, ◌≤◌, ◌≡◌, ◌≢◌, refl, ap, sym, ◌∙◌, Option, none, some, List, [], ◌∷◌, ◌++◌,
  length, arith, some-same,
}
use ubuntu_projects.Flist.Chain.{Node, node, found, first, find, set_holder}
use ubuntu_projects.Flist.Distinct.{Distinct, set-Distinct}
use ubuntu_projects.Flist.Contents.{contents, items}
use ubuntu_projects.Flist.Place.{Free}
use ubuntu_projects.Flist.Attended.{Locked, Has}
use ubuntu_projects.Flist.Safe.{Reach, Reach-Safe, flist-Safe}
use ubuntu_projects.Flist.Fair.{Reach-Fair, flist-Fair}
use ubuntu_projects.Flist.Alone.{left, handed, Ends}
use ubuntu_projects.Flist.Walk.{cursor_self}
use ubuntu_projects.Flist.Call.{walk-Ends}
use ubuntu_projects.Flist.{Method, out, prev, State, move_to, flist, begin, run, call}

module _ {A : Type 0} where
  -- Where no thread has a lock, all are free.
  Unlocked-Free : (c : List (Node A)) → Distinct c → ((u a : ℕ) → Locked c u a → ⊥) → Free c
  Unlocked-Free [] d no_lock = tt
  Unlocked-Free (node i none x ∷ c) d no_lock = (
    refl,
    Unlocked-Free c d.1 (λ u a (y, n, at).
        let off : i ≢ a = λ e. ground (arith, e, at, d.0) in
        no_lock u a (y, n, ground (arith, at, off))),
  )
  Unlocked-Free (node i (some u) x ∷ c) d no_lock = absurd (no_lock u i (x, first c, ground arith))

  -- The call has come to its end: what it has done to the items, what it has handed out, and that it
  -- has released every lock.
  abbrev pub Calls : ℕ → Method A → State A → Option (State A) → Type 0
  Calls t m s none = ⊥
  Calls t m s (some u) =
      (items u.chain ≡ left m (items s.chain))
      × (u.log ≡ s.log ++ handed t m (items s.chain))
      × (u.cursor t ≡ out)
      × Free u.chain

  items-cons :
      (c : List (Node A)) (x : Option A) (xs : List (Option A)) → contents c ≡ x ∷ xs → items c ≡ xs
  items-cons [] x xs e = absurd (ground (arith, e))
  items-cons (node i h z ∷ c) x xs e = ground (arith, e)

  Ends-Calls :
      (t : ℕ) (m : Method A) (s : State A) (x : Option A) (o : Option (State A))
      → Ends t (x ∷ left m (items s.chain)) (s.log ++ handed t m (items s.chain)) o
      → Calls t m s o
  Ends-Calls t m s x none ends = ends
  Ends-Calls t m s x (some u) (e, log, free, unlocked, d) =
      (items-cons u.chain x (left m (items s.chain)) e, log, free, unlocked)

  call-Calls :
      (fuel t : ℕ) (m : Method A) (s : State A) (a : ℕ) (x : Option A) (suf : List (Node A))
      → s.chain ≡ node a none x ∷ suf
      → a ≡ s.before_begin
      → Distinct s.chain
      → Free suf
      → length suf * 2 + 2 ≤ fuel
      → Calls t m s (call fuel t m s)
  unfolding call begin
  call-Calls fuel t m s a x suf e same d free enough =
      let b = s.before_begin in
      let u = move_to t (prev m b) (set_holder b (some t) s.chain) s in
      let here : s.chain ≡ node b none x ∷ suf = e ∙ ap (λ i. node i none x ∷ suf) same in
      let at : find s.chain b ≡ some (found none x (first suf)) =
        ap (λ c. find c b) here ∙ ground arith in
      let chain : u.chain ≡ node b (some t) x ∷ suf =
        ap (set_holder b (some t)) here ∙ ground arith in
      let walked = walk-Ends t m suf fuel [] b x u enough (record {
        at = chain;
        distinct = subst Distinct chain (set-Distinct b (some t) s.chain d);
        before = tt;
        behind = free;
        cursor = cursor_self t (prev m b) (s.cursor t);
      }) in
      let them : contents suf ≡ items s.chain = sym (ap items here) in
      rw (at, Calls, call, begin)
        (Ends-Calls t m s x (run fuel t u) (
          subst (λ ys. Ends t (x ∷ left m ys) (s.log ++ handed t m ys) (run fuel t u)) them walked))

  length-contents : (c : List (Node A)) → length (contents c) ≡ length c
  length-contents [] = refl
  length-contents (node a h x ∷ c) = ap suc (length-contents c)

  chain-Calls :
      (fuel t : ℕ) (m : Method A) (s : State A) (c : List (Node A))
      → s.chain ≡ c
      → first c ≡ some s.before_begin
      → Distinct s.chain
      → Free c
      → length (items c) * 2 + 2 ≤ fuel
      → Calls t m s (call fuel t m s)
  chain-Calls fuel t m s [] e begins d free enough = absurd (ground (arith, begins))
  chain-Calls fuel t m s (node a (some u) x ∷ suf) e begins d free enough =
      absurd (ground (arith, free))
  chain-Calls fuel t m s (node a none x ∷ suf) e begins d free enough =
      call-Calls fuel t m s a x suf e (some-same a s.before_begin begins) d free.1
        (omega (arith, enough, length-contents suf))

  -- In every state that threads reach from a new list and in which none of them is in a method, a
  -- thread that calls `for_each`, `for_first_of`, `remove_if` or `remove_first_if`, with fuel of 2
  -- for each item and 2 more, comes to its end: it leaves the items without those, or the first
  -- one, that the predicate of `remove_if` or `remove_first_if` picks, and otherwise as they were;
  -- it has applied the operation of `for_each` to every item in order, that of `for_first_of` to
  -- the first item picked, and returned from `remove_first_if` whether there was one; and every
  -- lock is free.
  pub call_lem :
      (start fuel t : ℕ) (m : Method A) (s : State A)
      → Reach (flist start) s
      → ((u : ℕ) → s.cursor u ≡ out)
      → length (items s.chain) * 2 + 2 ≤ fuel
      → Calls t m s (call fuel t m s)
  call_lem start fuel t m s reached outside enough =
      let safe = Reach-Safe reached (flist-Safe start) in
      let fair = Reach-Fair reached (flist-Safe start) (flist-Fair start) in
      chain-Calls fuel t m s s.chain refl safe.begins fair.0
        (Unlocked-Free s.chain fair.0
          (λ u a locked. subst (λ k. Has k a) (outside u) (fair.1 u a locked)))
        enough
