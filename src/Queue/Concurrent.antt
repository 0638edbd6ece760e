-- ===== src/Queue/Concurrent.antt =====
-- Pops while other threads push: a pop holds the lock of the head, and has read the tail before.
use mathlib.Core.Path.{subst}
use ubuntu_projects.Base.{
  ℕ, ◌≡◌, ◌≢◌, ◌≤◌, refl, sym, ◌∙◌, Option, none, some, List, [], ◌∷◌, ◌++◌, arith,
}
use ubuntu_projects.Waits.{PopStatus}
use ubuntu_projects.Queue.Memory.{Sized, room, node, Nodes, write}
use ubuntu_projects.Queue.Memory.Seg.{Cells, values, Seg, Seg-write}
use ubuntu_projects.Queue.Push.{Holds, New, Pushed, push_all, push_all-Pushed}
use ubuntu_projects.Queue.Pop.{popped, advance-popped}
use ubuntu_projects.Queue.{Queue, State, pop_unprotected, get_tail_protected}

module _ {A : Type 0} ⦃sized : Sized A⦄ where
  -- What a pop of a queue with these items gives, when `ret` is in the caller's variable.
  abbrev pub Pops : A → List A → List A → Option ((PopStatus × A) × State A) → Type 0
  Pops ret xs ys none = ⊥
  Pops ret [] ys (some (r, u)) = (r ≡ (PopStatus.empty, ret)) × Holds u ys
  Pops ret (x ∷ xs) ys (some (r, u)) = (r ≡ (PopStatus.ready, x)) × Holds u (xs ++ ys)

  -- The first item stands in the node at the head, which is not the tail.
  pub popped-Holds :
      (h : Nodes A) (q : Queue) (x : A) (xs : List A) (cs : Cells A)
      → Seg h q.head cs q.tail
      → values cs ≡ x ∷ xs
      → h q.tail ≡ some (node none 0)
      → sized.size_of ≤ room
      → (n : ℕ) × (h q.head ≡ some (node (some x) n))
        × (q.head ≢ q.tail)
        × Holds (popped (h, q) n) xs
  unfolding write
  popped-Holds h q x xs [] linked listed ended fits = absurd (ground (arith, listed))
  popped-Holds h q x xs ((p, y) ∷ cs) (n, e, here, once, ne, rest) listed ended fits = (
    n,
    ground (arith, here, listed),
    ne,
    record {
      cells = cs;
      linked = Seg-write h n cs q.tail q.head none rest once;
      listed = ground (arith, listed);
      ended = ground (arith, ne, ended);
      fits = fits;
    },
  )

  pub pop_unprotected-first :
      (ret : A) (t : ℕ) (h : Nodes A) (q : Queue) (x : A) (xs : List A)
      → Holds (h, q) (x ∷ xs)
      → q.head ≢ t
      → (u : State A) × (pop_unprotected ret t (h, q) ≡ some ((PopStatus.ready, x), u)) × Holds u xs
  unfolding pop_unprotected
  pop_unprotected-first ret t h q x xs holds ne =
      let (n, here, other, after) =
        popped-Holds h q x xs holds.cells holds.linked holds.listed holds.ended holds.fits in
      (popped (h, q) n, ground (arith, ne, (advance-popped (h, q) x n here).1), after)

  pop_unprotected-none :
      (ret : A) (t : ℕ) (s : State A)
      → s.1.head ≡ t
      → pop_unprotected ret t s ≡ some ((PopStatus.empty, ret), s)
  unfolding pop_unprotected
  pop_unprotected-none ret t s e = ground (arith, e)

  pub empty-head :
      (h : Nodes A) (q : Queue) (cs : Cells A)
      → Seg h q.head cs q.tail
      → values cs ≡ []
      → q.head ≡ q.tail
  empty-head h q [] linked listed = linked
  empty-head h q ((p, x) ∷ cs) linked listed = absurd (ground (arith, listed))

  -- A pop with the tail that was read before.
  abbrev pub late_pop : A → ℕ → Option (State A) → Option ((PopStatus × A) × State A)
  late_pop ret t none = none
  late_pop ret t (some u) = pop_unprotected ret t u

  late_pop-empty :
      (ret : A) (t : ℕ) (o : Option (State A)) (ys : List A)
      → Pushed t o ys
      → Pops ret [] ys (late_pop ret t o)
  late_pop-empty ret t none ys pushed = pushed
  late_pop-empty ret t (some u) ys (holds, kept) =
      rw (pop_unprotected-none ret t u kept) (refl, holds)

  late_pop-first :
      (ret : A) (p t : ℕ) (o : Option (State A)) (x : A) (xs ys : List A)
      → p ≢ t
      → Pushed p o (x ∷ xs ++ ys)
      → Pops ret (x ∷ xs) ys (late_pop ret t o)
  late_pop-first ret p t none x xs ys ne pushed = pushed
  late_pop-first ret p t (some (h, q)) x xs ys ne (holds, kept) =
      let (u, ran, after) =
        pop_unprotected-first ret t h q x (xs ++ ys) holds (λ e. ne (sym kept ∙ e)) in
      rw ran (refl, after)

  -- When the items have at most 8 bytes, so that they have room in front of `m_next`, a pop that
  -- has read the tail before other threads push any items (each to a new address), and goes on
  -- after that, does nothing undefined and gives what it would have given before them: `empty` if
  -- there was no item, and otherwise the first one; the queue holds the others and behind them the
  -- new ones.
  pub late_pop-Pops :
      (ret : A) (es : List (ℕ × A)) (s : State A) (xs : List A)
      → Holds s xs
      → New s.0 es
      → Pops ret xs (values es) (late_pop ret (get_tail_protected s) (push_all es (some s)))
  unfolding get_tail_protected
  late_pop-Pops ret es s [] holds fresh =
      late_pop-empty ret s.1.tail (push_all es (some s)) (values es) (
        subst (λ p. Pushed p (push_all es (some s)) (values es))
          (empty-head s.0 s.1 holds.cells holds.linked holds.listed)
          (push_all-Pushed es s.0 s.1 [] holds fresh))
  late_pop-Pops ret es s (x ∷ xs) holds fresh =
      let (n, here, ne, after) =
        popped-Holds s.0 s.1 x xs holds.cells holds.linked holds.listed holds.ended holds.fits in
      late_pop-first ret s.1.head s.1.tail (push_all es (some s)) x xs (values es) ne
        (push_all-Pushed es s.0 s.1 (x ∷ xs) holds fresh)
