-- ===== src/Queue/Push.antt =====
-- What the queue holds, and the methods that put items in.
use mathlib.Core.List.{append_assoc, append-nil}
use mathlib.Core.Path.{subst}
use ubuntu_projects.Base.{
  ℕ, ◌≡◌, ◌≢◌, ◌≤◌, refl, ap, sym, ◌∙◌, true, false, Option, none, some, List, [], ◌∷◌, ◌++◌, arith,
}
use ubuntu_projects.Queue.Memory.{Sized, room, node, Nodes, write}
use ubuntu_projects.Queue.Memory.Seg.{
  Cells, at, values, Seg, values-append, Seg-frame, Seg-free, Seg-end, Seg-join,
}
use ubuntu_projects.Queue.{
  Queue, State, construct_data, set_next, new_node, new, emplace, push, append_nodes,
}

module _ {A : Type 0} ⦃sized : Sized A⦄ where
  -- From the head the nodes of the items lead to the tail, which stands behind the last item and
  -- has no value and no successor. The items have room in the nodes.
  pub record Holds (s : State A) (xs : List A) : Type 0 where
    pub cells : Cells A
    pub linked : Seg s.0 s.1.head cells s.1.tail
    pub listed : values cells ≡ xs
    pub ended : s.0 s.1.tail ≡ some (node none 0)
    pub fits : sized.size_of ≤ room

  -- Nothing is undefined, and the queue holds the items then.
  abbrev pub Becomes : Option (State A) → List A → Type 0
  Becomes none xs = ⊥
  Becomes (some s) xs = Holds s xs

  pub new-Holds : (a : ℕ) (h : Nodes A) → sized.size_of ≤ room → Holds (new a h) []
  unfolding new write
  new-Holds a h fits = record {
    cells = [];
    linked = refl;
    listed = refl;
    ended = ground arith;
    fits = fits;
  }

  abbrev pub stored_tail : Nodes A → Queue → A → ℕ → Nodes A
  stored_tail h q x a =
      write (write h q.tail (some (node (some x) 0))) q.tail (some (node (some x) a))

  pub append_nodes-runs :
      (x : A) (a u : ℕ) (h : Nodes A) (q : Queue)
      → sized.size_of ≤ room
      → h q.tail ≡ some (node none 0)
      → append_nodes x a u (h, q) ≡ some (stored_tail h q x a, record q { tail = u })
  unfolding append_nodes construct_data set_next write
  append_nodes-runs x a u h q fits ended = ground (arith, ended, fits)

  pub stored_tail-same :
      (h : Nodes A) (q : Queue) (x : A) (a b : ℕ) → q.tail ≢ b → stored_tail h q x a b ≡ h b
  unfolding write
  stored_tail-same h q x a b ne = ground (arith, ne)

  pub stored_tail-tail :
      (h : Nodes A) (q : Queue) (x : A) (a : ℕ)
      → stored_tail h q x a q.tail ≡ some (node (some x) a)
  unfolding write
  stored_tail-tail h q x a = ground arith

  -- The addresses are new: nothing stands there, and no two are equal.
  abbrev pub New : Nodes A → List (ℕ × A) → Type 0
  New h [] = Unit {0}
  New h ((a, x) ∷ es) = (h a ≡ none) × (a ≢ 0) × (at a es ≡ false) × New h es

  pub extend-Seg :
      (h g : Nodes A) (p : ℕ) (cs : Cells A) (t : ℕ) (x : A) (a : ℕ)
      → Seg h p cs t
      → h a ≡ none
      → t ≢ a
      → g t ≡ some (node (some x) a)
      → ((b : ℕ) → t ≢ b → a ≢ b → g b ≡ h b)
      → Seg g p (cs ++ (t, x) ∷ []) a
  extend-Seg h g p cs t x a seg free ne stored same =
      let end = Seg-end h p cs t seg in
      let out = Seg-free h p cs t a seg free in
      Seg-join g p cs t x a [] a
        (Seg-frame h g p cs t seg
          (λ b i. same b (λ e. ground (arith, end, i, e)) (λ e. ground (arith, out, i, e))))
        stored refl (λ b i. refl) refl out ne

  pub emplace-runs :
      (a : ℕ) (x : A) (h : Nodes A) (q : Queue)
      → sized.size_of ≤ room
      → h q.tail ≡ some (node none 0)
      → h a ≡ none
      → emplace a x (h, q) ≡ some (stored_tail (new_node a h) q x a, record q { tail = a })
  unfolding emplace construct_data set_next write
  emplace-runs a x h q fits ended free = ground (arith, ended, free, fits)

  pub stored_tail-Holds :
      (a : ℕ) (x : A) (h : Nodes A) (q : Queue) (xs : List A)
      → Holds (h, q) xs
      → h a ≡ none
      → Holds (stored_tail (new_node a h) q x a, record q { tail = a }) (xs ++ x ∷ [])
  unfolding write
  stored_tail-Holds a x h q xs holds free =
      let ne : q.tail ≢ a = λ e. ground (arith, holds.ended, free, e) in
      record {
        cells = holds.cells ++ (q.tail, x) ∷ [];
        linked =
            extend-Seg h (stored_tail (new_node a h) q x a) q.head holds.cells q.tail x a
              holds.linked free ne (ground arith) (λ b i j. ground (arith, i, j));
        listed =
            values-append holds.cells ((q.tail, x) ∷ []) ∙ ap (λ ys. ys ++ x ∷ []) holds.listed;
        ended = ground (arith, ne);
        fits = holds.fits;
      }

  -- A new item goes behind the others.
  pub emplace-Holds :
      (a : ℕ) (x : A) (s : State A) (xs : List A)
      → Holds s xs
      → s.0 a ≡ none
      → Becomes (emplace a x s) (xs ++ x ∷ [])
  emplace-Holds a x s xs holds free =
      rw (emplace-runs a x s.0 s.1 holds.fits holds.ended free)
        (stored_tail-Holds a x s.0 s.1 xs holds free)

  pub New-frame :
      (h g : Nodes A) (es : List (ℕ × A))
      → New h es
      → ((b : ℕ) → at b es ≡ true → h b ≡ none → g b ≡ none)
      → New g es
  New-frame h g [] fresh same = tt
  New-frame h g ((b, y) ∷ es) (free, ne, once, rest) same =
      (same b (ground arith) free, ne, once, New-frame h g es rest (λ c i. same c (ground arith)))

  New-stored_tail :
      (a : ℕ) (x : A) (es : List (ℕ × A)) (h : Nodes A) (q : Queue)
      → h q.tail ≡ some (node none 0)
      → at a es ≡ false
      → New h es
      → New (stored_tail (new_node a h) q x a) es
  unfolding write
  New-stored_tail a x es h q ended out fresh =
      New-frame h (stored_tail (new_node a h) q x a) es fresh
        (λ b i free. ground (arith, ended, out, i, free))

  -- the pushes of a thread one after another, each with the address of its new node
  abbrev pub push_all : List (ℕ × A) → Option (State A) → Option (State A)
  push_all es none = none
  push_all [] (some s) = some s
  push_all ((a, x) ∷ es) (some s) = push_all es (push a x s)

  -- The items are behind the others, and the head is where it was.
  abbrev pub Pushed : ℕ → Option (State A) → List A → Type 0
  Pushed p none xs = ⊥
  Pushed p (some s) xs = Holds s xs × (s.1.head ≡ p)

  push-runs :
      (a : ℕ) (x : A) (h : Nodes A) (q : Queue)
      → sized.size_of ≤ room
      → h q.tail ≡ some (node none 0)
      → h a ≡ none
      → push a x (h, q) ≡ some (stored_tail (new_node a h) q x a, record q { tail = a })
  unfolding push
  push-runs = emplace-runs

  pub push_all-Pushed :
      (es : List (ℕ × A)) (h : Nodes A) (q : Queue) (xs : List A)
      → Holds (h, q) xs
      → New h es
      → Pushed q.head (push_all es (some (h, q))) (xs ++ values es)
  push_all-Pushed [] h q xs holds fresh = rw (append-nil xs) (holds, refl)
  push_all-Pushed ((a, x) ∷ es) h q xs holds (free, ne, once, rest) =
      let after : State A = (stored_tail (new_node a h) q x a, record q { tail = a }) in
      subst (λ o. Pushed q.head (push_all es o) (xs ++ x ∷ values es))
        (sym (push-runs a x h q holds.fits holds.ended free))
        (subst (λ ys. Pushed q.head (push_all es (some after)) ys)
          (append_assoc xs (x ∷ []) (values es))
          (push_all-Pushed es (stored_tail (new_node a h) q x a) (record q { tail = a })
            (xs ++ x ∷ []) (stored_tail-Holds a x h q xs holds free)
            (New-stored_tail a x es h q holds.ended once rest)))
