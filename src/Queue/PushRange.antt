-- ===== src/Queue/PushRange.antt =====
-- `push_range`: the nodes of a range are linked first, without a lock, and then hung behind the tail.
use ubuntu_projects.Base.{
  ℕ, ◌≡◌, ◌≢◌, ◌≤◌, refl, ap, ◌∙◌, true, false, Option, none, some, List, [], ◌∷◌, ◌++◌, arith,
  Option-cases, inl, inr,
}
use mathlib.Core.List.{append_assoc, append-nil}
use ubuntu_projects.Queue.Memory.{Sized, room, node, Nodes, write}
use ubuntu_projects.Queue.Memory.Seg.{
  Cells, at, values, Seg, values-append, at-append, Seg-frame, Seg-free, Seg-end, Seg-join,
}
use ubuntu_projects.Queue.Push.{
  Holds, Becomes, New, New-frame, extend-Seg, stored_tail, stored_tail-same, stored_tail-tail,
  append_nodes-runs,
}
use ubuntu_projects.Queue.{
  Queue, State, construct_data, set_next, new_node, fill, append_nodes, push_range,
}

module _ {A : Type 0} ⦃sized : Sized A⦄ where
  -- A list of nodes from `p` to `t` that is not part of what was there before, in `h`, which is as it was.
  pub record Apart (h g : Nodes A) (p t : ℕ) (xs : List A) : Type 0 where
    pub cells : Cells A
    pub linked : Seg g p cells t
    pub listed : values cells ≡ xs
    pub ended : g t ≡ some (node none 0)
    pub kept : (b : ℕ) → h b ≢ none → g b ≡ h b
    pub fresh : (b : ℕ) → at b cells ≡ true → h b ≡ none
    pub fresh_end : h t ≡ none

  -- the nodes after one round of the loop
  abbrev linked_node : ℕ → ℕ → A → Nodes A → Nodes A
  linked_node t a x g =
      write (new_node a (write g t (some (node (some x) 0)))) t (some (node (some x) a))

  fill-round :
      (t a : ℕ) (x : A) (es : List (ℕ × A)) (g : Nodes A)
      → sized.size_of ≤ room
      → g t ≡ some (node none 0)
      → g a ≡ none
      → fill t ((a, x) ∷ es) g ≡ fill a es (linked_node t a x g)
  unfolding fill construct_data set_next write
  fill-round t a x es g fits ended free = ground (arith, ended, free, fits)

  kept-none : (h g : Nodes A) (a : ℕ) → ((b : ℕ) → h b ≢ none → g b ≡ h b) → g a ≡ none → h a ≡ none
  kept-none h g a kept free = elim (Option-cases (h a)) [
    | inl e ↦ e
    | inr (n, e) ↦ absurd (ground (arith, kept a (λ f. ground (arith, e, f)), free, e))
  ]

  linked_node-Apart :
      (h g : Nodes A) (p t a : ℕ) (x : A) (xs : List A)
      → Apart h g p t xs
      → g a ≡ none
      → Apart h (linked_node t a x g) p a (xs ++ x ∷ [])
  unfolding write
  linked_node-Apart h g p t a x xs apart free =
      let ne : t ≢ a = λ e. ground (arith, apart.ended, free, e) in
      let before = kept-none h g a apart.kept free in
      record {
        cells = apart.cells ++ (t, x) ∷ [];
        linked =
            extend-Seg g (linked_node t a x g) p apart.cells t x a apart.linked free ne
              (ground arith) (λ b i j. ground (arith, i, j));
        listed = values-append apart.cells ((t, x) ∷ []) ∙ ap (λ ys. ys ++ x ∷ []) apart.listed;
        ended = ground (arith, ne);
        kept = λ b there. ground (arith, apart.kept b there, apart.fresh_end, before, there);
        fresh = λ b i.
            ground
              (arith, at-append b apart.cells ((t, x) ∷ []), apart.fresh b, apart.fresh_end, i);
        fresh_end = before;
      }

  New-linked_node :
      (t a : ℕ) (x : A) (es : List (ℕ × A)) (g : Nodes A)
      → g t ≢ none
      → at a es ≡ false
      → New g es
      → New (linked_node t a x g) es
  unfolding write
  New-linked_node t a x es g there out fresh =
      New-frame g (linked_node t a x g) es fresh (λ b i free. ground (arith, there, out, i, free))

  abbrev Fills : Nodes A → ℕ → List A → Option (Nodes A × ℕ) → Type 0
  Fills h p xs none = ⊥
  Fills h p xs (some (g, u)) = Apart h g p u xs

  fill-done : (t : ℕ) (g : Nodes A) → fill t [] g ≡ some (g, t)
  unfolding fill
  fill-done t g = refl

  fill-Apart :
      (es : List (ℕ × A)) (h g : Nodes A) (p t : ℕ) (xs : List A)
      → sized.size_of ≤ room
      → Apart h g p t xs
      → New g es
      → Fills h p (xs ++ values es) (fill t es g)
  fill-Apart [] h g p t xs fits apart fresh = rw (fill-done t g, append-nil xs) apart
  fill-Apart ((a, x) ∷ es) h g p t xs fits apart (free, ne, once, rest) =
      rw (fill-round t a x es g fits apart.ended free, ← append_assoc xs (x ∷ []) (values es))
        (fill-Apart es h (linked_node t a x g) p a (xs ++ x ∷ []) fits
          (linked_node-Apart h g p t a x xs apart free)
          (New-linked_node t a x es g (λ e. ground (arith, apart.ended, e)) once rest))

  new_node-Apart : (a : ℕ) (h : Nodes A) → h a ≡ none → Apart h (new_node a h) a a []
  unfolding write
  new_node-Apart a h free = record {
    cells = [];
    linked = refl;
    listed = refl;
    ended = ground arith;
    kept = λ b there. ground (arith, free, there);
    fresh = λ b i. ground (arith, i);
    fresh_end = free;
  }

  New-new_node :
      (a : ℕ) (es : List (ℕ × A)) (h : Nodes A) → at a es ≡ false → New h es → New (new_node a h) es
  unfolding write
  New-new_node a es h out fresh =
      New-frame h (new_node a h) es fresh (λ b i free. ground (arith, out, i, free))

  stored_tail-Apart :
      (x : A) (a u : ℕ) (h g : Nodes A) (q : Queue) (xs ys : List A)
      → Holds (h, q) xs
      → Apart h g a u ys
      → Holds (stored_tail g q x a, record q { tail = u }) (xs ++ x ∷ ys)
  stored_tail-Apart x a u h g q xs ys holds apart =
      let after = stored_tail g q x a in
      let same = stored_tail-same g q x a in
      let end = Seg-end h q.head holds.cells q.tail holds.linked in
      let out : (b : ℕ) → h b ≡ none → at b holds.cells ≡ false =
        λ b. Seg-free h q.head holds.cells q.tail b holds.linked in
      let ne : q.tail ≢ u = λ e. ground (arith, holds.ended, apart.fresh_end, e) in
      record {
        cells = holds.cells ++ (q.tail, x) ∷ apart.cells;
        linked =
            Seg-join after q.head holds.cells q.tail x a apart.cells u
              (Seg-frame h after q.head holds.cells q.tail holds.linked (λ b i.
                same b (λ e. ground (arith, end, i, e))
                ∙ apart.kept b (λ e. ground (arith, out b, i, e))))
              (stored_tail-tail g q x a)
              (Seg-frame g after a apart.cells u apart.linked
                (λ b i. same b (λ e. ground (arith, apart.fresh b, holds.ended, i, e))))
              (λ b i. ground (arith, apart.fresh b, out b, i))
              (ground (arith, apart.fresh q.tail, holds.ended)) (out u apart.fresh_end) ne;
        listed =
            values-append holds.cells ((q.tail, x) ∷ apart.cells)
            ∙ ap (λ zs. zs ++ x ∷ values apart.cells) holds.listed
            ∙ ap (λ zs. xs ++ x ∷ zs) apart.listed;
        ended = same u ne ∙ apart.ended;
        fits = holds.fits;
      }

  append_nodes-Holds :
      (x : A) (a u : ℕ) (h g : Nodes A) (q : Queue) (xs ys : List A)
      → Holds (h, q) xs
      → Apart h g a u ys
      → Becomes (append_nodes x a u (g, q)) (xs ++ x ∷ ys)
  append_nodes-Holds x a u h g q xs ys holds apart =
      let there = apart.kept q.tail (λ e. ground (arith, holds.ended, e)) ∙ holds.ended in
      rw (append_nodes-runs x a u g q holds.fits there)
        (stored_tail-Apart x a u h g q xs ys holds apart)

  abbrev appends : A → ℕ → Queue → Option (Nodes A × ℕ) → Option (State A)
  appends x a q none = none
  appends x a q (some (g, u)) = append_nodes x a u (g, q)

  appends-Holds :
      (x : A) (a : ℕ) (h : Nodes A) (q : Queue) (xs ys : List A) (o : Option (Nodes A × ℕ))
      → Holds (h, q) xs
      → Fills h a ys o
      → Becomes (appends x a q o) (xs ++ x ∷ ys)
  appends-Holds x a h q xs ys none holds fills = fills
  appends-Holds x a h q xs ys (some (g, u)) holds fills =
      append_nodes-Holds x a u h g q xs ys holds fills

  push_range-appends :
      (a : ℕ) (x : A) (es : List (ℕ × A)) (h : Nodes A) (q : Queue)
      → push_range ((a, x) ∷ es) (h, q) ≡ appends x a q (fill a es (new_node a h))
  unfolding push_range
  push_range-appends a x es h q = go (fill a es (new_node a h))
    where
      go :
          (o : Option (Nodes A × ℕ))
          → elim o [ none ↦ none | some (g, u) ↦ append_nodes x a u (g, q) ] ≡ appends x a q o
      go none = refl
      go (some (g, u)) = refl

  push_range-done : (s : State A) → push_range [] s ≡ some s
  unfolding push_range
  push_range-done s = refl

  -- When the queue holds `xs`, items of at most 8 bytes, which have room in front of `m_next`, and
  -- the addresses that `new` returns are not null, different and not in use, `push_range` does
  -- nothing undefined and then the queue holds `xs` and behind them the items of the range, in
  -- order; an empty range changes nothing.
  pub push_range-Holds :
      (es : List (ℕ × A)) (s : State A) (xs : List A)
      → Holds s xs
      → New s.0 es
      → Becomes (push_range es s) (xs ++ values es)
  push_range-Holds [] s xs holds fresh = rw (append-nil xs, push_range-done s) holds
  push_range-Holds ((a, x) ∷ es) s xs holds (free, ne, once, rest) =
      rw (push_range-appends a x es s.0 s.1) (
        appends-Holds x a s.0 s.1 xs (values es) (fill a es (new_node a s.0)) holds (
          fill-Apart es s.0 (new_node a s.0) a a [] holds.fits (new_node-Apart a s.0 free)
            (New-new_node a es s.0 once rest)))
