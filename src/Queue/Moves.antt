-- ===== src/Queue/Moves.antt =====
-- The methods that delete the nodes of a queue or hand them over to another one.
use mathlib.Core.Path.{subst}
use ubuntu_projects.Base.{
  ℕ, zero, suc, ◌<◌, ◌≡◌, ◌≢◌, ◌≤◌, refl, ap, sym, ◌∙◌, true, false, Option, none, some, List, [],
  ◌∷◌, arith, length,
}
use ubuntu_projects.Queue.Memory.{Sized, room, node, Nodes, write}
use ubuntu_projects.Queue.Memory.Seg.{Cells, at, Seg, Seg-write, Seg-frame, Seg-free, Seg-end}
use ubuntu_projects.Queue.Pop.{length-values}
use ubuntu_projects.Queue.Push.{Holds, Becomes}
use ubuntu_projects.Queue.{
  Queue, State, advance, is_empty, new_node, move, assign, clear_unprotected, clear,
}

module _ {A : Type 0} ⦃sized : Sized A⦄ where
  -- the memory without the nodes of a list
  abbrev pub erased : Cells A → Nodes A → Nodes A
  erased [] h = h
  erased ((q, x) ∷ cs) h = erased cs (write h q none)

  erased-same : (cs : Cells A) (h : Nodes A) (b : ℕ) → at b cs ≡ false → erased cs h b ≡ h b
  unfolding write
  erased-same [] h b out = refl
  erased-same ((q, x) ∷ cs) h b out =
      erased-same cs (write h q none) b (ground arith) ∙ ground arith

  clear_unprotected-runs :
      (fuel : ℕ) (h : Nodes A) (cs : Cells A) (q : Queue)
      → Seg h q.head cs q.tail
      → length cs < fuel
      → clear_unprotected fuel (h, q) ≡ some (erased cs h, record q { head = q.tail })
  unfolding clear_unprotected is_empty advance
  clear_unprotected-runs zero h cs q seg lt = absurd (omega arith)
  clear_unprotected-runs (suc fuel) h [] q seg lt = ground (arith, seg)
  clear_unprotected-runs (suc fuel) h ((p, x) ∷ cs) q (n, e, here, out, ne, rest) lt =
      let kept = Seg-write h n cs q.tail q.head none rest out in
      let next =
        clear_unprotected-runs fuel (write h q.head none) cs (record q { head = n }) kept
          (omega arith) in
      ground (arith, here, ne, next, e)

  -- A queue without items, whose node stands at its head.
  none-Holds :
      (h : Nodes A) (q : Queue)
      → sized.size_of ≤ room
      → q.head ≡ q.tail
      → h q.tail ≡ some (node none 0)
      → Holds (h, q) []
  none-Holds h q fits e here = record {
    cells = [];
    linked = e;
    listed = refl;
    ended = here;
    fits = fits;
  }

  shorter :
      {s : State A} {xs : List A} {n : ℕ}
      → (holds : Holds s xs) → length xs < n
      → length holds.cells < n
  shorter holds lt = omega (arith, length-values holds.cells, ap length holds.listed)

  -- The nodes of a queue are not in the memory when it is cleared, but for the last one.
  pub clear-Becomes :
      (fuel : ℕ) (s : State A) (xs : List A)
      → Holds s xs
      → length xs < fuel
      → Becomes (clear fuel s) []
  unfolding clear
  clear-Becomes fuel (h, q) xs holds lt =
      let end = Seg-end h q.head holds.cells q.tail holds.linked in
      subst (λ r. Becomes r [])
        (sym (clear_unprotected-runs fuel h holds.cells q holds.linked (shorter holds lt)))
        (none-Holds (erased holds.cells h) (record q { head = q.tail }) holds.fits refl
          (erased-same holds.cells h q.tail end ∙ holds.ended))

  -- From `p` to `t`, and from `r` to `u`: the nodes of two queues, none of which is in both.
  abbrev pub Apart : Cells A → ℕ → Cells A → ℕ → Type 0
  Apart cs t ds u =
      ((b : ℕ) → at b ds ≡ true → (at b cs ≡ false) × (t ≢ b)) × (at u cs ≡ false) × (t ≢ u)

  -- Nothing is undefined; one queue holds the items then, and the other one none.
  abbrev pub Moved : List A → Option (Nodes A × Queue × Queue) → Type 0
  Moved xs none = ⊥
  Moved xs (some (h, q, other)) = Holds (h, q) xs × Holds (h, other) []

  pub move-Moved :
      (a : ℕ) (h : Nodes A) (other : Queue) (xs : List A)
      → Holds (h, other) xs
      → h a ≡ none
      → Moved xs (some (move a (h, other)))
  unfolding move write
  move-Moved a h other xs holds free = (
    record {
      cells = holds.cells;
      linked =
          Seg-write h other.head holds.cells other.tail a (some (node none 0)) holds.linked
            (Seg-free h other.head holds.cells other.tail a holds.linked free);
      listed = holds.listed;
      ended = ground (arith, free, holds.ended);
      fits = holds.fits;
    },
    none-Holds (new_node a h) (record other { head = a; tail = a }) holds.fits refl (ground arith),
  )

  -- the memory after the move assignment
  assigned : Cells A → ℕ → ℕ → Nodes A → Nodes A
  assigned cs t a h = new_node a (write (erased cs h) t none)

  assigned-same :
      (cs : Cells A) (t a : ℕ) (h : Nodes A) (b : ℕ)
      → at b cs ≡ false
      → t ≢ b
      → a ≢ b
      → assigned cs t a h b ≡ h b
  unfolding assigned write
  assigned-same cs t a h b off away differ = ground (arith, away, differ, erased-same cs h b off)

  assign-runs :
      (fuel : ℕ) (a : ℕ) (h : Nodes A) (q other : Queue) (ys : List A)
      → (to : Holds (h, q) ys) → length ys < fuel
      → assign fuel a (h, q) other
        ≡ some (
          assigned to.cells q.tail a h,
          record q { head = other.head; tail = other.tail },
          record other { head = a; tail = a },
        )
  unfolding assign assigned
  assign-runs fuel a h q other ys to lt =
      rw (assign, clear_unprotected-runs fuel h to.cells q to.linked (shorter to lt)) refl

  -- When one queue holds `ys` and another one `xs`, items of at most 8 bytes, which have room in
  -- front of `m_next`, no node of the one belongs to the other, and the address that `new` returns
  -- is not that of a node of the other one, the move assignment with fuel for each item of `ys`
  -- does nothing undefined: the first queue then holds `xs`, and the other one, on the new node,
  -- holds nothing.
  pub assign-Moved :
      (fuel : ℕ) (a : ℕ) (h : Nodes A) (q other : Queue) (ys xs : List A)
      → (to : Holds (h, q) ys) → (from : Holds (h, other) xs)
      → Apart to.cells q.tail from.cells other.tail
      → at a from.cells ≡ false
      → other.tail ≢ a
      → length ys < fuel
      → Moved xs (assign fuel a (h, q) other)
  unfolding assigned write
  assign-Moved fuel a h q other ys xs to from apart out ne lt =
      let left = assigned to.cells q.tail a h in
      subst (Moved xs) (sym (assign-runs fuel a h q other ys to lt)) (
        record {
          cells = from.cells;
          linked = Seg-frame h left other.head from.cells other.tail from.linked (λ b i.
              let (off, away) = apart.0 b i in
              assigned-same to.cells q.tail a h b off away (λ e. ground (arith, out, i, e)));
          listed = from.listed;
          ended =
              assigned-same to.cells q.tail a h other.tail apart.1 apart.2 (λ e. ne (sym e))
              ∙ from.ended;
          fits = from.fits;
        },
        none-Holds left (record other { head = a; tail = a }) from.fits refl (ground arith),
      )
