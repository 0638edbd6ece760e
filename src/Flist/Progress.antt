-- ===== src/Flist/Progress.antt =====
-- Threads that wait for locks of the list, and the one among them that can go on.
use mathlib.Core.Path.{subst}
use ubuntu_projects.Base.{
  ℕ, zero, suc, ◌+◌, ◌≤◌, ◌≡◌, ◌≢◌, refl, sym, ◌⊎◌, inl, inr, Option, none, some, length, arith,
}
use ubuntu_projects.Flist.Chain.{Found, found, find, set_holder, find-next}
use ubuntu_projects.Flist.Distinct.{place, place-next, place-length}
use ubuntu_projects.Flist.Attended.{Has, Attended}
use ubuntu_projects.Flist.Holds.{Holds, Safe}
use ubuntu_projects.Flist.Safe.{Reach, Reach-Safe, flist-Safe}
use ubuntu_projects.Flist.{
  Method, Cursor, out, prev, both, State, note, end_events, look_events, done, decide, move_to,
  flist, lock_next, act, look, go_on,
}
use ubuntu_projects.Flist.Fair.{Fair, Reach-Fair, flist-Fair}

module _ {A : Type 0} where
  -- The next step of a cursor is not blocked.
  abbrev pub Moves : State A → ℕ → Cursor A → Type 0
  Moves s u k = (v : State A) × (go_on u k s ≡ done v)

  -- A thread that is behind the lock of the next node can go on.
  both-Moves :
      (u : ℕ) (m : Method A) (a b : ℕ) (s : State A)
      → Holds u (both m a b) s.chain
      → Moves s u (both m a b)
  unfolding go_on look
  both-Moves u m a b s (ne, (x, at), (y, n, there)) =
      (note (look_events u m y) (act u m a b (decide m y) s), rw (at, there, go_on, look) refl)

  -- One that needs the next lock can, too, or another thread has a pointer to the next node.
  prev-Moves :
      (t : ℕ) (m : Method A) (a : ℕ) (s : State A)
      → Attended s
      → Holds t (prev m a) s.chain
      → Moves s t (prev m a)
        ⊎ ((b u : ℕ) × ((x : Option A) × (find s.chain a ≡ some (found (some t) x (some b))))
            × Has (s.cursor u) b)
  unfolding go_on lock_next
  prev-Moves t m a s attended (x, none, at) = inl (
    note (end_events t m) (move_to t out (set_holder a none s.chain) s),
    rw (at, go_on, lock_next) refl,
  )
  prev-Moves t m a s attended (x, some b, at) =
      let (f, there) = find-next s.chain a b (some t) x at in go f there
    where
      go :
          (f : Found A)
          → find s.chain b ≡ some f
          → Moves s t (prev m a)
            ⊎ ((b u : ℕ) × ((x : Option A) × (find s.chain a ≡ some (found (some t) x (some b))))
                × Has (s.cursor u) b)
      go (found (some u) y n) there = inr (b, u, (x, at), attended u b (y, n, there))
      go (found none y n) there = inl (
        move_to t (both m a b) (set_holder b (some t) s.chain) s,
        rw (at, there, go_on, lock_next) refl,
      )

  -- A thread is in a method, and its next step is not blocked.
  abbrev pub SomeMoves : State A → Type 0
  SomeMoves s = (u : ℕ) × (s.cursor u ≢ out) × Moves s u (s.cursor u)

  -- By the places of the nodes that the threads need: fuel for each node behind that of the thread.
  in_method-Moves :
      (fuel t : ℕ) (k : Cursor A) (s : State A)
      → Safe s
      → Fair s
      → s.cursor t ≡ k
      → k ≢ out
      → ((m : Method A) (a : ℕ) → k ≡ prev m a → length s.chain ≤ fuel + place s.chain a)
      → SomeMoves s
  in_method-Moves fuel t out s safe fair e ne enough = absurd (ne refl)
  in_method-Moves fuel t (both m a b) s safe fair e ne enough = (
    t,
    subst (λ k. k ≢ out) (sym e) ne,
    subst (Moves s t) (sym e)
        (both-Moves t m a b s (subst (λ k. Holds t k s.chain) e (safe.holds t))),
  )
  in_method-Moves zero t (prev m a) s safe fair e ne enough =
      let (x, n, at) = subst (λ k. Holds t k s.chain) e (safe.holds t) in
      absurd (omega (arith, place-length s.chain a (found (some t) x n) at, enough m a refl))
  in_method-Moves (suc fuel) t (prev m a) s safe fair e ne enough =
      elim (prev-Moves t m a s fair.1 (subst (λ k. Holds t k s.chain) e (safe.holds t))) [
        | inl moves ↦ (t, subst (λ k. k ≢ out) (sym e) ne, subst (Moves s t) (sym e) moves)
        | inr (b, u, (x, at), has) ↦
            in_method-Moves fuel u (s.cursor u) s safe fair refl
              (λ free. subst (λ k. Has k b) free has)
              (λ l c same.
                let there : c ≡ b = subst (λ k. Has k b) same has in
                subst (λ r. length s.chain ≤ fuel + place s.chain r) (sym there)
                  (omega (arith, place-next s.chain a b (some t) x fair.0 at, enough m a refl)))
      ]

  -- In every state that threads reach from a new list, by `for_each`, `for_first_of`, `remove_if`,
  -- `remove_first_if` and pushes to addresses not in use in any order, and in which a thread is in
  -- a method, there is a thread in a method whose next step is done and not blocked: there is no
  -- deadlock.
  pub some_thread-Moves :
      (start t : ℕ) (s : State A) → Reach (flist start) s → s.cursor t ≢ out → SomeMoves s
  some_thread-Moves start t s reached ne =
      in_method-Moves (length s.chain) t (s.cursor t) s (Reach-Safe reached (flist-Safe start))
        (Reach-Fair reached (flist-Safe start) (flist-Fair start)) refl ne (λ m a e. omega arith)
