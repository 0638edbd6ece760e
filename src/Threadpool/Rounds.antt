-- ===== src/Threadpool/Rounds.antt =====
-- The inner queues that a thread looks at: its own one, and all of them in `try_steal_task`.
use mathlib.Core.Path.{subst}
use native.Mathlib.Decide.{ℕ_discrete}
use native.Mathlib.Nat.{mod-lt}
use ubuntu_projects.Base.{
  ℕ, zero, suc, ◌+◌, ◌%◌, ◌^◌, ◌≤◌, ◌<◌, ◌≡◌, refl, ap, sym, ◌∙◌, Bool, Option, none, some, [], ◌∷◌,
  arith, length, get_elem?, get_elem?-some, set, set_self, count,
}
use ubuntu_projects.Threadpool.{
  word, InnerQueue, Pool, inner_try_pop, inner_try_steal, on_inner, thread_index, steal_loop,
  try_steal_task, try_own,
}
use ubuntu_projects.Threadpool.Index.{index, IsThread, index-onto}
use ubuntu_projects.Threadpool.Inner.{
  taken, count_all, count_all-set, steal-none, steal-count, pop-count, pop-none,
}

-- No other thread touches the pool.
abbrev pub Still : {S T : Type 0} → (Pool S T → Pool S T) → Type 0
Still {S} {T} meanwhile = (q : Pool S T) → meanwhile q ≡ q

module _ {S T : Type 0} where
  -- A thread that gets a task takes it out of the inner queues; one that gets none leaves the pool as it
  -- is. The queue of the pool stays as it is.
  abbrev pub Tries : Pool S T → Type 0 → Option (Option T × Pool S T) → Type 0
  Tries p Nothing none = ⊥
  Tries p Nothing (some (none, q)) = (q ≡ p) × Nothing
  Tries p Nothing (some (some task, q)) =
      (q.queue ≡ p.queue)
      × ((t : T → Bool)
          → count_all t p.inner_queues ≡ count t (task ∷ []) + count_all t q.inner_queues)

  found-Tries :
      (i : ℕ) (p : Pool S T) (o : Option T) (q r : InnerQueue T)
      → get_elem? p.inner_queues i ≡ some q
      → ((t : T → Bool) → count t [] + count t q ≡ count t (taken o) + count t r)
      → (o ≡ none → (q ≡ []) × (r ≡ []))
      → Tries p
          (get_elem? p.inner_queues i ≡ some [])
          (some (o, record p { inner_queues = set p.inner_queues i r }))
  found-Tries i p none q r at counts nothing =
      let (empty, left) = nothing refl in
      (
        ap (λ qs. record p { inner_queues = qs })
            (ap (λ s. set p.inner_queues i s) (left ∙ sym empty) ∙ set_self p.inner_queues i q at),
        at ∙ ap some empty,
      )
  found-Tries i p (some task) q r at counts nothing =
      (refl, λ t. omega (arith, counts t, count_all-set t p.inner_queues i q r at))

  -- The queue has no task, and is left as it is, or gives one.
  on_inner-Tries :
      (f : InnerQueue T → Option T × InnerQueue T) (i : ℕ) (p : Pool S T)
      → i < length p.inner_queues
      → ((t : T → Bool) (q : InnerQueue T)
          → count t [] + count t q ≡ count t (taken (f q).0) + count t (f q).1)
      → ((q : InnerQueue T) → (f q).0 ≡ none → (q ≡ []) × ((f q).1 ≡ []))
      → Tries p (get_elem? p.inner_queues i ≡ some []) (on_inner f i p)
  unfolding on_inner
  on_inner-Tries f i p lt counts nothing =
      let (q, at) = get_elem?-some p.inner_queues i lt in
      subst
        (λ o. Tries p (get_elem? p.inner_queues i ≡ some []) (elim o [
          | none ↦ none
          | some s ↦ some ((f s).0, record p { inner_queues = set p.inner_queues i (f s).1 })
        ]))
        (sym at) (found-Tries i p (f q).0 q (f q).1 at (λ t. counts t q) (nothing q))

  steal-Tries :
      (i : ℕ) (p : Pool S T)
      → i < length p.inner_queues
      → Tries p (get_elem? p.inner_queues i ≡ some []) (on_inner inner_try_steal i p)
  unfolding inner_try_steal
  steal-Tries i p lt =
      on_inner-Tries inner_try_steal i p lt (λ t q. omega (arith, steal-count t q))
        (λ q e. (steal-none q e, ap (λ r. (inner_try_steal r).1) (steal-none q e)))

  pop-Tries :
      (i : ℕ) (p : Pool S T)
      → i < length p.inner_queues
      → Tries p (get_elem? p.inner_queues i ≡ some []) (on_inner inner_try_pop i p)
  pop-Tries i p lt =
      on_inner-Tries inner_try_pop i p lt (λ t q. omega (arith, pop-count t q))
        (λ q e. pop-none q e)

  -- One attempt, and if it gives no task, another one.
  abbrev pub orelse :
      Option (Option T × Pool S T)
      → (Pool S T → Option (Option T × Pool S T))
      → Option (Option T × Pool S T)
  orelse none next = none
  orelse (some (some task, q)) next = some (some task, q)
  orelse (some (none, q)) next = next q

  pub elim-orelse :
      (o : Option (Option T × Pool S T)) (next : Pool S T → Option (Option T × Pool S T))
      → elim o [ none ↦ none | some (some task, q) ↦ some (some task, q) | some (none, q) ↦ next q ]
        ≡ orelse o next
  elim-orelse none next = refl
  elim-orelse (some (some task, q)) next = refl
  elim-orelse (some (none, q)) next = refl

  Tries-map :
      (p : Pool S T) (More Less : Type 0) (o : Option (Option T × Pool S T))
      → (More → Less)
      → Tries p More o
      → Tries p Less o
  Tries-map p More Less none f a = a
  Tries-map p More Less (some (some task, q)) f a = a
  Tries-map p More Less (some (none, q)) f a = (a.0, f a.1)

  pub orelse-Tries :
      (p : Pool S T) (Nothing More : Type 0) (o : Option (Option T × Pool S T))
      (next : Pool S T → Option (Option T × Pool S T))
      → Tries p Nothing o
      → Tries p More (next p)
      → Tries p (Nothing × More) (orelse o next)
  orelse-Tries p Nothing More none next a b = a
  orelse-Tries p Nothing More (some (some task, q)) next a b = a
  orelse-Tries p Nothing More (some (none, q)) next a b =
      subst (λ r. Tries p (Nothing × More) (next r)) (sym a.0)
        (Tries-map p More (Nothing × More) (next p) (λ m. (a.1, m)) b)

  -- The inner queues of so many rounds have no task.
  abbrev Empty : Option ℕ → ℕ → ℕ → Pool S T → Type 0
  Empty thread rounds i p =
      (k : ℕ)
      → i ≤ k
      → k < i + rounds
      → get_elem? p.inner_queues (index thread (length p.inner_queues) k) ≡ some []

  steal_loop-Tries :
      (meanwhile : Pool S T → Pool S T) (still : Still meanwhile) (thread : Option ℕ) (rounds i : ℕ)
      (p : Pool S T)
      → 0 < length p.inner_queues
      → Tries p (Empty thread rounds i p) (steal_loop meanwhile thread rounds i p)
  unfolding steal_loop
  steal_loop-Tries meanwhile still thread zero i p lt =
      (refl, λ k le less. absurd (omega (arith, le, less)))
  steal_loop-Tries meanwhile still thread (suc rounds) i p lt =
      let j = index thread (length p.inner_queues) i in
      let here = steal-Tries j p (mod-lt ((thread_index thread + i + 1) % word) lt) in
      let rest = steal_loop-Tries meanwhile still thread rounds (i + 1) p lt in
      let both =
        orelse-Tries p (get_elem? p.inner_queues j ≡ some []) (Empty thread rounds (i + 1) p)
          (on_inner inner_try_steal j p)
          (λ q. steal_loop meanwhile thread rounds (i + 1) (meanwhile q)) here
          (subst
            (λ r.
              Tries p (Empty thread rounds (i + 1) p)
                (steal_loop meanwhile thread rounds (i + 1) r))
            (sym (still p)) rest) in
      subst (Tries p (Empty thread (suc rounds) i p))
        (sym (
          elim-orelse (on_inner inner_try_steal j p)
            (λ q. steal_loop meanwhile thread rounds (i + 1) (meanwhile q))))
        (Tries-map p _ (Empty thread (suc rounds) i p)
          (orelse (on_inner inner_try_steal j p)
            (λ q. steal_loop meanwhile thread rounds (i + 1) (meanwhile q)))
          (λ m k le less. elim (ℕ_discrete i k) [
            | yes same ↦
                subst
                  (λ r. get_elem? p.inner_queues (index thread (length p.inner_queues) r) ≡ some [])
                  same m.0
            | no differ ↦ m.1 k (omega (arith, le, differ)) (omega (arith, less))
          ])
          both)

  pub try_steal-Tries :
      (meanwhile : Pool S T → Pool S T) (still : Still meanwhile) (thread : Option ℕ) (p : Pool S T)
      → IsThread (length p.inner_queues) thread
      → length p.inner_queues < 2 ^ 63
      → 0 < length p.inner_queues
      → Tries p
          ((j : ℕ) → j < length p.inner_queues → get_elem? p.inner_queues j ≡ some [])
          (try_steal_task meanwhile thread p)
  unfolding try_steal_task
  try_steal-Tries meanwhile still thread p fit small lt =
      Tries-map p (Empty thread (length p.inner_queues) 0 p) _
        (steal_loop meanwhile thread (length p.inner_queues) 0 p)
        (λ empty j less.
          let (i, round, there) = index-onto thread (length p.inner_queues) j fit small less in
          subst (λ r. get_elem? p.inner_queues r ≡ some []) there
            (empty i (omega arith) (omega (arith, round))))
        (steal_loop-Tries meanwhile still thread (length p.inner_queues) 0 p lt)

  pub own-Tries :
      (thread : Option ℕ) (p : Pool S T)
      → IsThread (length p.inner_queues) thread
      → Tries p (Unit {0}) (try_own thread p)
  unfolding try_own
  own-Tries none p fit = (refl, tt)
  own-Tries (some i) p fit =
      Tries-map p _ (Unit {0}) (on_inner inner_try_pop i p) (λ e. tt) (pop-Tries i p fit)
