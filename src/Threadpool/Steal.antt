-- ===== src/Threadpool/Steal.antt =====
-- `try_take_task` finds a task if there is one anywhere and nobody else touches the pool.
use mathlib.Core.Path.{subst}
use ubuntu_projects.Base.{
  ℕ, ◌+◌, ◌^◌, ◌<◌, ◌≡◌, refl, ap, sym, ◌∙◌, Bool, Option, none, some, List, [], ◌∷◌, arith, length,
  get_elem?, count,
}
use ubuntu_projects.Threadpool.{
  Pool, with_queue, queue_pop, try_steal_task, try_own, try_others, try_take_task,
}
use ubuntu_projects.Threadpool.Tasks.{TaskQueue, GivesFirst}
use ubuntu_projects.Threadpool.Index.{IsThread}
use ubuntu_projects.Threadpool.Rounds.{
  Still, Tries, orelse, elim-orelse, try_steal-Tries, own-Tries,
}
use ubuntu_projects.Threadpool.Inner.{count_all}

module _ {T : Type 0} (tasks : TaskQueue T) where
  open tasks use {Shared, Holds, pop}

  -- Nothing is undefined. A thread that gets a task takes it out of the pool, the queue of which held
  -- `xs`; one that gets none finds nothing, and leaves nothing.
  abbrev pub Takes : List T → Pool Shared T → Option (Option T × Pool Shared T) → Type 0
  Takes xs p none = ⊥
  Takes xs p (some (none, q)) =
      (xs ≡ [])
      × Holds q.queue []
      × (q.inner_queues ≡ p.inner_queues)
      × ((j : ℕ) → j < length p.inner_queues → get_elem? p.inner_queues j ≡ some [])
  Takes xs p (some (some task, q)) =
      (ys : List T) × Holds q.queue ys
      × ((t : T → Bool)
          → count t xs + count_all t p.inner_queues
            ≡ count t (task ∷ []) + (count t ys + count_all t q.inner_queues))

  -- The inner queues give a task, or there is nothing in the queue of the pool and nothing in them.
  steal-Takes :
      (p : Pool Shared T) (o : Option (Option T × Pool Shared T))
      → Holds p.queue []
      → Tries p ((j : ℕ) → j < length p.inner_queues → get_elem? p.inner_queues j ≡ some []) o
      → Takes [] p o
  steal-Takes p none holds a = a
  steal-Takes p (some (none, q)) holds (same, nothing) =
      (refl, subst (λ r. Holds r.queue []) (sym same) holds, ap (λ r. r.inner_queues) same, nothing)
  steal-Takes p (some (some task, q)) holds (same, counts) =
      ([], subst (λ s. Holds s []) (sym same) holds, λ t. omega (arith, counts t))

  others-Takes :
      (meanwhile : Pool Shared T → Pool Shared T) (still : Still meanwhile) (thread : Option ℕ)
      (xs : List T) (p : Pool Shared T)
      → Holds p.queue xs
      → IsThread (length p.inner_queues) thread
      → length p.inner_queues < 2 ^ 63
      → 0 < length p.inner_queues
      → Takes xs p (try_others tasks meanwhile thread p)
  unfolding try_others queue_pop
  others-Takes meanwhile still thread xs p holds fit small lt =
      go xs (pop p.queue) (tasks.pop-GivesFirst p.queue xs holds)
    where
      go :
          (xs : List T) (o : Option (Option T × Shared))
          → GivesFirst Holds xs o
          → Takes xs p (elim (with_queue tasks p o) [
            | none ↦ none
            | some (some task, q) ↦ some (some task, q)
            | some (none, q) ↦ try_steal_task meanwhile thread (meanwhile q)
          ])
      go [] none g = g
      go (x ∷ xs) none g = g
      go [] (some (some task, s)) (e, g) = absurd (ground (arith, e))
      go [] (some (none, s)) (e, g) =
          let r = record p { queue = s } in
          subst (λ u. Takes [] p (try_steal_task meanwhile thread u)) (sym (still r))
            (steal-Takes r (try_steal_task meanwhile thread r) g
              (try_steal-Tries meanwhile still thread r fit small lt))
      go (x ∷ xs) (some (none, s)) (e, g) = absurd (ground (arith, e))
      go (x ∷ xs) (some (some task, s)) (e, g) = (xs, g, λ t. ground (arith, e))

  own-Takes :
      (meanwhile : Pool Shared T → Pool Shared T) (still : Still meanwhile) (thread : Option ℕ)
      (xs : List T) (p : Pool Shared T) (o : Option (Option T × Pool Shared T))
      → Holds p.queue xs
      → Tries p (Unit {0}) o
      → Takes xs p (try_others tasks meanwhile thread p)
      → Takes xs p (orelse o (λ q. try_others tasks meanwhile thread (meanwhile q)))
  own-Takes meanwhile still thread xs p none holds a others = a
  own-Takes meanwhile still thread xs p (some (none, q)) holds (same, _) others =
      subst (λ r. Takes xs p (try_others tasks meanwhile thread r)) (sym (still q ∙ same)) others
  own-Takes meanwhile still thread xs p (some (some task, q)) holds (same, counts) others =
      (xs, subst (λ s. Holds s xs) (sym same) holds, λ t. omega (arith, counts t))

  -- When the queue of the pool, any one that keeps the laws of `TaskQueue`, holds the tasks `xs`,
  -- and the pool has at least one and fewer than 2 ^ 63 inner queues, a thread of the pool, or one
  -- that has no inner queue, that calls `try_take_task` while no other thread touches the pool
  -- does nothing undefined. If it gets a task, that one is taken out of the pool: for every test
  -- `t` the tasks that pass it and waited, in the queue or the inner ones, are as many as the task
  -- given and those that wait now. If it gets none, `xs` and the inner queues were empty and still
  -- are.
  pub try_take_task-Takes :
      (meanwhile : Pool Shared T → Pool Shared T) (still : Still meanwhile) (thread : Option ℕ)
      (xs : List T) (p : Pool Shared T)
      → Holds p.queue xs
      → IsThread (length p.inner_queues) thread
      → length p.inner_queues < 2 ^ 63
      → 0 < length p.inner_queues
      → Takes xs p (try_take_task tasks meanwhile thread p)
  unfolding try_take_task
  try_take_task-Takes meanwhile still thread xs p holds fit small lt =
      subst (Takes xs p)
        (sym
          (elim-orelse (try_own thread p) (λ q. try_others tasks meanwhile thread (meanwhile q))))
        (own-Takes meanwhile still thread xs p (try_own thread p) holds (own-Tries thread p fit)
          (others-Takes meanwhile still thread xs p holds fit small lt))
