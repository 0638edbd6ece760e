-- ===== src/Threadpool/Kept.antt =====
-- What taking a task leaves as it is: the number of inner queues, and whether the pool is stopped.
use mathlib.Core.Path.{subst}
use ubuntu_projects.Base.{
  ℕ, zero, suc, ◌+◌, ◌%◌, ◌≡◌, refl, sym, ◌∙◌, Option, none, some, length, get_elem?, set,
  length-set,
}
use ubuntu_projects.Threadpool.{
  word, InnerQueue, Pool, inner_try_pop, inner_try_steal, on_inner, thread_index, steal_loop,
  try_steal_task, try_own, with_queue, queue_pop, try_others, try_take_task,
}
use ubuntu_projects.Threadpool.Tasks.{TaskQueue}
use ubuntu_projects.Threadpool.Rounds.{Still, orelse, elim-orelse}

module _ {S T : Type 0} where
  abbrev pub Keeps : Pool S T → Option (Option T × Pool S T) → Type 0
  Keeps p none = Unit {0}
  Keeps p (some (o, q)) = (length q.inner_queues ≡ length p.inner_queues) × (q.stopped ≡ p.stopped)

  Keeps-from :
      (p q : Pool S T) (o : Option (Option T × Pool S T))
      → length q.inner_queues ≡ length p.inner_queues
      → q.stopped ≡ p.stopped
      → Keeps q o
      → Keeps p o
  Keeps-from p q none same flag k = tt
  Keeps-from p q (some (o, r)) same flag (more, on) = (more ∙ same, on ∙ flag)

  pub orelse-Keeps :
      (p : Pool S T) (o : Option (Option T × Pool S T))
      (next : Pool S T → Option (Option T × Pool S T))
      → Keeps p o
      → ((q : Pool S T) → Keeps q (next q))
      → Keeps p (orelse o next)
  orelse-Keeps p none next k more = tt
  orelse-Keeps p (some (some task, q)) next k more = k
  orelse-Keeps p (some (none, q)) next k more = Keeps-from p q (next q) k.0 k.1 (more q)

  on_inner-Keeps :
      (f : InnerQueue T → Option T × InnerQueue T) (i : ℕ) (p : Pool S T) → Keeps p (on_inner f i p)
  unfolding on_inner
  on_inner-Keeps f i p = go (get_elem? p.inner_queues i)
    where
      go :
          (o : Option (InnerQueue T))
          → Keeps p (elim o [
            | none ↦ none
            | some q ↦ some ((f q).0, record p { inner_queues = set p.inner_queues i (f q).1 })
          ])
      go none = tt
      go (some q) = (length-set p.inner_queues i (f q).1, refl)

  steal_loop-Keeps :
      (meanwhile : Pool S T → Pool S T) (still : Still meanwhile) (thread : Option ℕ) (rounds i : ℕ)
      (p : Pool S T)
      → Keeps p (steal_loop meanwhile thread rounds i p)
  unfolding steal_loop
  steal_loop-Keeps meanwhile still thread zero i p = (refl, refl)
  steal_loop-Keeps meanwhile still thread (suc rounds) i p =
      let first =
        on_inner inner_try_steal ((thread_index thread + i + 1) % word % length p.inner_queues) p in
      subst (Keeps p)
        (sym (elim-orelse first (λ q. steal_loop meanwhile thread rounds (i + 1) (meanwhile q))))
        (orelse-Keeps p first (λ q. steal_loop meanwhile thread rounds (i + 1) (meanwhile q))
          (on_inner-Keeps inner_try_steal _ p)
          (λ q.
            subst (λ r. Keeps q (steal_loop meanwhile thread rounds (i + 1) r)) (sym (still q))
              (steal_loop-Keeps meanwhile still thread rounds (i + 1) q)))

  own-Keeps : (thread : Option ℕ) (p : Pool S T) → Keeps p (try_own thread p)
  unfolding try_own
  own-Keeps none p = (refl, refl)
  own-Keeps (some i) p = on_inner-Keeps inner_try_pop i p

module _ {T : Type 0} (tasks : TaskQueue T) where
  open tasks use {Shared, pop}

  queue_pop-Keeps : (p : Pool Shared T) → Keeps p (queue_pop tasks p)
  unfolding queue_pop
  queue_pop-Keeps p = go (pop p.queue)
    where
      go : (o : Option (Option T × Shared)) → Keeps p (with_queue tasks p o)
      go none = tt
      go (some (r, s)) = (refl, refl)

  others-Keeps :
      (meanwhile : Pool Shared T → Pool Shared T) (still : Still meanwhile) (thread : Option ℕ)
      (p : Pool Shared T)
      → Keeps p (try_others tasks meanwhile thread p)
  unfolding try_others try_steal_task
  others-Keeps meanwhile still thread p =
      subst (Keeps p)
        (sym (elim-orelse (queue_pop tasks p) (λ q. try_steal_task meanwhile thread (meanwhile q))))
        (orelse-Keeps p (queue_pop tasks p) (λ q. try_steal_task meanwhile thread (meanwhile q))
          (queue_pop-Keeps p)
          (λ q.
            subst (λ r. Keeps q (try_steal_task meanwhile thread r)) (sym (still q))
              (steal_loop-Keeps meanwhile still thread (length q.inner_queues) 0 q)))

  pub try_take_task-Keeps :
      (meanwhile : Pool Shared T → Pool Shared T) (still : Still meanwhile) (thread : Option ℕ)
      (p : Pool Shared T)
      → Keeps p (try_take_task tasks meanwhile thread p)
  unfolding try_take_task
  try_take_task-Keeps meanwhile still thread p =
      subst (Keeps p)
        (sym
          (elim-orelse (try_own thread p) (λ q. try_others tasks meanwhile thread (meanwhile q))))
        (orelse-Keeps p (try_own thread p) (λ q. try_others tasks meanwhile thread (meanwhile q))
          (own-Keeps thread p)
          (λ q.
            subst (λ r. Keeps q (try_others tasks meanwhile thread r)) (sym (still q))
              (others-Keeps meanwhile still thread q)))
