-- ===== src/Threadpool/Counted.antt =====
-- Whatever the threads do, in whatever order: no task is lost, and none is taken twice.
use mathlib.Core.Path.{subst}
use ubuntu_projects.Base.{
  ℕ, ◌+◌, ◌≡◌, refl, sym, ◌∙◌, Bool, Option, none, some, List, [], ◌∷◌, ◌++◌, arith, length, count,
  count-append, ◌<◌,
}
use ubuntu_projects.Threadpool.Tasks.{TaskQueue, Becomes, GivesFirst}
use ubuntu_projects.Threadpool.Inner.{
  taken, count_all, steal-count, pop-count, push-count, InnerBalanced, on_inner-InnerBalanced,
}
use ubuntu_projects.Threadpool.{
  Pool, inner_push, inner_try_pop, inner_try_steal, on_inner, with_queue, queue_pop, assign_task,
  stop,
}

-- A critical section: a task is assigned, by a thread of the pool or another one, or taken from the
-- front of an inner queue, from the queue of the pool or from the back of an inner queue.
pub data Section (T : Type 0) : Type 0 where
  assigns : Option ℕ → ℕ → T → Section T
  takes_own : ℕ → Section T
  takes : Section T
  steals : ℕ → Section T
  stops : Section T

abbrev pub put_in : {T : Type 0} → Section T → List T
put_in (assigns thread a task) = task ∷ []
put_in _ = []

abbrev pub put_in_all : {T : Type 0} → List (Section T) → List T
put_in_all [] = []
put_in_all (c ∷ cs) = put_in c ++ put_in_all cs

module _ {T : Type 0} (tasks : TaskQueue T) where
  open tasks use {Shared, Holds, IsNew, push, pop}

  -- what is given out, as a list
  abbrev pub listed : Option (Option T × Pool Shared T) → Option (List T × Pool Shared T)
  listed none = none
  listed (some (o, q)) = some (taken o, q)

  abbrev pub without_task : Option (Pool Shared T) → Option (List T × Pool Shared T)
  without_task none = none
  without_task (some q) = some ([], q)

  -- The tasks that are given out; an inner queue that is not there is undefined.
  abbrev pub perform : Section T → Pool Shared T → Option (List T × Pool Shared T)
  perform (assigns thread a task) p = without_task (assign_task tasks thread a task p)
  perform (takes_own i) p = listed (on_inner inner_try_pop i p)
  perform takes p = listed (queue_pop tasks p)
  perform (steals i) p = listed (on_inner inner_try_steal i p)
  perform stops p = some ([], stop p)

  -- The section uses inner queues that are there, and a new address.
  abbrev pub Fits : Pool Shared T → Section T → Type 0
  Fits p (assigns none a task) = IsNew p.queue a
  Fits p (assigns (some i) a task) = i < length p.inner_queues
  Fits p (takes_own i) = i < length p.inner_queues
  Fits p (steals i) = i < length p.inner_queues
  Fits p _ = Unit {0}

  -- how many of these tasks and of those in the inner queues pass a test
  abbrev pub waiting : (T → Bool) → List T → Pool Shared T → ℕ
  waiting t xs p = count t xs + count_all t p.inner_queues

  -- Nothing is undefined, there are as many inner queues as before, and the tasks that pass the test and
  -- wait or come in are as many as those that are given out or still wait, in the queue of the pool, which
  -- held `xs`, or in the inner ones.
  abbrev pub Balanced :
      (T → Bool) → List T → List T → Pool Shared T → Option (List T × Pool Shared T) → Type 0
  Balanced t put xs p none = ⊥
  Balanced t put xs p (some (out, q)) =
      (ys : List T) × Holds q.queue ys
      × (length q.inner_queues ≡ length p.inner_queues)
      × (count t put + waiting t xs p ≡ count t out + waiting t ys q)

  listed-Balanced :
      (t : T → Bool) (put xs : List T) (p : Pool Shared T) (o : Option (Option T × Pool Shared T))
      → Holds p.queue xs
      → InnerBalanced t put p o
      → Balanced t put xs p (listed o)
  listed-Balanced t put xs p none holds b = b
  listed-Balanced t put xs p (some (o, q)) holds (same, lengths, counts) =
      (xs, subst (λ s. Holds s xs) (sym same) holds, lengths, omega (arith, counts))

  assign-listed :
      (i a : ℕ) (task : T) (p : Pool Shared T)
      → perform (assigns (some i) a task) p ≡ listed (on_inner (λ q. (none, inner_push task q)) i p)
  unfolding assign_task on_inner
  assign-listed i a task p = ground arith

  assign-Balanced :
      (t : T → Bool) (a : ℕ) (task : T) (xs : List T) (p : Pool Shared T)
      → Holds p.queue xs
      → IsNew p.queue a
      → Balanced t (task ∷ []) xs p (perform (assigns none a task) p)
  unfolding assign_task
  assign-Balanced t a task xs p holds new =
      go (push a task p.queue) (tasks.push-Becomes a task p.queue xs holds new)
    where
      go :
          (o : Option Shared)
          → Becomes Holds (xs ++ task ∷ []) o
          → Balanced t
              (task ∷ [])
              xs
              p
              (without_task (elim o [ none ↦ none | some s ↦ some (record p { queue = s }) ]))
      go none b = b
      go (some s) b = (xs ++ task ∷ [], b, refl, omega (arith, count-append t xs (task ∷ [])))

  take-Balanced :
      (t : T → Bool) (xs : List T) (p : Pool Shared T)
      → Holds p.queue xs
      → Balanced t [] xs p (listed (queue_pop tasks p))
  unfolding queue_pop
  take-Balanced t xs p holds = go xs (pop p.queue) (tasks.pop-GivesFirst p.queue xs holds)
    where
      go :
          (xs : List T) (o : Option (Option T × Shared))
          → GivesFirst Holds xs o
          → Balanced t [] xs p (listed (with_queue tasks p o))
      go [] none g = g
      go (x ∷ xs) none g = g
      go [] (some (r, s)) (e, g) = ([], g, refl, ground (arith, e))
      go (x ∷ xs) (some (r, s)) (e, g) = (xs, g, refl, ground (arith, e))

  perform-Balanced :
      (t : T → Bool) (c : Section T) (xs : List T) (p : Pool Shared T)
      → Holds p.queue xs
      → Fits p c
      → Balanced t (put_in c) xs p (perform c p)
  unfolding stop
  perform-Balanced t (assigns none a task) xs p holds new = assign-Balanced t a task xs p holds new
  perform-Balanced t (assigns (some i) a task) xs p holds lt =
      subst (Balanced t (task ∷ []) xs p) (sym (assign-listed i a task p)) (
        listed-Balanced t (task ∷ []) xs p (on_inner (λ q. (none, inner_push task q)) i p) holds (
          on_inner-InnerBalanced t (task ∷ []) (λ q. (none, inner_push task q)) i p lt
            (push-count t task)))
  perform-Balanced t (takes_own i) xs p holds lt =
      listed-Balanced t [] xs p (on_inner inner_try_pop i p) holds
        (on_inner-InnerBalanced t [] inner_try_pop i p lt (λ q. omega (arith, pop-count t q)))
  perform-Balanced t takes xs p holds fit = take-Balanced t xs p holds
  perform-Balanced t (steals i) xs p holds lt =
      listed-Balanced t [] xs p (on_inner inner_try_steal i p) holds
        (on_inner-InnerBalanced t [] inner_try_steal i p lt (λ q. omega (arith, steal-count t q)))
  perform-Balanced t stops xs p holds fit = (xs, holds, refl, refl)

  abbrev pub put_out : List T → Option (List T × Pool Shared T) → Option (List T × Pool Shared T)
  put_out out none = none
  put_out out (some (outs, q)) = some (out ++ outs, q)

  abbrev pub and_then :
      Option (List T × Pool Shared T)
      → (Pool Shared T → Option (List T × Pool Shared T))
      → Option (List T × Pool Shared T)
  and_then none f = none
  and_then (some (out, q)) f = put_out out (f q)

  -- the sections of all threads, in the order in which they come
  abbrev pub perform_all : List (Section T) → Pool Shared T → Option (List T × Pool Shared T)
  perform_all [] p = some ([], p)
  perform_all (c ∷ cs) p = and_then (perform c p) (perform_all cs)

  abbrev pub AfterFits : (Pool Shared T → Type 0) → Option (List T × Pool Shared T) → Type 0
  AfterFits F none = Unit {0}
  AfterFits F (some (out, q)) = F q

  -- Each section fits when it comes.
  abbrev pub AllFit : List (Section T) → Pool Shared T → Type 0
  AllFit [] p = Unit {0}
  AllFit (c ∷ cs) p = Fits p c × AfterFits (AllFit cs) (perform c p)

  put_out-Balanced :
      (t : T → Bool) (put puts xs ys out : List T) (p q : Pool Shared T)
      (o : Option (List T × Pool Shared T))
      → length q.inner_queues ≡ length p.inner_queues
      → count t put + waiting t xs p ≡ count t out + waiting t ys q
      → Balanced t puts ys q o
      → Balanced t (put ++ puts) xs p (put_out out o)
  put_out-Balanced t put puts xs ys out p q none same counts c = c
  put_out-Balanced t put puts xs ys out p q (some (outs, r)) same counts
        (zs, holds, lengths, more) =
      (
        zs,
        holds,
        lengths ∙ same,
        omega (arith, counts, more, count-append t put puts, count-append t out outs),
      )

  and_then-Balanced :
      (t : T → Bool) (put puts xs : List T) (p : Pool Shared T)
      (f : Pool Shared T → Option (List T × Pool Shared T)) (F : Pool Shared T → Type 0)
      (o : Option (List T × Pool Shared T))
      → Balanced t put xs p o
      → AfterFits F o
      → ((ys : List T) (q : Pool Shared T) → Holds q.queue ys → F q → Balanced t puts ys q (f q))
      → Balanced t (put ++ puts) xs p (and_then o f)
  and_then-Balanced t put puts xs p f F none b fit c = b
  and_then-Balanced t put puts xs p f F (some (out, q)) (ys, holds, same, counts) fit c =
      put_out-Balanced t put puts xs ys out p q (f q) same counts (c ys q holds fit)

  -- When the queue of the pool, any one that keeps the laws of `TaskQueue`, holds the tasks `xs`:
  -- however the critical sections of the threads interleave (a task is assigned, or taken from the
  -- front of an inner queue, from the queue of the pool or from the back of an inner queue, or the
  -- pool is stopped), as long as each one uses inner queues that are there, and a new address
  -- where it pushes to the queue of the pool, nothing is undefined, there are as many inner queues
  -- as before, and for every test `t` the tasks that pass it and waited or came in are as many as
  -- those that were given out or still wait.
  pub sections-Balanced :
      (t : T → Bool) (cs : List (Section T)) (xs : List T) (p : Pool Shared T)
      → Holds p.queue xs
      → AllFit cs p
      → Balanced t (put_in_all cs) xs p (perform_all cs p)
  sections-Balanced t [] xs p holds fit = (xs, holds, refl, refl)
  sections-Balanced t (c ∷ cs) xs p holds (fit, fits) =
      and_then-Balanced t (put_in c) (put_in_all cs) xs p (perform_all cs) (AllFit cs) (perform c p)
        (perform-Balanced t c xs p holds fit) fits (λ ys q h f. sections-Balanced t cs ys q h f)
