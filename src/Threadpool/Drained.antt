-- ===== src/Threadpool/Drained.antt =====
-- The loop of one thread, when tasks assign no tasks and nobody else touches the pool.
use mathlib.Core.Path.{subst}
use ubuntu_projects.Base.{
  ℕ, zero, suc, ◌+◌, ◌^◌, ◌≤◌, ◌<◌, ◌≡◌, refl, ap, sym, ◌∙◌, Bool, true, false, Option, none, some,
  List, [], ◌∷◌, ◌++◌, arith, length, get_elem?, count, count-append, if◌then◌else◌,
}
use ubuntu_projects.Threadpool.{Pool, InnerQueue, try_take_task, try_work, thread_worker}
use ubuntu_projects.Threadpool.Rounds.{Still}
use ubuntu_projects.Threadpool.Tasks.{TaskQueue}
use ubuntu_projects.Threadpool.Inner.{count_all}
use ubuntu_projects.Threadpool.Steal.{Takes, try_take_task-Takes}
use ubuntu_projects.Threadpool.Kept.{Keeps, try_take_task-Keeps}

module _ {T : Type 0} where
  -- every task
  abbrev pub any : T → Bool
  any task = true

  count-any : (t : T → Bool) (xs : List T) → count t xs ≤ count any xs
  count-any t [] = omega arith
  count-any t (x ∷ xs) = ground (arith, count-any t xs)

  count_all-any : (t : T → Bool) (qs : List (InnerQueue T)) → count_all t qs ≤ count_all any qs
  count_all-any t [] = omega arith
  count_all-any t (q ∷ qs) = omega (arith, count-any t q, count_all-any t qs)

  nil_of_count : (xs : List T) → count any xs ≡ 0 → xs ≡ []
  nil_of_count [] e = refl
  nil_of_count (x ∷ xs) e = absurd (omega (arith, e))

  count_all-empty :
      (t : T → Bool) (qs : List (InnerQueue T))
      → ((j : ℕ) → j < length qs → get_elem? qs j ≡ some [])
      → count_all t qs ≡ 0
  count_all-empty t [] h = refl
  count_all-empty t (q ∷ qs) h =
      let first = h 0 (omega arith) in
      let rest = count_all-empty t qs (λ j lt. h (suc j) (omega (arith, lt))) in
      ground (arith, first, rest)

-- The tasks leave the pool as it is: they assign no tasks and do not stop it.
abbrev pub Quiet : {S T : Type 0} → (T → Pool S T → Option (Pool S T)) → Type 0
Quiet {S} {T} effect = (task : T) (q : Pool S T) → effect task q ≡ some q

module _ {T : Type 0} (tasks : TaskQueue T) where
  open tasks use {Shared, Holds}

  -- the tasks that wait, of those that pass a test
  abbrev pub waiting : (T → Bool) → List T → Pool Shared T → ℕ
  waiting t xs p = count t xs + count_all t p.inner_queues

  -- Nothing is undefined, no task waits any more, and those that waited have been run, each as often
  -- as it was there, behind those that had been run.
  abbrev pub Drained : List T → List T → Pool Shared T → Option (List T × Pool Shared T) → Type 0
  Drained run xs p none = ⊥
  Drained run xs p (some (ran, q)) =
      Holds q.queue []
      × (count_all any q.inner_queues ≡ 0)
      × ((t : T → Bool) → count t ran ≡ count t run + waiting t xs p)

  more-Drained :
      (run ran xs ys : List T) (p q : Pool Shared T) (o : Option (List T × Pool Shared T))
      → ((t : T → Bool) → count t ran + waiting t ys q ≡ count t run + waiting t xs p)
      → Drained ran ys q o
      → Drained run xs p o
  more-Drained run ran xs ys p q none same d = d
  more-Drained run ran xs ys p q (some (out, r)) same (holds, empty, counts) =
      (holds, empty, λ t. counts t ∙ same t)

module _ {T : Type 0} (tasks : TaskQueue T)
    (effect : T → Pool tasks.Shared T → Option (Pool tasks.Shared T)) (quiet : Quiet effect)
    (meanwhile : Pool tasks.Shared T → Pool tasks.Shared T) (still : Still meanwhile) where
  open tasks use {Shared, Holds}

  -- the rounds behind an attempt to take a task
  abbrev next : ℕ → ℕ → List T → Option (Option T × Pool Shared T) → Option (List T × Pool Shared T)
  next rounds index run none = none
  next rounds index run (some (none, q)) =
      thread_worker tasks effect meanwhile rounds index (run, q)
  next rounds index run (some (some task, q)) =
      thread_worker tasks effect meanwhile rounds index (run ++ task ∷ [], q)

  otherwise : {A : Type 0} (b : Bool) (x y : A) → b ≡ false → (if b then x else y) ≡ y
  otherwise b x y e = rw e refl

  thread_worker-next :
      (rounds index : ℕ) (run : List T) (p : Pool Shared T)
      → p.stopped ≡ false
      → thread_worker tasks effect meanwhile (suc rounds) index (run, p)
        ≡ next rounds index run (try_take_task tasks meanwhile (some index) p)
  unfolding thread_worker try_work
  thread_worker-next rounds index run p on =
      otherwise p.stopped _ _ on ∙ go (try_take_task tasks meanwhile (some index) p)
    where
      go :
          (o : Option (Option T × Pool Shared T))
          → (elim (elim o as (λ _. Option (List T × Pool Shared T)) [
            | none ↦ none
            | some (none, q) ↦ some (run, meanwhile q)
            | some (some task, q) ↦ elim (effect task q) [
              | none ↦ none
              | some r ↦ some (run ++ task ∷ [], meanwhile r)
            ]
          ]) [ none ↦ none | some t ↦ thread_worker tasks effect meanwhile rounds index t ])
            ≡ next rounds index run o
      go none = refl
      go (some (none, q)) = rw (still q) refl
      go (some (some task, q)) = rw (quiet task q, still q) refl

  round-Drained :
      (rounds index : ℕ) (run xs : List T) (p : Pool Shared T)
      (o : Option (Option T × Pool Shared T))
      → index < length p.inner_queues
      → length p.inner_queues < 2 ^ 63
      → p.stopped ≡ false
      → waiting tasks any xs p ≤ suc rounds
      → Takes tasks xs p o
      → Keeps p o
      → ((ran ys : List T) (q : Pool Shared T)
          → Holds q.queue ys
          → q.stopped ≡ false
          → index < length q.inner_queues
          → length q.inner_queues < 2 ^ 63
          → waiting tasks any ys q ≤ rounds
          → Drained tasks ran ys q (thread_worker tasks effect meanwhile rounds index (ran, q)))
      → Drained tasks run xs p (next rounds index run o)
  round-Drained rounds index run xs p none lt small on few takes keeps rest = takes
  round-Drained rounds index run xs p (some (none, q)) lt small on few (nil, holds, same, empty)
        keeps rest =
      let nothing = λ (t : T → Bool). count_all-empty t p.inner_queues empty in
      let left = λ (t : T → Bool). ap (count_all t) same ∙ nothing t in
      more-Drained tasks run run xs [] p q
        (thread_worker tasks effect meanwhile rounds index (run, q))
        (λ t. omega (arith, left t, nothing t, ap (count t) nil))
        (rest run [] q holds (keeps.1 ∙ on) (omega (arith, keeps.0)) (omega (arith, keeps.0))
          (omega (arith, left any)))
  round-Drained rounds index run xs p (some (some task, q)) lt small on few (ys, holds, counts)
        keeps rest =
      more-Drained tasks run (run ++ task ∷ []) xs ys p q
        (thread_worker tasks effect meanwhile rounds index (run ++ task ∷ [], q))
        (λ t. omega (arith, counts t, count-append t run (task ∷ [])))
        (rest (run ++ task ∷ []) ys q holds (keeps.1 ∙ on) (omega (arith, keeps.0))
          (omega (arith, keeps.0)) (omega (arith, counts any)))

  -- When the queue of the pool, any one that keeps the laws of `TaskQueue`, holds the tasks `xs`,
  -- the pool is not stopped and has fewer than 2 ^ 63 inner queues, no other thread touches it and
  -- the tasks leave it as it is (they assign no tasks and do not stop it), the loop of a thread of
  -- the pool, with a round for each task that waits in the queue or in an inner one, does nothing
  -- undefined and leaves no task waiting: behind the tasks that had been run it has run those that
  -- waited, for every test `t` as many that pass it as there were.
  pub thread_worker-Drained :
      (rounds index : ℕ) (run xs : List T) (p : Pool Shared T)
      → Holds p.queue xs
      → p.stopped ≡ false
      → index < length p.inner_queues
      → length p.inner_queues < 2 ^ 63
      → waiting tasks any xs p ≤ rounds
      → Drained tasks run xs p (thread_worker tasks effect meanwhile rounds index (run, p))
  unfolding thread_worker
  thread_worker-Drained zero index run xs p holds on lt small few =
      let none_there = nil_of_count xs (omega arith) in
      (
        subst (Holds p.queue) none_there holds,
        omega arith,
        λ t. omega (arith, count-any t xs, count_all-any t p.inner_queues),
      )
  thread_worker-Drained (suc rounds) index run xs p holds on lt small few =
      subst (Drained tasks run xs p) (sym (thread_worker-next rounds index run p on)) (
        round-Drained rounds index run xs p (try_take_task tasks meanwhile (some index) p) lt small
          on few
          (try_take_task-Takes tasks meanwhile still (some index) xs p holds lt small (omega arith))
          (try_take_task-Keeps tasks meanwhile still (some index) p)
          (thread_worker-Drained rounds index))
