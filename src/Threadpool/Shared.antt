-- ===== src/Threadpool/Shared.antt =====
-- The queue of threadsafe_queue.h as the queue of a pool.
use mathlib.Core.List.{append-nil}
use mathlib.Core.Path.{subst}
use ubuntu_projects.Base.{ℕ, ◌≡◌, refl, sym, Option, none, some, List, [], ◌∷◌, ◌++◌}
use ubuntu_projects.Waits.{PopStatus}
use ubuntu_projects.Queue.Memory.{Sized}
use ubuntu_projects.Queue.{State, pop, push, emplace, get_tail_protected}
use ubuntu_projects.Queue.Push.{Holds, emplace-Holds}
use ubuntu_projects.Queue
use ubuntu_projects.Queue.Concurrent.{Pops, late_pop-Pops}
use ubuntu_projects.Threadpool.Tasks.{Becomes, GivesFirst, TaskQueue}

module _ {T : Type 0} ⦃sized : Sized T⦄ where
  -- A task has come out if the status is `ready`.
  abbrev pub task_of : Option ((PopStatus × T) × State T) → Option (Option T × State T)
  task_of none = none
  task_of (some ((PopStatus.ready, task), s)) = some (some task, s)
  task_of (some ((_, task), s)) = some (none, s)

  task_of-GivesFirst :
      (ret : T) (xs : List T) (o : Option ((PopStatus × T) × State T))
      → Pops ret xs [] o
      → GivesFirst Holds xs (task_of o)
  task_of-GivesFirst ret [] none pops = pops
  task_of-GivesFirst ret (x ∷ xs) none pops = pops
  task_of-GivesFirst ret [] (some (r, s)) (e, holds) =
      subst (λ v. GivesFirst Holds [] (task_of (some (v, s)))) (sym e) (refl, holds)
  task_of-GivesFirst ret (x ∷ xs) (some (r, s)) (e, holds) =
      subst (λ v. GivesFirst Holds (x ∷ xs) (task_of (some (v, s)))) (sym e)
        (refl, subst (Holds s) (append-nil xs) holds)

  pub push-Becomes :
      (a : ℕ) (x : T) (s : State T) (xs : List T)
      → Holds s xs
      → s.0 a ≡ none
      → Becomes Holds (xs ++ x ∷ []) (push a x s)
  unfolding push
  push-Becomes a x s xs holds free = go (emplace a x s) (emplace-Holds a x s xs holds free)
    where
      go :
          (o : Option (State T))
          → Queue.Push.Becomes o (xs ++ x ∷ [])
          → Becomes Holds (xs ++ x ∷ []) o
      go none b = b
      go (some u) b = b

  pub pop-GivesFirst :
      (ret : T) (s : State T) (xs : List T) → Holds s xs → GivesFirst Holds xs (task_of (pop ret s))
  unfolding pop
  pop-GivesFirst ret s xs holds =
      task_of-GivesFirst ret xs (pop ret s) (late_pop-Pops ret [] s xs holds tt)

  -- `task` is what the task of the caller is before `pop`.
  abbrev pub shared_queue : T → TaskQueue T
  shared_queue task = record {
    Shared = State T;
    push = push;
    pop = λ s. task_of (pop task s);
    Holds = Holds;
    IsNew = λ s a. s.0 a ≡ none;
    push-Becomes = push-Becomes;
    pop-GivesFirst = pop-GivesFirst task;
  }
