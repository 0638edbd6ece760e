-- ===== src/Threadpool/Tests.antt =====
-- The theorems on threadpool.h at a pool of three threads with numbers as tasks, over the queue of
-- threadsafe_queue.h.
use ubuntu_projects.Base.{ℕ, ◌==◌, refl, false, none, some, List, [], ◌∷◌, arith}
use ubuntu_projects.Queue.Memory.{Sized, write}
use ubuntu_projects.Queue.{
  State, new, push, emplace, construct_data, set_next, pop, pop_unprotected, get_tail_protected,
  pop_unprotected_unchecked, advance,
}
use ubuntu_projects.Queue.Push.{new-Holds}
use ubuntu_projects.Threadpool.{
  Pool, thread_worker, try_take_task, assign_task, on_inner, inner_push, inner_try_steal,
  inner_try_pop, queue_pop, stop,
}
use ubuntu_projects.Threadpool.Tasks.{TaskQueue}
use ubuntu_projects.Threadpool.Shared.{shared_queue}
use ubuntu_projects.Threadpool.Drained.{Drained, thread_worker-Drained}
use ubuntu_projects.Threadpool.Steal.{Takes, try_take_task-Takes}
use ubuntu_projects.Threadpool.Counted.{
  Section, assigns, takes_own, takes, steals, stops, Balanced, AllFit, put_in_all, perform_all,
  sections-Balanced,
}

-- A task has the size of the pointer that `ptask_wrapper` holds.
instance abbrev task_sized : Sized ℕ
task_sized = record { size_of = 8 }

abbrev tasks : TaskQueue ℕ
tasks = shared_queue 0

-- The dummy node of the queue stands at 7.
abbrev no_tasks : State ℕ
no_tasks = new 7 (λ a. none)

abbrev pool : Pool (State ℕ) ℕ
pool = record { queue = no_tasks; stopped = false; inner_queues = [] ∷ [] ∷ (7 ∷ 8 ∷ []) ∷ [] }

try_take_task-Takes_example : Takes tasks [] pool (try_take_task tasks (λ q. q) (some 1) pool)
try_take_task-Takes_example =
    try_take_task-Takes tasks (λ q. q) (λ q. refl) (some 1) [] pool
      (new-Holds 7 (λ a. none) (omega arith)) (omega arith) (omega arith) (omega arith)

abbrev sections : List (Section ℕ)
sections =
    assigns none 8 5
    ∷ assigns (some 1) 0 6
    ∷ steals 2
    ∷ takes
    ∷ takes_own 1
    ∷ stops
    ∷ takes_own 0
    ∷ []

sections-AllFit : AllFit tasks sections pool
unfolding new write push emplace construct_data set_next pop pop_unprotected get_tail_protected
    pop_unprotected_unchecked advance assign_task on_inner inner_push inner_try_steal inner_try_pop
    queue_pop stop
sections-AllFit = (refl, (omega arith, (omega arith, (tt, (omega arith, (tt, (omega arith, tt)))))))

sections-Balanced_example :
    Balanced tasks (λ n. n == 8) (put_in_all sections) [] pool (perform_all tasks sections pool)
sections-Balanced_example =
    sections-Balanced tasks (λ n. n == 8) sections [] pool (new-Holds 7 (λ a. none) (omega arith))
      sections-AllFit

thread_worker-Drained_example :
    Drained tasks [] [] pool (thread_worker tasks (λ task q. some q) (λ q. q) 2 0 ([], pool))
thread_worker-Drained_example =
    thread_worker-Drained tasks (λ task q. some q) (λ task q. refl) (λ q. q) (λ q. refl) 2 0 [] []
      pool (new-Holds 7 (λ a. none) (omega arith)) refl (omega arith) (omega arith) (omega arith)
