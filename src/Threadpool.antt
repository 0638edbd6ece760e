-- ===== src/Threadpool.antt =====
-- cppprojects/include/ts_lib/threadpool.h: threads that take tasks from a queue of their own, from the
-- queue of the pool and from each other. `m_queue` is any queue that is a `TaskQueue`; `Shared` has the
-- one of threadsafe_queue.h.
pub mod Tasks
pub mod Shared
pub mod Inner
pub mod Rounds
pub mod Index
pub mod Steal
pub mod Counted
pub mod Kept
pub mod Drained
mod Tests
use ubuntu_projects.Threadpool.Tasks.{TaskQueue}
use ubuntu_projects.Base.{
  ℕ, zero, suc, ◌+◌, ◌-◌, ◌%◌, ◌^◌, Bool, true, false, Option, none, some, List, [], ◌∷◌, ◌++◌,
  ◌==◌, if◌then◌else◌, length, get_elem?, set, replicate,
}

abbrev pub word : ℕ
word = 2 ^ 64

-- `inner_queue_type`, from the front
abbrev pub InnerQueue : Type 0 → Type 0
InnerQueue T = List T

-- `m_queue`, `m_stopped` and `m_inner_queues`
pub record Pool (S T : Type 0) : Type 0 where
  pub queue : S
  pub stopped : Bool
  pub inner_queues : List (InnerQueue T)

-- `tl_thread_index` of a thread of the pool, and -1 of another one, as a `std::size_t`
abbrev pub thread_index : Option ℕ → ℕ
thread_index none = word - 1
thread_index (some i) = i

module _ {T : Type 0} where
  unfoldable pub inner_push : T → InnerQueue T → InnerQueue T
  inner_push task q = q ++ task ∷ []

  unfoldable pub inner_try_pop : InnerQueue T → Option T × InnerQueue T
  inner_try_pop [] = (none, [])
  inner_try_pop (task ∷ q) = (some task, q)

  -- the last task of a queue, and those in front of it
  unfoldable pub inner_try_steal : InnerQueue T → Option T × InnerQueue T
  inner_try_steal [] = (none, [])
  inner_try_steal (task ∷ q) =
      let (r, rest) = inner_try_steal q in
      elim r [ none ↦ (some task, []) | some last ↦ (some last, task ∷ rest) ]

module _ {S T : Type 0} where
  -- A method of an inner queue, under its lock; an index out of range is undefined behaviour.
  unfoldable pub on_inner :
      (InnerQueue T → Option T × InnerQueue T) → ℕ → Pool S T → Option (Option T × Pool S T)
  on_inner f i p = elim (get_elem? p.inner_queues i) [
    | none ↦ none
    | some q ↦ some ((f q).0, record p { inner_queues = set p.inner_queues i (f q).1 })
  ]

  -- What other threads do to the pool between two attempts to take a task, each of which holds its own
  -- lock, is the parameter `meanwhile`.
  -- The loop of `try_steal_task` with so many rounds to go, from round `i`. A remainder by 0 does not
  -- come up, since the loop has no round then.
  unfoldable pub steal_loop :
      (Pool S T → Pool S T) → Option ℕ → ℕ → ℕ → Pool S T → Option (Option T × Pool S T)
  steal_loop meanwhile thread zero i p = some (none, p)
  steal_loop meanwhile thread (suc rounds) i p =
      elim (on_inner inner_try_steal ((thread_index thread + i + 1) % word % length p.inner_queues)
        p) [
          | none ↦ none
          | some (some task, q) ↦ some (some task, q)
          | some (none, q) ↦ steal_loop meanwhile thread rounds (i + 1) (meanwhile q)
        ]

  unfoldable pub try_steal_task :
      (Pool S T → Pool S T) → Option ℕ → Pool S T → Option (Option T × Pool S T)
  try_steal_task meanwhile thread p = steal_loop meanwhile thread (length p.inner_queues) 0 p

  -- the own queue of a thread of the pool
  unfoldable pub try_own : Option ℕ → Pool S T → Option (Option T × Pool S T)
  try_own none p = some (none, p)
  try_own (some i) p = on_inner inner_try_pop i p

  unfoldable pub stop : Pool S T → Pool S T
  stop p = record p { stopped = true }

  -- The constructor, with a new queue and the number of threads that the hardware has.
  unfoldable pub thread_pool : S → ℕ → Pool S T
  thread_pool queue hardware_concurrency = record {
    queue = queue;
    stopped = false;
    inner_queues = replicate (if hardware_concurrency == 0 then 1 else hardware_concurrency) [];
  }

module _ {T : Type 0} (tasks : TaskQueue T) where
  open tasks use {Shared, push, pop}

  abbrev pub with_queue :
      Pool Shared T → Option (Option T × Shared) → Option (Option T × Pool Shared T)
  with_queue p none = none
  with_queue p (some (r, s)) = some (r, record p { queue = s })

  -- `m_queue.pop`
  unfoldable pub queue_pop : Pool Shared T → Option (Option T × Pool Shared T)
  queue_pop p = with_queue p (pop p.queue)

  -- the queue of the pool, and then those of the other threads
  unfoldable pub try_others :
      (Pool Shared T → Pool Shared T) → Option ℕ → Pool Shared T → Option (Option T × Pool Shared T)
  try_others meanwhile thread p = elim (queue_pop p) [
    | none ↦ none
    | some (some task, q) ↦ some (some task, q)
    | some (none, q) ↦ try_steal_task meanwhile thread (meanwhile q)
  ]

  -- The three attempts one after another, each of them under its own locks. A thread without an inner queue has no number, and a thread of the pool
  -- has the inner queue of its number; a thread of another pool, which has an inner queue that is not
  -- this pool's, is left out.
  unfoldable pub try_take_task :
      (Pool Shared T → Pool Shared T) → Option ℕ → Pool Shared T → Option (Option T × Pool Shared T)
  try_take_task meanwhile thread p = elim (try_own thread p) [
    | none ↦ none
    | some (some task, q) ↦ some (some task, q)
    | some (none, q) ↦ try_others meanwhile thread (meanwhile q)
  ]

  -- The address is the one that a push to the queue of the pool takes for its new node.
  unfoldable pub assign_task : Option ℕ → ℕ → T → Pool Shared T → Option (Pool Shared T)
  assign_task none a task p = elim (push a task p.queue) [
    | none ↦ none
    | some s ↦ some (record p { queue = s })
  ]
  assign_task (some i) a task p = elim (on_inner (λ q. (none, inner_push task q)) i p) [
    | none ↦ none
    | some (r, q) ↦ some q
  ]

-- What running a task does to the pool is a parameter: a task may assign tasks or stop the pool, and
-- does not return where it is `none`.
module _ {T : Type 0} (tasks : TaskQueue T)
    (effect : T → Pool tasks.Shared T → Option (Pool tasks.Shared T))
    (meanwhile : Pool tasks.Shared T → Pool tasks.Shared T) where
  open tasks use {Shared}

  -- One round of a thread: the task that it takes is run, behind those that have been run; without a
  -- task it yields.
  unfoldable pub try_work : Option ℕ → List T × Pool Shared T → Option (List T × Pool Shared T)
  try_work thread (run, p) = elim (try_take_task tasks meanwhile thread p) [
    | none ↦ none
    | some (none, q) ↦ some (run, meanwhile q)
    | some (some task, q) ↦ elim (effect task q) [
      | none ↦ none
      | some r ↦ some (run ++ task ∷ [], meanwhile r)
    ]
  ]

  -- The loop of a thread, for so many rounds at most.
  unfoldable pub thread_worker : ℕ → ℕ → List T × Pool Shared T → Option (List T × Pool Shared T)
  thread_worker zero index s = some s
  thread_worker (suc rounds) index s =
      if s.1.stopped
      then some s
      else elim (try_work (some index) s) [ none ↦ none | some t ↦ thread_worker rounds index t ]
