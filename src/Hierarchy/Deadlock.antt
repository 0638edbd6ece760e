-- ===== src/Hierarchy/Deadlock.antt =====
-- Threads that wait for each other, in any state that calls of the methods lead to.
use mathlib.Core.Path.{subst}
use ubuntu_projects.Base.{ℕ, ◌≡◌, ◌<◌, Option, none, some, List, [], ◌∷◌, arith}
use ubuntu_projects.Hierarchy.{
  State, Outcome, hierarchy_violation, blocked, done, undefined, initial, check, update_hierarchy,
  lock, release, unlock, try_lock,
}
use ubuntu_projects.Hierarchy.Order.{
  Ordered, initial-Ordered, update_hierarchy-Ordered, release-Ordered,
}

-- A call of a method, by a thread and on a mutex.
pub data Method : Type 0 where
  locks : ℕ → ℕ → Method
  unlocks : ℕ → ℕ → Method
  tries : ℕ → ℕ → Method

-- An exception changes nothing, and a thread that is blocked may try again.
abbrev pub after : {R : Type 0} → State → Outcome R → Option State
after s hierarchy_violation = some s
after s blocked = some s
after s (done r t) = some t
after s undefined = none

module _ (hierarchy : ℕ → ℕ) where
  abbrev pub perform : Method → State → Option State
  perform (locks t m) s = after s (lock hierarchy t m s)
  perform (unlocks t m) s = after s (unlock hierarchy t m s)
  perform (tries t m) s = after s (try_lock hierarchy t m s)

  abbrev pub perform_all : List Method → Option State → Option State
  perform_all cs none = none
  perform_all [] (some s) = some s
  perform_all (c ∷ cs) (some s) = perform_all cs (perform c s)

  -- Thread `t` waits for `u`, which holds the mutex that `t` is about to lock.
  pub data Waits (s : State) (t u : ℕ) : Type 0 where
    waits : (m : ℕ) → lock hierarchy t m s ≡ blocked → s.owner m ≡ some u → Waits s t u

  -- Thread `t` waits for a thread that waits, and so on, for `u`.
  pub data Chain (s : State) : ℕ → ℕ → Type 0 where
    one : {t u : ℕ} → Waits s t u → Chain s t u
    more : {t u v : ℕ} → Waits s t u → Chain s u v → Chain s t v

  abbrev AllOrdered : Option State → Type 0
  AllOrdered none = Unit {0}
  AllOrdered (some s) = Ordered hierarchy s

  lock-Ordered :
      (t m : ℕ) (s : State) → Ordered hierarchy s → AllOrdered (after s (lock hierarchy t m s))
  unfolding lock
  lock-Ordered t m s ordered = ground (arith, update_hierarchy-Ordered hierarchy t m s ordered)

  try_lock-Ordered :
      (t m : ℕ) (s : State) → Ordered hierarchy s → AllOrdered (after s (try_lock hierarchy t m s))
  unfolding try_lock
  try_lock-Ordered t m s ordered = ground (arith, update_hierarchy-Ordered hierarchy t m s ordered)

  unlock-Ordered :
      (t m : ℕ) (s : State) → Ordered hierarchy s → AllOrdered (after s (unlock hierarchy t m s))
  unfolding unlock
  unlock-Ordered t m s ordered = ground (arith, release-Ordered hierarchy t m s ordered)

  perform-Ordered : (c : Method) (s : State) → Ordered hierarchy s → AllOrdered (perform c s)
  perform-Ordered (locks t m) s ordered = lock-Ordered t m s ordered
  perform-Ordered (unlocks t m) s ordered = unlock-Ordered t m s ordered
  perform-Ordered (tries t m) s ordered = try_lock-Ordered t m s ordered

  perform_all-Ordered :
      (cs : List Method) (o : Option State) → AllOrdered o → AllOrdered (perform_all cs o)
  perform_all-Ordered cs none ordered = tt
  perform_all-Ordered [] (some s) ordered = ordered
  perform_all-Ordered (c ∷ cs) (some s) ordered =
      perform_all-Ordered cs (perform c s) (perform-Ordered c s ordered)

  reached-Ordered :
      (cs : List Method) (s : State) → perform_all cs (some initial) ≡ some s → Ordered hierarchy s
  reached-Ordered cs s e =
      subst AllOrdered e (perform_all-Ordered cs (some initial) (initial-Ordered hierarchy))

  Waits-descends :
      (s : State) (t u : ℕ)
      → Ordered hierarchy s
      → Waits s t u
      → s.this_thread_h u < s.this_thread_h t
  unfolding lock check
  Waits-descends s t u ordered (waits m stuck held) = ground (arith, ordered.below m u)

  Chain-descends :
      (s : State) (t u : ℕ)
      → Ordered hierarchy s
      → Chain s t u
      → s.this_thread_h u < s.this_thread_h t
  Chain-descends s t u ordered (one w) = Waits-descends s t u ordered w
  Chain-descends s t v ordered (more {u = u} w c) =
      omega (arith, Waits-descends s t u ordered w, Chain-descends s u v ordered c)

  -- In any state that `lock`, `unlock` and `try_lock`, called by any threads in any order, lead to
  -- from the start, without undefined behaviour, no thread waits in `lock` for a thread that waits
  -- for a thread, and so on, back to itself: there is no deadlock.
  pub Chain-acyclic :
      (cs : List Method) (s : State) (t : ℕ)
      → perform_all cs (some initial) ≡ some s
      → ¬ (Chain s t t)
  Chain-acyclic cs s t reached c =
      let lt = Chain-descends s t t (reached-Ordered cs s reached) c in omega (arith, lt)

  -- In any such state, a thread that locks a mutex that it holds, by `lock` or `try_lock`, gets
  -- the exception and is not blocked.
  pub lock-own :
      (cs : List Method) (s : State) (t m : ℕ)
      → perform_all cs (some initial) ≡ some s
      → s.owner m ≡ some t
      → (lock hierarchy t m s ≡ hierarchy_violation)
        × (try_lock hierarchy t m s ≡ hierarchy_violation)
  unfolding lock try_lock check
  lock-own cs s t m reached mine =
      let ordered = reached-Ordered cs s reached in
      (ground (arith, ordered.below m t), ground (arith, ordered.below m t))

  -- When a mutex is free and its level is below that of the thread, `lock` and then `unlock`
  -- succeed, and after them every thread `k` has the level, and every mutex `k` the owner, that it
  -- had before.
  pub unlock-lock :
      (t m k : ℕ) (s : State)
      → hierarchy m < s.this_thread_h t
      → s.owner m ≡ none
      → (u v : State) × (lock hierarchy t m s ≡ done tt u)
        × (unlock hierarchy t m u ≡ done tt v)
        × (v.this_thread_h k ≡ s.this_thread_h k)
        × (v.owner k ≡ s.owner k)
  unfolding lock unlock check update_hierarchy release
  unlock-lock t m k s lower free =
      let u = update_hierarchy hierarchy t m s in
      (u, release hierarchy t m u, ground arith, ground arith, ground arith, ground arith)
