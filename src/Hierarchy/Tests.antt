-- ===== src/Hierarchy/Tests.antt =====
-- The theorems on hierarchy_mutex.h at three mutexes, whose levels are ten times their numbers.
use ubuntu_projects.Base.{ℕ, ◌*◌, ◌≡◌, refl, some, List, [], ◌∷◌}
use ubuntu_projects.Hierarchy.{State, initial, check, update_hierarchy, lock, try_lock}
use ubuntu_projects.Hierarchy.Deadlock.{
  Method, locks, tries, perform_all, Waits, waits, Chain, one, Chain-acyclic,
}

abbrev level : ℕ → ℕ
level m = 10 * m

-- Thread 0 has mutex 3 and thread 1 has mutex 2; each of them has tried mutex 3 or 2 too.
abbrev calls : List Method
calls = locks 0 3 ∷ locks 1 2 ∷ tries 1 3 ∷ tries 0 2 ∷ []

abbrev two_held : State
two_held = update_hierarchy level 1 2 (update_hierarchy level 0 3 initial)

calls-two_held : perform_all level calls (some initial) ≡ some two_held
unfolding lock try_lock check update_hierarchy initial
calls-two_held = refl

zero-Waits : Waits level two_held 0 1
unfolding lock check update_hierarchy initial
zero-Waits = waits 2 refl refl

zero-Chain : Chain level two_held 0 1
zero-Chain = one zero-Waits

Chain-acyclic_example : ¬ (Chain level two_held 0 0)
Chain-acyclic_example = Chain-acyclic level calls two_held 0 calls-two_held
