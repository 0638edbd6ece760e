-- ===== src/Jointhread/Move.antt =====
-- What becomes of the threads of two objects, one of which is moved into the other.
use ubuntu_projects.Base.{ℕ, ◌≡◌, ◌≢◌, Option, none, some, List, ◌∷◌, ◌==◌, if◌then◌else◌, arith}
use ubuntu_projects.Jointhread.{
  Threads, Outcome, done, terminated, joinable, join, thread_assign, thread_destroy, check_join,
  assign, destroy, guard_destroy, guard_assign,
}

-- a thread in front of the threads that have been joined
abbrev pub joins : Option ℕ → List ℕ → List ℕ
joins none ts = ts
joins (some t) ts = t ∷ ts

-- The call returns; object `k` then has `h`, and the threads of `ts` have been joined.
abbrev pub Leaves : Outcome → ℕ → Option ℕ → List ℕ → List ℕ → Type 0
Leaves (done s) k h ts ds = (s.handle k ≡ h) × (s.joined ≡ ts) × (s.detached ≡ ds)
Leaves _ k h ts ds = ⊥

-- The move assignment of one `jointhread` to another object, whose thread is not the one that calls
-- it, returns: the thread that the target
-- had is joined, the target has the thread of the source, the source has none, and every other
-- object `k` keeps its own.
pub assign-Leaves :
    (self i j k : ℕ) (s : Threads)
    → i ≢ j
    → s.handle i ≢ some self
    → Leaves
        (assign self i j s)
        k
        (if i == k then s.handle j else if j == k then none else s.handle k)
        (joins (s.handle i) s.joined)
        s.detached
unfolding assign check_join thread_assign join joinable
assign-Leaves self i j k s differ ne = ground (arith, differ, ne)

-- The destructor of `jointhread`, in another thread than that of the object, does not terminate the program: the thread of the object is
-- joined, if it has one, and every other object `k` keeps its own; the destructor of
-- `thread_guard` does the same.
pub destroy-Leaves :
    (self i k : ℕ) (s : Threads)
    → s.handle i ≢ some self
    → Leaves
        (destroy self i s)
        k
        (if i == k then none else s.handle k)
        (joins (s.handle i) s.joined)
        s.detached
      × (guard_destroy self i s ≡ destroy self i s)
unfolding destroy guard_destroy check_join thread_destroy join joinable
destroy-Leaves self i k s ne = (ground (arith, ne), ground (arith, ne))

-- The move assignment of `thread_guard` terminates the program when the target has a thread, and
-- otherwise does what that of `jointhread` does.
pub guard_assign-assign :
    (self i j : ℕ) (s : Threads)
    → guard_assign i j s ≡ (if joinable i s then terminated else assign self i j s)
unfolding guard_assign assign check_join thread_assign joinable
guard_assign-assign self i j s = ground arith
