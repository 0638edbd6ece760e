-- ===== src/Flist.antt =====
-- cppprojects/include/ts_lib/ts_fine_graited_flist.h: a list with a lock for each node. The nodes are
-- owned each by the one before, so they are a list, and the pointers of the threads are addresses in it.
pub mod Chain
pub mod Attended
pub mod Distinct
pub mod Fair
pub mod Progress
pub mod Place
pub mod Alone
pub mod Walk
pub mod Call
pub mod Quiet
pub mod Contents
pub mod Items
pub mod Holds
pub mod Held
pub mod Safe
mod Tests
use ubuntu_projects.Base.{
  ℕ, zero, suc, Bool, true, false, Option, none, some, List, [], ◌∷◌, ◌++◌, ◌==◌, if◌then◌else◌,
}
use ubuntu_projects.Flist.Chain.{
  Node, node, Found, found, find, set_holder, insert_next, remove_next,
}

-- A method, with its predicate.
pub data Method (A : Type 0) : Type 0 where
  for_each : Method A
  for_first_of : (Option A → Bool) → Method A
  remove_if : (Option A → Bool) → Method A
  remove_first_if : (Option A → Bool) → Method A

-- Where a thread is: in no method, at the head of a loop with `prev_cptr`, or behind the lock of the
-- next node with `prev_cptr` and `cur_cptr`.
pub data Cursor (A : Type 0) : Type 0 where
  out : Cursor A
  prev : Method A → ℕ → Cursor A
  both : Method A → ℕ → ℕ → Cursor A

-- what a thread hands out: the data to the operation of `for_each` or `for_first_of`, and what
-- `remove_first_if` returns
pub data Event (A : Type 0) : Type 0 where
  applies : ℕ → Option A → Event A
  answers : ℕ → Bool → Event A

-- the nodes from `m_before_begin` on, the cursor of each thread, and what has been handed out
pub record State (A : Type 0) : Type 0 where
  pub before_begin : ℕ
  pub chain : List (Node A)
  pub cursor : ℕ → Cursor A
  pub log : List (Event A)

-- A thread that needs a lock which another one holds is blocked.
pub data Result (A : Type 0) : Type 0 where
  undefined : Result A
  blocked : Result A
  done : State A → Result A

-- what a loop does with the current node: it goes on to it, returns, or removes it and goes on or
-- returns
pub data Decision : Type 0 where
  goes_on returns removes removes_and_returns : Decision

module _ {A : Type 0} where
  unfoldable pub decide : Method A → Option A → Decision
  decide for_each x = Decision.goes_on
  decide (for_first_of p) x = if p x then Decision.returns else Decision.goes_on
  decide (remove_if p) x = if p x then Decision.removes else Decision.goes_on
  decide (remove_first_if p) x = if p x then Decision.removes_and_returns else Decision.goes_on

  -- the state with another cursor of a thread
  abbrev pub move_to : ℕ → Cursor A → List (Node A) → State A → State A
  move_to t k c s = record s { chain = c; cursor = λ u. if t == u then k else s.cursor u }

  abbrev pub note : List (Event A) → State A → State A
  note es s = record s { log = s.log ++ es }

  -- the constructor: a node without data, which nobody holds
  unfoldable pub flist : ℕ → State A
  flist a = record { before_begin = a; chain = node a none none ∷ []; cursor = λ t. out; log = [] }

  -- the lock of the first node, with which a method begins
  unfoldable pub begin : ℕ → Method A → State A → Result A
  begin t m s = elim (find s.chain s.before_begin) [
    | none ↦ undefined
    | some (found (some u) x n) ↦ blocked
    | some (found none x n) ↦
        done (move_to t (prev m s.before_begin) (set_holder s.before_begin (some t) s.chain) s)
  ]

  -- what the end of a loop hands out
  unfoldable pub end_events : ℕ → Method A → List (Event A)
  end_events t (remove_first_if p) = answers t false ∷ []
  end_events t _ = []

  -- the head of a loop: it ends behind the last node, and otherwise locks the next one
  unfoldable pub lock_next : ℕ → Method A → ℕ → State A → Result A
  lock_next t m a s = elim (find s.chain a) [
    | none ↦ undefined
    | some (found h x none) ↦
        done (note (end_events t m) (move_to t out (set_holder a none s.chain) s))
    | some (found h x (some b)) ↦ elim (find s.chain b) [
      | none ↦ undefined
      | some (found (some u) y n) ↦ blocked
      | some (found none y n) ↦ done (move_to t (both m a b) (set_holder b (some t) s.chain) s)
    ]
  ]

  -- The node behind the first one is taken out, unlocked and deleted.
  abbrev pub take_out : ℕ → ℕ → List (Node A) → List (Node A)
  take_out a b c = remove_next a (set_holder b none c)

  abbrev pub act : ℕ → Method A → ℕ → ℕ → Decision → State A → State A
  act t m a b Decision.goes_on s = move_to t (prev m b) (set_holder a none s.chain) s
  act t m a b Decision.returns s = move_to t out (set_holder b none (set_holder a none s.chain)) s
  act t m a b Decision.removes s = move_to t (prev m a) (take_out a b s.chain) s
  act t m a b Decision.removes_and_returns s =
      move_to t out (set_holder a none (take_out a b s.chain)) s

  -- what the body of a loop hands out
  unfoldable pub look_events : ℕ → Method A → Option A → List (Event A)
  look_events t for_each x = applies t x ∷ []
  look_events t (for_first_of p) x = if p x then applies t x ∷ [] else []
  look_events t (remove_if p) x = []
  look_events t (remove_first_if p) x = if p x then answers t true ∷ [] else []

  -- the body of a loop
  unfoldable pub look : ℕ → Method A → ℕ → ℕ → State A → Result A
  look t m a b s = elim (find s.chain a) [
    | none ↦ undefined
    | some f ↦ elim (find s.chain b) [
      | none ↦ undefined
      | some (found h x n) ↦ done (note (look_events t m x) (act t m a b (decide m x) s))
    ]
  ]

  -- A thread goes on in its method to the next lock.
  unfoldable pub go_on : ℕ → Cursor A → State A → Result A
  go_on t out s = done s
  go_on t (prev m a) s = lock_next t m a s
  go_on t (both m a b) s = look t m a b s

  -- a new node at the address that `new` returns
  unfoldable pub push_front : ℕ → A → State A → Result A
  push_front a x s = elim (find s.chain s.before_begin) [
    | none ↦ undefined
    | some (found (some u) y n) ↦ blocked
    | some (found none y n) ↦
        done (record s { chain = insert_next s.before_begin (node a none (some x)) s.chain })
  ]

  -- `empty`, which returns as soon as it has the lock
  unfoldable pub is_empty : State A → Option Bool
  is_empty s = elim (find s.chain s.before_begin) [
    | none ↦ none
    | some (found h x none) ↦ some true
    | some (found h x (some b)) ↦ some false
  ]

  -- A thread goes on by itself until it is in no method, on fuel: `none` if it does not get there.
  unfoldable pub run : ℕ → ℕ → State A → Option (State A)
  run zero t s = none
  run (suc fuel) t s = elim (s.cursor t) [
    | out ↦ some s
    | prev m a ↦ elim (lock_next t m a s) [ done u ↦ run fuel t u | _ ↦ none ]
    | both m a b ↦ elim (look t m a b s) [ done u ↦ run fuel t u | _ ↦ none ]
  ]

  unfoldable pub call : ℕ → ℕ → Method A → State A → Option (State A)
  call fuel t m s = elim (begin t m s) [ done u ↦ run fuel t u | _ ↦ none ]

  -- `clear`
  unfoldable pub clear : ℕ → ℕ → State A → Option (State A)
  clear fuel t s = call fuel t (remove_if (λ x. true)) s
