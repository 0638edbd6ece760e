-- ===== src/Queue.antt =====
-- cppprojects/include/ts_lib/threadsafe_queue.h: a queue of linked nodes with one lock for each end. A
-- method is a function from the nodes and the queue before to those after, and `none` where it
-- does what is undefined: the use of a node that is not there, or an item written over `m_next`.
pub mod Memory
pub mod Wait
pub mod Push
pub mod PushRange
pub mod Pop
pub mod Concurrent
pub mod Moves
pub mod Wakeup
mod Tests
use ubuntu_projects.Base.{
  ℕ, zero, suc, Bool, true, false, Option, none, some, List, [], ◌∷◌, ◌==◌, ltb, if◌then◌else◌,
}
use ubuntu_projects.Base.Int.{ℤ, pos, eq_ℤ}
use ubuntu_projects.Waits.{PopStatus, Notify, pred}
use ubuntu_projects.Queue.Memory.{Sized, room, Node, node, Nodes, write}

-- `m_interrupt_waiting`, `m_head` and `m_tail`
pub record Queue : Type 0 where
  pub interrupt_waiting : Bool
  pub head : ℕ
  pub tail : ℕ

-- the queue with the nodes in memory
abbrev pub State : Type 0 → Type 0
State A = Nodes A × Queue

module _ {A : Type 0} ⦃sized : Sized A⦄ where
  -- `construct_data`: an item that has no room in front of `m_next` is written over it, which is left
  -- out here, as `none`.
  unfoldable pub construct_data : A → ℕ → Nodes A → Option (Nodes A)
  construct_data x p h =
      if ltb room sized.size_of
      then none
      else elim (h p) [ none ↦ none | some n ↦ some (write h p (some (node (some x) n.next))) ]

module _ {A : Type 0} where
  -- `p->m_next` is given the node `q`. The node that it owned before is deleted, which is left out
  -- here, as `none`.
  unfoldable pub set_next : ℕ → ℕ → Nodes A → Option (Nodes A)
  set_next p q h = elim (h p) [
    | none ↦ none
    | some n ↦ if n.next == 0 then some (write h p (some (node n.stored q))) else none
  ]

  -- `m_head=std::move(m_head->m_next)`: the old head is deleted
  unfoldable pub advance : State A → Option (State A)
  advance (h, q) = elim (h q.head) [
    | none ↦ none
    | some n ↦ some (write h q.head none, record q { head = n.next })
  ]

  -- The value is read from a node that has one; otherwise it is not initialized.
  unfoldable pub pop_unprotected_unchecked : State A → Option (A × State A)
  pop_unprotected_unchecked (h, q) = elim (h q.head) [
    | none ↦ none
    | some n ↦ elim n.stored [
      | none ↦ none
      | some x ↦ elim (advance (h, q)) [ none ↦ none | some s ↦ some (x, s) ]
    ]
  ]

  unfoldable pub pop_unprotected : A → ℕ → State A → Option ((PopStatus × A) × State A)
  pop_unprotected ret possible_tail s =
      if s.1.head == possible_tail
      then some ((PopStatus.empty, ret), s)
      else elim (pop_unprotected_unchecked s) [
        | none ↦ none
        | some (x, t) ↦ some ((PopStatus.ready, x), t)
      ]

  abbrev pub then_write : A → Option (List A × State A) → Option (List A × State A)
  then_write x none = none
  then_write x (some (out, s)) = some (x ∷ out, s)

  -- The loop of `pop_n_unprotected`, on fuel: what it writes out.
  unfoldable pub pop_n_unprotected : ℕ → ℤ → ℕ → State A → Option (List A × State A)
  pop_n_unprotected zero count possible_tail s = none
  pop_n_unprotected (suc fuel) count possible_tail s =
      if eq_ℤ count (pos 0)
      then some ([], s)
      else if s.1.head == possible_tail
      then some ([], s)
      else elim (pop_unprotected_unchecked s) [
        | none ↦ none
        | some (x, t) ↦ then_write x (pop_n_unprotected fuel (pred count) possible_tail t)
      ]

  unfoldable pub get_tail_protected : State A → ℕ
  get_tail_protected s = s.1.tail

  unfoldable pub pop : A → State A → Option ((PopStatus × A) × State A)
  pop ret s = pop_unprotected ret (get_tail_protected s) s

  unfoldable pub pop_n : ℕ → ℤ → State A → Option (List A × State A)
  pop_n fuel count s = pop_n_unprotected fuel count (get_tail_protected s) s

  unfoldable pub is_empty : State A → Bool
  is_empty s = s.1.head == s.1.tail

  unfoldable pub clear_unprotected : ℕ → State A → Option (State A)
  clear_unprotected zero s = none
  clear_unprotected (suc fuel) s =
      if is_empty s
      then some s
      else elim (advance s) [ none ↦ none | some t ↦ clear_unprotected fuel t ]

  unfoldable pub clear : ℕ → State A → Option (State A)
  clear fuel s = clear_unprotected fuel s

  unfoldable pub stop_waitings : State A → Notify × State A
  stop_waitings (h, q) = (Notify.all, (h, record q { interrupt_waiting = true }))

-- The methods that make nodes are given the addresses that `new` returns.
module _ {A : Type 0} where
  -- `new node{}` at an address
  abbrev pub new_node : ℕ → Nodes A → Nodes A
  new_node a h = write h a (some (node none 0))

  -- the constructor
  unfoldable pub new : ℕ → Nodes A → State A
  new a h = (new_node a h, record { interrupt_waiting = false; head = a; tail = a })

  -- the move constructor: the nodes, the new queue, and the queue that is moved from
  unfoldable pub move : ℕ → State A → Nodes A × Queue × Queue
  move a (h, other) = (
    new_node a h,
    record { interrupt_waiting = false; head = other.head; tail = other.tail },
    record other { head = a; tail = a },
  )

  -- The move assignment: the head that is left of the queue is deleted, and then the queue that is
  -- moved from gets a new node.
  unfoldable pub assign : ℕ → ℕ → State A → Queue → Option (Nodes A × Queue × Queue)
  assign fuel a (h, q) other = elim (clear_unprotected fuel (h, q)) [
    | none ↦ none
    | some (g, r) ↦ some (
      new_node a (write g r.head none),
      record r { head = other.head; tail = other.tail },
      record other { head = a; tail = a },
    )
  ]

module _ {A : Type 0} ⦃sized : Sized A⦄ where
  unfoldable pub emplace : ℕ → A → State A → Option (State A)
  emplace a x (h, q) = elim (construct_data x q.tail (new_node a h)) [
    | none ↦ none
    | some g ↦ elim (set_next q.tail a g) [ none ↦ none | some k ↦ some (k, record q { tail = a }) ]
  ]

  unfoldable pub push : ℕ → A → State A → Option (State A)
  push a val s = emplace a val s

  -- The loop of `push_range` from the node `tail_sub`, and the node that it ends with.
  unfoldable pub fill : ℕ → List (ℕ × A) → Nodes A → Option (Nodes A × ℕ)
  fill tail_sub [] h = some (h, tail_sub)
  fill tail_sub ((a, x) ∷ es) h = elim (construct_data x tail_sub h) [
    | none ↦ none
    | some g ↦ elim (set_next tail_sub a (new_node a g)) [ none ↦ none | some k ↦ fill a es k ]
  ]

  -- The nodes that `push_range` hangs behind the tail, whose value is the first one of the range.
  unfoldable pub append_nodes : A → ℕ → ℕ → State A → Option (State A)
  append_nodes x head_sub tail_sub (h, q) = elim (construct_data x q.tail h) [
    | none ↦ none
    | some g ↦ elim (set_next q.tail head_sub g) [
      | none ↦ none
      | some k ↦ some (k, record q { tail = tail_sub })
    ]
  ]

  unfoldable pub push_range : List (ℕ × A) → State A → Option (State A)
  push_range [] s = some s
  push_range ((a, x) ∷ es) (h, q) = elim (fill a es (new_node a h)) [
    | none ↦ none
    | some (g, tail_sub) ↦ append_nodes x a tail_sub (g, q)
  ]

  -- A method that gives the lock back and then notifies.
  abbrev pub and_notify : Notify → Option (State A) → Option (Notify × State A)
  and_notify n none = none
  and_notify n (some s) = some (n, s)

  unfoldable pub emplace_and_notify_one : ℕ → A → State A → Option (Notify × State A)
  emplace_and_notify_one a x s = and_notify Notify.one (emplace a x s)

  unfoldable pub push_and_notify_one : ℕ → A → State A → Option (Notify × State A)
  push_and_notify_one a x s = and_notify Notify.one (push a x s)

  unfoldable pub emplace_and_notify_all : ℕ → A → State A → Option (Notify × State A)
  emplace_and_notify_all a x s = and_notify Notify.all (emplace a x s)

  unfoldable pub push_and_notify_all : ℕ → A → State A → Option (Notify × State A)
  push_and_notify_all a x s = and_notify Notify.all (push a x s)

  unfoldable pub push_range_and_notify_one : List (ℕ × A) → State A → Option (Notify × State A)
  push_range_and_notify_one es s = and_notify Notify.one (push_range es s)

  unfoldable pub push_range_and_notify_all : List (ℕ × A) → State A → Option (Notify × State A)
  push_range_and_notify_all es s = and_notify Notify.all (push_range es s)
