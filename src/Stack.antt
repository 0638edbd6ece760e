-- ===== src/Stack.antt =====
-- cppprojects/include/ts_lib/threadsafe_stack.h: a stack with one lock. A method without a wait is
-- one critical section, a function from the stack before to the stack after.
pub mod Wait
pub mod Range
pub mod Counted
pub mod Stopped
pub mod Wakeup
mod Tests
use ubuntu_projects.Base.{
  ℕ, zero, suc, ◌-◌, Bool, true, false, Option, none, some, List, [], ◌∷◌, if◌then◌else◌, length,
}
use ubuntu_projects.Base.Int.{ℤ, pos, eq_ℤ}
use ubuntu_projects.Waits.{PopStatus, Notify, pred}

-- `m_interrupt_waiting` and `m_stack`, from its top
pub record Stack (A : Type 0) : Type 0 where
  pub interrupt_waiting : Bool
  pub items : List A

module _ {A : Type 0} where
  -- the stack with other items
  abbrev pub with_items : List A → Stack A → Stack A
  with_items xs s = record s { items = xs }

  -- the constructors
  unfoldable pub new : List A → Stack A
  new xs = record { interrupt_waiting = false; items = xs }

  -- The move constructor; what the stack that is moved from then holds is the first argument.
  unfoldable pub move : List A → Stack A → Stack A × Stack A
  move moved_from rhs = (new rhs.items, with_items moved_from rhs)

  -- The top of an empty stack is undefined behaviour, `none`.
  pub pop_unprotected : Stack A → Option (A × Stack A)
  pop_unprotected s = elim s.items [ [] ↦ none | x ∷ xs ↦ some (x, with_items xs s) ]

  unfoldable pub is_empty : Stack A → Bool
  is_empty s = elim s.items [ [] ↦ true | x ∷ xs ↦ false ]

  -- `ret` goes in and comes back
  unfoldable pub try_pop_unprotected : A → Stack A → Option ((PopStatus × A) × Stack A)
  try_pop_unprotected ret s =
      if is_empty s
      then some ((PopStatus.empty, ret), s)
      else elim (pop_unprotected s) [ none ↦ none | some (x, t) ↦ some ((PopStatus.ready, x), t) ]

  -- The loop `while(count)`: what it writes out, and what is left on the stack. A negative count
  -- does not get to 0 before the stack is empty.
  unfoldable pub pop_loop : ℤ → List A → List A × List A
  pop_loop count [] = ([], [])
  pop_loop count (x ∷ xs) =
      let (out, left) = pop_loop (pred count) xs in
      if eq_ℤ count (pos 0) then ([], x ∷ xs) else (x ∷ out, left)

  unfoldable pub pop_n_unprotected : ℤ → Stack A → List A × Stack A
  pop_n_unprotected count s = let (out, left) = pop_loop count s.items in (out, with_items left s)

  -- The first argument says whether the lock was free.
  unfoldable pub try_lock_and_pop : Bool → A → Stack A → Option ((PopStatus × A) × Stack A)
  try_lock_and_pop locked ret s =
      if locked then try_pop_unprotected ret s else some ((PopStatus.try_lock_fail, ret), s)

  unfoldable pub pop : A → Stack A → Option ((PopStatus × A) × Stack A)
  pop ret s = try_pop_unprotected ret s

  unfoldable pub pop_n : ℤ → Stack A → List A × Stack A
  pop_n count s = pop_n_unprotected count s

  pub push_unprotected : A → Stack A → Stack A
  push_unprotected val s = with_items (val ∷ s.items) s

  unfoldable pub push : A → Stack A → Stack A
  push val s = push_unprotected val s

  -- The value is made in place from its arguments, and enters as a value.
  unfoldable pub emplace : A → Stack A → Stack A
  emplace val s = with_items (val ∷ s.items) s

  unfoldable pub push_range_unprotected : List A → Stack A → Stack A
  push_range_unprotected [] s = s
  push_range_unprotected (x ∷ xs) s = push_range_unprotected xs (with_items (x ∷ s.items) s)

  unfoldable pub push_range : List A → Stack A → Stack A
  push_range xs s = push_range_unprotected xs s

  -- A method that takes the lock, gives it back and then notifies.
  abbrev pub and_notify : Notify → Stack A → Notify × Stack A
  and_notify n s = (n, s)

  unfoldable pub emplace_and_notify_one : A → Stack A → Notify × Stack A
  emplace_and_notify_one val s = and_notify Notify.one (emplace val s)

  unfoldable pub push_and_notify_one : A → Stack A → Notify × Stack A
  push_and_notify_one val s = and_notify Notify.one (push val s)

  unfoldable pub emplace_and_notify_all : A → Stack A → Notify × Stack A
  emplace_and_notify_all val s = and_notify Notify.all (emplace val s)

  unfoldable pub push_and_notify_all : A → Stack A → Notify × Stack A
  push_and_notify_all val s = and_notify Notify.all (push val s)

  unfoldable pub push_range_and_notify_one : List A → Stack A → Notify × Stack A
  push_range_and_notify_one xs s = and_notify Notify.one (push_range xs s)

  unfoldable pub push_range_and_notify_all : List A → Stack A → Notify × Stack A
  push_range_and_notify_all xs s = and_notify Notify.all (push_range xs s)

  unfoldable pub stop_waitings : Stack A → Notify × Stack A
  stop_waitings s = (Notify.all, record s { interrupt_waiting = true })

  -- the loop of `clear`: a pop of an empty stack is undefined behaviour
  unfoldable pub clear_loop : ℕ → Stack A → Option (Stack A)
  clear_loop zero s = some s
  clear_loop (suc sz) s = elim (pop_unprotected s) [ none ↦ none | some (x, t) ↦ clear_loop sz t ]

  unfoldable pub clear : Stack A → Option (Stack A)
  clear s = clear_loop (length s.items) s

  -- The flags stay where they are.
  unfoldable pub swap : Stack A → Stack A → Stack A × Stack A
  swap s other = (with_items other.items s, with_items s.items other)
