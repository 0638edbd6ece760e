-- ===== src/Stack/Counted.antt =====
-- Whatever the threads do to a stack, in whatever order: no item is lost and none is given out twice.
use ubuntu_projects.Waits.{PopStatus, pred, Moment, called, woken, expired, Call, waiting, returned}
use ubuntu_projects.Base.{
  count, count-append, ◌+◌, ◌≡◌, refl, Bool, true, false, Option, none, some, List, [], ◌∷◌, ◌++◌,
  arith,
}
use ubuntu_projects.Base.Int.{ℤ}
use ubuntu_projects.Stack.{
  Stack, with_items, pop_unprotected, is_empty, try_pop_unprotected, pop_loop, pop_n_unprotected,
  try_lock_and_pop, pop, pop_n, push, push_unprotected, push_range, push_range_unprotected,
  stop_waitings,
}
use ubuntu_projects.Stack.Wait.{wait_for_and_pop, wait_for_and_pop_n}
use ubuntu_projects.Stack.Wait.Outcome.{outcome, top, wait_for_and_pop_lem, wait_for_and_pop_n_lem}

-- A critical section of some thread. A call that waits has one at each moment at which it holds
-- the lock; those without a time limit are the ones that do not expire.
pub data Section (A : Type 0) : Type 0 where
  pushes : A → Section A
  pushes_range : List A → Section A
  pops : Section A
  tries : Bool → Section A
  pops_n : ℤ → Section A
  waits : Moment → Section A
  waits_n : ℤ → Moment → Section A
  stops : Section A

module _ {A : Type 0} where
  -- The item is given out if the status says so.
  abbrev pub popped : Option ((PopStatus × A) × Stack A) → Option (List A × Stack A)
  popped none = none
  popped (some ((PopStatus.ready, x), t)) = some (x ∷ [], t)
  popped (some ((s, x), t)) = some ([], t)

  abbrev pub call_out : Call A → List A
  call_out waiting = []
  call_out (returned s out) = out

  abbrev pub waited : Option (Call A × Stack A) → Option (List A × Stack A)
  waited none = none
  waited (some (c, t)) = some (call_out c, t)

  -- what a section gives out, and the stack after it; `ret` is what the caller's variable holds
  abbrev pub perform : A → Section A → Stack A → Option (List A × Stack A)
  perform ret (pushes x) s = some ([], push x s)
  perform ret (pushes_range xs) s = some ([], push_range xs s)
  perform ret pops s = popped (pop ret s)
  perform ret (tries locked) s = popped (try_lock_and_pop locked ret s)
  perform ret (pops_n n) s = some (pop_n n s)
  perform ret (waits m) s = waited (wait_for_and_pop m s)
  perform ret (waits_n n m) s = waited (wait_for_and_pop_n n m s)
  perform ret stops s = some ([], (stop_waitings s).1)

  abbrev pub put_in : Section A → List A
  put_in (pushes x) = x ∷ []
  put_in (pushes_range xs) = xs
  put_in _ = []

  -- Nothing is undefined, and what was there and came in has gone out or is there.
  abbrev pub Balanced : (A → Bool) → List A → Stack A → Option (List A × Stack A) → Type 0
  Balanced p put s none = ⊥
  Balanced p put s (some (out, t)) = count p put + count p s.items ≡ count p out + count p t.items

  pop-Balanced :
      (p : A → Bool) (ret : A) (s : Stack A) → Balanced p [] s (popped (try_pop_unprotected ret s))
  unfolding try_pop_unprotected is_empty pop_unprotected
  pop-Balanced p ret s = go s.items s.interrupt_waiting
    where
      go :
          (xs : List A) (b : Bool)
          → Balanced p []
              (record { interrupt_waiting = b; items = xs })
              (popped (try_pop_unprotected ret (record { interrupt_waiting = b; items = xs })))
      go [] b = refl
      go (x ∷ xs) b = ground arith

  pop_loop-count :
      (p : A → Bool) (n : ℤ) (xs : List A)
      → count p xs ≡ count p (pop_loop n xs).0 + count p (pop_loop n xs).1
  unfolding pop_loop
  pop_loop-count p n [] = refl
  pop_loop-count p n (x ∷ xs) = ground (arith, pop_loop-count p (pred n) xs)

  push_range-count :
      (p : A → Bool) (xs : List A) (s : Stack A)
      → count p xs + count p s.items ≡ count p (push_range_unprotected xs s).items
  unfolding push_range_unprotected
  push_range-count p [] s = omega arith
  push_range-count p (x ∷ xs) s = ground (arith, push_range-count p xs (with_items (x ∷ s.items) s))

  outcome-Balanced :
      (p : A → Bool) (m : Moment) (s : Stack A) (taken : List A × Stack A)
      → count p s.items ≡ count p taken.0 + count p taken.1.items
      → Balanced p [] s (waited (some (outcome m s taken)))
  outcome-Balanced p called s taken e = ground (arith, e)
  outcome-Balanced p woken s taken e = ground (arith, e)
  outcome-Balanced p expired s taken e = ground (arith, e)

  top-count :
      (p : A → Bool) (s : Stack A) → count p s.items ≡ count p (top s).0 + count p (top s).1.items
  top-count p s = ground arith

  perform-Balanced :
      (p : A → Bool) (ret : A) (c : Section A) (s : Stack A)
      → Balanced p (put_in c) s (perform ret c s)
  unfolding push push_unprotected push_range pop try_lock_and_pop pop_n pop_n_unprotected
      stop_waitings
  perform-Balanced p ret (pushes x) s = ground arith
  perform-Balanced p ret (pushes_range xs) s = omega (arith, push_range-count p xs s)
  perform-Balanced p ret pops s = pop-Balanced p ret s
  perform-Balanced p ret (tries true) s = pop-Balanced p ret s
  perform-Balanced p ret (tries false) s = refl
  perform-Balanced p ret (pops_n n) s = omega (arith, pop_loop-count p n s.items)
  perform-Balanced p ret (waits m) s =
      rw (wait_for_and_pop_lem m s).0 (outcome-Balanced p m s (top s) (top-count p s))
  perform-Balanced p ret (waits_n n m) s =
      rw (wait_for_and_pop_n_lem n m s).0
        (outcome-Balanced p m s (pop_n n s) (pop_loop-count p n s.items))
  perform-Balanced p ret stops s = refl

  abbrev pub put_out : List A → Option (List A × Stack A) → Option (List A × Stack A)
  put_out out none = none
  put_out out (some (outs, t)) = some (out ++ outs, t)

  abbrev pub and_then :
      Option (List A × Stack A) → (Stack A → Option (List A × Stack A)) → Option (List A × Stack A)
  and_then none f = none
  and_then (some (out, t)) f = put_out out (f t)

  -- the sections of all threads, in the order in which they have the lock
  abbrev pub perform_all : A → List (Section A) → Stack A → Option (List A × Stack A)
  perform_all ret [] s = some ([], s)
  perform_all ret (c ∷ cs) s = and_then (perform ret c s) (perform_all ret cs)

  abbrev pub put_in_all : List (Section A) → List A
  put_in_all [] = []
  put_in_all (c ∷ cs) = put_in c ++ put_in_all cs

  put_out-Balanced :
      (p : A → Bool) (xs ys out : List A) (s t : Stack A) (o : Option (List A × Stack A))
      → Balanced p xs s (some (out, t))
      → Balanced p ys t o
      → Balanced p (xs ++ ys) s (put_out out o)
  put_out-Balanced p xs ys out s t none b c = c
  put_out-Balanced p xs ys out s t (some (outs, u)) b c =
      omega (arith, count-append p xs ys, count-append p out outs)

  and_then-Balanced :
      (p : A → Bool) (xs ys : List A) (s : Stack A) (f : Stack A → Option (List A × Stack A))
      (o : Option (List A × Stack A))
      → Balanced p xs s o
      → ((t : Stack A) → Balanced p ys t (f t))
      → Balanced p (xs ++ ys) s (and_then o f)
  and_then-Balanced p xs ys s f none b c = b
  and_then-Balanced p xs ys s f (some (out, t)) b c = put_out-Balanced p xs ys out s t (f t) b (c t)

  -- However threads interleave `push`, `push_range`, `pop`, `try_lock_and_pop`, `pop_n`, the waits
  -- with a time limit (at each moment at which they hold the lock) and `stop_waitings`, nothing is
  -- undefined, and for every test the items that pass it and were on the stack or came in are as
  -- many as those that were given out or are still on the stack.
  pub perform_all-Balanced :
      (p : A → Bool) (ret : A) (cs : List (Section A)) (s : Stack A)
      → Balanced p (put_in_all cs) s (perform_all ret cs s)
  perform_all-Balanced p ret [] s = refl
  perform_all-Balanced p ret (c ∷ cs) s =
      and_then-Balanced p (put_in c) (put_in_all cs) s (perform_all ret cs) (perform ret c s)
        (perform-Balanced p ret c s) (λ t. perform_all-Balanced p ret cs t)
