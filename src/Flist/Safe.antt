-- ===== src/Flist/Safe.antt =====
-- Threads in the methods of a list, in any order: the nodes that a thread has pointers to are there.
use mathlib.Core.Path.{subst}
use ubuntu_projects.Base.{ℕ, ◌≡◌, refl, none}
use ubuntu_projects.Flist.Chain.{find}
use ubuntu_projects.Flist.Holds.{Holds, Safe}
use ubuntu_projects.Flist.Held.{Goes, go_on-Goes, begin-Goes, push_front-Goes}
use ubuntu_projects.Flist.{
  Method, out, State, Result, undefined, blocked, done, flist, begin, go_on, push_front,
}

module _ {A : Type 0} where
  -- A thread begins a method, goes on in it, or pushes an item to a node at an address that is not in
  -- use.
  pub data Step (s : State A) : State A → Type 0 where
    begins :
        {u : State A} (t : ℕ) (m : Method A) → s.cursor t ≡ out → begin t m s ≡ done u → Step s u
    goes_on : {u : State A} (t : ℕ) → go_on t (s.cursor t) s ≡ done u → Step s u
    pushes :
        {u : State A} (a : ℕ) (v : A) → find s.chain a ≡ none → push_front a v s ≡ done u → Step s u

  pub data Reach (s : State A) : State A → Type 0 where
    here : Reach s s
    later : {u v : State A} → Reach s u → Step u v → Reach s v

  pub flist-Safe : (a : ℕ) → Safe {A = A} (flist a)
  unfolding flist
  flist-Safe a = record { begins = refl; holds = λ t. tt }

  Step-Safe : {s u : State A} → Step s u → Safe s → Safe u
  Step-Safe {s} (begins t m free e) safe = subst Goes e (begin-Goes t m s safe)
  Step-Safe {s} (goes_on t e) safe = subst Goes e (go_on-Goes t (s.cursor t) s safe (safe.holds t))
  Step-Safe {s} (pushes a v new e) safe = subst Goes e (push_front-Goes a v s safe new)

  pub Reach-Safe : {s u : State A} → Reach s u → Safe s → Safe u
  Reach-Safe here safe = safe
  Reach-Safe (later r step) safe = Step-Safe step (Reach-Safe r safe)

  -- A result that is not undefined.
  abbrev pub Defined : Result A → Type 0
  Defined undefined = ⊥
  Defined blocked = Unit {0}
  Defined (done s) = Unit {0}

  Goes-Defined : (r : Result A) → Goes r → Defined r
  Goes-Defined undefined g = g
  Goes-Defined blocked g = tt
  Goes-Defined (done s) g = tt

  -- In every state that threads reach which begin `for_each`, `for_first_of`, `remove_if` or
  -- `remove_first_if` on a new list, go on in them from lock to lock and push items at addresses
  -- not in use, in any order, the next step of any thread is not undefined: no pointer to a
  -- deleted node is used. A thread holds the locks of the nodes that it has pointers to, and they
  -- are in the list, one behind the other.
  pub reached-Defined :
      (start t a : ℕ) (m : Method A) (v : A) (s : State A)
      → Reach (flist start) s
      → find s.chain a ≡ none
      → Defined (go_on t (s.cursor t) s)
        × Defined (begin t m s)
        × Defined (push_front a v s)
        × Holds t (s.cursor t) s.chain
  reached-Defined start t a m v s reached new =
      let safe = Reach-Safe reached (flist-Safe start) in
      (
        Goes-Defined (go_on t (s.cursor t) s) (go_on-Goes t (s.cursor t) s safe (safe.holds t)),
        Goes-Defined (begin t m s) (begin-Goes t m s safe),
        Goes-Defined (push_front a v s) (push_front-Goes a v s safe new),
        safe.holds t,
      )
