-- ===== src/Flist/Alone.antt =====
-- What the methods of a list do to its items, when a thread calls one and no other is in a method.
use ubuntu_projects.Base.{
  ℕ, ◌≡◌, refl, Bool, true, false, Option, none, some, List, [], ◌∷◌, ◌++◌, if◌then◌else◌, arith,
}
use ubuntu_projects.Flist.Distinct.{Distinct}
use ubuntu_projects.Flist.Contents.{contents}
use ubuntu_projects.Flist.Place.{Free}
use ubuntu_projects.Flist.{
  Method, for_each, for_first_of, remove_if, remove_first_if, out, Event, applies, answers, State,
  Decision, decide, end_events, look_events,
}

module _ {A : Type 0} where
  abbrev pub without : (Option A → Bool) → List (Option A) → List (Option A)
  without p [] = []
  without p (x ∷ xs) = if p x then without p xs else x ∷ without p xs

  abbrev pub without_first : (Option A → Bool) → List (Option A) → List (Option A)
  without_first p [] = []
  without_first p (x ∷ xs) = if p x then xs else x ∷ without_first p xs

  -- the items that a method leaves
  abbrev pub left : Method A → List (Option A) → List (Option A)
  left (remove_if p) xs = without p xs
  left (remove_first_if p) xs = without_first p xs
  left _ xs = xs

  abbrev pub applied : ℕ → List (Option A) → List (Event A)
  applied t [] = []
  applied t (x ∷ xs) = applies t x ∷ applied t xs

  abbrev pub applied_first : ℕ → (Option A → Bool) → List (Option A) → List (Event A)
  applied_first t p [] = []
  applied_first t p (x ∷ xs) = if p x then applies t x ∷ [] else applied_first t p xs

  abbrev pub any : (Option A → Bool) → List (Option A) → Bool
  any p [] = false
  any p (x ∷ xs) = if p x then true else any p xs

  -- what a method hands out
  abbrev pub handed : ℕ → Method A → List (Option A) → List (Event A)
  handed t for_each xs = applied t xs
  handed t (for_first_of p) xs = applied_first t p xs
  handed t (remove_if p) xs = []
  handed t (remove_first_if p) xs = answers t (any p xs) ∷ []

  -- the same by the decisions of the loop
  abbrev pub left_by : Decision → Option A → List (Option A) → List (Option A) → List (Option A)
  left_by Decision.goes_on y ys more = y ∷ more
  left_by Decision.returns y ys more = y ∷ ys
  left_by Decision.removes y ys more = more
  left_by Decision.removes_and_returns y ys more = ys

  abbrev pub handed_by : Decision → List (Event A) → List (Event A)
  handed_by Decision.goes_on more = more
  handed_by Decision.returns more = []
  handed_by Decision.removes more = more
  handed_by Decision.removes_and_returns more = []

  pub left-step :
      (m : Method A) (y : Option A) (ys : List (Option A))
      → left_by (decide m y) y ys (left m ys) ≡ left m (y ∷ ys)
  unfolding decide
  left-step for_each y ys = refl
  left-step (for_first_of p) y ys = ground arith
  left-step (remove_if p) y ys = ground arith
  left-step (remove_first_if p) y ys = ground arith

  pub handed-step :
      (t : ℕ) (m : Method A) (y : Option A) (ys : List (Option A))
      → look_events t m y ++ handed_by (decide m y) (handed t m ys) ≡ handed t m (y ∷ ys)
  unfolding decide look_events
  handed-step t for_each y ys = refl
  handed-step t (for_first_of p) y ys = ground arith
  handed-step t (remove_if p) y ys = ground arith
  handed-step t (remove_first_if p) y ys = ground arith

  pub left-nil : (m : Method A) → [] ≡ left m []
  left-nil for_each = refl
  left-nil (for_first_of p) = refl
  left-nil (remove_if p) = refl
  left-nil (remove_first_if p) = refl

  pub handed-end : (t : ℕ) (m : Method A) → end_events t m ≡ handed t m []
  unfolding end_events
  handed-end t for_each = refl
  handed-end t (for_first_of p) = refl
  handed-end t (remove_if p) = refl
  handed-end t (remove_first_if p) = refl

  -- The method has returned, with these items and events, and holds no lock.
  abbrev pub Ends : ℕ → List (Option A) → List (Event A) → Option (State A) → Type 0
  Ends t xs es none = ⊥
  Ends t xs es (some u) =
      (contents u.chain ≡ xs) × (u.log ≡ es) × (u.cursor t ≡ out) × Free u.chain × Distinct u.chain
