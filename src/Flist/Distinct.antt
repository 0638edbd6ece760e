-- ===== src/Flist/Distinct.antt =====
-- The addresses of the nodes differ, so each node has one place in the list.
use native.Mathlib.Decide.{ℕ_discrete}
use ubuntu_projects.Base.{
  ℕ, suc, ◌<◌, ◌≡◌, ◌≢◌, refl, Bool, true, false, Option, none, some, List, [], ◌∷◌, ◌==◌,
  if◌then◌else◌, length, arith,
}
use ubuntu_projects.Flist.Chain.{
  Node, node, Found, found, first, find, rest, set_holder, insert_next, remove_next, find-first,
  find-next,
}

module _ {A : Type 0} where
  abbrev pub Distinct : List (Node A) → Type 0
  Distinct [] = Unit {0}
  Distinct (node a h x ∷ c) = (find c a ≡ none) × Distinct c

  -- the place of an address, counted from the first node
  abbrev pub place : List (Node A) → ℕ → ℕ
  place [] a = 0
  place (node b h x ∷ c) a = if b == a then 0 else suc (place c a)

  pub set-none :
      (a b : ℕ) (k : Option ℕ) (c : List (Node A))
      → find c a ≡ none
      → find (set_holder b k c) a ≡ none
  set-none a b k [] e = refl
  set-none a b k (node d h x ∷ c) e = ground (arith, e, set-none a b k c)

  pub insert-none :
      (a b d : ℕ) (k : Option ℕ) (y : Option A) (c : List (Node A))
      → find c a ≡ none
      → d ≢ a
      → find (insert_next b (node d k y) c) a ≡ none
  insert-none a b d k y [] e ne = refl
  insert-none a b d k y (node i h x ∷ c) e ne = ground (arith, e, ne, insert-none a b d k y c)

  pub rest-none : (a : ℕ) (c : List (Node A)) → find c a ≡ none → find (rest c) a ≡ none
  rest-none a [] e = refl
  rest-none a (node i h x ∷ c) e = ground (arith, e)

  pub remove-none :
      (a b : ℕ) (c : List (Node A)) → find c a ≡ none → find (remove_next b c) a ≡ none
  remove-none a b [] e = refl
  remove-none a b (node i h x ∷ c) e = ground (arith, e, remove-none a b c, rest-none a c)

  if-Distinct :
      (r : Bool) (c d : List (Node A)) → Distinct c → Distinct d → Distinct (if r then c else d)
  if-Distinct true c d x y = x
  if-Distinct false c d x y = y

  pub set-Distinct :
      (b : ℕ) (k : Option ℕ) (c : List (Node A)) → Distinct c → Distinct (set_holder b k c)
  set-Distinct b k [] d = tt
  set-Distinct b k (node a h x ∷ c) d =
      if-Distinct (a == b) (node a k x ∷ c) (node a h x ∷ set_holder b k c) d
        (set-none a b k c d.0, set-Distinct b k c d.1)

  pub insert-Distinct :
      (b a : ℕ) (k : Option ℕ) (y : Option A) (c : List (Node A))
      → find c a ≡ none
      → Distinct c
      → Distinct (insert_next b (node a k y) c)
  insert-Distinct b a k y [] new d = tt
  insert-Distinct b a k y (node i h x ∷ c) new d =
      let apart : a ≢ i = λ e. ground (arith, e, new) in
      let old : find c a ≡ none = ground (arith, new) in
      if-Distinct (i == b) (node i h x ∷ node a k y ∷ c) (node i h x ∷ insert_next b (node a k y) c)
        (ground (arith, apart, d.0), (old, d.1))
        (insert-none i b a k y c d.0 apart, insert-Distinct b a k y c old d.1)

  rest-Distinct : (c : List (Node A)) → Distinct c → Distinct (rest c)
  rest-Distinct [] d = tt
  rest-Distinct (node i h x ∷ c) d = d.1

  pub remove-Distinct : (b : ℕ) (c : List (Node A)) → Distinct c → Distinct (remove_next b c)
  remove-Distinct b [] d = tt
  remove-Distinct b (node i h x ∷ c) d =
      if-Distinct (i == b) (node i h x ∷ rest c) (node i h x ∷ remove_next b c)
        (rest-none i c d.0, rest-Distinct c d.1) (remove-none i b c d.0, remove-Distinct b c d.1)

  place-first : (c : List (Node A)) (b : ℕ) → first c ≡ some b → place c b ≡ 0
  place-first [] b e = refl
  place-first (node i h x ∷ c) b e = ground (arith, e)

  pub place-next :
      (c : List (Node A)) (a b : ℕ) (h : Option ℕ) (x : Option A)
      → Distinct c
      → find c a ≡ some (found h x (some b))
      → place c b ≡ suc (place c a)
  place-next [] a b h x d e = absurd (ground (arith, e))
  place-next (node i k y ∷ c) a b h x d e = elim (ℕ_discrete i a) [
    | yes same ↦
        let head : first c ≡ some b = ground (arith, e, same) in
        let (f, at) = find-first c b head in
        let off : i ≢ b = λ eq. ground (arith, eq, at, d.0) in
        ground (arith, off, same, place-first c b head)
    | no differ ↦
        let old : find c a ≡ some (found h x (some b)) = ground (arith, e, differ) in
        let (f, at) = find-next c a b h x old in
        let off : i ≢ b = λ eq. ground (arith, eq, at, d.0) in
        ground (arith, off, differ, place-next c a b h x d.1 old)
  ]

  pub place-length :
      (c : List (Node A)) (a : ℕ) (f : Found A) → find c a ≡ some f → place c a < length c
  place-length [] a f e = absurd (ground (arith, e))
  place-length (node i h x ∷ c) a f e = ground (arith, e, place-length c a f)

  -- the node behind the one at an address is gone
  pub remove-gone :
      (c : List (Node A)) (a b : ℕ) (h : Option ℕ) (x : Option A)
      → Distinct c
      → find c a ≡ some (found h x (some b))
      → find (remove_next a c) b ≡ none
  remove-gone [] a b h x d e = refl
  remove-gone (node i k y ∷ []) a b h x d e = absurd (ground (arith, e))
  remove-gone (node i k y ∷ node p q r ∷ c) a b h x d e = elim (ℕ_discrete i a) [
    | yes same ↦ ground (arith, e, same, d.0, d.1.0)
    | no differ ↦
        let old : find (node p q r ∷ c) a ≡ some (found h x (some b)) = ground (arith, e, differ) in
        let (f, at) = find-next (node p q r ∷ c) a b h x old in
        let off : i ≢ b = λ eq. ground (arith, eq, at, d.0) in
        ground (arith, off, differ, remove-gone (node p q r ∷ c) a b h x d.1 old)
  ]
