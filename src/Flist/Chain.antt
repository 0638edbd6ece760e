-- ===== src/Flist/Chain.antt =====
-- The nodes of a list, looked up and changed by their addresses.
use native.Mathlib.Decide.{ℕ_discrete}
use ubuntu_projects.Base.{
  ℕ, ◌≡◌, ◌≢◌, refl, Option, none, some, List, [], ◌∷◌, ◌==◌, if◌then◌else◌, arith,
}

-- the address of a node, the thread that holds its lock, and `m_pdata`
pub data Node (A : Type 0) : Type 0 where
  node : ℕ → Option ℕ → Option A → Node A

-- the holder and the data of a node, and the address in `m_next`
pub data Found (A : Type 0) : Type 0 where
  found : Option ℕ → Option A → Option ℕ → Found A

module _ {A : Type 0} where
  abbrev pub first : List (Node A) → Option ℕ
  first [] = none
  first (node a h x ∷ c) = some a

  abbrev pub find : List (Node A) → ℕ → Option (Found A)
  find [] b = none
  find (node a h x ∷ c) b = if a == b then some (found h x (first c)) else find c b

  abbrev pub set_holder : ℕ → Option ℕ → List (Node A) → List (Node A)
  set_holder b k [] = []
  set_holder b k (node a h x ∷ c) = if a == b then node a k x ∷ c else node a h x ∷ set_holder b k c

  abbrev pub insert_next : ℕ → Node A → List (Node A) → List (Node A)
  insert_next b n [] = []
  insert_next b n (node a h x ∷ c) =
      if a == b then node a h x ∷ n ∷ c else node a h x ∷ insert_next b n c

  -- without its first node
  abbrev pub rest : List (Node A) → List (Node A)
  rest [] = []
  rest (n ∷ c) = c

  abbrev pub remove_next : ℕ → List (Node A) → List (Node A)
  remove_next b [] = []
  remove_next b (node a h x ∷ c) =
      if a == b then node a h x ∷ rest c else node a h x ∷ remove_next b c

  pub first-set_holder :
      (b : ℕ) (k : Option ℕ) (c : List (Node A)) → first (set_holder b k c) ≡ first c
  first-set_holder b k [] = refl
  first-set_holder b k (node a h x ∷ c) = ground arith

  pub first-insert_next :
      (b : ℕ) (n : Node A) (c : List (Node A)) → first (insert_next b n c) ≡ first c
  first-insert_next b n [] = refl
  first-insert_next b n (node a h x ∷ c) = ground arith

  pub first-remove_next : (b : ℕ) (c : List (Node A)) → first (remove_next b c) ≡ first c
  first-remove_next b [] = refl
  first-remove_next b (node a h x ∷ c) = ground arith

  pub find-first :
      (c : List (Node A)) (a : ℕ) → first c ≡ some a → (f : Found A) × (find c a ≡ some f)
  find-first [] a e = absurd (ground (arith, e))
  find-first (node b h x ∷ c) a e = (found h x (first c), ground (arith, e))

  -- the node behind a node is there
  pub find-next :
      (c : List (Node A)) (a b : ℕ) (h : Option ℕ) (x : Option A)
      → find c a ≡ some (found h x (some b))
      → (f : Found A) × (find c b ≡ some f)
  find-next [] a b h x e = absurd (ground (arith, e))
  find-next (node d k y ∷ c) a b h x e = elim (ℕ_discrete d b) [
    | yes here ↦ (found k y (first c), ground (arith, here))
    | no off ↦ elim (ℕ_discrete d a) [
      | yes same ↦
          let (f, at) = find-first c b (ground (arith, e, same)) in (f, ground (arith, at, off))
      | no differ ↦
          let (f, at) = find-next c a b h x (ground (arith, e, differ)) in
          (f, ground (arith, at, off))
    ]
  ]

  pub find-set_self :
      (c : List (Node A)) (a : ℕ) (h k : Option ℕ) (x : Option A) (n : Option ℕ)
      → find c a ≡ some (found h x n)
      → find (set_holder a k c) a ≡ some (found k x n)
  find-set_self [] a h k x n e = absurd (ground (arith, e))
  find-set_self (node d j y ∷ c) a h k x n e = ground (arith, e, find-set_self c a h k x n)

  pub find-set_ne :
      (c : List (Node A)) (a b : ℕ) (k : Option ℕ) → a ≢ b → find (set_holder a k c) b ≡ find c b
  find-set_ne [] a b k ne = refl
  find-set_ne (node d j y ∷ c) a b k ne =
      ground (arith, ne, find-set_ne c a b k ne, first-set_holder a k c)

  pub find-insert_ne :
      (c : List (Node A)) (a b d : ℕ) (k : Option ℕ) (y : Option A)
      → a ≢ b
      → d ≢ b
      → find (insert_next a (node d k y) c) b ≡ find c b
  find-insert_ne [] a b d k y ne new = refl
  find-insert_ne (node e j z ∷ c) a b d k y ne new =
      ground (arith, ne, new, find-insert_ne c a b d k y ne new, first-insert_next a (node d k y) c)

  pub find-insert_self :
      (c : List (Node A)) (a d : ℕ) (h k : Option ℕ) (x y : Option A) (n : Option ℕ)
      → find c a ≡ some (found h x n)
      → find (insert_next a (node d k y) c) a ≡ some (found h x (some d))
  find-insert_self [] a d h k x y n e = absurd (ground (arith, e))
  find-insert_self (node i j z ∷ c) a d h k x y n e =
      ground (arith, e, find-insert_self c a d h k x y n)

  -- the new node, of which the address was not in use
  pub find-insert_new :
      (c : List (Node A)) (a d : ℕ) (k : Option ℕ) (y : Option A) (f : Found A)
      → find c a ≡ some f
      → find c d ≡ none
      → (n : Option ℕ) × (find (insert_next a (node d k y) c) d ≡ some (found k y n))
  find-insert_new [] a d k y f e new = absurd (ground (arith, e))
  find-insert_new (node i j z ∷ c) a d k y f e new = elim (ℕ_discrete i a) [
    | yes same ↦ (first c, ground (arith, same, new))
    | no differ ↦
        let (n, at) =
          find-insert_new c a d k y f (ground (arith, e, differ)) (ground (arith, new)) in
        (n, ground (arith, at, differ, new))
  ]

  pub find-remove_ne :
      (c : List (Node A)) (a b d : ℕ) (h : Option ℕ) (x : Option A)
      → find c a ≡ some (found h x (some b))
      → a ≢ d
      → b ≢ d
      → find (remove_next a c) d ≡ find c d
  find-remove_ne [] a b d h x e ne off = refl
  find-remove_ne (node i j z ∷ []) a b d h x e ne off = ground (arith, e)
  find-remove_ne (node i j z ∷ node p q r ∷ c) a b d h x e ne off = ground (
    arith,
    e,
    ne,
    off,
    find-remove_ne (node p q r ∷ c) a b d h x,
    first-remove_next a (node p q r ∷ c),
  )

  pub find-remove_self :
      (c : List (Node A)) (a b : ℕ) (h : Option ℕ) (x : Option A)
      → find c a ≡ some (found h x (some b))
      → (n : Option ℕ) × (find (remove_next a c) a ≡ some (found h x n))
  find-remove_self [] a b h x e = absurd (ground (arith, e))
  find-remove_self (node i j z ∷ c) a b h x e = elim (ℕ_discrete i a) [
    | yes same ↦ (first (rest c), ground (arith, e, same))
    | no differ ↦
        let (n, at) = find-remove_self c a b h x (ground (arith, e, differ)) in
        (n, ground (arith, at, differ))
  ]
