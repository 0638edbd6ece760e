-- ===== src/Flist/Holds.antt =====
-- The nodes that the threads have pointers to, with their locks, and what leaves them as they are.
use ubuntu_projects.Base.{ℕ, ◌≡◌, ◌≢◌, Option, none, some, List, arith, some-same}
use ubuntu_projects.Flist.Chain.{
  Node, node, found, first, find, set_holder, insert_next, find-set_ne, find-insert_ne,
  find-remove_ne,
}
use ubuntu_projects.Flist.{Method, Cursor, out, prev, both, State, take_out}

pub some-other : (t u : ℕ) → t ≢ u → some t ≢ some u
some-other t u ne e = ne (some-same t u e)

module _ {A : Type 0} where
  -- A thread holds the locks of the nodes that it has pointers to, and these are in the list, one
  -- behind the other.
  abbrev pub Holds : ℕ → Cursor A → List (Node A) → Type 0
  Holds t out c = Unit {0}
  Holds t (prev m a) c = (x : Option A) × (n : Option ℕ) × (find c a ≡ some (found (some t) x n))
  Holds t (both m a b) c =
      (a ≢ b)
      × ((x : Option A) × (find c a ≡ some (found (some t) x (some b))))
      × ((y : Option A) × (n : Option ℕ) × (find c b ≡ some (found (some t) y n)))

  pub record Safe (s : State A) : Type 0 where
    pub begins : first s.chain ≡ some s.before_begin
    pub holds : (t : ℕ) → Holds t (s.cursor t) s.chain

  -- The nodes that the thread holds stay as they are.
  abbrev pub Stays : ℕ → List (Node A) → List (Node A) → Type 0
  Stays u c d =
      (a : ℕ) (x : Option A) (n : Option ℕ)
      → find c a ≡ some (found (some u) x n)
      → find d a ≡ some (found (some u) x n)

  pub Stays-Holds :
      (u : ℕ) (k : Cursor A) (c d : List (Node A)) → Stays u c d → Holds u k c → Holds u k d
  Stays-Holds u out c d stays h = tt
  Stays-Holds u (prev m a) c d stays (x, n, at) = (x, n, stays a x n at)
  Stays-Holds u (both m a b) c d stays (ne, (x, at), (y, n, there)) =
      (ne, (x, stays a x (some b) at), (y, n, stays b y n there))

  pub set_holder-Stays :
      (u a : ℕ) (h k : Option ℕ) (x : Option A) (n : Option ℕ) (c : List (Node A))
      → find c a ≡ some (found h x n)
      → h ≢ some u
      → Stays u c (set_holder a k c)
  set_holder-Stays u a h k x n c at other =
      λ b y m there. ground (arith, at, there, other, find-set_ne c a b k)

  pub insert_next-Stays :
      (u a d : ℕ) (k : Option ℕ) (x y : Option A) (n : Option ℕ) (c : List (Node A))
      → find c a ≡ some (found none x n)
      → find c d ≡ none
      → Stays u c (insert_next a (node d k y) c)
  insert_next-Stays u a d k x y n c at new =
      λ b z m there. ground (arith, at, new, there, find-insert_ne c a b d k y)

  pub take_out-Stays :
      (t u a b : ℕ) (c : List (Node A)) (m : Method A)
      → t ≢ u
      → Holds t (both m a b) c
      → Stays u c (take_out a b c)
  take_out-Stays t u a b c m ne (apart, (x, at), (y, n, there)) = λ d z k here. ground (
    arith,
    ne,
    apart,
    at,
    there,
    here,
    find-set_ne c b d none,
    find-set_ne c b a none,
    find-remove_ne (set_holder b none c) a b d (some t) x,
  )
