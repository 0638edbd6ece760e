-- ===== src/Flist/Place.antt =====
-- A list of nodes seen from one of them: those before it, and those behind it.
use mathlib.Core.Path.{subst}
use ubuntu_projects.Base.{
  ℕ, ◌≡◌, ◌≢◌, refl, ap, sym, ◌∙◌, Option, none, some, List, [], ◌∷◌, ◌++◌, arith,
}
use ubuntu_projects.Flist.Chain.{Node, node, found, first, find, set_holder, remove_next}
use ubuntu_projects.Flist.Distinct.{Distinct}
use ubuntu_projects.Flist.Contents.{contents}

module _ {A : Type 0} where
  -- No lock is held.
  abbrev pub Free : List (Node A) → Type 0
  Free [] = Unit {0}
  Free (node a h x ∷ c) = (h ≡ none) × Free c

  pub find-at :
      (pre suf : List (Node A)) (a : ℕ) (h : Option ℕ) (x : Option A)
      → Distinct (pre ++ node a h x ∷ suf)
      → find (pre ++ node a h x ∷ suf) a ≡ some (found h x (first suf))
  find-at [] suf a h x d = ground arith
  find-at (node i j z ∷ pre) suf a h x d =
      let there = find-at pre suf a h x d.1 in
      let off : i ≢ a = λ e. ground (arith, e, there, d.0) in ground (arith, off, there)

  pub set-at :
      (pre suf : List (Node A)) (a : ℕ) (h k : Option ℕ) (x : Option A)
      → Distinct (pre ++ node a h x ∷ suf)
      → set_holder a k (pre ++ node a h x ∷ suf) ≡ pre ++ node a k x ∷ suf
  set-at [] suf a h k x d = ground arith
  set-at (node i j z ∷ pre) suf a h k x d =
      let there = find-at pre suf a h x d.1 in
      let off : i ≢ a = λ e. ground (arith, e, there, d.0) in
      ground (arith, off, set-at pre suf a h k x d.1)

  pub remove-at :
      (pre suf : List (Node A)) (a : ℕ) (h : Option ℕ) (x : Option A) (n : Node A)
      → Distinct (pre ++ node a h x ∷ n ∷ suf)
      → remove_next a (pre ++ node a h x ∷ n ∷ suf) ≡ pre ++ node a h x ∷ suf
  remove-at [] suf a h x n d = ground arith
  remove-at (node i j z ∷ pre) suf a h x n d =
      let there = find-at pre (n ∷ suf) a h x d.1 in
      let off : i ≢ a = λ e. ground (arith, e, there, d.0) in
      ground (arith, off, remove-at pre suf a h x n d.1)

  pub snoc-append : (pre suf : List (Node A)) (n : Node A) → (pre ++ n ∷ []) ++ suf ≡ pre ++ n ∷ suf
  snoc-append [] suf n = refl
  snoc-append (m ∷ pre) suf n = ap (λ c. m ∷ c) (snoc-append pre suf n)

  pub Free-append : (pre suf : List (Node A)) → Free pre → Free suf → Free (pre ++ suf)
  Free-append [] suf f g = g
  Free-append (node a h x ∷ pre) suf f g = (f.0, Free-append pre suf f.1 g)

  pub contents-append :
      (pre suf : List (Node A)) → contents (pre ++ suf) ≡ contents pre ++ contents suf
  contents-append [] suf = refl
  contents-append (node a h x ∷ pre) suf = ap (λ c. x ∷ c) (contents-append pre suf)

  -- the same of the second one of two nodes
  second-Distinct :
      (pre suf : List (Node A)) (m n : Node A)
      → Distinct (pre ++ m ∷ n ∷ suf)
      → Distinct ((pre ++ m ∷ []) ++ n ∷ suf)
  second-Distinct pre suf m n d = subst Distinct (sym (snoc-append pre (n ∷ suf) m)) d

  pub find-second :
      (pre suf : List (Node A)) (m : Node A) (b : ℕ) (h : Option ℕ) (y : Option A)
      → Distinct (pre ++ m ∷ node b h y ∷ suf)
      → find (pre ++ m ∷ node b h y ∷ suf) b ≡ some (found h y (first suf))
  find-second pre suf m b h y d =
      ap (λ c. find c b) (sym (snoc-append pre (node b h y ∷ suf) m))
      ∙ find-at (pre ++ m ∷ []) suf b h y (second-Distinct pre suf m (node b h y) d)

  pub set-second :
      (pre suf : List (Node A)) (m : Node A) (b : ℕ) (h k : Option ℕ) (y : Option A)
      → Distinct (pre ++ m ∷ node b h y ∷ suf)
      → set_holder b k (pre ++ m ∷ node b h y ∷ suf) ≡ pre ++ m ∷ node b k y ∷ suf
  set-second pre suf m b h k y d =
      ap (set_holder b k) (sym (snoc-append pre (node b h y ∷ suf) m))
      ∙ set-at (pre ++ m ∷ []) suf b h k y (second-Distinct pre suf m (node b h y) d)
      ∙ snoc-append pre (node b k y ∷ suf) m
