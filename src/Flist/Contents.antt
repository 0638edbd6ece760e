-- ===== src/Flist/Contents.antt =====
-- What is stored in the nodes of a list, and how the functions on the nodes change it.
use mathlib.Core.Path.{subst}
use native.Mathlib.Decide.{ℕ_discrete}
use ubuntu_projects.Base.{
  ℕ, ◌≡◌, ◌≢◌, refl, ap, sym, ◌∙◌, Option, none, some, List, [], ◌∷◌, ◌++◌, arith,
}
use ubuntu_projects.Flist.Chain.{
  Node, node, found, first, find, rest, set_holder, insert_next, remove_next, find-next,
  find-set_ne, find-set_self,
}
use ubuntu_projects.Flist.Distinct.{Distinct, set-Distinct}
use ubuntu_projects.Flist.{Method, take_out}

module _ {A : Type 0} where
  abbrev pub contents : List (Node A) → List (Option A)
  contents [] = []
  contents (node a h x ∷ c) = x ∷ contents c

  -- what is stored behind the node `m_before_begin`
  abbrev pub items : List (Node A) → List (Option A)
  items c = contents (rest c)

  -- One entry is taken out of a list, and the others stay in their order.
  abbrev pub Takes : Option A → List (Option A) → List (Option A) → Type 0
  Takes y xs ys =
      (us : List (Option A)) × (vs : List (Option A)) × (xs ≡ us ++ y ∷ vs) × (ys ≡ us ++ vs)

  pub contents-set_holder :
      (b : ℕ) (k : Option ℕ) (c : List (Node A)) → contents (set_holder b k c) ≡ contents c
  contents-set_holder b k [] = refl
  contents-set_holder b k (node a h x ∷ c) = ground (arith, contents-set_holder b k c)

  pub items-set_holder :
      (b : ℕ) (k : Option ℕ) (c : List (Node A)) → items (set_holder b k c) ≡ items c
  items-set_holder b k [] = refl
  items-set_holder b k (node a h x ∷ c) = ground (arith, contents-set_holder b k c)

  pub items-insert_next :
      (b : ℕ) (d : ℕ) (k : Option ℕ) (y : Option A) (c : List (Node A))
      → first c ≡ some b
      → items (insert_next b (node d k y) c) ≡ y ∷ items c
  items-insert_next b d k y [] e = absurd (ground (arith, e))
  items-insert_next b d k y (node a h x ∷ c) e = ground (arith, e)

  contents-remove_next :
      (a p : ℕ) (q : Option ℕ) (r : Option A) (c : List (Node A))
      → contents (remove_next a (node p q r ∷ c)) ≡ r ∷ items (remove_next a (node p q r ∷ c))
  contents-remove_next a p q r c = ground arith

  Takes-cons :
      (y r : Option A) (xs ys zs : List (Option A))
      → Takes y xs ys
      → zs ≡ r ∷ ys
      → Takes y (r ∷ xs) zs
  Takes-cons y r xs ys zs (us, vs, was, is) e =
      (r ∷ us, vs, ap (λ ws. r ∷ ws) was, e ∙ ap (λ ws. r ∷ ws) is)

  -- A node that is taken out, by the node before it.
  Takes-remove_next :
      (a b : ℕ) (h k : Option ℕ) (x y : Option A) (n : Option ℕ) (c : List (Node A))
      → Distinct c
      → find c a ≡ some (found h x (some b))
      → find c b ≡ some (found k y n)
      → Takes y (items c) (items (remove_next a c))
  Takes-remove_next a b h k x y n [] d e f = absurd (ground (arith, e))
  Takes-remove_next a b h k x y n (node i j z ∷ []) d e f = absurd (ground (arith, e))
  Takes-remove_next a b h k x y n (node i j z ∷ node p q r ∷ c) d e f = elim (ℕ_discrete i a) [
    | yes same ↦ ([], contents c, ground (arith, e, f, same, d.0), ground (arith, same))
    | no differ ↦
        let old : find (node p q r ∷ c) a ≡ some (found h x (some b)) = ground (arith, e, differ) in
        let (g, at) = find-next (node p q r ∷ c) a b h x old in
        let off : i ≢ b = λ eq. ground (arith, eq, at, d.0) in
        Takes-cons y r _ _ _
          (Takes-remove_next a b h k x y n (node p q r ∷ c) d.1 old (ground (arith, f, off)))
          (ground (arith, differ, contents-remove_next a p q r c))
  ]

  pub Takes-take_out :
      (t : ℕ) (m : Method A) (a b : ℕ) (y : Option A) (n : Option ℕ) (c : List (Node A))
      → Distinct c
      → (x : Option A) → a ≢ b
      → find c a ≡ some (found (some t) x (some b))
      → find c b ≡ some (found (some t) y n)
      → Takes y (items c) (items (take_out a b c))
  Takes-take_out t m a b y n c d x ne at there =
      let taken =
        Takes-remove_next a b (some t) none x y n (set_holder b none c) (set-Distinct b none c d)
          (find-set_ne c b a none (λ e. ne (sym e)) ∙ at)
          (find-set_self c b (some t) none y n there) in
      subst (λ xs. Takes y xs (items (take_out a b c))) (items-set_holder b none c) taken
