-- ===== src/Queue/Memory/Seg.antt =====
-- Lists of nodes in memory.
use ubuntu_projects.Base.{
  ℕ, ◌≡◌, ◌≢◌, refl, ap, ◌∙◌, Bool, true, false, ◌||◌, Option, none, some, List, [], ◌∷◌, ◌++◌,
  ◌==◌, arith,
}
use ubuntu_projects.Queue.Memory.{Node, node, Nodes, write}

-- the nodes of a list, each with its address and its value
abbrev pub Cells : Type 0 → Type 0
Cells A = List (ℕ × A)

module _ {A : Type 0} where
  -- whether a node stands at the address
  abbrev pub at : ℕ → Cells A → Bool
  at p [] = false
  at p ((q, x) ∷ cs) = (p == q) || at p cs

  abbrev pub values : Cells A → List A
  values [] = []
  values ((q, x) ∷ cs) = x ∷ values cs

  -- From `p` the pointers lead through the nodes to `t`, no node of which is met twice.
  abbrev pub Seg : Nodes A → ℕ → Cells A → ℕ → Type 0
  Seg h p [] t = p ≡ t
  Seg h p ((q, x) ∷ cs) t =
      (n : ℕ) × (p ≡ q)
      × (h p ≡ some (node (some x) n))
      × (at p cs ≡ false)
      × (p ≢ t)
      × Seg h n cs t

  pub values-append : (cs ds : Cells A) → values (cs ++ ds) ≡ values cs ++ values ds
  values-append [] ds = refl
  values-append ((q, x) ∷ cs) ds = ap (λ r. x ∷ r) (values-append cs ds)

  pub at-append : (a : ℕ) (cs ds : Cells A) → at a (cs ++ ds) ≡ (at a cs || at a ds)
  at-append a [] ds = refl
  at-append a ((q, x) ∷ cs) ds = ground (arith, at-append a cs ds)

  -- The list stays when nodes at other addresses change.
  pub Seg-frame :
      (h g : Nodes A) (p : ℕ) (cs : Cells A) (t : ℕ)
      → Seg h p cs t
      → ((a : ℕ) → at a cs ≡ true → g a ≡ h a)
      → Seg g p cs t
  Seg-frame h g p [] t e same = e
  Seg-frame h g p ((q, x) ∷ cs) t (n, e, here, out, ne, rest) same = (
    n,
    e,
    same p (ground arith) ∙ here,
    out,
    ne,
    Seg-frame h g n cs t rest (λ a i. same a (ground arith)),
  )

  pub Seg-write :
      (h : Nodes A) (p : ℕ) (cs : Cells A) (t a : ℕ) (c : Option (Node A))
      → Seg h p cs t
      → at a cs ≡ false
      → Seg (write h a c) p cs t
  unfolding write
  Seg-write h p cs t a c seg out = Seg-frame h (write h a c) p cs t seg (λ b i. ground arith)

  -- Where nothing stands, no node of the list stands.
  pub Seg-free :
      (h : Nodes A) (p : ℕ) (cs : Cells A) (t a : ℕ) → Seg h p cs t → h a ≡ none → at a cs ≡ false
  Seg-free h p [] t a seg free = refl
  Seg-free h p ((q, x) ∷ cs) t a (n, e, here, out, ne, rest) free =
      ground (arith, Seg-free h n cs t a rest free)

  pub Seg-end : (h : Nodes A) (p : ℕ) (cs : Cells A) (t : ℕ) → Seg h p cs t → at t cs ≡ false
  Seg-end h p [] t seg = refl
  Seg-end h p ((q, x) ∷ cs) t (n, e, here, out, ne, rest) = ground (arith, Seg-end h n cs t rest)

  -- A list, the node at its end and a list from there make one list.
  pub Seg-join :
      (h : Nodes A) (p : ℕ) (cs : Cells A) (t : ℕ) (x : A) (n : ℕ) (ds : Cells A) (u : ℕ)
      → Seg h p cs t
      → h t ≡ some (node (some x) n)
      → Seg h n ds u
      → ((a : ℕ) → at a cs ≡ true → at a ds ≡ false)
      → at t ds ≡ false
      → at u cs ≡ false
      → t ≢ u
      → Seg h p (cs ++ (t, x) ∷ ds) u
  Seg-join h p [] t x n ds u e here seg apart out fresh ne =
      (n, e, (ap h e) ∙ here, ground arith, ground arith, seg)
  Seg-join h p ((q, y) ∷ cs) t x n ds u (m, e, there, once, other, rest) here seg apart out fresh
        ne =
      (
        m,
        e,
        there,
        ground (arith, at-append p cs ((t, x) ∷ ds), apart p),
        ground arith,
        Seg-join h m cs t x n ds u rest here seg (λ a i. apart a (ground arith)) out (ground arith)
            ne,
      )
