-- ===== src/Queue/Pop.antt =====
-- The methods that take items out.
use mathlib.Core.Path.{subst}
use ubuntu_projects.Base.{
  ℕ, zero, suc, ◌<◌, ◌≡◌, ◌≢◌, refl, ap, sym, ◌∙◌, true, false, ◌||◌, Option, none, some, List, [],
  ◌∷◌, ◌==◌, length, take, drop, arith, Bool-cases, inl, inr,
}
use ubuntu_projects.Base.Int.{ℤ, pos, negsuc, eq_ℤ}
use ubuntu_projects.Waits.{pred}
use ubuntu_projects.Queue.Memory.{Sized, node, Nodes, write}
use ubuntu_projects.Queue.Memory.Seg.{Cells, at, values, Seg, Seg-write, Seg-end}
use ubuntu_projects.Queue.Push.{Holds}
use ubuntu_projects.Queue.{
  Queue, State, advance, pop_unprotected_unchecked, then_write, pop_n_unprotected,
  get_tail_protected, pop_n,
}

module _ {A : Type 0} ⦃sized : Sized A⦄ where
  -- what a count takes from the front, and what it leaves: a negative one takes everything
  abbrev pub part : ℤ → List A → List A × List A
  part (pos n) xs = (take n xs, drop n xs)
  part (negsuc n) xs = (xs, [])

  pub length-values : (cs : Cells A) → length (values cs) ≡ length cs
  length-values [] = refl
  length-values ((p, x) ∷ cs) = omega (arith, length-values cs)

  -- the state when the node at the head has been taken out
  abbrev pub popped : State A → ℕ → State A
  popped (h, q) n = (write h q.head none, record q { head = n })

  pub advance-popped :
      (s : State A) (x : A) (n : ℕ)
      → s.0 s.1.head ≡ some (node (some x) n)
      → (advance s ≡ some (popped s n)) × (pop_unprotected_unchecked s ≡ some (x, popped s n))
  unfolding advance pop_unprotected_unchecked
  advance-popped s x n here = (ground (arith, here), ground (arith, here))

  -- The nodes of `cs`, from the head to `t`, have been taken out as far as `count` says; the others are as
  -- they were.
  abbrev pub Takes : State A → ℕ → Cells A → ℤ → Option (List A × State A) → Type 0
  Takes s t cs count none = ⊥
  Takes s t cs count (some (out, u)) =
      (ds : Cells A) × Seg u.0 u.1.head ds t
      × ((out, values ds) ≡ part count (values cs))
      × ((b : ℕ) → at b cs ≡ false → (u.0 b ≡ s.0 b) × (at b ds ≡ false))
      × (u.1.tail ≡ s.1.tail)
      × (u.1.interrupt_waiting ≡ s.1.interrupt_waiting)

  pop_n-stops :
      (fuel : ℕ) (count : ℤ) (t : ℕ) (s : State A)
      → (eq_ℤ count (pos 0) || (s.1.head == t)) ≡ true
      → pop_n_unprotected (suc fuel) count t s ≡ some ([], s)
  unfolding pop_n_unprotected
  pop_n-stops fuel count t s stop = ground (arith, stop)

  pop_n-goes :
      (fuel : ℕ) (count : ℤ) (t : ℕ) (s : State A) (x : A) (n : ℕ)
      → eq_ℤ count (pos 0) ≡ false
      → s.1.head ≢ t
      → s.0 s.1.head ≡ some (node (some x) n)
      → pop_n_unprotected (suc fuel) count t s
        ≡ then_write x (pop_n_unprotected fuel (pred count) t (popped s n))
  unfolding pop_n_unprotected
  pop_n-goes fuel count t s x n more ne here =
      let differ : (s.1.head == t) ≡ false = ground (arith, ne) in
      rw (pop_n_unprotected, more, differ, (advance-popped s x n here).1)

  part-zero : (count : ℤ) (xs : List A) → eq_ℤ count (pos 0) ≡ true → part count xs ≡ ([], xs)
  part-zero (pos zero) xs stop = refl
  part-zero (pos (suc n)) xs stop = ground (arith, stop)
  part-zero (negsuc n) xs stop = ground (arith, stop)

  part-nil : (count : ℤ) → part count [] ≡ ([], [])
  part-nil (pos zero) = refl
  part-nil (pos (suc n)) = refl
  part-nil (negsuc n) = refl

  part-first :
      (count : ℤ) (x : A) (xs : List A)
      → eq_ℤ count (pos 0) ≡ false
      → part count (x ∷ xs) ≡ (x ∷ (part (pred count) xs).0, (part (pred count) xs).1)
  part-first (pos zero) x xs more = ground (arith, more)
  part-first (pos (suc n)) x xs more = refl
  part-first (negsuc n) x xs more = refl

  then_write-Takes :
      (h : Nodes A) (q : Queue) (t p n : ℕ) (x : A) (cs : Cells A) (count : ℤ)
      (o : Option (List A × State A))
      → eq_ℤ count (pos 0) ≡ false
      → at p cs ≡ false
      → q.head ≡ p
      → Takes (popped (h, q) n) t cs (pred count) o
      → Takes (h, q) t ((p, x) ∷ cs) count (then_write x o)
  unfolding write
  then_write-Takes h q t p n x cs count none more out e takes = takes
  then_write-Takes h q t p n x cs count (some (out', u)) more out e
        (ds, seg, parted, same, tail, flag) =
      (
        ds,
        seg,
        ap (λ r. (x ∷ r.0, r.1)) parted ∙ sym (part-first count x (values cs) more),
        λ b i. (ground (arith, (same b (ground arith)).0, i, e), (same b (ground arith)).1),
        tail,
        flag,
      )

  pub pop_n_unprotected-Takes :
      (fuel : ℕ) (count : ℤ) (t : ℕ) (s : State A) (cs : Cells A)
      → Seg s.0 s.1.head cs t
      → length cs < fuel
      → Takes s t cs count (pop_n_unprotected fuel count t s)
  pop_n_unprotected-Takes zero count t s cs seg lt = absurd (omega arith)
  pop_n_unprotected-Takes (suc fuel) count t s [] seg lt =
      let stop : (eq_ℤ count (pos 0) || (s.1.head == t)) ≡ true = ground (arith, seg) in
      rw (pop_n-stops fuel count t s stop)
        ([], seg, sym (part-nil count), λ b i. (refl, refl), refl, refl)
  pop_n_unprotected-Takes (suc fuel) count t s ((p, x) ∷ cs) (n, e, here, once, ne, rest) lt =
      elim (Bool-cases (eq_ℤ count (pos 0))) [
        | inl stop ↦ rw (pop_n-stops fuel count t s (ground (arith, stop))) (
          (p, x) ∷ cs,
          (n, e, here, once, ne, rest),
          sym (part-zero count (x ∷ values cs) stop),
          λ b i. (refl, i),
          refl,
          refl,
        )
        | inr more ↦
            let seg = Seg-write s.0 n cs t s.1.head none rest once in
            let takes =
              pop_n_unprotected-Takes fuel (pred count) t (popped s n) cs seg (omega arith) in
            rw (pop_n-goes fuel count t s x n more ne here) (
              then_write-Takes s.0 s.1 t p n x cs count
                (pop_n_unprotected fuel (pred count) t (popped s n)) more (ground (arith, once, e))
                e takes)
      ]

  -- What comes out is what `count` takes from the front, and the queue holds what is left.
  abbrev pub PopsN : ℤ → List A → Option (List A × State A) → Type 0
  PopsN count xs none = ⊥
  PopsN count xs (some (out, u)) = (out ≡ (part count xs).0) × Holds u (part count xs).1

  Takes-PopsN :
      (s : State A) (count : ℤ) (xs : List A) (holds : Holds s xs) (o : Option (List A × State A))
      → Takes s s.1.tail holds.cells count o
      → PopsN count xs o
  Takes-PopsN s count xs holds none takes = takes
  Takes-PopsN s count xs holds (some (out, u)) (ds, seg, parted, same, tail, flag) =
      let end = same s.1.tail (Seg-end s.0 s.1.head holds.cells s.1.tail holds.linked) in
      let split = parted ∙ ap (part count) holds.listed in
      (
        ap (λ r. r.0) split,
        record {
          cells = ds;
          linked = subst (λ t. Seg u.0 u.1.head ds t) (sym tail) seg;
          listed = ap (λ r. r.1) split;
          ended = ap u.0 tail ∙ end.0 ∙ holds.ended;
          fits = holds.fits;
        },
      )

  -- When the queue holds `xs`, items of at most 8 bytes, which have room in front of `m_next`,
  -- `pop_n` with fuel for each item does nothing undefined, gives what the count takes from the
  -- front of `xs`, in order, all for a negative count, and the queue holds the others.
  pub pop_n-PopsN :
      (fuel : ℕ) (count : ℤ) (s : State A) (xs : List A)
      → Holds s xs
      → length xs < fuel
      → PopsN count xs (pop_n fuel count s)
  unfolding pop_n get_tail_protected
  pop_n-PopsN fuel count s xs holds lt =
      Takes-PopsN s count xs holds (pop_n_unprotected fuel count s.1.tail s) (
        pop_n_unprotected-Takes fuel count s.1.tail s holds.cells holds.linked
          (omega (arith, length-values holds.cells, ap length holds.listed)))
