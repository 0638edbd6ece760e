-- ===== src/Threadpool/Inner.antt =====
-- What the methods of the inner queues do to the tasks in them.
use ubuntu_projects.Base.{
  ℕ, zero, suc, ◌+◌, ◌<◌, ◌≡◌, refl, Bool, Option, none, some, List, [], ◌∷◌, arith, length,
  get_elem?, get_elem?-some, set, length-set, count, count-append,
}
use ubuntu_projects.Threadpool.{
  InnerQueue, Pool, inner_push, inner_try_pop, inner_try_steal, on_inner,
}

module _ {T : Type 0} where
  abbrev pub taken : Option T → List T
  taken none = []
  taken (some task) = task ∷ []

  -- how many tasks of the inner queues pass a test
  abbrev pub count_all : (T → Bool) → List (InnerQueue T) → ℕ
  count_all t [] = 0
  count_all t (q ∷ qs) = count t q + count_all t qs

  pub count_all-set :
      (t : T → Bool) (qs : List (InnerQueue T)) (i : ℕ) (q r : InnerQueue T)
      → get_elem? qs i ≡ some q
      → count_all t (set qs i r) + count t q ≡ count_all t qs + count t r
  count_all-set t [] i q r at = absurd (ground (arith, at))
  count_all-set t (s ∷ qs) zero q r at = ground (arith, at)
  count_all-set t (s ∷ qs) (suc i) q r at = omega (arith, count_all-set t qs i q r at)

  pub steal-none : (q : InnerQueue T) → (inner_try_steal q).0 ≡ none → q ≡ []
  unfolding inner_try_steal
  steal-none [] e = refl
  steal-none (task ∷ q) e = ground (arith, e)

  pub steal-count :
      (t : T → Bool) (q : InnerQueue T)
      → count t q ≡ count t (taken (inner_try_steal q).0) + count t (inner_try_steal q).1
  unfolding inner_try_steal
  steal-count t [] = refl
  steal-count t (task ∷ q) = ground (arith, steal-count t q, steal-none q)

  pub pop-count :
      (t : T → Bool) (q : InnerQueue T)
      → count t q ≡ count t (taken (inner_try_pop q).0) + count t (inner_try_pop q).1
  unfolding inner_try_pop
  pop-count t [] = refl
  pop-count t (task ∷ q) = ground arith

  pub pop-none :
      (q : InnerQueue T) → (inner_try_pop q).0 ≡ none → (q ≡ []) × ((inner_try_pop q).1 ≡ [])
  unfolding inner_try_pop
  pop-none [] e = (refl, refl)
  pop-none (task ∷ q) e = absurd (ground (arith, e))

  pub push-count :
      (t : T → Bool) (task : T) (q : InnerQueue T)
      → count t (task ∷ []) + count t q ≡ count t (taken none) + count t (inner_push task q)
  unfolding inner_push
  push-count t task q = omega (arith, count-append t q (task ∷ []))

module _ {S T : Type 0} where
  -- The tasks of the inner queues that pass the test, with those that come in, are as many as before, with
  -- the one that is given out; the queue of the pool is as it was.
  abbrev pub InnerBalanced : (T → Bool) → List T → Pool S T → Option (Option T × Pool S T) → Type 0
  InnerBalanced t put p none = ⊥
  InnerBalanced t put p (some (o, q)) =
      (q.queue ≡ p.queue)
      × (length q.inner_queues ≡ length p.inner_queues)
      × (count t put + count_all t p.inner_queues ≡ count t (taken o) + count_all t q.inner_queues)

  pub on_inner-InnerBalanced :
      (t : T → Bool) (put : List T) (f : InnerQueue T → Option T × InnerQueue T) (i : ℕ)
      (p : Pool S T)
      → i < length p.inner_queues
      → ((q : InnerQueue T) → count t put + count t q ≡ count t (taken (f q).0) + count t (f q).1)
      → InnerBalanced t put p (on_inner f i p)
  unfolding on_inner
  on_inner-InnerBalanced t put f i p lt law =
      let (q, at) = get_elem?-some p.inner_queues i lt in
      rw (at, on_inner)
        (
          refl,
          length-set p.inner_queues i (f q).1,
          omega (arith, law q, count_all-set t p.inner_queues i q (f q).1 at),
        )
