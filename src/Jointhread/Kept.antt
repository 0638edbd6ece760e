-- ===== src/Jointhread/Kept.antt =====
-- No thread is lost: the methods of jointhread.h in any order, on any objects.
use mathlib.Core.List.{Memᴰ}
use mathlib.Core.List.Memᴰ.{not-nil}
use ubuntu_projects.Base.{
  ℕ, ◌≡◌, ◌≢◌, refl, true, Option-cases, ◌⊎◌, inl, inr, none, some, List, [], ◌∷◌, ◌==◌, arith,
}
use ubuntu_projects.Jointhread.{
  Threads, Outcome, done, terminated, system_error, assert_failed, and_then, put, moved, joinable,
  join, detach, start, thread_assign, thread_destroy, check_join, assign, destroy, construct, swap,
}
use ubuntu_projects.Jointhread.Known.{
  Known, moved-Known, swap-Known, start-Known, join-Known, detach-Known,
}

pub data Op : Type 0 where
  starts : ℕ → ℕ → Op  -- the object, and the thread
  constructs assigns swaps : ℕ → ℕ → Op
  destroys joins detaches : ℕ → Op

-- a call, and the thread that makes it
abbrev pub perform : ℕ × Op → Threads → Outcome
perform (self, Op.starts i t) s = start i t s
perform (self, Op.constructs i j) s = construct i j s
perform (self, Op.assigns i j) s = assign self i j s
perform (self, Op.swaps i j) s = swap i j s
perform (self, Op.destroys i) s = destroy self i s
perform (self, Op.joins i) s = join self i s
perform (self, Op.detaches i) s = detach i s

abbrev pub perform_all : List (ℕ × Op) → Threads → Outcome
perform_all [] s = done s
perform_all (op ∷ ops) s = and_then (perform op s) (perform_all ops)

-- A constructor makes an object that has no thread, `join` and `detach` are called where there is
-- one, and no thread waits for itself.
abbrev pub Allowed : ℕ × Op → Threads → Type 0
Allowed (self, Op.starts i t) s = s.handle i ≡ none
Allowed (self, Op.constructs i j) s = s.handle i ≡ none
Allowed (self, Op.assigns i j) s = s.handle i ≢ some self
Allowed (self, Op.destroys i) s = s.handle i ≢ some self
Allowed (self, Op.joins i) s = (joinable i s ≡ true) × (s.handle i ≢ some self)
Allowed (self, Op.detaches i) s = joinable i s ≡ true
Allowed _ s = Unit {0}

abbrev pub After : Outcome → (Threads → Type 0) → Type 0
After (done s) P = P s
After _ P = Unit {0}

abbrev pub AllAllowed : List (ℕ × Op) → Threads → Type 0
AllAllowed [] s = Unit {0}
AllAllowed (op ∷ ops) s = Allowed op s × After (perform op s) (AllAllowed ops)

-- the threads that a sequence of calls starts
abbrev pub started : List (ℕ × Op) → List ℕ
started [] = []
started ((self, Op.starts i t) ∷ ops) = t ∷ started ops
started (_ ∷ ops) = started ops

-- The calls return, with every thread known that was known or is among `ts`.
abbrev pub Keeps : Threads → List ℕ → Outcome → Type 0
Keeps s ts (done s') = (t : ℕ) → Memᴰ t ts ⊎ Known t s → Known t s'
Keeps s ts _ = ⊥

Known-nil : {t : ℕ} (s : Threads) → Memᴰ t [] ⊎ Known t s → Known t s
Known-nil s (inl m) = absurd (not-nil m)
Known-nil s (inr k) = k

-- what `check_join` and `join` leave to be known
abbrev joined_one : ℕ → ℕ → Threads → Threads
joined_one i u s = record {
  handle = put s.handle i none;
  joined = u ∷ s.joined;
  detached = s.detached;
}

abbrev detached_one : ℕ → ℕ → Threads → Threads
detached_one i u s = record {
  handle = put s.handle i none;
  joined = s.joined;
  detached = u ∷ s.detached;
}

same_object : (i : ℕ) → (i == i) ≡ true
same_object i = ground arith

joinable-some : (i : ℕ) (s : Threads) → joinable i s ≡ true → (u : ℕ) × (s.handle i ≡ some u)
unfolding joinable
joinable-some i s e = elim (Option-cases (s.handle i)) [
  | inl nil ↦ ground (arith, e, nil)
  | inr h ↦ h
]

module _ (self i : ℕ) (s : Threads) where
  assign-free : (j : ℕ) → s.handle i ≡ none → assign self i j s ≡ done (moved i j s)
  unfolding assign check_join thread_assign joinable
  assign-free j e = ground (arith, e)

  assign-held :
      (j u : ℕ)
      → s.handle i ≡ some u
      → s.handle i ≢ some self
      → assign self i j s ≡ done (moved i j (joined_one i u s))
  unfolding assign check_join thread_assign joinable join
  assign-held j u e ne = ground (arith, e, ne)

  destroy-free : s.handle i ≡ none → destroy self i s ≡ done s
  unfolding destroy check_join thread_destroy joinable
  destroy-free e = ground (arith, e)

  destroy-held :
      (u : ℕ)
      → s.handle i ≡ some u
      → s.handle i ≢ some self
      → destroy self i s ≡ done (joined_one i u s)
  unfolding destroy check_join thread_destroy joinable join
  destroy-held u e ne = ground (arith, e, ne)

  join-held :
      (u : ℕ)
      → s.handle i ≡ some u
      → s.handle i ≢ some self
      → join self i s ≡ done (joined_one i u s)
  unfolding join
  join-held u e ne = ground (arith, e, ne)

  detach-held : (u : ℕ) → s.handle i ≡ some u → detach i s ≡ done (detached_one i u s)
  unfolding detach
  detach-held u e = ground (arith, e)

perform-Keeps :
    (op : ℕ × Op) (s : Threads) → Allowed op s → Keeps s (started (op ∷ [])) (perform op s)
unfolding start construct swap
perform-Keeps (self, Op.starts i u) s ok = λ t known. start-Known t i u s ok known
perform-Keeps (self, Op.constructs i j) s ok = λ t known. moved-Known t i j s ok (Known-nil s known)
perform-Keeps (self, Op.assigns i j) s ok = elim (Option-cases (s.handle i)) [
  | inl nil ↦
      rw (assign-free self i s j nil) (λ t known. moved-Known t i j s nil (Known-nil s known))
  | inr (u, h) ↦ rw (assign-held self i s j u h ok) (λ t known.
      moved-Known t i j (joined_one i u s) (rw (same_object i) refl)
        (join-Known t i u s h (Known-nil s known)))
]
perform-Keeps (self, Op.swaps i j) s ok = λ t known. swap-Known t i j s (Known-nil s known)
perform-Keeps (self, Op.destroys i) s ok = elim (Option-cases (s.handle i)) [
  | inl nil ↦ rw (destroy-free self i s nil) (λ t known. Known-nil s known)
  | inr (u, h) ↦
      rw (destroy-held self i s u h ok) (λ t known. join-Known t i u s h (Known-nil s known))
]
perform-Keeps (self, Op.joins i) s ok =
    let h = joinable-some i s ok.0 in
    rw (join-held self i s h.0 h.1 ok.1) (λ t known. join-Known t i h.0 s h.1 (Known-nil s known))
perform-Keeps (self, Op.detaches i) s ok =
    let h = joinable-some i s ok in
    rw (detach-held self i s h.0 h.1) (λ t known. detach-Known t i h.0 s h.1 (Known-nil s known))

by_first :
    (t : ℕ) (op : ℕ × Op) (ops : List (ℕ × Op))
    → Memᴰ t (started (op ∷ ops))
    → Memᴰ t (started (op ∷ [])) ⊎ Memᴰ t (started ops)
by_first t (self, Op.starts i u) ops (Memᴰ.head e) = inl (Memᴰ.head e)
by_first t (self, Op.starts i u) ops (Memᴰ.tail m) = inr m
by_first t _ ops m = inr m

chain :
    (op : ℕ × Op) (ops : List (ℕ × Op)) (s s' : Threads) (r : Outcome)
    → Keeps s (started (op ∷ [])) (done s')
    → Keeps s' (started ops) r
    → Keeps s (started (op ∷ ops)) r
chain op ops s s' (done s'') first rest = λ t known. elim known [
  | inl m ↦ elim (by_first t op ops m) [
    | inl now ↦ rest t (inr (first t (inl now)))
    | inr then_on ↦ rest t (inl then_on)
  ]
  | inr k ↦ rest t (inr (first t (inr k)))
]
chain op ops s s' terminated first rest = absurd rest
chain op ops s s' system_error first rest = absurd rest
chain op ops s s' assert_failed first rest = absurd rest

-- Any sequence of the methods of `jointhread`, called by any threads on any objects, in which a
-- constructor makes an object without a thread, `join` and `detach` are called where there is one,
-- and no thread waits for itself (none joins, assigns over or destroys the object that has it),
-- returns without ending the program when the threads that are joined come to their ends, and no
-- thread is lost: every thread that it starts, or that was known before, belongs to an object or
-- has been joined or detached.
pub perform_all-Keeps :
    (ops : List (ℕ × Op)) (s : Threads)
    → AllAllowed ops s
    → Keeps s (started ops) (perform_all ops s)
perform_all-Keeps [] s ok = λ t known. Known-nil s known
perform_all-Keeps (op ∷ ops) s ok =
    go (perform op s) ok.1 (perform-Keeps op s ok.0) (λ s'. perform_all-Keeps ops s')
  where
    go :
        (r : Outcome)
        → After r (AllAllowed ops)
        → Keeps s (started (op ∷ [])) r
        → ((s' : Threads) → AllAllowed ops s' → Keeps s' (started ops) (perform_all ops s'))
        → Keeps s (started (op ∷ ops)) (and_then r (perform_all ops))
    go (done s') more first rest = chain op ops s s' (perform_all ops s') first (rest s' more)
    go terminated more first rest = absurd first
    go system_error more first rest = absurd first
    go assert_failed more first rest = absurd first
