-- ===== src/Jointhread/Known.antt =====
-- Where a thread is, and that handles which are moved, and threads that are joined, do not change
-- that it is known.
use mathlib.Core.List.{Memᴰ}
use mathlib.Core.List.Memᴰ.{not-nil}
use ubuntu_projects.Base.{ℕ, ◌≡◌, Bool-cases, ◌⊎◌, inl, inr, none, some, [], ◌∷◌, ◌==◌, arith}
use ubuntu_projects.Jointhread.{Threads, put, with_handle, moved}

-- Where a thread is: an object has it, or it has been joined or detached.
pub data Known (t : ℕ) (s : Threads) : Type 0 where
  held : (i : ℕ) → s.handle i ≡ some t → Known t s
  ended : Memᴰ t s.joined → Known t s
  let_go : Memᴰ t s.detached → Known t s

module _ (t : ℕ) where
  -- a handle moved into an object that has none
  pub moved-Known : (i j : ℕ) (s : Threads) → s.handle i ≡ none → Known t s → Known t (moved i j s)
  moved-Known i j s e (held k h) = elim (Bool-cases (j == k)) [
    | inl same ↦ held i (ground (arith, same, h))
    | inr other ↦ held k (ground (arith, other, h, e))
  ]
  moved-Known i j s e (ended m) = ended m
  moved-Known i j s e (let_go m) = let_go m

  pub swap-Known :
      (i j : ℕ) (s : Threads)
      → Known t s
      → Known t (with_handle i (s.handle j) (with_handle j (s.handle i) s))
  swap-Known i j s (held k h) = elim (Bool-cases (i == k)) [
    | inl same ↦ held j (ground (arith, same, h))
    | inr other ↦ elim (Bool-cases (j == k)) [
      | inl same ↦ held i (ground (arith, same, h))
      | inr far ↦ held k (ground (arith, other, far, h))
    ]
  ]
  swap-Known i j s (ended m) = ended m
  swap-Known i j s (let_go m) = let_go m

  pub start-Known :
      (i u : ℕ) (s : Threads)
      → s.handle i ≡ none
      → Memᴰ t (u ∷ []) ⊎ Known t s
      → Known t (with_handle i (some u) s)
  start-Known i u s e (inl (Memᴰ.head same)) = held i (ground (arith, same))
  start-Known i u s e (inl (Memᴰ.tail m)) = absurd (not-nil m)
  start-Known i u s e (inr (held k h)) = held k (ground (arith, e, h))
  start-Known i u s e (inr (ended m)) = ended m
  start-Known i u s e (inr (let_go m)) = let_go m

  -- a thread that is joined, or detached
  pub join-Known :
      (i u : ℕ) (s : Threads)
      → s.handle i ≡ some u
      → Known t s
      → Known t
          (record { handle = put s.handle i none; joined = u ∷ s.joined; detached = s.detached })
  join-Known i u s e (held k h) = elim (Bool-cases (i == k)) [
    | inl same ↦ ended (Memᴰ.head (ground (arith, same, e, h)))
    | inr other ↦ held k (ground (arith, other, h))
  ]
  join-Known i u s e (ended m) = ended (Memᴰ.tail m)
  join-Known i u s e (let_go m) = let_go m

  pub detach-Known :
      (i u : ℕ) (s : Threads)
      → s.handle i ≡ some u
      → Known t s
      → Known t
          (record { handle = put s.handle i none; joined = s.joined; detached = u ∷ s.detached })
  detach-Known i u s e (held k h) = elim (Bool-cases (i == k)) [
    | inl same ↦ let_go (Memᴰ.head (ground (arith, same, e, h)))
    | inr other ↦ held k (ground (arith, other, h))
  ]
  detach-Known i u s e (ended m) = ended m
  detach-Known i u s e (let_go m) = let_go (Memᴰ.tail m)
