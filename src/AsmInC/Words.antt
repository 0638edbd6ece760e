-- ===== src/AsmInC/Words.antt =====
-- The words that are pushed and popped in sreverse.asm.
use native.Mathlib.Omega.{arith}
use ubuntu_projects.Base.{
  ℕ, zero, suc, ◌+◌, ◌-◌, ◌%◌, ◌≤◌, ◌<◌, ◌≡◌, ◌∙◌, ap, refl, List, [], ◌∷◌, ◌++◌, length,
}
use ubuntu_projects.AsmInC.{load, store_byte}

-- the words of `m` bytes from `k` on behind the address `p`, the last one first
abbrev pub down : (ℕ → ℕ) → ℕ → ℕ → ℕ → List ℕ
down mem p zero k = []
down mem p (suc m) k = load 8 mem (p + k + m) ∷ down mem p m k

pub down-push :
    (mem : ℕ → ℕ) (p m k : ℕ) (ws : List ℕ)
    → down mem p m (k + 1) ++ (load 8 mem (p + k) ∷ ws) ≡ down mem p (suc m) k ++ ws
down-push mem p zero k ws = ap (λ a. load 8 mem a ∷ ws) (omega arith)
down-push mem p (suc m) k ws =
    let same : p + (k + 1) + m ≡ p + k + suc m = omega arith in
    ap (λ l. load 8 mem (p + (k + 1) + m) ∷ l) (down-push mem p m k ws)
    ∙ ap (λ a. load 8 mem a ∷ (down mem p (suc m) k ++ ws)) same

-- the memory with the lowest bytes of the words written from `k` on behind the address `p`
abbrev pub stored : ℕ → List ℕ → ℕ → (ℕ → ℕ) → ℕ → ℕ
stored p [] k mem = mem
stored p (w ∷ ws) k mem = stored p ws (k + 1) (store_byte (p + k) (w % 256) mem)

pub stored-below :
    (p a : ℕ) (ws : List ℕ) (k : ℕ) (mem : ℕ → ℕ) → a < p + k → stored p ws k mem a ≡ mem a
stored-below p a [] k mem lt = refl
stored-below p a (w ∷ ws) k mem lt =
    stored-below p a ws (k + 1) (store_byte (p + k) (w % 256) mem) (omega arith) ∙ ground arith

pub stored-outside :
    (p a : ℕ) (ws : List ℕ) (k : ℕ) (mem : ℕ → ℕ)
    → (a < p + k → ⊥)
    → (p + k + length ws ≤ a)
    → stored p ws k mem a ≡ mem a
stored-outside p a [] k mem far le = refl
stored-outside p a (w ∷ ws) k mem far le =
    stored-outside p a ws (k + 1) (store_byte (p + k) (w % 256) mem) (λ lt. ground arith)
      (omega arith)
    ∙ ground arith

store_same : (a b : ℕ) (mem : ℕ → ℕ) → store_byte a b mem a ≡ b
store_same a b mem = ground arith

-- What is written in the end: the bytes in the opposite order.
pub stored-down :
    (p i : ℕ) (old : ℕ → ℕ) (m j : ℕ) (mem : ℕ → ℕ)
    → i < m
    → stored p (down old p m 0) j mem (p + j + i) ≡ load 8 old (p + 0 + (m - 1 - i)) % 256
stored-down p i old zero j mem lt = absurd (omega arith)
stored-down p zero old (suc m) j mem lt =
    let here : p + j + 0 ≡ p + j = omega arith in
    let there : p + 0 + m ≡ p + 0 + (suc m - 1 - 0) = omega arith in
    stored-below p (p + j + 0) (down old p m 0) (j + 1)
      (store_byte (p + j) (load 8 old (p + 0 + m) % 256) mem) (omega arith)
    ∙ (ap (store_byte (p + j) (load 8 old (p + 0 + m) % 256) mem) here
        ∙ (store_same (p + j) (load 8 old (p + 0 + m) % 256) mem
            ∙ ap (λ a. load 8 old a % 256) there))
stored-down p (suc i) old (suc m) j mem lt =
    let here : p + j + suc i ≡ p + (j + 1) + i = omega arith in
    let there : p + 0 + (m - 1 - i) ≡ p + 0 + (suc m - 1 - suc i) = omega arith in
    let next = store_byte (p + j) (load 8 old (p + 0 + m) % 256) mem in
    ap (stored p (down old p m 0) (j + 1) next) here
    ∙ (stored-down p i old m (j + 1) next (omega arith) ∙ ap (λ a. load 8 old a % 256) there)
