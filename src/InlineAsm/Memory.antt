-- ===== src/InlineAsm/Memory.antt =====
-- Numbers of 4 and 8 bytes in memory.
use native.Mathlib.Omega.{arith}
use native.Mathlib.Nat.{div-add-mod', mul-add-mod_self_right, mul_comm}
use ubuntu_projects.Base.{
  ℕ, zero, suc, ◌+◌, ◌*◌, ◌/◌, ◌%◌, ◌^◌, ◌≤◌, ◌<◌, ◌≡◌, ◌∙◌, ◌⊎◌, inl, inr, ap, sym, refl,
}
use ubuntu_projects.AsmInC.{load, store_byte}
use ubuntu_projects.InlineAsm.{store}

-- the number of a given number of bytes that a number is cut to
abbrev pub cut : ℕ → ℕ → ℕ
cut zero v = 0
cut (suc n) v = v % 256 + 256 * cut n (v / 256)

store-below : (n a v : ℕ) (mem : ℕ → ℕ) (i : ℕ) → i < a → store n a v mem i ≡ mem i
unfolding store
store-below zero a v mem i lt = refl
store-below (suc n) a v mem i lt =
    store-below n (a + 1) (v / 256) (store_byte a (v % 256) mem) i (omega arith) ∙ ground arith

store-behind : (n a v : ℕ) (mem : ℕ → ℕ) (i : ℕ) → a + n ≤ i → store n a v mem i ≡ mem i
unfolding store
store-behind zero a v mem i le = refl
store-behind (suc n) a v mem i le =
    store-behind n (a + 1) (v / 256) (store_byte a (v % 256) mem) i (omega arith) ∙ ground arith

-- what is stored is read back, cut to the bytes that are read
pub load-store : (n m a v : ℕ) (mem : ℕ → ℕ) → n ≤ m → load n (store m a v mem) a ≡ cut n v
unfolding load store
load-store zero m a v mem le = refl
load-store (suc n) zero a v mem le = absurd (omega arith)
load-store (suc n) (suc m) a v mem le =
    let rest = load-store n m (a + 1) (v / 256) (store_byte a (v % 256) mem) (omega arith) in
    let kept = store-below m (a + 1) (v / 256) (store_byte a (v % 256) mem) a (omega arith) in
    let here : store_byte a (v % 256) mem a ≡ v % 256 = ground arith in
    omega (arith, rest, kept ∙ here)

load-eq :
    (n a : ℕ) (mem next : ℕ → ℕ)
    → ((i : ℕ) → a ≤ i → i < a + n → next i ≡ mem i)
    → load n next a ≡ load n mem a
unfolding load
load-eq zero a mem next same = refl
load-eq (suc n) a mem next same =
    let rest = load-eq n (a + 1) mem next (λ i le lt. same i (omega arith) (omega arith)) in
    omega (arith, rest, same a (omega arith) (omega arith))

-- a number elsewhere is as it was
pub load-apart :
    (n k a b v : ℕ) (mem : ℕ → ℕ)
    → (b + n ≤ a) ⊎ (a + k ≤ b)
    → load n (store k a v mem) b ≡ load n mem b
load-apart n k a b v mem (inl le) =
    load-eq n b mem (store k a v mem) (λ i _ lt. store-below k a v mem i (omega arith))
load-apart n k a b v mem (inr le) =
    load-eq n b mem (store k a v mem) (λ i ge _. store-behind k a v mem i (omega arith))

pub low-load : (mem : ℕ → ℕ) (a : ℕ) → load 8 mem a % 2 ^ 32 ≡ load 4 mem a
unfolding load
low-load mem a = omega arith

mul-low : (a b m : ℕ) → a * b % m ≡ (a % m) * b % m
mul-low a b m =
    let split : (a / m * m + a % m) * b ≡ a / m * b * m + a % m * b = grind arith in
    ap (λ z. z * b % m) (sym (div-add-mod' a m))
    ∙ (ap (λ z. z % m) split ∙ mul-add-mod_self_right (a / m * b) m (a % m * b))

pub mul-both_low : (a b m : ℕ) → a * b % m ≡ (a % m) * (b % m) % m
mul-both_low a b m =
    let swap = λ (u v : ℕ). ap (λ z. z % m) (mul_comm u v) in
    mul-low a b m ∙ (swap (a % m) b ∙ (mul-low b (a % m) m ∙ swap (b % m) (a % m)))
