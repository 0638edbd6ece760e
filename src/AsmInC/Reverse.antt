-- ===== src/AsmInC/Reverse.antt =====
-- sreverse.asm: the bytes of a text in the opposite order.
use native.Mathlib.Omega.{arith}
use mathlib.Core.Path.{subst}
use ubuntu_projects.Base.{
  ℕ, zero, suc, ◌+◌, ◌-◌, ◌%◌, ◌≤◌, ◌<◌, ◌≡◌, ◌∙◌, ap, sym, refl, none, some, Option, List, ◌∷◌,
  ◌++◌, length,
}
use ubuntu_projects.AsmInC.{
  word, Cpu, return_rdi, pops, load, enter, counts, leave, pushloop, poploop, sreverse,
}
use ubuntu_projects.AsmInC.Words.{down, stored, stored-down, stored-below, stored-outside}
use ubuntu_projects.AsmInC.Loops.{turned, pushloop-down, poploop-stored}

load-low : (mem : ℕ → ℕ) (a : ℕ) → load 8 mem a % 256 ≡ mem a % 256
unfolding load
load-low mem a = omega arith

length-down : (mem : ℕ → ℕ) (p m k : ℕ) → length (down mem p m k) ≡ m
length-down mem p zero k = refl
length-down mem p (suc m) k = ap suc (length-down mem p m k)

-- What the routine leaves: the `n` bytes from `p` on are reversed, the other bytes are as they
-- were, `rax` is the address, and the stack and `rbp` are those of the caller.
pub record Reversed (p n : ℕ) (c d : Cpu) : Type 0 where
  pub reversed : (i : ℕ) → i < n → d.mem (p + i) ≡ c.mem (p + (n - 1 - i)) % 256
  pub before : (a : ℕ) → a < p → d.mem a ≡ c.mem a
  pub behind : (a : ℕ) → p + n ≤ a → d.mem a ≡ c.mem a
  pub returns : d.rax ≡ p
  pub stack_kept : d.stack ≡ c.stack
  pub rbp_kept : d.rbp ≡ c.rbp

abbrev pub Reverses : ℕ → ℕ → Cpu → Option Cpu → Type 0
Reverses p n c none = ⊥
Reverses p n c (some d) = Reversed p n c d

pub leave_lem :
    (c : Cpu) (w : ℕ) (ws : List ℕ)
    → c.stack ≡ w ∷ ws
    → c.rbp ≡ suc (length ws)
    → leave c ≡ some (record c { rbp = w; stack = ws })
leave_lem c w ws top frame =
    let none_left : suc (length ws) - suc (length ws) ≡ 0 = omega arith in
    rw (top, frame, none_left) refl

module _ (c : Cpu) (m : ℕ) (count : c.rsi ≡ suc m) where
  -- the processor when all bytes have been popped
  abbrev written : ℕ → Cpu
  written v =
      turned (counts (enter c)) v (c.rbp ∷ c.stack)
        (stored c.rdi (down c.mem c.rdi (suc m) 0) 0 c.mem)
        (0 + suc (length (down c.mem c.rdi m 0))) 0

  written-Reversed :
      (v : ℕ)
      → Reversed c.rdi c.rsi c (record (written v) { rax = c.rdi; rbp = c.rbp; stack = c.stack })
  written-Reversed v = record {
    reversed = λ i lt.
        let start : c.rdi + i ≡ c.rdi + 0 + i = omega arith in
        let place : c.rdi + 0 + (suc m - 1 - i) ≡ c.rdi + (c.rsi - 1 - i) = omega (arith, count) in
        ap (stored c.rdi (down c.mem c.rdi (suc m) 0) 0 c.mem) start
        ∙ (stored-down c.rdi i c.mem (suc m) 0 c.mem (omega (arith, count))
            ∙ (load-low c.mem (c.rdi + 0 + (suc m - 1 - i)) ∙ ap (λ a. c.mem a % 256) place));
    before = λ a lt. stored-below c.rdi a (down c.mem c.rdi (suc m) 0) 0 c.mem (omega arith);
    behind = λ a le.
        stored-outside c.rdi a (down c.mem c.rdi (suc m) 0) 0 c.mem (λ lt. omega (arith, count))
          (omega (arith, count, length-down c.mem c.rdi m 0));
    returns = refl;
    stack_kept = refl;
    rbp_kept = refl;
  }

  -- the processor when the bytes have been pushed
  abbrev read : ℕ → Cpu
  read w =
      turned (counts (enter c)) w (down c.mem c.rdi (suc m) 0 ++ (c.rbp ∷ c.stack)) c.mem
        (0 + suc m) 0

  runs :
      (fuel w v : ℕ)
      → pushloop fuel (counts (enter c)) ≡ some (read w)
      → poploop fuel (counts (read w)) ≡ some (written v)
      → sreverse fuel c ≡ some (record (written v) { rax = c.rdi; rbp = c.rbp; stack = c.stack })
  unfolding sreverse
  runs fuel w v pushed popped =
      ap (pops fuel) pushed
      ∙ (ap return_rdi popped
          ∙ leave_lem (record (written v) { rax = c.rdi }) c.rbp c.stack refl refl)

pub sreverse-Reverses :
    (fuel m : ℕ) (c : Cpu)
    → m < fuel
    → c.rsi ≡ suc m
    → c.rdi + suc m < word
    → Reverses c.rdi c.rsi c (sreverse fuel c)
sreverse-Reverses fuel m c lt count fits =
    let (w, pushed) = pushloop-down m fuel (counts (enter c)) lt count (omega (arith, fits)) in
    let len = length-down c.mem c.rdi m 0 in
    let (v, popped) =
      poploop-stored (down c.mem c.rdi m 0) (c.rbp ∷ c.stack) (load 8 c.mem (c.rdi + 0 + m)) fuel
        (counts (read c m count w)) (omega (arith, len)) (count ∙ ap suc (sym len)) refl
        (omega (arith, len, fits)) in
    subst (Reverses c.rdi c.rsi c) (sym (runs c m count fuel w v pushed popped))
      (written-Reversed c m count v)
