-- ===== src/InlineAsm/Results.antt =====
-- What `main` prints is right, although 8 bytes are moved for each `int`.
use native.Mathlib.Omega.{arith}
use ubuntu_projects.Base.{ℕ, ◌+◌, ◌-◌, ◌*◌, ◌%◌, ◌^◌, ◌≤◌, ◌<◌, ◌≡◌, ◌∙◌, ◌⊎◌, ap, [], ◌∷◌, refl}
use ubuntu_projects.AsmInC.{word, load}
use ubuntu_projects.InlineAsm.{store, int, Globals, subtract, add, multiply, main}
use ubuntu_projects.InlineAsm.Memory.{cut, load-store, load-apart, low-load, mul-both_low}

cut_four : (v : ℕ) → cut 4 v ≡ int v
cut_four v = omega arith

load-bound : (mem : ℕ → ℕ) (a : ℕ) → load 4 mem a < 2 ^ 32
unfolding load
load-bound mem a = omega arith

-- The 8 bytes that are stored for `sum` do not overlap a variable.
abbrev pub Apart : Globals → ℕ → Type 0
Apart g a = (a + 4 ≤ g.sum) ⊎ (g.sum + 8 ≤ a)

sum_lem :
    (g : Globals) (mem : ℕ → ℕ) → load 4 (add g mem) g.sum ≡ int (load 4 mem g.x + load 4 mem g.y)
unfolding add
sum_lem g mem =
    load-store 4 8 g.sum ((load 8 mem g.x + load 8 mem g.y) % word) mem (omega arith)
    ∙ omega (
      arith,
      cut_four ((load 8 mem g.x + load 8 mem g.y) % word),
      low-load mem g.x,
      low-load mem g.y,
    )

product_lem :
    (g : Globals) (mem : ℕ → ℕ)
    → load 4 (multiply g mem) g.prod ≡ int (load 4 mem g.x * load 4 mem g.y)
unfolding multiply
product_lem g mem =
    let rax = load 8 mem g.x * load 8 mem g.y % word in
    load-store 4 4 g.prod rax (store 8 g.prod rax mem) (omega arith)
    ∙ (omega (arith, cut_four rax)
        ∙ (mul-both_low (load 8 mem g.x) (load 8 mem g.y) (2 ^ 32)
            ∙ (ap (λ u. u * (load 8 mem g.y % 2 ^ 32) % 2 ^ 32) (low-load mem g.x)
                ∙ ap (λ u. load 4 mem g.x * u % 2 ^ 32) (low-load mem g.y))))

-- the bytes behind `sum` get the upper half of the register
pub add-overwrites :
    (g : Globals) (mem : ℕ → ℕ)
    → load 8 (add g mem) g.sum ≡ (load 8 mem g.x + load 8 mem g.y) % word
unfolding add
add-overwrites g mem =
    load-store 8 8 g.sum ((load 8 mem g.x + load 8 mem g.y) % word) mem (omega arith) ∙ omega arith

add-Apart : (g : Globals) (mem : ℕ → ℕ) (a : ℕ) → Apart g a → load 4 (add g mem) a ≡ load 4 mem a
unfolding add
add-Apart g mem a apart =
    load-apart 4 8 g.sum a ((load 8 mem g.x + load 8 mem g.y) % word) mem apart

subtract_lem : (x y : ℕ) → x < 2 ^ 32 → y < 2 ^ 32 → subtract x y ≡ int (x + 2 ^ 32 - y)
unfolding subtract
subtract_lem x y small_x small_y = omega arith

-- When the 8 bytes that are written for `sum` do not overlap the 4 bytes of `x` or of `y`, `main`
-- of inline1.c prints `x`, `y` and their sum, difference and product modulo 2 ^ 32, wherever else
-- the variables stand and whatever the bytes behind them are that are moved with them.
pub main-prints :
    (g : Globals) (mem : ℕ → ℕ)
    → Apart g g.x
    → Apart g g.y
    → let x = load 4 mem g.x in
      let y = load 4 mem g.y in
      main g mem ≡ x ∷ y ∷ int (x + y) ∷ int (x + 2 ^ 32 - y) ∷ int (x * y) ∷ []
unfolding main
main-prints g mem apart_x apart_y =
    let kept_x = add-Apart g mem g.x apart_x in
    let kept_y = add-Apart g mem g.y apart_y in
    rw
      (
        sum_lem g mem,
        product_lem g (add g mem),
        kept_x,
        kept_y,
        subtract_lem (load 4 mem g.x) (load 4 mem g.y) (load-bound mem g.x) (load-bound mem g.y),
      )
      refl
