-- ===== src/InlineAsm.antt =====
-- asmprojects/asm_in_c_2/inline1.c: sums and products in assembler inside of C. The four global
-- variables stand at addresses that the linker chooses. An `int` has 4 bytes, but the assembler moves 8
-- between a variable and a 64-bit register.
pub mod Memory
pub mod Results
mod Tests
use ubuntu_projects.Base.{ℕ, zero, suc, ◌+◌, ◌-◌, ◌*◌, ◌/◌, ◌%◌, ◌^◌, List, [], ◌∷◌}
use ubuntu_projects.AsmInC.{word, load, store_byte}

-- so many bytes of a number, the lowest at the address
unfoldable pub store : ℕ → ℕ → ℕ → (ℕ → ℕ) → ℕ → ℕ
store zero a v mem = mem
store (suc n) a v mem = store n (a + 1) (v / 256) (store_byte a (v % 256) mem)

-- the bit pattern of an `int`
abbrev pub int : ℕ → ℕ
int r = r % 2 ^ 32

-- the addresses of `x`, `y`, `sum` and `prod`
pub record Globals : Type 0 where
  pub x : ℕ
  pub y : ℕ
  pub sum : ℕ
  pub prod : ℕ

-- `mov rax, rdi`, `sub rax, rsi`: `int` is what the caller takes from `rax`
unfoldable pub subtract : ℕ → ℕ → ℕ
subtract rdi rsi = int ((rdi + (word - rsi)) % word)

-- `mov rax, x`, `add rax, y`, `mov sum, rax` in `main`
unfoldable pub add : Globals → (ℕ → ℕ) → ℕ → ℕ
add g mem = store 8 g.sum ((load 8 mem g.x + load 8 mem g.y) % word) mem

-- `mov rax, x`, `imul rax, y`, `mov prod, rax`, and then `rax` as the `int` that is put into `prod`
unfoldable pub multiply : Globals → (ℕ → ℕ) → ℕ → ℕ
multiply g mem =
    let rax = load 8 mem g.x * load 8 mem g.y % word in store 4 g.prod rax (store 8 g.prod rax mem)

-- the numbers that `main` prints
unfoldable pub main : Globals → (ℕ → ℕ) → List ℕ
main g mem =
    let summed = add g mem in
    let multiplied = multiply g summed in
    load 4 mem g.x
    ∷ load 4 mem g.y
    ∷ load 4 summed g.sum
    ∷ subtract (load 4 summed g.x) (load 4 summed g.y)
    ∷ load 4 multiplied g.prod
    ∷ []
