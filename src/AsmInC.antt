-- ===== src/AsmInC.antt =====
-- asmprojects/asm_in_c: routines in assembler that fromc.c calls. A register is a number below
-- 2 ^ 64, the memory a function from addresses to bytes, and the stack of the routine a list of its
-- words, the top first, apart from the memory, so that `rsp` is the number of its words. A
-- `pop` from an empty stack is `none`. `loop` takes 1 from `rcx` and jumps unless that leaves 0; the
-- loops run on fuel.
pub mod Fromc
pub mod Words
pub mod Loops
pub mod Reverse
use ubuntu_projects.Base.{
  ℕ, zero, suc, ◌+◌, ◌-◌, ◌*◌, ◌%◌, ◌^◌, Option, none, some, List, [], ◌∷◌, ◌==◌, if◌then◌else◌,
  length, drop,
}

abbrev pub word : ℕ
word = 2 ^ 64

pub record Cpu : Type 0 where
  pub rax : ℕ
  pub rbx : ℕ
  pub rcx : ℕ
  pub rsi : ℕ
  pub rdi : ℕ
  pub rbp : ℕ
  pub r12 : ℕ
  pub stack : List ℕ
  pub mem : ℕ → ℕ

-- a number of so many bytes, the lowest byte at the address
unfoldable pub load : ℕ → (ℕ → ℕ) → ℕ → ℕ
load zero mem a = 0
load (suc n) mem a = mem a % 256 + 256 * load n mem (a + 1)

abbrev pub store_byte : ℕ → ℕ → (ℕ → ℕ) → ℕ → ℕ
store_byte a b mem i = if i == a then b else mem i

-- `push rbp`, `mov rbp, rsp`
abbrev pub enter : Cpu → Cpu
enter c = record c { stack = c.rbp ∷ c.stack; rbp = suc (length c.stack) }

abbrev pub pop_rbp : Cpu → List ℕ → Option Cpu
pop_rbp c [] = none
pop_rbp c (w ∷ ws) = some (record c { rbp = w; stack = ws })

-- `leave`: the words above `rbp` are dropped, and `rbp` is popped
abbrev pub leave : Cpu → Option Cpu
leave c = pop_rbp c (drop (length c.stack - c.rbp) c.stack)

abbrev pub inc : ℕ → ℕ
inc r = (r + 1) % word

-- what `loop` leaves in `rcx`
abbrev pub dec : ℕ → ℕ
dec r = (r + (word - 1)) % word

-- sreverse.asm: `qword[rbx+r12]` is pushed, and so on with the next byte
unfoldable pub pushloop : ℕ → Cpu → Option Cpu
pushloop zero c = none
pushloop (suc fuel) c =
    let w = load 8 c.mem ((c.rbx + c.r12) % word) in
    let d = record c { rax = w; stack = w ∷ c.stack; r12 = inc c.r12; rcx = dec c.rcx } in
    let rest = pushloop fuel d in if dec c.rcx == 0 then some d else rest

-- a word is popped, and its lowest byte written to `byte[rbx+r12]`
abbrev pub pop_byte : Cpu → List ℕ → Option Cpu
pop_byte c [] = none
pop_byte c (w ∷ ws) = some (record c {
  rax = w;
  stack = ws;
  mem = store_byte ((c.rbx + c.r12) % word) (w % 256) c.mem;
  r12 = inc c.r12;
  rcx = dec c.rcx;
})

unfoldable pub poploop : ℕ → Cpu → Option Cpu
poploop zero c = none
poploop (suc fuel) c = elim (pop_byte c c.stack) [
  | none ↦ none
  | some d ↦ let rest = poploop fuel d in if d.rcx == 0 then some d else rest
]

-- `mov rcx, rsi`, `mov rbx, rdi`, `xor r12, r12`
abbrev pub counts : Cpu → Cpu
counts c = record c { rcx = c.rsi; rbx = c.rdi; r12 = 0 }

-- `mov rax, rdi`, `leave`
abbrev pub return_rdi : Option Cpu → Option Cpu
return_rdi none = none
return_rdi (some c) = leave (record c { rax = c.rdi })

-- what follows the first loop
abbrev pub pops : ℕ → Option Cpu → Option Cpu
pops fuel none = none
pops fuel (some c) = return_rdi (poploop fuel (counts c))

unfoldable pub sreverse : ℕ → Cpu → Option Cpu
sreverse fuel c = pops fuel (pushloop fuel (counts (enter c)))

-- rect.asm: `mov rdi, rax`, `imul rsi`, of which the lower word is left in `rax`
unfoldable pub rarea : Cpu → Option Cpu
rarea c = leave (record (enter c) { rdi = c.rax; rax = c.rax * c.rsi % word })

-- `mov rdi, rax`, `add rax, rsi`, `imul rax, 2`
unfoldable pub rcircum : Cpu → Option Cpu
rcircum c = leave (record (enter c) { rdi = c.rax; rax = (c.rax + c.rsi) % word * 2 % word })

-- the numbers of type double, with the operations of the processor on them
pub record Doubles : Type 1 where
  pub F : Type 0
  pub add_sd : F → F → F
  pub mul_sd : F → F → F
  pub pi : F

module _ (d : Doubles) where
  open d use {F, add_sd, mul_sd, pi}

  -- circle.asm
  unfoldable pub carea : F → F
  carea radius = mul_sd (mul_sd radius radius) pi

  unfoldable pub ccircum : F → F
  ccircum radius = mul_sd (add_sd radius radius) pi

  -- asum.asm: the loop, with `rcx`, `r12` and `xmm0`
  unfoldable pub sloop : ℕ → (ℕ → F) → ℕ → ℕ → F → Option F
  sloop zero a rcx r12 xmm0 = none
  sloop (suc fuel) a rcx r12 xmm0 =
      let total = add_sd xmm0 (a (inc r12)) in
      let rest = sloop fuel a (dec rcx) (inc r12) total in if dec rcx == 0 then some total else rest

  unfoldable pub asum : ℕ → (ℕ → F) → ℕ → Option F
  asum fuel a rsi = sloop fuel a (dec rsi) 0 (a 0)
