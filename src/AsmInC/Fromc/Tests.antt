-- ===== src/AsmInC/Fromc/Tests.antt =====
-- The theorem on fromc.c for a short text, with numbers in place of doubles.
use native.Mathlib.Omega.{arith}
use ubuntu_projects.Base.{ℕ, ◌+◌, ◌*◌, ◌≡◌, refl, some, [], ◌∷◌, ◌++◌}
use ubuntu_projects.AsmInC.{Cpu, Doubles}
use ubuntu_projects.AsmInC.Fromc.{Typed, main}
use ubuntu_projects.AsmInC.Fromc.Prints.{rectangle, circle, reversed, summed, main-prints_reversed}

abbrev numbers : Doubles
numbers = record { F = ℕ; add_sd = λ a b. a + b; mul_sd = λ a b. a * b; pi = 3 }

abbrev typed : Typed ℕ
typed = record { side1 = 2; side2 = 5; radius = 1; chars = 97 ∷ 98 ∷ 99 ∷ [] }

abbrev cpu : Cpu
cpu = record {
  rax = 0;
  rbx = 0;
  rcx = 0;
  rsi = 0;
  rdi = 0;
  rbp = 0;
  r12 = 0;
  stack = [];
  mem = λ a. 0;
}

-- `rax` holds 7 at both calls, and not the first side.
main-prints_reversed_example :
    main numbers 4 (λ i. i) typed 7 7 1000 cpu
    ≡ some (
        rectangle numbers 7 7 5
        ++ (circle numbers 1 ++ (reversed numbers (97 ∷ 98 ∷ 99 ∷ []) ++ summed numbers 10)))
main-prints_reversed_example =
    main-prints_reversed numbers 4 (λ i. i) typed 7 7 1000 2 cpu (omega arith) (omega arith) refl
      (omega arith) (omega arith)
      (omega arith, omega arith, (omega arith, omega arith, (omega arith, omega arith, tt)))
