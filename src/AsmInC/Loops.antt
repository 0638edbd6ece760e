-- ===== src/AsmInC/Loops.antt =====
-- The two loops of sreverse.asm.
use native.Mathlib.Omega.{arith}
use ubuntu_projects.Base.{
  ℕ, zero, suc, ◌+◌, ◌%◌, ◌<◌, ◌≡◌, ◌∙◌, ap, refl, false, some, List, [], ◌∷◌, ◌++◌, ◌==◌, length,
}
use ubuntu_projects.AsmInC.{word, Cpu, load, store_byte, inc, dec, pushloop, poploop}
use ubuntu_projects.AsmInC.Words.{down, down-push, stored}

-- what a loop changes
abbrev pub turned : Cpu → ℕ → List ℕ → (ℕ → ℕ) → ℕ → ℕ → Cpu
turned c w ws mem r n = record c { rax = w; stack = ws; mem = mem; r12 = r; rcx = n }

pub pushloop-down :
    (m fuel : ℕ) (c : Cpu)
    → m < fuel
    → c.rcx ≡ suc m
    → c.rbx + c.r12 + suc m < word
    → (w : ℕ) × (pushloop fuel c
        ≡ some (turned c w (down c.mem c.rbx (suc m) c.r12 ++ c.stack) c.mem (c.r12 + suc m) 0))
unfolding pushloop
pushloop-down m zero c lt count fits = absurd (omega arith)
pushloop-down zero (suc fuel) c lt count fits =
    let last : dec c.rcx ≡ 0 = omega (arith, count) in
    let next : inc c.r12 ≡ c.r12 + 1 = omega (arith, fits) in
    let place : (c.rbx + c.r12) % word ≡ c.rbx + c.r12 + 0 = omega (arith, fits) in
    let w = load 8 c.mem (c.rbx + c.r12 + 0) in (w, rw (last, next, place) refl)
pushloop-down (suc m) (suc fuel) c lt count fits = go (
    pushloop-down m fuel
      (turned c (load 8 c.mem (c.rbx + c.r12)) (load 8 c.mem (c.rbx + c.r12) ∷ c.stack) c.mem
        (c.r12 + 1) (suc m))
      (omega arith) refl (omega (arith, fits)))
  where
    go :
        ((w : ℕ) × (pushloop fuel (
              turned c
                (load 8 c.mem (c.rbx + c.r12))
                (load 8 c.mem (c.rbx + c.r12) ∷ c.stack)
                c.mem
                (c.r12 + 1)
                (suc m))
            ≡ some (
                turned c w
                  (down c.mem c.rbx (suc m) (c.r12 + 1) ++ (load 8 c.mem (c.rbx + c.r12) ∷ c.stack))
                  c.mem
                  (c.r12 + 1 + suc m)
                  0)))
        → (w : ℕ) × (pushloop (suc fuel) c
            ≡ some (
                turned c w
                  (down c.mem c.rbx (suc (suc m)) c.r12 ++ c.stack)
                  c.mem
                  (c.r12 + suc (suc m))
                  0))
    go (w, rest) =
        let more : dec c.rcx ≡ suc m = omega (arith, count, fits) in
        let next : inc c.r12 ≡ c.r12 + 1 = omega (arith, fits) in
        let place : (c.rbx + c.r12) % word ≡ c.rbx + c.r12 = omega (arith, fits) in
        let goes : (suc m == 0) ≡ false = ground arith in
        let end : c.r12 + 1 + suc m ≡ c.r12 + suc (suc m) = omega arith in
        (
          w,
          rw (more, next, place, goes)
              (rest
                ∙ (ap (λ l. some (turned c w l c.mem (c.r12 + 1 + suc m) 0))
                      (down-push c.mem c.rbx (suc m) c.r12 c.stack)
                    ∙ ap
                        (λ r.
                          some (
                            turned c w (down c.mem c.rbx (suc (suc m)) c.r12 ++ c.stack) c.mem r 0))
                        end)),
        )

pub poploop-stored :
    (ws below : List ℕ) (w fuel : ℕ) (c : Cpu)
    → length ws < fuel
    → c.rcx ≡ suc (length ws)
    → c.stack ≡ (w ∷ ws) ++ below
    → c.rbx + c.r12 + suc (length ws) < word
    → (v : ℕ) × (poploop fuel c
        ≡ some (turned c v below (stored c.rbx (w ∷ ws) c.r12 c.mem) (c.r12 + suc (length ws)) 0))
unfolding poploop
poploop-stored ws below w zero c lt count top fits = absurd (omega arith)
poploop-stored [] below w (suc fuel) c lt count top fits =
    let last : dec c.rcx ≡ 0 = omega (arith, count) in
    let next : inc c.r12 ≡ c.r12 + 1 = omega (arith, fits) in
    let place : (c.rbx + c.r12) % word ≡ c.rbx + c.r12 = omega (arith, fits) in
    (w, rw (top, last, next, place) refl)
poploop-stored (x ∷ ws) below w (suc fuel) c lt count top fits = go (
    poploop-stored ws below x fuel
      (turned c w ((x ∷ ws) ++ below) (store_byte (c.rbx + c.r12) (w % 256) c.mem) (c.r12 + 1)
        (suc (length ws)))
      (omega arith) refl refl (omega (arith, fits)))
  where
    go :
        ((v : ℕ) × (poploop fuel (
              turned c w
                ((x ∷ ws) ++ below)
                (store_byte (c.rbx + c.r12) (w % 256) c.mem)
                (c.r12 + 1)
                (suc (length ws)))
            ≡ some (
                turned c v below
                  (stored c.rbx (w ∷ x ∷ ws) c.r12 c.mem)
                  (c.r12 + 1 + suc (length ws))
                  0)))
        → (v : ℕ) × (poploop (suc fuel) c
            ≡ some (
                turned c v below
                  (stored c.rbx (w ∷ x ∷ ws) c.r12 c.mem)
                  (c.r12 + suc (suc (length ws)))
                  0))
    go (v, rest) =
        let more : dec c.rcx ≡ suc (length ws) = omega (arith, count, fits) in
        let next : inc c.r12 ≡ c.r12 + 1 = omega (arith, fits) in
        let place : (c.rbx + c.r12) % word ≡ c.rbx + c.r12 = omega (arith, fits) in
        let goes : (suc (length ws) == 0) ≡ false = ground arith in
        let end : c.r12 + 1 + suc (length ws) ≡ c.r12 + suc (suc (length ws)) = omega arith in
        (
          v,
          rw (top, more, next, place, goes)
              (rest
                ∙ ap (λ r. some (turned c v below (stored c.rbx (w ∷ x ∷ ws) c.r12 c.mem) r 0))
                    end),
        )
