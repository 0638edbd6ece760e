-- ===== src/InlineAsm/Tests.antt =====
-- The theorem on inline1.c with the four variables one behind the other.
use native.Mathlib.Omega.{arith}
use ubuntu_projects.Base.{ℕ, ◌≡◌, inl, [], ◌∷◌, ◌==◌, if◌then◌else◌}
use ubuntu_projects.AsmInC.{load}
use ubuntu_projects.InlineAsm.{Globals, main}
use ubuntu_projects.InlineAsm.Results.{main-prints}

abbrev layout : Globals
layout = record { x = 100; y = 104; sum = 108; prod = 112 }

-- 11 in `x` and 12 in `y`
abbrev memory : ℕ → ℕ
memory i = if i == 100 then 11 else if i == 104 then 12 else 0

main-prints_example : main layout memory ≡ 11 ∷ 12 ∷ 23 ∷ 0xffff_ffff ∷ 132 ∷ []
unfolding load
main-prints_example = main-prints layout memory (inl (omega arith)) (inl (omega arith))
