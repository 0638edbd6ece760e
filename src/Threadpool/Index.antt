-- ===== src/Threadpool/Index.antt =====
-- The order in which `try_steal_task` looks at the inner queues.
use native.Mathlib.Decide.{dec_lt}
use native.Mathlib.Nat.{mod-eq_of_lt, add-mod_right}
use ubuntu_projects.Base.{ℕ, ◌+◌, ◌-◌, ◌%◌, ◌^◌, ◌<◌, ◌≡◌, ap, ◌∙◌, Option, none, some, arith}
use ubuntu_projects.Threadpool.{word, thread_index}

-- the inner queue that the loop looks at in a round
abbrev pub index : Option ℕ → ℕ → ℕ → ℕ
index thread n i = (thread_index thread + i + 1) % word % n

-- The thread has an inner queue, or is none of the pool's.
abbrev pub IsThread : ℕ → Option ℕ → Type 0
IsThread n none = Unit {0}
IsThread n (some i) = i < n

-- Every inner queue has its round.
pub index-onto :
    (thread : Option ℕ) (n j : ℕ)
    → IsThread n thread
    → n < 2 ^ 63
    → j < n
    → (i : ℕ) × (i < n) × (index thread n i ≡ j)
index-onto none n j fit small lt =
    let wrapped : (word - 1 + j + 1) % word ≡ j = omega (arith, lt, small) in
    (j, lt, ap (λ r. r % n) wrapped ∙ mod-eq_of_lt lt)
index-onto (some t) n j fit small lt = elim (dec_lt t j) [
  | no before ↦
      let i = j + n - (t + 1) in
      let sum : (t + i + 1) % word ≡ j + n = omega (arith, before, fit, small, lt) in
      (i, omega (arith, before, fit, lt), ap (λ r. r % n) sum ∙ add-mod_right j n ∙ mod-eq_of_lt lt)
  | yes behind ↦
      let i = j - (t + 1) in
      let sum : (t + i + 1) % word ≡ j = omega (arith, behind, fit, small, lt) in
      (i, omega (arith, behind, fit, lt), ap (λ r. r % n) sum ∙ mod-eq_of_lt lt)
]
