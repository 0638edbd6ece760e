-- ===== src/Client/Retry.antt =====
-- `connect_retry`: when it tries, how long it waits, and what it returns.
use native.Mathlib.Omega.{arith}
use native.Mathlib.Nat.{pow-suc}
use ubuntu_projects.Base.{
  ℕ, zero, suc, ◌+◌, ◌*◌, ◌/◌, ◌%◌, ◌^◌, ◌≤◌, ◌<◌, ◌≡◌, ◌∙◌, Bool, true, false, List, [], ◌∷◌, ◌==◌,
  le→leb, lt→leb, if◌then◌else◌,
}
use ubuntu_projects.Base.Int.{ℤ, pos, minus_one, eq_ℤ}
use ubuntu_projects.Sys.{Call, Os, Proc, returned}
use ubuntu_projects.Sys.Trace.{after}
use ubuntu_projects.Client.{retry_loop, connect_retry}

-- The seconds for which a history sleeps.
abbrev pub slept : List Call → ℕ
slept [] = 0
slept (Call.sleep n ∷ h) = n + slept h
slept (_ ∷ h) = slept h

-- the time limit that is in force
abbrev pub limit : ℕ → ℕ
limit seconds = if seconds == 0 then 1 else seconds

-- t, 2 t, 4 t, ...
abbrev pub doubled : ℕ → ℕ → ℕ
doubled zero t = t
doubled (suc n) t = doubled n (t * 2)

module _ (fd : ℤ) (addr alen : ℕ) where
  -- The history of an attempt after `n` failed ones; between them there are waits of t, 2 t, 4 t, ...
  abbrev pub attempts : ℕ → ℕ → List Call → List Call
  attempts zero t h = Call.connect fd addr alen ∷ h
  attempts (suc n) t h = attempts n (t * 2) (Call.sleep t ∷ Call.connect fd addr alen ∷ h)

  -- whether the attempt that ends a history has connected
  abbrev pub connected : Os → List Call → Bool
  connected os h = eq_ℤ (os.answer h).ret (pos 0)

  -- The first `n` attempts fail.
  abbrev pub FirstFail : Os → ℕ → ℕ → List Call → Type 0
  FirstFail os zero t h = Unit {0}
  FirstFail os (suc n) t h =
      (connected os (attempts zero t h) ≡ false)
      × FirstFail os n (t * 2) (Call.sleep t ∷ Call.connect fd addr alen ∷ h)

pub le-doubled : (n t : ℕ) → t ≤ doubled n t
le-doubled zero t = omega arith
le-doubled (suc n) t = omega (arith, le-doubled n (t * 2))

pub doubled-eq : (n t : ℕ) → doubled n t ≡ t * 2 ^ n
doubled-eq zero t = omega arith
doubled-eq (suc n) t = doubled-eq n (t * 2) ∙ rw pow-suc (omega arith)

module _ (fd : ℤ) (addr alen s : ℕ) (os : Os) (small : s < 2 ^ 32) where
  succeeds :
      (fuel n t : ℕ) (p : Proc)
      → n < fuel
      → doubled n t ≤ s
      → FirstFail fd addr alen os n t p.calls
      → connected fd addr alen os (attempts fd addr alen n t p.calls) ≡ true
      → retry_loop fuel fd addr alen s t os p
        ≡ (returned (pos 0), after os (attempts fd addr alen n t p.calls))
  unfolding retry_loop
  succeeds zero n t p lt le fail ok = absurd (omega arith)
  succeeds (suc fuel) zero t p lt le fail ok = rw (le→leb t s le, ok)
  succeeds (suc fuel) (suc n) t p lt le fail ok =
      let bound : t * 2 ≤ s = omega (arith, le-doubled n (t * 2)) in
      let now : t % 2 ^ 32 ≡ t = omega arith in
      let next : t * 2 % 2 ^ 64 ≡ t * 2 = omega arith in
      rw (le→leb t s (omega arith), fail.0, le→leb t (s / 2) (omega arith), now, next)
        (succeeds fuel n (t * 2) (after os (Call.sleep t ∷ Call.connect fd addr alen ∷ p.calls))
          (omega arith) le fail.1 ok)

  fails :
      (fuel n t : ℕ) (p : Proc)
      → suc n < fuel
      → doubled n t ≤ s
      → s < doubled n t * 2
      → FirstFail fd addr alen os n t p.calls
      → connected fd addr alen os (attempts fd addr alen n t p.calls) ≡ false
      → retry_loop fuel fd addr alen s t os p
        ≡ (returned minus_one, after os (attempts fd addr alen n t p.calls))
  unfolding retry_loop
  fails zero n t p lt le over fail last = absurd (omega arith)
  fails (suc zero) n t p lt le over fail last = absurd (omega arith)
  fails (suc (suc fuel)) zero t p lt le over fail last =
      let next : t * 2 % 2 ^ 64 ≡ t * 2 = omega arith in
      rw (le→leb t s le, last, lt→leb t (s / 2) (omega arith), next, lt→leb (t * 2) s over)
  fails (suc (suc fuel)) (suc n) t p lt le over fail last =
      let bound : t * 2 ≤ s = omega (arith, le-doubled n (t * 2)) in
      let now : t % 2 ^ 32 ≡ t = omega arith in
      let next : t * 2 % 2 ^ 64 ≡ t * 2 = omega arith in
      rw (le→leb t s (omega arith), fail.0, le→leb t (s / 2) (omega arith), now, next)
        (fails (suc fuel) n (t * 2) (after os (Call.sleep t ∷ Call.connect fd addr alen ∷ p.calls))
          (omega arith) le over fail.1 last)

  slept-attempts :
      (n t : ℕ) (h : List Call) → slept (attempts fd addr alen n t h) + t ≡ slept h + doubled n t
  slept-attempts zero t h = omega arith
  slept-attempts (suc n) t h =
      omega (arith, slept-attempts n (t * 2) (Call.sleep t ∷ Call.connect fd addr alen ∷ h))

-- When the limit is below 2 ^ 32 seconds, the first `n` attempts fail and the next one succeeds,
-- and `2 ^ n` is at most the limit, where 0 counts as 1, `connect_retry` with fuel above `n`
-- returns 0 after that attempt; between the attempts it sleeps 1, 2, 4, ... seconds, which make `2
-- ^ n - 1` in all.
pub connect_retry-succeeds :
    (fd : ℤ) (addr alen seconds fuel n : ℕ) (os : Os) (p : Proc)
    → seconds < 2 ^ 32
    → n < fuel
    → 2 ^ n ≤ limit seconds
    → FirstFail fd addr alen os n 1 p.calls
    → connected fd addr alen os (attempts fd addr alen n 1 p.calls) ≡ true
    → let h = attempts fd addr alen n 1 p.calls in
      (connect_retry fuel fd addr alen seconds os p ≡ (returned (pos 0), after os h))
      × (slept h + 1 ≡ slept p.calls + 2 ^ n)
unfolding connect_retry
connect_retry-succeeds fd addr alen seconds fuel n os p small lt le fail ok =
    let small' : limit seconds < 2 ^ 32 = ground arith in
    (
      succeeds fd addr alen (limit seconds) os small' fuel n 1 p lt (omega (arith, doubled-eq n 1))
          fail ok,
      omega (
        arith,
        slept-attempts fd addr alen (limit seconds) os small' n 1 p.calls,
        doubled-eq n 1,
      ),
    )

-- When the limit is below 2 ^ 32 seconds and every attempt fails, `connect_retry` with fuel above
-- `n + 1` returns -1 after `n + 1` attempts, where `2 ^ n` is the greatest power of two in the
-- limit and a limit of 0 counts as 1, and it has slept less than the limit.
pub connect_retry-fails :
    (fd : ℤ) (addr alen seconds fuel n : ℕ) (os : Os) (p : Proc)
    → seconds < 2 ^ 32
    → suc n < fuel
    → 2 ^ n ≤ limit seconds
    → limit seconds < 2 ^ n * 2
    → FirstFail fd addr alen os n 1 p.calls
    → connected fd addr alen os (attempts fd addr alen n 1 p.calls) ≡ false
    → let h = attempts fd addr alen n 1 p.calls in
      (connect_retry fuel fd addr alen seconds os p ≡ (returned minus_one, after os h))
      × (slept h < slept p.calls + limit seconds)
unfolding connect_retry
connect_retry-fails fd addr alen seconds fuel n os p small lt le over fail last =
    let small' : limit seconds < 2 ^ 32 = ground arith in
    (
      fails fd addr alen (limit seconds) os small' fuel n 1 p lt (omega (arith, doubled-eq n 1))
          (omega (arith, doubled-eq n 1)) fail last,
      omega (
        arith,
        slept-attempts fd addr alen (limit seconds) os small' n 1 p.calls,
        doubled-eq n 1,
      ),
    )
