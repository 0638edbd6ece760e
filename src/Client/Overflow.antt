-- ===== src/Client/Overflow.antt =====
-- `connect_retry` with a limit of 2 ^ 63 seconds or more: the shift of `time` wraps round to 0.
use native.Mathlib.Omega.{arith}
use ubuntu_projects.Base.{
  ℕ, zero, suc, ◌*◌, ◌/◌, ◌%◌, ◌^◌, ◌≤◌, ◌≡◌, ◌⊎◌, inl, inr, refl, false, List, ◌∷◌, leb, ◌==◌,
  le→leb, Bool-cases,
}
use ubuntu_projects.Base.Int.{ℤ, pos, eq_ℤ}
use ubuntu_projects.Sys.{Call, Os, Proc, Halt, halted}
use ubuntu_projects.Client.{retry_loop, connect_retry}
use ubuntu_projects.Client.Retry.{doubled, le-doubled}

-- a value of `time`: a power of two up to 2 ^ 63, or 0
abbrev IsTime : ℕ → ℕ → Type 0
IsTime zero t = (t ≡ 0) ⊎ (t ≡ 2 ^ 63)
IsTime (suc j) t = doubled (suc j) t ≡ 2 ^ 63

abbrev less_one : ℕ → ℕ
less_one zero = zero
less_one (suc j) = j

IsTime-le : (j t : ℕ) → IsTime j t → t ≤ 2 ^ 63
IsTime-le zero t h = omega arith
IsTime-le (suc j) t h = omega (arith, le-doubled (suc j) t)

IsTime-next : (j t : ℕ) → IsTime j t → IsTime (less_one j) (t * 2 % 2 ^ 64)
IsTime-next zero t (inl e) = inl (omega arith)
IsTime-next zero t (inr e) = inl (omega arith)
IsTime-next (suc zero) t h = inr (omega arith)
IsTime-next (suc (suc j)) t h =
    let small : t * 2 * 2 ≤ 2 ^ 63 = omega (arith, le-doubled j (t * 2 * 2)) in
    let e : t * 2 % 2 ^ 64 ≡ t * 2 = omega arith in rw e h

module _ (fd : ℤ) (addr alen s : ℕ) (os : Os) (large : 2 ^ 63 ≤ s)
    (refused : (h : List Call)
      → eq_ℤ (os.answer (Call.connect fd addr alen ∷ h)).ret (pos 0) ≡ false) where
  loops :
      (fuel j t : ℕ) (p : Proc)
      → IsTime j t
      → (retry_loop fuel fd addr alen s t os p).0 ≡ halted Halt.out_of_fuel
  unfolding retry_loop
  loops zero j t p h = refl
  loops (suc fuel) j t p h = elim (Bool-cases (leb t (s / 2))) [
    | inl waits ↦
        rw (le→leb t s (omega (arith, IsTime-le j t h)), refused p.calls, waits)
          (loops fuel (less_one j) (t * 2 % 2 ^ 64) _ (IsTime-next j t h))
    | inr hurries ↦
        rw (le→leb t s (omega (arith, IsTime-le j t h)), refused p.calls, hurries)
          (loops fuel (less_one j) (t * 2 % 2 ^ 64) _ (IsTime-next j t h))
  ]

-- With a limit of 2 ^ 63 seconds or more and a server that refuses every connection,
-- `connect_retry` does not return: no fuel is enough for its loop.
pub connect_retry-loops :
    (fd : ℤ) (addr alen seconds : ℕ) (os : Os)
    → 2 ^ 63 ≤ seconds
    → ((h : List Call) → eq_ℤ (os.answer (Call.connect fd addr alen ∷ h)).ret (pos 0) ≡ false)
    → (fuel : ℕ) (p : Proc)
    → (connect_retry fuel fd addr alen seconds os p).0 ≡ halted Halt.out_of_fuel
unfolding connect_retry
connect_retry-loops fd addr alen seconds os large refused fuel p =
    let nonzero : (seconds == 0) ≡ false = ground arith in
    rw nonzero (loops fd addr alen seconds os large refused fuel 63 1 p refl)
