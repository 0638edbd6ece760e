-- ===== src/CString/Fits.antt =====
-- What the two-stage formatting of `err_doit` and `log_doit` leaves in the buffer.
use native.Mathlib.Omega.{arith}
use ubuntu_projects.Base.{
  ℕ, ◌+◌, ◌-◌, ◌≤◌, ◌<◌, ◌≡◌, ap, none, some, ◌++◌, length, length-append, length-take, take,
  take_all,
}
use ubuntu_projects.Sys.{Bytes}
use ubuntu_projects.CString.{snprintf, snprintf_at_end, strcat}

pub snprintf_fits : (n : ℕ) (s : Bytes) → length s < n → snprintf n s ≡ s
unfolding snprintf
snprintf_fits n s h = take_all (n - 1) s (omega arith)

pub snprintf_at_end_fits :
    (n : ℕ) (buf s : Bytes) → length buf + length s < n → snprintf_at_end n buf s ≡ buf ++ s
unfolding snprintf_at_end
snprintf_at_end_fits n buf s h = ap (λ t. buf ++ t) (take_all (n - length buf - 1) s (omega arith))

-- A text that does not fit leaves the array full.
pub snprintf_full : (n : ℕ) (s : Bytes) → n ≤ length s + 1 → n ≤ length (snprintf n s) + 1
unfolding snprintf
snprintf_full n s h = omega (arith, length-take (n - 1) s)

pub snprintf_at_end_full :
    (n : ℕ) (buf s : Bytes)
    → n ≤ length buf + length s + 1
    → n ≤ length (snprintf_at_end n buf s) + 1
unfolding snprintf_at_end
snprintf_at_end_full n buf s h =
    omega
      (arith, length-append buf (take (n - length buf - 1) s), length-take (n - length buf - 1) s)

pub strcat_fits :
    (n : ℕ) (buf s : Bytes) → length buf + length s < n → strcat n buf s ≡ some (buf ++ s)
unfolding strcat
strcat_fits n buf s h = ground arith

pub strcat_overflows : (n : ℕ) (buf s : Bytes) → n ≤ length buf + length s → strcat n buf s ≡ none
unfolding strcat
strcat_overflows n buf s h = ground arith
