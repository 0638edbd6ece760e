-- ===== src/Sys/Descriptors.antt =====
-- Which descriptors of a process are open, read off the history of its calls and their answers.
use ubuntu_projects.Base.{ℕ, ◌<◌, ◌≡◌, Bool, true, false, List, [], ◌∷◌, if◌then◌else◌}
use ubuntu_projects.Base.Int.{ℤ, pos, eq_ℤ}
use ubuntu_projects.Sys.Calls.{Call}
use ubuntu_projects.Sys.Monad.{Os}

-- a descriptor that a call has returned, if it has not failed
abbrev pub gained : ℤ → (ℕ → Bool) → ℕ → Bool
gained ret before n = if eq_ℤ ret (pos n) then true else before n

-- `start` are the descriptors that are open before the first call. A message to the log may be the one
-- at which the library opens its descriptor to the log.
abbrev pub is_open : (ℕ → Bool) → Os → List Call → ℕ → Bool
is_open start os [] n = start n
is_open start os (Call.close fd ∷ h) n = if eq_ℤ fd (pos n) then false else is_open start os h n
is_open start os (Call.open_file path ∷ h) n =
    gained (os.answer (Call.open_file path ∷ h)).ret (is_open start os h) n
is_open start os (Call.dup fd ∷ h) n =
    gained (os.answer (Call.dup fd ∷ h)).ret (is_open start os h) n
is_open start os (Call.dup2 fd to ∷ h) n =
    gained (os.answer (Call.dup2 fd to ∷ h)).ret (is_open start os h) n
is_open start os (Call.socket family type ∷ h) n =
    gained (os.answer (Call.socket family type ∷ h)).ret (is_open start os h) n
is_open start os (Call.accept fd ∷ h) n =
    gained (os.answer (Call.accept fd ∷ h)).ret (is_open start os h) n
is_open start os (Call.syslog priority msg ∷ h) n =
    gained (os.answer (Call.syslog priority msg ∷ h)).ret (is_open start os h) n
is_open start os (_ ∷ h) n = is_open start os h n

-- A new descriptor was not open before. This is what the kernel promises.
abbrev pub Fresh : (ℕ → Bool) → Os → Call → List Call → Type 0
Fresh start os c h = (n : ℕ) → (os.answer (c ∷ h)).ret ≡ pos n → is_open start os h n ≡ false

-- A new descriptor is the lowest that was not open, as the kernel promises for `open` and `dup`.
abbrev pub Lowest : (ℕ → Bool) → Os → Call → List Call → Type 0
Lowest start os c h =
    (n : ℕ)
    → (os.answer (c ∷ h)).ret ≡ pos n
    → (is_open start os h n ≡ false) × ((k : ℕ) → k < n → is_open start os h k ≡ true)
