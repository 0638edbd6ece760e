-- ===== src/Sys/Trace.antt =====
-- The machine after a call, and how often a call of a kind was made.
use ubuntu_projects.Base.{ℕ, suc, Bool, List, [], ◌∷◌, if◌then◌else◌}
use ubuntu_projects.Sys.Calls.{Call}
use ubuntu_projects.Sys.Monad.{Os, Proc}

-- The machine when the last call of the history has been answered.
abbrev pub after : Os → List Call → Proc
after os calls = record { calls = calls; errno = (os.answer calls).errno }

abbrev pub count : (Call → Bool) → List Call → ℕ
count q [] = 0
count q (c ∷ cs) = if q c then suc (count q cs) else count q cs
