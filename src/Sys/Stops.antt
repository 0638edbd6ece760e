-- ===== src/Sys/Stops.antt =====
-- Code that does not return to its caller.
use ubuntu_projects.Sys.Monad.{M, Os, Proc, Outcome, returned, halted, and_then}

-- The function has not returned: the process has ended, or cannot go on.
abbrev pub Stops : {A : Type 0} → Outcome A → Type 0
Stops (returned a) = ⊥
Stops (halted h) = Unit {0}

module _ {A B : Type 0} (f : A → M B) (os : Os) where
  -- if the first part stops, nothing follows
  pub before-Stops : (r : Outcome A × Proc) → Stops r.0 → Stops (and_then r f os).0
  before-Stops (returned a, q) h = absurd h
  before-Stops (halted e, q) h = tt

  -- if what follows stops, so does the whole
  pub behind-Stops :
      (r : Outcome A × Proc) → ((a : A) (q : Proc) → Stops (f a os q).0) → Stops (and_then r f os).0
  behind-Stops (returned a, q) h = h a q
  behind-Stops (halted e, q) h = tt
