-- ===== src/ErrFuncs/Stops.antt =====
-- The functions that do not return, whatever becomes of their line.
use ubuntu_projects.Base.{true, false}
use ubuntu_projects.Sys.{Bytes, Os, Proc}
use ubuntu_projects.Sys.Stops.{Stops, behind-Stops}
use ubuntu_projects.ErrFuncs.{err_doit, err_dump, err_sys, err_quit}

module _ (msg : Bytes) (os : Os) (p : Proc) where
  pub err_dump-Stops : Stops (err_dump msg os p).0
  unfolding err_dump
  err_dump-Stops = behind-Stops _ os (err_doit true p.errno msg os p) (λ _ _. tt)

  pub err_sys-Stops : Stops (err_sys msg os p).0
  unfolding err_sys
  err_sys-Stops = behind-Stops _ os (err_doit true p.errno msg os p) (λ _ _. tt)

  pub err_quit-Stops : Stops (err_quit msg os p).0
  unfolding err_quit
  err_quit-Stops = behind-Stops _ os (err_doit false 0 msg os p) (λ _ _. tt)
