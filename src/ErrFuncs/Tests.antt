-- ===== src/ErrFuncs/Tests.antt =====
-- The theorems on err_funcs.c at concrete messages.
use native.Mathlib.Omega.{arith}
use ubuntu_projects.Base.{◌≡◌, true, [], ◌∷◌, ◌++◌}
use ubuntu_projects.Sys.{Bytes, text, Halt, halted}
use ubuntu_projects.Sys.Trace.{after}
use ubuntu_projects.Sys.Sample.{silent, fresh}
use ubuntu_projects.ErrFuncs.{err_doit, err_quit}
use ubuntu_projects.ErrFuncs.Line.{full_message, printed, line_ends, err_doit_lem}
use ubuntu_projects.ErrFuncs.Table.{ErrFun, err_table_lem}

abbrev short : Bytes
short = 104 ∷ 105 ∷ []

err_doit_lem_example :
    err_doit true 2 short silent fresh
    ≡ line_ends silent fresh (full_message true 2 short silent) true
unfolding text
err_doit_lem_example = err_doit_lem true 2 short silent fresh

err_table_lem_example :
    err_quit short silent fresh
    ≡ (halted (Halt.exited 1), after silent (printed (short ++ text "\n") []))
err_table_lem_example = err_table_lem ErrFun.quit 0 short silent fresh (omega arith)
