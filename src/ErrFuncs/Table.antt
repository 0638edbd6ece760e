-- ===== src/ErrFuncs/Table.antt =====
-- The table in c_projects/err_funcs.h: which text a function appends and how it ends.
use ubuntu_projects.Base.{ℕ, ◌+◌, ◌<◌, ◌≡◌, true, false, ◌++◌, length}
use ubuntu_projects.Sys.{Bytes, text, M, Os, Proc, Halt, Outcome, returned, halted}
use ubuntu_projects.Sys.Trace.{after}
use ubuntu_projects.CString.{maxline}
use ubuntu_projects.ErrFuncs.{err_dump, err_exit, err_msg, err_quit, err_ret, err_sys}
use ubuntu_projects.ErrFuncs.Line.{full_message, printed, line_fits}

pub data ErrFun : Type 0 where
  dump exit msg quit ret sys : ErrFun

pub data Appended : Type 0 where
  nothing from_errno from_param : Appended

pub record Row : Type 0 where
  pub appended : Appended
  pub ends : Outcome (Unit {0})

abbrev row : Appended → Outcome (Unit {0}) → Row
row a e = record { appended = a; ends = e }

abbrev pub err_table : ErrFun → Row
err_table ErrFun.dump = row Appended.from_errno (halted Halt.aborted)
err_table ErrFun.exit = row Appended.from_param (halted (Halt.exited 1))
err_table ErrFun.msg = row Appended.nothing (returned tt)
err_table ErrFun.quit = row Appended.nothing (halted (Halt.exited 1))
err_table ErrFun.ret = row Appended.from_errno (returned tt)
err_table ErrFun.sys = row Appended.from_errno (halted (Halt.exited 1))

abbrev pub line_of : Appended → ℕ → ℕ → Bytes → Os → Bytes
line_of Appended.nothing param errno m os = full_message false 0 m os
line_of Appended.from_errno param errno m os = full_message true errno m os
line_of Appended.from_param param errno m os = full_message true param m os

-- A call of the function; `param` is the argument that only `err_exit` takes.
abbrev pub call : ErrFun → ℕ → Bytes → M (Unit {0})
call ErrFun.dump param m = err_dump m
call ErrFun.exit param m = err_exit param m
call ErrFun.msg param m = err_msg m
call ErrFun.quit param m = err_quit m
call ErrFun.ret param m = err_ret m
call ErrFun.sys param m = err_sys m

-- When the line fits in the buffer, each of the six functions prints the message with the text
-- that the table of the header says, and then returns, exits or aborts as the table says.
pub err_table_lem :
    (f : ErrFun) (param : ℕ) (m : Bytes) (os : Os) (p : Proc)
    → length (line_of (err_table f).appended param p.errno m os) + 1 < maxline
    → call f param m os p ≡ (
      (err_table f).ends,
      after os (printed (line_of (err_table f).appended param p.errno m os ++ text "\n") p.calls),
    )
unfolding err_dump err_exit err_msg err_quit err_ret err_sys
err_table_lem ErrFun.dump param m os p h = rw (line_fits p.errno m os true p h)
err_table_lem ErrFun.exit param m os p h = rw (line_fits param m os true p h)
err_table_lem ErrFun.msg param m os p h = rw (line_fits 0 m os false p h)
err_table_lem ErrFun.quit param m os p h = rw (line_fits 0 m os false p h)
err_table_lem ErrFun.ret param m os p h = rw (line_fits p.errno m os true p h)
err_table_lem ErrFun.sys param m os p h = rw (line_fits p.errno m os true p h)
