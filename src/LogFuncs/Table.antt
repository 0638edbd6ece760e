-- ===== src/LogFuncs/Table.antt =====
-- The table in c_projects/log_funcs.h, and what the four functions do.
use ubuntu_projects.Base.{ℕ, Bool, true, false, ◌∷◌, ◌++◌, if◌then◌else◌}
use ubuntu_projects.Sys.{Bytes, text, Call, Os, Proc, M, Halt, Outcome, returned, halted}
use ubuntu_projects.Sys.Trace.{after}
use ubuntu_projects.LogFuncs.{log_ret, log_sys, log_msg, log_quit}

-- The message as it is meant: nothing is cut off.
abbrev pub full_message : Bool → ℕ → Bytes → Os → Bytes
full_message errnoflag errno_save msg os =
    if errnoflag then msg ++ (text ":" ++ os.strerror errno_save) else msg

-- The machine when the line has been handed to `syslog`.
abbrev pub logged : Os → ℕ → Bytes → Proc → Proc
logged os priority line p = after os (Call.syslog priority line ∷ p.calls)

pub data LogFun : Type 0 where
  msg quit ret sys : LogFun

-- whether the text for `errno` is appended, and how the function ends
pub record Row : Type 0 where
  pub appends_errno : Bool
  pub ends : Outcome (Unit {0})

abbrev row : Bool → Outcome (Unit {0}) → Row
row a e = record { appends_errno = a; ends = e }

abbrev pub log_table : LogFun → Row
log_table LogFun.msg = row false (returned tt)
log_table LogFun.quit = row false (halted (Halt.exited 2))
log_table LogFun.ret = row true (returned tt)
log_table LogFun.sys = row true (halted (Halt.exited 2))

abbrev pub call : LogFun → Bytes → M (Unit {0})
call LogFun.msg m = log_msg m
call LogFun.quit m = log_quit m
call LogFun.ret m = log_ret m
call LogFun.sys m = log_sys m

-- how the four functions end in the code
abbrev pub ends : LogFun → Outcome (Unit {0})
ends LogFun.msg = returned tt
ends LogFun.quit = halted (Halt.exited 2)
ends LogFun.ret = returned tt
ends LogFun.sys = returned tt
