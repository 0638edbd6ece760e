-- ===== src/ErrFuncs.antt =====
-- c_projects/err_funcs.c: messages to the standard error stream. The format string and its
-- arguments enter as the text that they expand to.
pub mod Line
pub mod Stops
pub mod Table
mod Tests
use ubuntu_projects.Base.{ℕ, Bool, true, false, Option, none, some, [], ◌∷◌, ◌++◌, if◌then◌else◌}
use ubuntu_projects.Sys.{
  Bytes, text, Call, M, Os, ◌>>=◌, ◌>>◌, Halt, pure, halt, exit, abort, sys, ask, get_errno,
}
use ubuntu_projects.CString.{maxline, snprintf, snprintf_at_end, strcat}

-- what `buf` holds before the newline is added
pub message : Bool → ℕ → Bytes → Os → Bytes
message errnoflag error msg os =
    let buf = snprintf maxline msg in
    if errnoflag then snprintf_at_end maxline buf (text ": " ++ os.strerror error) else buf

-- the output of the finished line
pub put_line : Option Bytes → M (Unit {0})
put_line none = halt Halt.undefined
put_line (some buf) = do
  sys Call.fflush_stdout
  sys (Call.fputs_stderr buf)
  sys Call.fflush_all
  pure tt

unfoldable pub err_doit : Bool → ℕ → Bytes → M (Unit {0})
unfolding message put_line
err_doit errnoflag error msg = do
  buf ← ask (message errnoflag error msg)
  put_line (strcat maxline buf (text "\n"))

unfoldable pub err_ret : Bytes → M (Unit {0})
err_ret msg = do error ← get_errno; err_doit true error msg

unfoldable pub err_sys : Bytes → M (Unit {0})
err_sys msg = do error ← get_errno; err_doit true error msg; exit 1

unfoldable pub err_exit : ℕ → Bytes → M (Unit {0})
err_exit error msg = do err_doit true error msg; exit 1

-- `abort` does not return, so the `exit(1)` behind it is never reached
unfoldable pub err_dump : Bytes → M (Unit {0})
err_dump msg = do error ← get_errno; err_doit true error msg; abort; exit 1

unfoldable pub err_msg : Bytes → M (Unit {0})
err_msg msg = err_doit false 0 msg

unfoldable pub err_quit : Bytes → M (Unit {0})
err_quit msg = do err_doit false 0 msg; exit 1
