-- ===== src/LogFuncs.antt =====
-- c_projects/log_funcs.c: messages to the system log. The format string and its arguments enter as
-- the text that they expand to.
pub mod Table
mod Tests
use ubuntu_projects.Base.{ℕ, Bool, true, false, Option, none, some, if◌then◌else◌, ◌++◌}
use ubuntu_projects.Sys.{
  Bytes, text, Call, M, Os, ◌>>=◌, ◌>>◌, Halt, pure, halt, exit, sys, ask, get_errno,
}
use ubuntu_projects.CString.{maxline, snprintf, snprintf_at_end, strcat}

-- what `buf` holds before the newline is added
pub message : Bool → ℕ → Bytes → Os → Bytes
message errnoflag errno_save msg os =
    let buf = snprintf maxline msg in
    if errnoflag then snprintf_at_end maxline buf (text ":" ++ os.strerror errno_save) else buf

-- the output of the finished line: the buffer is the format of `syslog`
pub put_line : ℕ → Option Bytes → M (Unit {0})
put_line priority none = halt Halt.undefined
put_line priority (some buf) = do sys (Call.syslog priority buf); pure tt

unfoldable pub log_doit : Bool → ℕ → Bytes → M (Unit {0})
unfolding message put_line
log_doit errnoflag priority msg = do
  errno_save ← get_errno
  buf ← ask (message errnoflag errno_save msg)
  put_line priority (strcat maxline buf (text "\n"))

unfoldable pub log_ret : Bytes → M (Unit {0})
log_ret msg = do priority ← ask (λ os. os.log_err); log_doit true priority msg

unfoldable pub log_sys : Bytes → M (Unit {0})
log_sys msg = do priority ← ask (λ os. os.log_err); log_doit true priority msg

unfoldable pub log_msg : Bytes → M (Unit {0})
log_msg msg = do priority ← ask (λ os. os.log_err); log_doit false priority msg

unfoldable pub log_quit : Bytes → M (Unit {0})
log_quit msg = do priority ← ask (λ os. os.log_err); log_doit false priority msg; exit 2
