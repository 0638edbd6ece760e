-- ===== src/CString.antt =====
-- Text in a `char` array, as the C library's `snprintf` and `strcat` treat it. The contents are the
-- bytes before the terminating zero byte; an array of `n` bytes holds at most `n - 1` of them.
pub mod Fits
use ubuntu_projects.Base.{
  ℕ, zero, suc, ◌+◌, ◌-◌, Bool, Option, none, some, List, [], ◌∷◌, ◌++◌, if◌then◌else◌, leb, take,
  length,
}
use ubuntu_projects.Sys.{Bytes}

-- `#define MAXLINE 4096`
abbrev pub maxline : ℕ
maxline = 4096

-- snprintf(buf, n, ...) for a text that expands to `s`
unfoldable pub snprintf : ℕ → Bytes → Bytes
snprintf n s = take (n - 1) s

-- snprintf(buf + strlen(buf), n - strlen(buf), ...)
unfoldable pub snprintf_at_end : ℕ → Bytes → Bytes → Bytes
unfolding snprintf
snprintf_at_end n buf s = buf ++ snprintf (n - length buf) s

-- strcat(buf, s) in an array of `n` bytes; `none` is a write past its end.
unfoldable pub strcat : ℕ → Bytes → Bytes → Option Bytes
strcat n buf s = if leb (length buf + length s + 1) n then some (buf ++ s) else none
