-- ===== src/Sys/Calls.antt =====
-- The system and library calls of c_projects, with the arguments that the programs pass.
use Prim.Native.Char.{code}
use Prim.Native.String.{String}
use ubuntu_projects.Base.{ℕ, List, [], ◌∷◌, Option}
use ubuntu_projects.Base.Int.{ℤ}

abbrev pub Bytes : Type 0
Bytes = List ℕ

-- The bytes of a text in the source. It is shut: no proof looks at the wording of a message.
unfoldable pub text : String → Bytes
text String.[] = []
text (String.◌∷◌ c s) = code c ∷ text s

-- `struct addrinfo`, with the fields of its address that the programs read.
pub record AddrInfo : Type 0 where
  pub ai_flags : ℕ
  pub ai_family : ℕ
  pub ai_socktype : ℕ
  pub ai_protocol : ℕ
  pub ai_addrlen : ℕ
  pub ai_addr : ℕ  -- which address: the programs only pass it on
  pub sa_family : ℕ
  pub sin_port : ℕ
  pub ai_canonname : Option Bytes

pub data Handler : Type 0 where
  sig_ign sig_dfl : Handler

pub data Call : Type 0 where
  -- memory and output
  malloc : ℕ → Call
  fflush_stdout fflush_all : Call
  fputs_stderr printf : Bytes → Call
  -- The answer is the descriptor to the log that the library opens at this message, or negative when
  -- it opens none.
  syslog : ℕ → Bytes → Call
  openlog : Bytes → ℕ → ℕ → Call
  -- processes and signals
  fork setsid getpid : Call
  umask sleep : ℕ → Call
  sigaction : ℕ → Handler → Call
  execl : Bytes → Bytes → Call
  waitpid : ℤ → Call
  chdir : Bytes → Call
  getrlimit : Call
  sigwait pthread_sigmask pthread_create : Call
  -- descriptors
  open_file : Bytes → Call
  close dup : ℤ → Call
  dup2 : ℤ → ℤ → Call
  write : ℤ → Bytes → Call
  flock ftruncate : ℤ → Call
  -- sockets and names
  socket : ℕ → ℕ → Call
  bind : ℤ → ℕ → ℕ → Call
  listen : ℤ → ℕ → Call
  connect : ℤ → ℕ → ℕ → Call
  accept : ℤ → Call
  recv : ℤ → ℕ → Call
  -- the payload, and the descriptor in the control message if there is one
  sendmsg : ℤ → Bytes → Option ℤ → Call
  recvmsg : ℤ → ℕ → Call
  getaddrinfo : Bytes → Bytes → Call
  sysconf_host_name_max : Call
  gethostname : ℕ → Call

-- What a call returns, and what it writes through its pointer arguments.
pub record Reply : Type 0 where
  pub ret : ℤ
  pub errno : ℕ
  pub bytes : Bytes  -- the buffer filled by `recv`, `recvmsg` or `gethostname`
  pub controllen : ℕ  -- `msg_controllen` after `recvmsg`
  pub value : ℤ  -- the descriptor in the control message, `rlim_max` or a signal number
  pub infos : List AddrInfo  -- the list that `getaddrinfo` allocates
