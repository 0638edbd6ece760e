-- ===== src/Sys/Monad.antt =====
-- A C function: it reads the machine, makes calls, and returns or ends the process.
use ubuntu_projects.Base.{ℕ, Bool, true, false, List, ◌∷◌}
use ubuntu_projects.Base.Int.{ℤ}
use ubuntu_projects.Sys.Calls.{Bytes, Call, Reply}

-- Code that is not in the repository: the kernel, the C library's texts, and the platform's numbers.
pub record Os : Type 0 where
  pub answer : List Call → Reply
  pub strerror : ℕ → Bytes
  pub gai_strerror : ℤ → Bytes
  pub decimal : ℤ → Bytes  -- what `%d` prints
  pub log_err : ℕ
  pub log_info : ℕ
  pub log_daemon : ℕ
  pub log_options : ℕ  -- LOG_CONS | LOG_PID | LOG_PERROR
  pub sighup : ℕ
  pub sigterm : ℕ
  pub ewouldblock : ℕ
  pub sock_stream : ℕ
  pub sock_seqpacket : ℕ
  pub rlim_infinity : ℕ
  pub controllen : ℕ  -- CMSG_LEN(sizeof(int))

pub record Proc : Type 0 where
  pub calls : List Call  -- the last call first
  pub errno : ℕ

pub data Halt : Type 0 where
  exited : ℕ → Halt
  aborted : Halt
  undefined : Halt  -- undefined behaviour, such as a write past the end of an array
  replaced : Bytes → Halt  -- `execl` has replaced the program
  out_of_fuel : Halt

pub data Outcome (A : Type 0) : Type 0 where
  returned : A → Outcome A
  halted : Halt → Outcome A

abbrev pub M : Type 0 → Type 0
M A = Os → Proc → Outcome A × Proc

module _ {A : Type 0} where
  abbrev pub pure : A → M A
  pure a os p = (returned a, p)

  abbrev pub halt : Halt → M A
  halt h os p = (halted h, p)

module _ {A B : Type 0} where
  -- what follows a call, unless it has ended the process
  abbrev pub and_then : Outcome A × Proc → (A → M B) → Os → Outcome B × Proc
  and_then (returned a, q) f os = f a os q
  and_then (halted h, q) f os = (halted h, q)

  infixl 5 ◌>>=◌ ◌>>◌
  abbrev pub ◌>>=◌ : M A → (A → M B) → M B
  ◌>>=◌ m f os p = and_then (m os p) f os

  abbrev pub ◌>>◌ : M A → M B → M B
  m >> k = m >>= λ _. k

-- After any call `errno` may hold anything: it is what the answer says.
abbrev pub sys : Call → M Reply
sys c os p = (
  returned (os.answer (c ∷ p.calls)),
  record { calls = c ∷ p.calls; errno = (os.answer (c ∷ p.calls)).errno },
)

abbrev pub get_errno : M ℕ
get_errno os p = (returned p.errno, p)

abbrev pub set_errno : ℕ → M (Unit {0})
set_errno e os p = (returned tt, record p { errno = e })

abbrev pub ask : {A : Type 0} → (Os → A) → M A
ask f os p = (returned (f os), p)

abbrev pub when : Bool → M (Unit {0}) → M (Unit {0})
when true m = m
when false m = pure tt

abbrev pub exit : {A : Type 0} → ℕ → M A
exit n = halt (Halt.exited n)

abbrev pub abort : M (Unit {0})
abort = halt Halt.aborted
