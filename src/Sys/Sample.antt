-- ===== src/Sys/Sample.antt =====
-- A small concrete system for tests: the answers are given, the texts of the library are short.
use ubuntu_projects.Base.{List, [], ◌∷◌}
use ubuntu_projects.Base.Int.{ℤ, pos}
use ubuntu_projects.Sys.Calls.{Bytes, Call, Reply}
use ubuntu_projects.Sys.Monad.{Os, Proc}

abbrev pub reply : ℤ → Reply
reply n = record { ret = n; errno = 0; bytes = []; controllen = 0; value = pos 0; infos = [] }

abbrev pub delivers : Bytes → Reply
delivers s = record { ret = pos 1; errno = 0; bytes = s; controllen = 0; value = pos 0; infos = [] }

abbrev pub sample : (List Call → Reply) → Os
sample answer = record {
  answer = answer;
  strerror = λ n. n ∷ [];
  gai_strerror = λ n. 7 ∷ [];
  decimal = λ n. 8 ∷ [];
  log_err = 3;
  log_info = 6;
  log_daemon = 24;
  log_options = 35;
  sighup = 1;
  sigterm = 15;
  ewouldblock = 11;
  sock_stream = 1;
  sock_seqpacket = 5;
  rlim_infinity = 0xffff_ffff;
  controllen = 20;
}

abbrev pub silent : Os
silent = sample (λ h. reply (pos 0))

abbrev pub fresh : Proc
fresh = record { calls = []; errno = 5 }
