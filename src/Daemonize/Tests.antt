-- ===== src/Daemonize/Tests.antt =====
-- `daemonize` in a process with descriptors 0 to 3 open and a limit of 4.
use native.Mathlib.Omega.{arith}
use ubuntu_projects.Base.{ℕ, ◌≡◌, refl, Bool, List, [], ◌∷◌, ltb}
use ubuntu_projects.Base.Int.{pos}
use ubuntu_projects.Sys.{Call, Reply, Os, returned}
use ubuntu_projects.Sys.Trace.{after}
use ubuntu_projects.Sys.Sample.{reply, sample, fresh}
use ubuntu_projects.Sys.Descriptors.{is_open, Lowest}
use ubuntu_projects.Daemonize.{daemonize}
use ubuntu_projects.Daemonize.Detached.{
  Succeeds, null_call, swept, one_open, two_open, three_open, daemonize-Detached,
}

abbrev limit_four : Reply
limit_four = record {
  ret = pos 0;
  errno = 0;
  bytes = [];
  controllen = 0;
  value = pos 4;
  infos = [];
}

-- the descriptor that `dup` gives, by the call before it
abbrev next : List Call → ℕ
next (Call.open_file path ∷ h) = 1
next _ = 2

abbrev kernel : List Call → Reply
kernel (Call.getrlimit ∷ h) = limit_four
kernel (Call.dup fd ∷ h) = reply (pos (next h))
kernel _ = reply (pos 0)

abbrev os : Os
os = sample kernel

abbrev four : ℕ → Bool
four n = ltb n 4

os-Succeeds : Succeeds os
os-Succeeds = record {
  forks = λ h. refl;
  handles = λ h. refl;
  moves = λ h. refl;
  limits = λ h. refl;
  opens = λ h. refl;
  dups = λ h. refl;
}

null-Lowest : Lowest four os null_call (swept os [])
null-Lowest n e = (ground arith, λ k lt. absurd (ground arith))

dup-Lowest : Lowest four os (Call.dup (pos 0)) (one_open os [])
dup-Lowest n e = (ground arith, λ k lt. ground arith)

dup_again-Lowest : Lowest four os (Call.dup (pos 0)) (two_open os [])
dup_again-Lowest n e = (ground arith, λ k lt. ground arith)

daemonize-Detached_example :
    let end = Call.openlog [] 35 24 ∷ three_open os [] in
    (daemonize [] os fresh ≡ (returned tt, after os end))
    × ((n : ℕ) → is_open four os end n ≡ ltb n 3)
daemonize-Detached_example =
    daemonize-Detached four os [] fresh os-Succeeds (λ n h. ground arith) null-Lowest dup-Lowest
      dup_again-Lowest
