-- ===== src/Server/Tests.antt =====
-- The theorems on server.c at concrete answers.
use native.Mathlib.Omega.{arith}
use ubuntu_projects.Base.{
  ap, length, ◌+◌, ◌≤◌, ◌<◌, ℕ, suc, ◌≡◌, refl, Bool, true, false, none, List, [], ◌∷◌, ltb,
}
use ubuntu_projects.Base.Int.{ℤ, pos, minus_one, to_ℕ}
use ubuntu_projects.Sys.{AddrInfo, Call, Reply}
use ubuntu_projects.Sys.Descriptors.{is_open, gained}
use ubuntu_projects.Sys.Sample.{reply, sample, fresh}
use ubuntu_projects.Server.{try_addresses}
use ubuntu_projects.Server.Addresses.{LoopEnds, try_addresses-LoopEnds}
use ubuntu_projects.Server.Serve.{execs, ChildEnds, serve-ChildEnds}

abbrev addr : AddrInfo
addr = record {
  ai_flags = 0;
  ai_family = 2;
  ai_socktype = 1;
  ai_protocol = 6;
  ai_addrlen = 16;
  ai_addr = 9;
  sa_family = 2;
  sin_port = 80;
  ai_canonname = none;
}

-- descriptors 0 to 2 are open
abbrev three : ℕ → Bool
three n = ltb n 3

-- A connection on descriptor 5, and the child of `fork`.
abbrev child : ℤ → List Call → Reply
child exec (Call.accept fd ∷ h) = reply (pos 5)
child exec (Call.dup2 fd to ∷ h) = reply to
child exec (Call.execl path arg ∷ h) = reply exec
child exec _ = reply (pos 0)

serve-ChildEnds_example :
    let os = sample (child minus_one) in
    let h = execs os (pos 4) [] in
    ChildEnds 7 (pos 4) os fresh true
    × ((is_open three os h 1 ≡ true)
        × (is_open three os h 2 ≡ true)
        × (is_open three os h 5 ≡ false))
serve-ChildEnds_example =
    serve-ChildEnds three 7 (pos 4) (sample (child minus_one)) fresh 5 refl refl (λ h fd k. refl)
      refl (omega arith)

-- Every call returns a number above those of the calls before it.
abbrev counts : List Call → Reply
counts h = reply (pos (suc (suc (length h))))

gained-above : (n m : ℕ) (f : ℕ → Bool) → n < m → f m ≡ false → gained (pos n) f m ≡ false
gained-above n m f lt e = ground (arith, e)

above : (h : List Call) (n : ℕ) → length h + 3 ≤ n → is_open three (sample counts) h n ≡ false
above [] n le = ground arith
above (c ∷ h) n le = go c (omega arith) (above h n (omega arith))
  where
    go :
        (c : Call)
        → suc (suc (suc (length h))) < n
        → is_open three (sample counts) h n ≡ false
        → is_open three (sample counts) (c ∷ h) n ≡ false
    go (Call.close fd) le' e = ground (arith, e)
    go (Call.open_file path) le' e =
        gained-above (suc (suc (suc (length h)))) n (is_open three (sample counts) h) le' e
    go (Call.dup fd) le' e =
        gained-above (suc (suc (suc (length h)))) n (is_open three (sample counts) h) le' e
    go (Call.dup2 fd to) le' e =
        gained-above (suc (suc (suc (length h)))) n (is_open three (sample counts) h) le' e
    go (Call.socket family type) le' e =
        gained-above (suc (suc (suc (length h)))) n (is_open three (sample counts) h) le' e
    go (Call.accept fd) le' e =
        gained-above (suc (suc (suc (length h)))) n (is_open three (sample counts) h) le' e
    go (Call.syslog priority msg) le' e =
        gained-above (suc (suc (suc (length h)))) n (is_open three (sample counts) h) le' e
    go _ le' e = e

new_number :
    (h : List Call) (n : ℕ)
    → pos (suc (suc (suc (length h)))) ≡ pos n
    → is_open three (sample counts) h n ≡ false
new_number h n e = above h n (omega (arith, ap to_ℕ e))

try_addresses-LoopEnds_example :
    LoopEnds three 2
      (sample counts)
      (addr ∷ addr ∷ [])
      []
      (try_addresses 2 (addr ∷ addr ∷ []) (sample counts) fresh)
try_addresses-LoopEnds_example =
    try_addresses-LoopEnds three 2 (sample counts) (addr ∷ addr ∷ []) fresh (record {
      new_socket = λ family type h n e. new_number h n e;
      new_connection = λ fd h n e. new_number h n e;
      accepts = λ fd h. refl;
      forks = λ h. refl;
    })
