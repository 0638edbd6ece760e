-- ===== src/Daemonize/Detached.antt =====
-- `daemonize` with every call succeeding: what it has called, and which descriptors are open.
use native.Mathlib.Omega.{arith}
use ubuntu_projects.Base.{
  ℕ, zero, suc, ◌+◌, ◌≤◌, ◌<◌, ◌≡◌, refl, Bool, true, false, ◌&&◌, List, ◌∷◌, ◌==◌, leb, ltb,
  if◌then◌else◌,
}
use ubuntu_projects.Base.Int.{ℤ, pos, negsuc, is_neg, to_ℕ}
use ubuntu_projects.Sys.{Bytes, text, Call, Handler, Os, Proc, returned}
use ubuntu_projects.Sys.Trace.{after}
use ubuntu_projects.Sys.Descriptors.{gained, is_open, Lowest}
use ubuntu_projects.Daemonize.{fork_child, close_from, descriptor_limit, open_null, daemonize}

-- The histories on the way: up to the limit, with the descriptors closed, and at the end.
abbrev pub detached : Os → List Call → List Call
detached os h =
    Call.getrlimit
    ∷ Call.chdir (text "/")
    ∷ Call.fork
    ∷ Call.sigaction os.sighup Handler.sig_ign
    ∷ Call.setsid
    ∷ Call.fork
    ∷ Call.umask 0
    ∷ h

abbrev pub closed : ℕ → ℕ → List Call → List Call
closed zero i h = h
closed (suc n) i h = closed n (i + 1) (Call.close (pos i) ∷ h)

abbrev pub limit : Os → List Call → ℕ
limit os h =
    let value = to_ℕ (os.answer (detached os h)).value in
    if value == os.rlim_infinity then 1024 else value

abbrev pub swept : Os → List Call → List Call
swept os h = closed (limit os h) 0 (detached os h)

abbrev pub null_call : Call
null_call = Call.open_file (text "/dev/null")

-- the history with one, two and three standard descriptors
abbrev pub one_open : Os → List Call → List Call
one_open os h = null_call ∷ swept os h

abbrev pub two_open : Os → List Call → List Call
two_open os h = Call.dup (pos 0) ∷ one_open os h

abbrev pub three_open : Os → List Call → List Call
three_open os h = Call.dup (pos 0) ∷ two_open os h

-- No call fails, and both calls of `fork` return in the child.
pub record Succeeds (os : Os) : Type 0 where
  pub forks : (h : List Call) → (os.answer (Call.fork ∷ h)).ret ≡ pos 0
  pub handles :
      (h : List Call)
      → is_neg (os.answer (Call.sigaction os.sighup Handler.sig_ign ∷ h)).ret ≡ false
  pub moves : (h : List Call) → is_neg (os.answer (Call.chdir (text "/") ∷ h)).ret ≡ false
  pub limits : (h : List Call) → is_neg (os.answer (Call.getrlimit ∷ h)).ret ≡ false
  pub opens : (h : List Call) → is_neg (os.answer (null_call ∷ h)).ret ≡ false
  pub dups : (h : List Call) → is_neg (os.answer (Call.dup (pos 0) ∷ h)).ret ≡ false

close_from_lem :
    (n i : ℕ) (os : Os) (h : List Call)
    → close_from n i os (after os h) ≡ (returned tt, after os (closed n i h))
unfolding close_from
close_from_lem zero i os h = refl
close_from_lem (suc n) i os h = close_from_lem n (i + 1) os (Call.close (pos i) ∷ h)

-- The descriptors from `i` on are closed one by one, and no other.
is_open-closed :
    (start : ℕ → Bool) (os : Os) (n i k : ℕ) (h : List Call)
    → is_open start os (closed n i h) k
      ≡ (if leb i k && ltb k (i + n) then false else is_open start os h k)
is_open-closed start os zero i k h = ground arith
is_open-closed start os (suc n) i k h =
    ground (arith, is_open-closed start os n (i + 1) k (Call.close (pos i) ∷ h))

-- The lowest descriptor that is not open, when those below `k` are open.
lowest-eq :
    (ret : ℤ) (k : ℕ) (f : ℕ → Bool)
    → is_neg ret ≡ false
    → ((n : ℕ) → ret ≡ pos n → (f n ≡ false) × ((j : ℕ) → j < n → f j ≡ true))
    → ((j : ℕ) → f j ≡ ltb j k)
    → ret ≡ pos k
lowest-eq (negsuc m) k f fine lowest open_below = cc
lowest-eq (pos n) k f fine lowest open_below =
    ground (arith, (lowest n refl).0, (lowest n refl).1 k, open_below n, open_below k)

gained-next :
    (ret : ℤ) (k : ℕ) (f : ℕ → Bool)
    → ret ≡ pos k
    → ((j : ℕ) → f j ≡ ltb j k)
    → (n : ℕ) → gained ret f n ≡ ltb n (suc k)
gained-next ret k f e open_below n = rw e (ground (arith, open_below n))

module _ (start : ℕ → Bool) (os : Os) (h : List Call) (ok : Succeeds os)
    (covered : (n : ℕ) → limit os h ≤ n → is_open start os h n ≡ false)
    (first : Lowest start os null_call (swept os h))
    (second : Lowest start os (Call.dup (pos 0)) (one_open os h))
    (third : Lowest start os (Call.dup (pos 0)) (two_open os h)) where
  open-swept : (n : ℕ) → is_open start os (swept os h) n ≡ ltb n 0
  open-swept n = ground (arith, is_open-closed start os (limit os h) 0 n (detached os h), covered n)

  fd0 : (os.answer (one_open os h)).ret ≡ pos 0
  fd0 = lowest-eq _ 0 (is_open start os (swept os h)) (ok.opens (swept os h)) first open-swept

  open-one : (n : ℕ) → is_open start os (one_open os h) n ≡ ltb n 1
  open-one = gained-next _ 0 (is_open start os (swept os h)) fd0 open-swept

  fd1 : (os.answer (two_open os h)).ret ≡ pos 1
  fd1 = lowest-eq _ 1 (is_open start os (one_open os h)) (ok.dups (one_open os h)) second open-one

  open-two : (n : ℕ) → is_open start os (two_open os h) n ≡ ltb n 2
  open-two = gained-next _ 1 (is_open start os (one_open os h)) fd1 open-one

  fd2 : (os.answer (three_open os h)).ret ≡ pos 2
  fd2 = lowest-eq _ 2 (is_open start os (two_open os h)) (ok.dups (two_open os h)) third open-two

  open-three : (n : ℕ) → is_open start os (three_open os h) n ≡ ltb n 3
  open-three = gained-next _ 2 (is_open start os (two_open os h)) fd2 open-two

  open_null_lem :
      (cmd : Bytes)
      → open_null cmd os (after os (swept os h))
        ≡ (returned tt, after os (Call.openlog cmd os.log_options os.log_daemon ∷ three_open os h))
  unfolding open_null
  open_null_lem cmd = rw (fd0, fd1, fd2)

-- When no call fails, the process is the child of both `fork`s, every descriptor that is open
-- before the call is below the limit and the kernel gives out the lowest free descriptors,
-- `daemonize` returns, having made the calls listed in `detached`, `closed` and `three_open` and
-- then opened the log, and exactly the descriptors 0, 1 and 2 are open.
pub daemonize-Detached :
    (start : ℕ → Bool) (os : Os) (cmd : Bytes) (p : Proc)
    → Succeeds os
    → ((n : ℕ) → limit os p.calls ≤ n → is_open start os p.calls n ≡ false)
    → Lowest start os null_call (swept os p.calls)
    → Lowest start os (Call.dup (pos 0)) (one_open os p.calls)
    → Lowest start os (Call.dup (pos 0)) (two_open os p.calls)
    → let end = Call.openlog cmd os.log_options os.log_daemon ∷ three_open os p.calls in
      (daemonize cmd os p ≡ (returned tt, after os end))
      × ((n : ℕ) → is_open start os end n ≡ ltb n 3)
unfolding daemonize fork_child descriptor_limit
daemonize-Detached start os cmd p ok covered first second third =
    let h = p.calls in
    (
      rw (
        ok.forks _,
        ok.handles _,
        ok.forks _,
        ok.moves _,
        ok.limits _,
        close_from_lem (limit os h) 0 os (detached os h),
        open_null_lem start os h ok covered first second third cmd,
      ),
      open-three start os h ok covered first second third,
    )
