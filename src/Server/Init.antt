-- ===== src/Server/Init.antt =====
-- `initserver`: which descriptors are open afterwards, and what `errno` says.
use ubuntu_projects.Base.{ℕ, ◌≡◌, Bool, true, false, ◌||◌, List, ◌∷◌, ◌==◌, if◌then◌else◌, arith}
use ubuntu_projects.Base.Int.{ℤ, pos, negsuc}
use ubuntu_projects.Sys.{AddrInfo, Call, Os, Proc, Outcome, returned, halted}
use ubuntu_projects.Sys.Descriptors.{is_open, Fresh}
use ubuntu_projects.Server.{initserver, give_up}

-- The history up to the call that has failed: the descriptor is closed after it.
abbrev pub failed_at : List Call → List Call
failed_at (Call.close fd ∷ h) = h
failed_at h = h

-- The last call made of a socket that is returned: `listen` for a type with connections.
abbrev pub ready : ℕ → AddrInfo → ℕ → ℕ → Os → ℤ → List Call → List Call
ready type addr alen qlen os fd h =
    let bound = Call.bind fd addr.ai_addr alen ∷ h in
    if type == os.sock_stream || type == os.sock_seqpacket
    then Call.listen fd qlen ∷ bound
    else bound

-- What `initserver` promises of descriptor `k`, for a run from the history `before`.
abbrev pub InitEnds :
    (ℕ → Bool) → ℕ → AddrInfo → ℕ → ℕ → Os → ℕ → List Call → Outcome ℤ × Proc → Type 0
InitEnds start type addr alen qlen os k before (returned (pos n), q) =
    (is_open start os q.calls k ≡ (if n == k then true else is_open start os before k))
    × (q.calls ≡ ready type addr alen qlen os (pos n) (Call.socket addr.sa_family type ∷ before))
InitEnds start type addr alen qlen os k before (returned (negsuc m), q) =
    (m ≡ 0)
    × (is_open start os q.calls k ≡ is_open start os before k)
    × (q.errno ≡ (os.answer (failed_at q.calls)).errno)
InitEnds start type addr alen qlen os k before (halted e, q) = ⊥

-- When `socket` gives a descriptor that was not open, `initserver` returns. If it returns a
-- descriptor, that is the only one that is open now and was not before (this holds of every
-- descriptor `k`), and its calls were `socket`, `bind` and, exactly for a stream or sequenced
-- packet socket, `listen`. Otherwise it returns -1, the same descriptors are open as before, and
-- `errno` is that of the call that failed.
pub initserver_lem :
    (start : ℕ → Bool) (type : ℕ) (addr : AddrInfo) (alen qlen k : ℕ) (os : Os) (p : Proc)
    → Fresh start os (Call.socket addr.sa_family type) p.calls
    → InitEnds start type addr alen qlen os k p.calls (initserver type addr alen qlen os p)
unfolding initserver give_up
initserver_lem start type addr alen qlen k os p fresh = ground (arith, fresh k)

initserver-socket :
    (type : ℕ) (addr : AddrInfo) (alen qlen : ℕ) (os : Os) (p : Proc) (n : ℕ) (q : Proc)
    → initserver type addr alen qlen os p ≡ (returned (pos n), q)
    → (os.answer (Call.socket addr.sa_family type ∷ p.calls)).ret ≡ pos n
unfolding initserver give_up
initserver-socket type addr alen qlen os p n q e = ground (arith, e)

-- A descriptor that is returned is the one that `socket` has given.
pub initserver-is_new :
    (start : ℕ → Bool) (type : ℕ) (addr : AddrInfo) (alen qlen : ℕ) (os : Os) (p : Proc)
    → Fresh start os (Call.socket addr.sa_family type) p.calls
    → (n : ℕ) (q : Proc) → initserver type addr alen qlen os p ≡ (returned (pos n), q)
    → is_open start os p.calls n ≡ false
initserver-is_new start type addr alen qlen os p fresh n q e =
    fresh n (initserver-socket type addr alen qlen os p n q e)
