-- ===== src/Server/Addresses.antt =====
-- The loop of `main` over the addresses: `initserver` on each of them, and `serve` on the first that
-- can be listened on.
use native.Mathlib.Omega.{arith}
use ubuntu_projects.Base.{
  ℕ, zero, suc, ◌+◌, ◌≤◌, ◌≡◌, ◌∙◌, ap, sym, refl, Bool, true, false, List, [], ◌∷◌, ◌==◌, length,
  if◌then◌else◌,
}
use ubuntu_projects.Base.Int.{ℤ, pos, negsuc, is_neg, is_positive}
use ubuntu_projects.Sys.{
  AddrInfo, Call, Os, Proc, Halt, Outcome, returned, halted, and_then, pure, ◌>>◌,
}
use ubuntu_projects.Sys.Trace.{count}
use ubuntu_projects.Sys.Descriptors.{is_open, Fresh}
use ubuntu_projects.Server.{initserver, give_up, serve, qlen, try_addresses}
use ubuntu_projects.Server.Init.{InitEnds, ready, initserver_lem, initserver-is_new}
use ubuntu_projects.Server.Serve.{round, rounds, serve-rounds}

abbrev pub is_socket : Call → Bool
is_socket (Call.socket family type) = true
is_socket _ = false

-- What the kernel promises of new descriptors, and that connections come in and are served.
pub record Works (start : ℕ → Bool) (os : Os) : Type 0 where
  pub new_socket : (family type : ℕ) (h : List Call) → Fresh start os (Call.socket family type) h
  pub new_connection : (fd : ℤ) (h : List Call) → Fresh start os (Call.accept fd) h
  pub accepts : (fd : ℤ) (h : List Call) → is_neg (os.answer (Call.accept fd ∷ h)).ret ≡ false
  pub forks : (h : List Call) → is_positive (os.answer (Call.fork ∷ h)).ret ≡ true

initserver-count :
    (type : ℕ) (addr : AddrInfo) (alen q : ℕ) (os : Os) (p : Proc)
    → count is_socket (initserver type addr alen q os p).1.calls ≡ suc (count is_socket p.calls)
unfolding initserver give_up
initserver-count type addr alen q os p = ground arith

count-rounds :
    (os : Os) (fd : ℤ) (n : ℕ) (h : List Call)
    → count is_socket (rounds os fd n h) ≡ count is_socket h
count-rounds os fd zero h = refl
count-rounds os fd (suc n) h = count-rounds os fd n (round os fd h)

-- The history is one of so many rounds of the server behind the call of `listen`.
abbrev pub Serving : Os → ℕ → ℤ → List Call → Type 0
Serving os fuel fd calls = (h : List Call) × (calls ≡ rounds os fd fuel (Call.listen fd qlen ∷ h))

-- How the loop over the addresses ends, for a run from the history `before` with fuel for so many rounds
-- of the server: the descriptor on which it serves has been passed to `listen`.
abbrev pub LoopEnds : (ℕ → Bool) → ℕ → Os → List AddrInfo → List Call → Outcome ℤ × Proc → Type 0
LoopEnds start fuel os infos before (halted (Halt.exited n), q) =
    (n ≡ 1)
    × (count is_socket q.calls ≡ count is_socket before + length infos)
    × ((k : ℕ) → is_open start os q.calls k ≡ is_open start os before k)
LoopEnds start fuel os infos before (halted Halt.out_of_fuel, q) =
    (fd : ℕ) × (count is_socket q.calls ≤ count is_socket before + length infos)
    × (is_open start os before fd ≡ false)
    × Serving os fuel (pos fd) q.calls
    × ((k : ℕ) → is_open start os q.calls k ≡ (if fd == k then true else is_open start os before k))
LoopEnds start fuel os infos before _ = ⊥

later :
    (start : ℕ → Bool) (fuel : ℕ) (os : Os) (pai : AddrInfo) (rest : List AddrInfo)
    (before h : List Call) (r : Outcome ℤ × Proc)
    → count is_socket h ≡ suc (count is_socket before)
    → ((k : ℕ) → is_open start os h k ≡ is_open start os before k)
    → LoopEnds start fuel os rest h r
    → LoopEnds start fuel os (pai ∷ rest) before r
later start fuel os pai rest before h (halted (Halt.exited n), q) one same e =
    (e.0, omega (arith, one, e.1), λ k. e.2 k ∙ same k)
later start fuel os pai rest before h (halted Halt.out_of_fuel, q) one same
      (fd, few, new, serves, held) =
    (
      fd,
      omega (arith, one),
      sym (same fd) ∙ new,
      serves,
      λ k. held k ∙ ap (λ b. if fd == k then true else b) (same k),
    )
later start fuel os pai rest before h (halted Halt.aborted, q) one same e = absurd e
later start fuel os pai rest before h (halted Halt.undefined, q) one same e = absurd e
later start fuel os pai rest before h (halted (Halt.replaced s), q) one same e = absurd e
later start fuel os pai rest before h (returned n, q) one same e = absurd e

-- A server that does not end has the descriptor open on which it listens.
listens :
    (start : ℕ → Bool) (fuel : ℕ) (os : Os) (pai : AddrInfo) (rest : List AddrInfo)
    (before : List Call) (fd : ℕ) (r : Outcome (Unit {0}) × Proc)
    → r.0 ≡ halted Halt.out_of_fuel
    → count is_socket r.1.calls ≡ suc (count is_socket before)
    → is_open start os before fd ≡ false
    → Serving os fuel (pos fd) r.1.calls
    → ((k : ℕ)
        → is_open start os r.1.calls k ≡ (if fd == k then true else is_open start os before k))
    → LoopEnds start fuel os (pai ∷ rest) before (and_then r (λ _. pure (pos 0)) os)
listens start fuel os pai rest before fd (halted Halt.out_of_fuel, q) e one new serves held =
    (fd, omega (arith, one), new, serves, held)
listens start fuel os pai rest before fd (returned n, q) e one new serves held = cc
listens start fuel os pai rest before fd (halted Halt.aborted, q) e one new serves held = cc
listens start fuel os pai rest before fd (halted Halt.undefined, q) e one new serves held = cc
listens start fuel os pai rest before fd (halted (Halt.replaced s), q) e one new serves held = cc
listens start fuel os pai rest before fd (halted (Halt.exited n), q) e one new serves held = cc

-- the last call for a stream socket
ready-stream :
    (os : Os) (pai : AddrInfo) (fd : ℤ) (h : List Call)
    → ready os.sock_stream pai pai.ai_addrlen qlen os fd h
      ≡ Call.listen fd qlen ∷ Call.bind fd pai.ai_addr pai.ai_addrlen ∷ h
ready-stream os pai fd h = ground arith

module _ (start : ℕ → Bool) (fuel : ℕ) (os : Os) (works : Works start os) where
  one_address :
      (pai : AddrInfo) (rest : List AddrInfo) (p : Proc) (r : Outcome ℤ × Proc)
      → ((k : ℕ) → InitEnds start os.sock_stream pai pai.ai_addrlen qlen os k p.calls r)
      → count is_socket r.1.calls ≡ suc (count is_socket p.calls)
      → ((n : ℕ) (q : Proc) → r ≡ (returned (pos n), q) → is_open start os p.calls n ≡ false)
      → ((q : Proc) → LoopEnds start fuel os rest q.calls (try_addresses fuel rest os q))
      → LoopEnds start fuel os (pai ∷ rest) p.calls (
          and_then r
            (λ fd. if is_neg fd then try_addresses fuel rest else (serve fuel fd >> pure (pos 0)))
            os)
  one_address pai rest p (returned (pos n), q) ends one new after =
      let run = λ (k : ℕ).
        serve-rounds start fuel (pos n) os q k (λ i. works.new_connection (pos n) _)
          (λ i. works.accepts (pos n) _) (λ i. works.forks _) in
      listens start fuel os pai rest p.calls n (serve fuel (pos n) os q) ((run 0).0)
        (rw (run 0).1 (count-rounds os (pos n) fuel q.calls ∙ one)) (new n q refl)
        (_, (run 0).1 ∙ ap (rounds os (pos n) fuel) ((ends 0).1 ∙ ready-stream os pai (pos n) _))
        (λ k. rw (run k).1 ((run k).2 ∙ (ends k).0))
  one_address pai rest p (returned (negsuc m), q) ends one new after =
      later start fuel os pai rest p.calls q.calls (try_addresses fuel rest os q) one
        (λ k. (ends k).1) (after q)
  one_address pai rest p (halted e, q) ends one new after = absurd (ends 0)

-- When a new descriptor was not open before, every `accept` gives a connection and every `fork`
-- returns in the parent, the loop over the addresses either exits with 1 after one `socket` for
-- each address, with the same descriptors open as before, or goes on serving for as long as there
-- is fuel, after at most one `socket` for each address, and the descriptor on which it serves,
-- which it has passed to `listen`, was not open before and is the only one more that is open.
pub try_addresses-LoopEnds :
    (start : ℕ → Bool) (fuel : ℕ) (os : Os) (infos : List AddrInfo) (p : Proc)
    → Works start os
    → LoopEnds start fuel os infos p.calls (try_addresses fuel infos os p)
unfolding try_addresses
try_addresses-LoopEnds start fuel os [] p works = (refl, omega arith, λ k. refl)
try_addresses-LoopEnds start fuel os (pai ∷ rest) p works =
    one_address start fuel os works pai rest p
      (initserver os.sock_stream pai pai.ai_addrlen qlen os p)
      (λ k.
        initserver_lem start os.sock_stream pai pai.ai_addrlen qlen k os p
          (works.new_socket _ _ p.calls))
      (initserver-count os.sock_stream pai pai.ai_addrlen qlen os p)
      (initserver-is_new start os.sock_stream pai pai.ai_addrlen qlen os p
        (works.new_socket _ _ p.calls))
      (λ q. try_addresses-LoopEnds start fuel os rest q works)
