-- ===== src/Client/Tests.antt =====
-- The theorems on client.c on concrete connections.
use native.Mathlib.Omega.{arith}
use ubuntu_projects.Base.{◌+◌, ◌^◌, ◌≡◌, refl, List, [], ◌∷◌, ℕ, none}
use ubuntu_projects.Base.Int.{pos, minus_one}
use ubuntu_projects.Sys.{AddrInfo, Call, Reply, Halt, returned, halted}
use ubuntu_projects.Sys.Trace.{after}
use ubuntu_projects.Sys.Sample.{reply, delivers, sample, fresh}
use ubuntu_projects.Client.{connect_retry, main}
use ubuntu_projects.Client.Retry.{slept, attempts}
use ubuntu_projects.Client.Overflow.{connect_retry-loops}
use ubuntu_projects.Client.Uptime.{copied}
use ubuntu_projects.Client.Main.{opened, attempted, complaint, main-MainEnds, main-gives_up}

abbrev refuses : List Call → Reply
refuses h = reply minus_one

connect_retry-loops_example :
    (connect_retry 100 (pos 3) 7 16 (2 ^ 63) (sample refuses) fresh).0 ≡ halted Halt.out_of_fuel
connect_retry-loops_example =
    connect_retry-loops (pos 3) 7 16 (2 ^ 63) (sample refuses) (omega arith) (λ h. refl) 100 fresh

-- The host has two addresses.
abbrev address : ℕ → AddrInfo
address n = record {
  ai_flags = 0;
  ai_family = 2;
  ai_socktype = 1;
  ai_protocol = 6;
  ai_addrlen = 16;
  ai_addr = n;
  sa_family = 2;
  sin_port = 9000;
  ai_canonname = none;
}

abbrev two_addresses : Reply
two_addresses = record (reply (pos 0)) { infos = address 7 ∷ address 8 ∷ [] }

-- The second attempt connects; then come one piece and the end of the stream.
abbrev serves : List Call → Reply
serves (Call.getaddrinfo host service ∷ h) = two_addresses
serves (Call.socket family type ∷ h) = reply (pos 3)
serves (Call.connect fd addr alen ∷ Call.socket family type ∷ h) = reply minus_one
serves (Call.recv fd n ∷ Call.connect fd' addr alen ∷ h) = delivers (117 ∷ 112 ∷ [])
serves _ = reply (pos 0)

main-MainEnds_example : main 9 ((104 ∷ []) ∷ []) (sample serves) fresh ≡ (
  returned (pos 0),
  after (sample serves) (
      copied
        (pos 3)
        ((117 ∷ 112 ∷ []) ∷ [])
        (attempts (pos 3) 7 16 1 1 (opened (sample serves) (104 ∷ []) (address 7) []))),
)
main-MainEnds_example =
    main-MainEnds 9 1 (104 ∷ []) (address 7) (address 8 ∷ []) ((117 ∷ 112 ∷ []) ∷ [])
      (sample serves) fresh (omega arith) (omega arith) (omega arith) (refl, refl)
      ((refl, tt), refl) (refl, refl, tt)

-- Nothing answers at any address.
abbrev absent : List Call → Reply
absent (Call.getaddrinfo host service ∷ h) = two_addresses
absent (Call.socket family type ∷ h) = reply (pos 3)
absent h = reply minus_one

main-gives_up_example :
    let os = sample absent in
    let h = attempted os (104 ∷ []) (address 7) 6 [] in
    (main 9 ((104 ∷ []) ∷ []) os fresh
      ≡ (returned minus_one, after os (complaint os (104 ∷ []) (address 7) h ∷ h)))
    × (slept (complaint os (104 ∷ []) (address 7) h ∷ h) ≡ 0 + 63)
main-gives_up_example =
    main-gives_up 9 (104 ∷ []) (address 7) (address 8 ∷ []) (sample absent) fresh (omega arith)
      (refl, refl) ((refl, (refl, (refl, (refl, (refl, (refl, tt)))))), refl)
