-- ===== src/Getaddr/Output.antt =====
-- What getaddr.c prints, described by tables of names.
use ubuntu_projects.Base.{
  ℕ, ◌≡◌, refl, ap, sym, ◌∙◌, Bool, true, false, List, [], ◌∷◌, ◌++◌, ◌==◌, if◌then◌else◌, arith,
}
use ubuntu_projects.Base.Int.{ℤ, pos, eq_ℤ}
use ubuntu_projects.Sys.{
  Bytes, text, AddrInfo, Call, M, Os, Proc, Outcome, returned, and_then, ◌>>◌, pure,
}
use ubuntu_projects.Sys.Trace.{after}
use ubuntu_projects.Getaddr.{
  Net, printf, has, print_family, print_type, print_proto, print_flags, or_else, print_inet,
  print_address, print_addresses, main,
}

-- the name of a number in a table, or another one
abbrev pub name_of : ℕ → List (ℕ × Bytes) → Bytes → Bytes
name_of n [] other = other
name_of n ((m, name) ∷ rest) other = if n == m then name else name_of n rest other

-- the names of the flags that are set
abbrev pub names_of : ℕ → List (ℕ × Bytes) → List Bytes
names_of flags [] = []
names_of flags ((mask, name) ∷ rest) =
    (if has flags mask then name ∷ [] else []) ++ names_of flags rest

-- the history with these texts printed, in order
abbrev pub prints : List Bytes → List Call → List Call
prints [] h = h
prints (s ∷ ss) h = prints ss (Call.printf s ∷ h)

module _ (net : Net) where
  abbrev pub families : List (ℕ × Bytes)
  families =
      (net.af_inet, text "inet,")
      ∷ (net.af_inet6, text "inet6,")
      ∷ (net.af_unix, text "unix,")
      ∷ (net.af_unspec, text "unspecified,")
      ∷ []

  abbrev pub types : List (ℕ × Bytes)
  types =
      (net.sock_stream, text "sockstream,")
      ∷ (net.sock_dgram, text "sockdgram,")
      ∷ (net.sock_seqpacket, text "srqpacket,")
      ∷ []

  abbrev pub protocols : List (ℕ × Bytes)
  protocols =
      (0, text "default,")
      ∷ (net.ipproto_tcp, text "TCP,")
      ∷ (net.ipproto_udp, text "UDP,")
      ∷ (net.ipproto_raw, text "raw,")
      ∷ []

  abbrev pub flags : List (ℕ × Bytes)
  flags =
      (net.ai_passive, text " passive, ")
      ∷ (net.ai_canonname, text " canonical, ")
      ∷ (net.ai_numerichost, text " numeric_host, ")
      ∷ (net.ai_numericserv, text "numeric_serv")
      ∷ (net.ai_all, text " all")
      ∷ []

  module _ (os : Os) where
    abbrev pub unknown : Bytes → ℕ → Bytes
    unknown before n = before ++ (os.decimal (pos n) ++ text "),")

    abbrev pub flag_texts : AddrInfo → List Bytes
    flag_texts pai =
        text " flags:" ∷ (if pai.ai_flags == 0 then text " 0" ∷ [] else names_of pai.ai_flags flags)

    abbrev pub family_texts : AddrInfo → List Bytes
    family_texts pai = text "family: " ∷ name_of pai.ai_family families (text "unknown,") ∷ []

    abbrev pub type_texts : AddrInfo → List Bytes
    type_texts pai =
        text " type: "
        ∷ name_of pai.ai_socktype types (unknown (text "unknown (") pai.ai_socktype)
        ∷ []

    abbrev pub proto_texts : AddrInfo → List Bytes
    proto_texts pai =
        text " protocol: "
        ∷ name_of pai.ai_protocol protocols (unknown (text "unknown(") pai.ai_protocol)
        ∷ []

    abbrev pub host_text : AddrInfo → Bytes
    host_text pai = text "\n\t host " ++ or_else pai.ai_canonname (text "-")

    abbrev pub inet_texts : AddrInfo → List Bytes
    inet_texts pai =
        if pai.ai_family == net.af_inet
        then (text " address " ++ or_else (net.inet_ntop pai.ai_addr) (text "unknown"))
          ∷ (text " port " ++ os.decimal (pos (net.ntohs pai.sin_port)))
          ∷ []
        else []

    -- what is printed of an address
    abbrev pub texts : AddrInfo → List Bytes
    texts pai =
        (((((flag_texts pai ++ family_texts pai) ++ type_texts pai) ++ proto_texts pai)
            ++ (host_text pai ∷ []))
          ++ inet_texts pai)
        ++ (text "\n" ∷ [])

    abbrev pub all_texts : List AddrInfo → List Bytes
    all_texts [] = []
    all_texts (pai ∷ rest) = texts pai ++ all_texts rest

    -- How `main` ends by the answer of `getaddrinfo`.
    abbrev pub ends : ℤ → List AddrInfo → List Call → Outcome ℤ × Proc
    ends err infos h =
        if eq_ℤ err (pos 0) then (returned (pos 0), after os (prints (all_texts infos) h)) else (
          returned (pos 2),
          after os (Call.printf (text "error in getaddrinfo call: " ++ os.gai_strerror err) ∷ h),
        )

    -- How `main` ends by its arguments.
    abbrev pub ends_with : Bytes → List Bytes → List Call → Outcome ℤ × Proc
    ends_with name (node ∷ service ∷ []) h =
        let g = Call.getaddrinfo node service ∷ h in ends (os.answer g).ret (os.answer g).infos g
    ends_with name _ h = (
      returned (pos 1),
      after os (Call.printf (text "Using: " ++ (name ++ text ", hostname(node) servicename")) ∷ h),
    )

module _ (os : Os) where
  -- The code prints these texts and returns.
  record Prints (m : M (Unit {0})) (ss : List Bytes) : Type 0 where
    runs : (h : List Call) → m os (after os h) ≡ (returned tt, after os (prints ss h))

  prints-append :
      (ss ts : List Bytes) (h : List Call) → prints (ss ++ ts) h ≡ prints ts (prints ss h)
  prints-append [] ts h = refl
  prints-append (s ∷ ss) ts h = prints-append ss ts (Call.printf s ∷ h)

  then-Prints :
      {m k : M (Unit {0})} {ss ts : List Bytes}
      → Prints m ss
      → Prints k ts
      → Prints (m >> k) (ss ++ ts)
  then-Prints {m} {k} {ss} {ts} a b = record {
    runs = λ h.
        ap (λ r. and_then r (λ _. k) os) (a.runs h)
        ∙ b.runs (prints ss h)
        ∙ ap (λ g. (returned tt, after os g)) (sym (prints-append ss ts h));
  }

  printf-Prints : (s : Bytes) → Prints (printf s) (s ∷ [])
  printf-Prints s = record { runs = λ h. refl }

  module _ (net : Net) where
    flags-Prints : (pai : AddrInfo) → Prints (print_flags net pai) (flag_texts net os pai)
    unfolding print_flags
    flags-Prints pai = record { runs = λ h. ground arith }

    family-Prints : (pai : AddrInfo) → Prints (print_family net pai) (family_texts net os pai)
    unfolding print_family
    family-Prints pai = record { runs = λ h. ground arith }

    type-Prints : (pai : AddrInfo) → Prints (print_type net pai) (type_texts net os pai)
    unfolding print_type
    type-Prints pai = record { runs = λ h. ground arith }

    proto-Prints : (pai : AddrInfo) → Prints (print_proto net pai) (proto_texts net os pai)
    unfolding print_proto
    proto-Prints pai = record { runs = λ h. ground arith }

    inet-Prints : (pai : AddrInfo) → Prints (print_inet net pai) (inet_texts net os pai)
    unfolding print_inet
    inet-Prints pai = record { runs = λ h. ground arith }

    address-Prints : (pai : AddrInfo) → Prints (print_address net pai) (texts net os pai)
    unfolding print_address
    address-Prints pai =
        then-Prints
          (then-Prints
            (then-Prints
              (then-Prints
                (then-Prints (then-Prints (flags-Prints pai) (family-Prints pai)) (type-Prints pai))
                (proto-Prints pai))
              (printf-Prints (host_text net os pai)))
            (inet-Prints pai))
          (printf-Prints (text "\n"))

    addresses-Prints :
        (infos : List AddrInfo) → Prints (print_addresses net infos) (all_texts net os infos)
    unfolding print_addresses
    addresses-Prints [] = record { runs = λ h. refl }
    addresses-Prints (pai ∷ rest) = then-Prints (address-Prints pai) (addresses-Prints rest)

    main-ends :
        (b : Bool) (infos : List AddrInfo) (s : Bytes) (h : List Call)
        → (if b then print_addresses net infos >> pure (pos 0) else (printf s >> pure (pos 2))) os
            (after os h)
          ≡ (if b
              then (returned (pos 0), after os (prints (all_texts net os infos) h))
              else (returned (pos 2), after os (Call.printf s ∷ h)))
    main-ends true infos s h =
        ap (λ r. and_then r (λ _. pure (pos 0)) os) ((addresses-Prints infos).runs h)
    main-ends false infos s h = refl

    -- `main` with a host and a service prints, when `getaddrinfo` returns 0, for every address in
    -- order the texts that the tables of names give (the flags that are set, or 0 if there are
    -- none, the family, type and protocol or that it is unknown, the name of the host, the address
    -- and port of an `AF_INET` one, and an end of line) and returns 0; when it fails, the reason,
    -- and returns 2; with other arguments it prints its use and returns 1. It makes no other call.
    pub main_lem :
        (name : Bytes) (args : List Bytes) (p : Proc)
        → main net name args os p ≡ ends_with net os name args p.calls
    unfolding main
    main_lem name [] p = refl
    main_lem name (_ ∷ []) p = refl
    main_lem name (node ∷ service ∷ []) p =
        let g = Call.getaddrinfo node service ∷ p.calls in
        let r = os.answer g in
        main-ends (eq_ℤ r.ret (pos 0)) r.infos
          (text "error in getaddrinfo call: " ++ os.gai_strerror r.ret) g
    main_lem name (_ ∷ _ ∷ _ ∷ _) p = refl
