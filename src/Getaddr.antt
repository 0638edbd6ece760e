-- ===== src/Getaddr.antt =====
-- c_projects/sockets/getaddr.c and getaddr.h: the addresses of a host, printed.
pub mod Output
mod Tests
use ubuntu_projects.Base.{
  ℕ, ◌/◌, ◌%◌, Bool, Option, none, some, List, [], ◌∷◌, ◌++◌, ◌==◌, not, if◌then◌else◌,
}
use ubuntu_projects.Base.Int.{ℤ, pos, eq_ℤ}
use ubuntu_projects.Sys.{Bytes, text, AddrInfo, Call, M, ◌>>=◌, ◌>>◌, pure, sys, ask, when}

-- The numbers of the system's headers, and the functions on addresses that are not in the repository.
-- A flag is a power of two.
pub record Net : Type 0 where
  pub af_inet : ℕ
  pub af_inet6 : ℕ
  pub af_unix : ℕ
  pub af_unspec : ℕ
  pub sock_stream : ℕ
  pub sock_dgram : ℕ
  pub sock_seqpacket : ℕ
  pub ipproto_tcp : ℕ
  pub ipproto_udp : ℕ
  pub ipproto_raw : ℕ
  pub ai_passive : ℕ
  pub ai_canonname : ℕ
  pub ai_numerichost : ℕ
  pub ai_numericserv : ℕ
  pub ai_all : ℕ
  pub inet_ntop : ℕ → Option Bytes
  pub ntohs : ℕ → ℕ

abbrev pub printf : Bytes → M (Unit {0})
printf s = sys (Call.printf s) >> pure tt

-- `flags & mask`, for a mask that is a power of two
abbrev pub has : ℕ → ℕ → Bool
has flags mask = flags / mask % 2 == 1

-- a text, or another one for the null pointer
abbrev pub or_else : Option Bytes → Bytes → Bytes
or_else none s = s
or_else (some t) s = t

module _ (net : Net) where
  unfoldable pub print_family : AddrInfo → M (Unit {0})
  print_family pai =
      printf (text "family: ")
      >> (if pai.ai_family == net.af_inet
          then printf (text "inet,")
          else if pai.ai_family == net.af_inet6
          then printf (text "inet6,")
          else if pai.ai_family == net.af_unix
          then printf (text "unix,")
          else if pai.ai_family == net.af_unspec
          then printf (text "unspecified,")
          else printf (text "unknown,"))

  unfoldable pub print_type : AddrInfo → M (Unit {0})
  print_type pai =
      printf (text " type: ")
      >> (if pai.ai_socktype == net.sock_stream
          then printf (text "sockstream,")
          else if pai.ai_socktype == net.sock_dgram
          then printf (text "sockdgram,")
          else if pai.ai_socktype == net.sock_seqpacket
          then printf (text "srqpacket,")
          else (ask (λ os. os.decimal (pos pai.ai_socktype)) >>= λ number.
              printf (text "unknown (" ++ (number ++ text "),"))))

  unfoldable pub print_proto : AddrInfo → M (Unit {0})
  print_proto pai =
      printf (text " protocol: ")
      >> (if pai.ai_protocol == 0
          then printf (text "default,")
          else if pai.ai_protocol == net.ipproto_tcp
          then printf (text "TCP,")
          else if pai.ai_protocol == net.ipproto_udp
          then printf (text "UDP,")
          else if pai.ai_protocol == net.ipproto_raw
          then printf (text "raw,")
          else (ask (λ os. os.decimal (pos pai.ai_protocol)) >>= λ number.
              printf (text "unknown(" ++ (number ++ text "),"))))

  -- with AI_NUMERICSERV and AI_ALL, which the headers of Linux have
  unfoldable pub print_flags : AddrInfo → M (Unit {0})
  print_flags pai =
      printf (text " flags:")
      >> (if pai.ai_flags == 0
          then printf (text " 0")
          else (when (has pai.ai_flags net.ai_passive) (printf (text " passive, "))
              >> when (has pai.ai_flags net.ai_canonname) (printf (text " canonical, "))
              >> when (has pai.ai_flags net.ai_numerichost) (printf (text " numeric_host, "))
              >> when (has pai.ai_flags net.ai_numericserv) (printf (text "numeric_serv"))
              >> when (has pai.ai_flags net.ai_all) (printf (text " all"))))

  -- the lines for an address that is an `AF_INET` one
  unfoldable pub print_inet : AddrInfo → M (Unit {0})
  print_inet pai = when (pai.ai_family == net.af_inet) (
      printf (text " address " ++ or_else (net.inet_ntop pai.ai_addr) (text "unknown"))
      >> (ask (λ os. os.decimal (pos (net.ntohs pai.sin_port))) >>= λ port.
          printf (text " port " ++ port)))

  -- a round of the loop
  unfoldable pub print_address : AddrInfo → M (Unit {0})
  print_address pai =
      print_flags pai
      >> print_family pai
      >> print_type pai
      >> print_proto pai
      >> printf (text "\n\t host " ++ or_else pai.ai_canonname (text "-"))
      >> print_inet pai
      >> printf (text "\n")

  -- the loop over the addresses
  unfoldable pub print_addresses : List AddrInfo → M (Unit {0})
  print_addresses [] = pure tt
  print_addresses (pai ∷ rest) = print_address pai >> print_addresses rest

  -- `main`, with the program's name and the arguments behind it
  unfoldable pub main : Bytes → List Bytes → M ℤ
  main name (node ∷ service ∷ []) = do
    r ← sys (Call.getaddrinfo node service)
    reason ← ask (λ os. os.gai_strerror r.ret)
    if eq_ℤ r.ret (pos 0)
        then (print_addresses r.infos >> pure (pos 0))
        else (printf (text "error in getaddrinfo call: " ++ reason) >> pure (pos 2))
  main name _ =
      printf (text "Using: " ++ (name ++ text ", hostname(node) servicename")) >> pure (pos 1)
