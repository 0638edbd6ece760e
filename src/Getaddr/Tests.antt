-- ===== src/Getaddr/Tests.antt =====
-- The theorem on getaddr.c on a host with one address.
use ubuntu_projects.Base.{◌≡◌, none, some, List, [], ◌∷◌}
use ubuntu_projects.Base.Int.{pos}
use ubuntu_projects.Sys.{Bytes, AddrInfo, Call, Reply}
use ubuntu_projects.Sys.Sample.{sample, fresh}
use ubuntu_projects.Getaddr.{Net, main}
use ubuntu_projects.Getaddr.Output.{ends_with, main_lem}

abbrev linux : Net
linux = record {
  af_inet = 2;
  af_inet6 = 10;
  af_unix = 1;
  af_unspec = 0;
  sock_stream = 1;
  sock_dgram = 2;
  sock_seqpacket = 5;
  ipproto_tcp = 6;
  ipproto_udp = 17;
  ipproto_raw = 255;
  ai_passive = 1;
  ai_canonname = 2;
  ai_numerichost = 4;
  ai_numericserv = 1024;
  ai_all = 16;
  inet_ntop = λ a. some (a ∷ []);
  ntohs = λ n. n;
}

abbrev local : AddrInfo
local = record {
  ai_flags = 5;
  ai_family = 2;
  ai_socktype = 1;
  ai_protocol = 6;
  ai_addrlen = 16;
  ai_addr = 127;
  sa_family = 2;
  sin_port = 80;
  ai_canonname = none;
}

abbrev found : List Call → Reply
found h = record {
  ret = pos 0;
  errno = 0;
  bytes = [];
  controllen = 0;
  value = pos 0;
  infos = local ∷ [];
}

abbrev arguments : List Bytes
arguments = (108 ∷ []) ∷ (56 ∷ 48 ∷ []) ∷ []

main_lem_example :
    main linux (103 ∷ []) arguments (sample found) fresh
    ≡ ends_with linux (sample found) (103 ∷ []) arguments []
main_lem_example = main_lem (sample found) linux (103 ∷ []) arguments fresh
