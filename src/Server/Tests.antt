-- ===== src/Server/Tests.antt =====
-- The properties of the socket wrappers at concrete answers of the system.
use dns_server.Common.{
  ℕ, ◌+◌, ◌*◌, ◌/◌, ◌%◌, ◌≡◌, ◌⊎◌, pos, arith, refl, none, some, List, [], ◌∷◌, ◌++◌, All, Bytes,
  codes, replicate, text_eq,
}
use dns_server.Server.{SocketCalls, create_tcp_connections, is_zero, is_minus_one}
use dns_server.Server.Interfaces.{Interface, IsEn0, IsOther, en0_addr, get_ip, get_ip_lem}
use dns_server.Server.Sockets.{create_tcp_connections_lem}

-- A system that gives descriptor 7 and binds it to the port 53 in network order.
abbrev system : SocketCalls
system = record { socket = pos 7; bind = λ _. pos 0; getsockname = pos 0; sin_port = 13568 }

abbrev swap : ℕ → ℕ
swap n = n % 256 * 256 + n / 256

create_tcp_connections_lem_example : (pos 0 ≡ pos 0) × (pos 5 ≡ pos 5)
unfolding create_tcp_connections is_zero is_minus_one
create_tcp_connections_lem_example = create_tcp_connections_lem (pos 0) (pos 5) 5 (omega arith) refl

-- The loopback, then en0 with an address of another family, then en0 with 10.0.0.7.
abbrev interfaces : List Interface
interfaces =
    record { ifa_name = codes "lo"; ifa_addr = some (2, 127 ∷ 0 ∷ 0 ∷ 1 ∷ []) }
    ∷ record { ifa_name = codes "en0"; ifa_addr = some (30, replicate 16 0) }
    ∷ record { ifa_name = codes "en0"; ifa_addr = some (2, 10 ∷ 0 ∷ 0 ∷ 7 ∷ []) }
    ∷ []

get_ip_lem_example :
    ((before : List Interface) × (i : Interface) × (address : Bytes) × (after : List Interface)
      × (interfaces ≡ before ++ (i ∷ after))
      × All IsOther before
      × IsEn0 i address
      × (get_ip (λ b. b) interfaces ≡ some address))
    ⊎ (All IsOther interfaces × (get_ip (λ b. b) interfaces ≡ none))
get_ip_lem_example = get_ip_lem (λ b. b) interfaces

get_ip_run : get_ip (λ b. b) interfaces ≡ some (10 ∷ 0 ∷ 0 ∷ 7 ∷ [])
unfolding get_ip en0_addr text_eq
get_ip_run = refl
