-- ===== src/DnsServer/Online.antt =====
-- src/dns_server.c: `create_dns_server` and `update_and_online`, by which a new server asks the router
-- for the ports of the others, one of those for its translations, and the router to list it.
pub mod Joined
pub mod Tests
use dns_server.Common.{
  ℕ, zero, suc, ◌+◌, ◌*◌, ◌%◌, ℤ, is_negative, Bool, true, false, Option, none, some, List, [], ◌∷◌,
  Bytes, ◌==◌, if◌then◌else◌, Outcome, ok, blocked, ◌>>=◌,
}
use mathlib.Core.Option
use dns_server.Coms.{Coms}
use dns_server.Coms.Create.{create_coms}
use dns_server.Coms.Transfer.{recv_byte, request_hosts}
use dns_server.DnsServer.{DnsServer}

-- What the system gives `create_dns_server`: the sockets of `setup_server` by port, and `get_ip`.
pub record Host : Type 0 where
  pub udp_socket : ℕ → ℤ
  pub tcp_socket : ℕ → ℤ
  pub ip : Bytes
  pub files : Bytes → Option Bytes

-- ROUTER_PORT_NUM
abbrev pub router_port_num : ℕ
router_port_num = 2055

-- `create_dns_server`: the server, and `server_count` afterwards (a uint16_t). `coms_t` keeps the id
-- as a uint8_t.
unfoldable pub create_dns_server : Host → ℕ → Bytes → ℕ → ℕ → Bool → Outcome (DnsServer × ℕ)
create_dns_server host server_count scoreboard_ip scoreboard_port recieving_port read_host = do
  let tcp_port = (recieving_port + 128) % 65536
  coms ← create_coms host.files (server_count % 256) read_host (host.tcp_socket tcp_port)
  ok (
    record {
      coms = coms;
      socket = host.udp_socket recieving_port;
      tcp_socket = host.tcp_socket tcp_port;
      scoreboard_ip = scoreboard_ip;
      scoreboard_port = scoreboard_port;
      router_ip = host.ip;
      router_port = router_port_num;
      id = server_count;
      port_num = recieving_port;
      tcp_port_num = tcp_port;
      ip = host.ip;
      pause = false;
    },
    (server_count + 1) % 65536,
  )

-- `recv` of a uint16_t, with a second call where one byte came: the port and the chunks left. `old` is
-- what the two bytes hold at first.
unfoldable pub read_port : ℕ × ℕ → List (Option Bytes) → Outcome (ℕ × List (Option Bytes))
read_port old [] = blocked
read_port old (none ∷ chunks) = ok (old.0 + 256 * old.1, chunks)
read_port old (some [] ∷ chunks) = ok (old.0 + 256 * old.1, chunks)
read_port old (some (low ∷ []) ∷ chunks) =
    recv_byte old.1 chunks >>= (λ r. ok (low + 256 * r.0, r.1))
read_port old (some (low ∷ (high ∷ [])) ∷ chunks) = ok (low + 256 * high, chunks)
read_port old (some (low ∷ (high ∷ more)) ∷ chunks) = ok (low + 256 * high, some more ∷ chunks)

-- The loop that asks the router for `left` ports; `none` is the early return.
unfoldable pub read_ports :
    (ℕ → ℤ) → ℕ → ℕ × ℕ → ℕ → List (Option Bytes) → Outcome (Option (List ℕ))
read_ports sends zero old i chunks = ok (some [])
read_ports sends (suc left) old i chunks =
    if is_negative (sends i)
    then ok none
    else (read_port old chunks >>= (λ p.
        read_ports sends left old (i + 1) p.1
        >>= (λ ports. ok (Option.map (λ (l : List ℕ). p.0 ∷ l) ports))))

-- The conversation with the server behind a port, as `request_hosts` sees it.
pub record Conversation : Type 0 where
  pub sends : ℕ → ℤ
  pub stack : ℕ × Bytes × ℕ
  pub chunks : List (Option Bytes)

-- The loop that looks for a server to take the translations from: `found`, and the state.
unfoldable pub find_hosts : (ℕ → Conversation) → List ℕ → Coms → Outcome (Bool × Coms)
find_hosts peers [] c = ok (false, c)
find_hosts peers (port ∷ rest) c =
    let peer = peers port in
    request_hosts peer.sends peer.stack c peer.chunks
    >>= (λ r. if r.0 == 0 then ok (true, r.1) else find_hosts peers rest r.1)

-- What `update_and_online` leaves: the code, the translations, and what it sent last to the router.
pub record Onlined : Type 0 where
  pub code : ℕ
  pub coms : Coms
  pub sent : List Bytes

unfoldable pub announce : Bytes → Bool × Coms → Onlined
announce address (true, c) = record { code = 0; coms = c; sent = address ∷ [] }
announce address (false, c) = record { code = 1; coms = c; sent = [] }

-- `update_and_online` of the server at `address`, on what the router sends. `old` is what its
-- variables hold at first.
unfoldable pub update_and_online :
    (ℕ → ℤ)
    → (ℕ → Conversation)
    → ℕ × (ℕ × ℕ)
    → Bytes
    → DnsServer
    → List (Option Bytes)
    → Outcome Onlined
update_and_online sends peers old address s chunks = do
  (port_cnt, chunks₁) ← recv_byte old.0 chunks
  ports ← read_ports sends port_cnt old.1 0 chunks₁
  elim ports [
    | none ↦ ok (record { code = 1; coms = s.coms; sent = [] })
    | some listed ↦ find_hosts peers listed s.coms >>= (λ r. ok (announce address r))
  ]
