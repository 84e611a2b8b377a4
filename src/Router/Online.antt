-- ===== src/Router/Online.antt =====
-- src/router.c: `check_tcp_connections`, by which a server gets the list of ports and comes online.
-- The server sends the address of its dns_server_t, 8 bytes that mean the same server to the router:
-- all run in one process. `recv` gives, for each call, the bytes stored, `none` for -1, or `blocked`.
-- Nobody else changes the list during the call: `remove_server` takes `tcp_mutex` too.
pub mod Joining
pub mod Stuck
pub mod Tests
use dns_server.Common.{
  ℕ, zero, suc, ◌+◌, ◌*◌, ◌/◌, ◌%◌, is_negative, Bool, true, false, not, Option, none, some, List,
  [], ◌∷◌, Bytes, length, replicate, write_at, leb, ◌==◌, if◌then◌else◌, text_eq, Outcome, ok,
  running, ◌>>=◌, or_crash,
}
use dns_server.Coms.Transfer.{Calls}
use dns_server.DnsServer.{DnsServer}
use dns_server.Router.{Router, lock_tcp, first_slots, add_dns_server}

-- The two bytes of a uint16_t, the lower one first.
unfoldable pub port_bytes : ℕ → Bytes
port_bytes port = port % 256 ∷ (port / 256 % 256 ∷ [])

-- The loop that sends the ports: the code, 0 where it goes on, and the messages sent.
unfoldable pub send_ports : Calls → ℕ → List DnsServer → ℕ × List Bytes
send_ports calls i [] = (0, [])
send_ports calls i (s ∷ rest) =
    let (code, sent) = send_ports calls (i + 1) rest in
    if is_negative (calls.recvs i)
    then (1, [])
    else (if is_negative (calls.sends (i + 1))
        then (2, [])
        else (code, port_bytes s.tcp_port_num ∷ sent))

-- One round of the loop that reads the address: `result`, `size` (a uint8_t), and where `res` points
-- to in `result`. What is added to `res` is the new `size`.
unfoldable pub read_round : Option Bytes → Bytes → ℕ → ℕ → Outcome (Bytes × ℕ × ℕ)
read_round none result size at = ok (result, (size + 255) % 256, at + (size + 255) % 256)
read_round (some bs) result size at = do
  result' ← or_crash (write_at result at bs)
  let size' = (size + length bs) % 256
  ok (result', size', at + size')

-- The loop, from call `i` on. The first number is fuel.
unfoldable pub read_address : (ℕ → Outcome (Option Bytes)) → ℕ → ℕ → Bytes → ℕ → ℕ → Outcome Bytes
read_address recv zero i result size at = if leb 8 size then ok result else running
read_address recv (suc fuel) i result size at = elim (leb 8 size) [
  | true ↦ ok result
  | false ↦ recv i >>= (λ got.
      read_round got result size at >>= (λ s. read_address recv fuel (i + 1) s.0 s.1 s.2))
]

abbrev pub null_address : Bytes
null_address = replicate 8 0

-- The end of `check_tcp_connections`, on the address read.
unfoldable pub join : (Bytes → DnsServer) → Router → Bytes → Outcome Router
join deref r result =
    if text_eq result null_address
    then ok r
    else (add_dns_server r (deref result) >>= (λ a. ok a.1))

-- `check_tcp_connections`: the code, the messages sent, and the router. The early returns keep
-- `tcp_mutex`.
unfoldable pub check_tcp_connections :
    Calls
    → (ℕ → Outcome (Option Bytes))
    → ℕ
    → (Bytes → DnsServer)
    → Router
    → Outcome (ℕ × List Bytes × Router)
check_tcp_connections calls recv fuel deref r = do
  r₁ ← lock_tcp r
  listed ← first_slots r₁.server_cnt r₁.servers
  let (code, ports) = send_ports calls 0 listed
  if is_negative (calls.sends 0)
      then ok (1, [], r₁)
      else (if not (code == 0)
          then ok (code, (r₁.server_cnt ∷ []) ∷ ports, r₁)
          else (read_address recv fuel 0 null_address 0 0 >>= (λ result.
              join deref r₁ result
              >>= (λ r₂. ok (0, (r₁.server_cnt ∷ []) ∷ ports, record r₂ { tcp_mutex = false })))))
