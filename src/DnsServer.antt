-- ===== src/DnsServer.antt =====
-- src/dns_server.c and include/dns_server.h: the server object that the router, the generator and the
-- server's own code share, and what it does with a request. Threads and the pause of 10 ms are left
-- out. `strings` of C are byte lists; the uninitialised stack memory of a call is an argument.
pub mod Answer
pub mod Handler
pub mod Online
pub mod Tests
use dns_server.Common.{
  ℕ, zero, suc, ◌%◌, ◌^◌, ℤ, Bool, true, false, not, Option, none, some, List, [], ◌∷◌, Bytes,
  c_string, ◌==◌, if◌then◌else◌, read_at, Outcome, ok, crash, ◌>>=◌, or_crash,
}
use mathlib.Core.Option
use dns_server.Coms.{Coms, translate_ip}
use dns_server.Server.{Packet}
use dns_server.Dns.{Message, parse_message, craft_message}

-- `dns_server_t`, but for `response_thread`
pub record DnsServer : Type 0 where
  pub coms : Coms
  pub socket : ℤ
  pub tcp_socket : ℤ
  pub scoreboard_ip : Bytes
  pub scoreboard_port : ℕ
  pub router_ip : Bytes
  pub router_port : ℕ
  pub id : ℕ
  pub port_num : ℕ
  pub tcp_port_num : ℕ
  pub ip : Bytes
  pub pause : Bool

-- The id that marks a probe of the router: `1 << 15`
abbrev pub probe_id : ℕ
probe_id = 2 ^ 15

-- `recieve_request` behind its two early returns: what is sent for an accepted query. `buffer` is
-- the array on the stack in which the answer is crafted.
unfoldable pub respond : DnsServer → Bytes → Message → Outcome (ℕ × List Packet)
respond s buffer dns_query = do
  domain ← or_crash (c_string dns_query.question.domain)
  let result_ip = translate_ip s.coms domain
  if dns_query.header.id == probe_id
      then ok (0, record { port = s.router_port; ip = s.router_ip; payload = s.id % 256 ∷ [] } ∷ [])
      else (or_crash (craft_message buffer false dns_query.header.id domain result_ip)
          >>= (λ crafted. or_crash (read_at crafted.1 0 crafted.0) >>= (λ payload. ok (
            0,
            record { port = s.scoreboard_port; ip = s.scoreboard_ip; payload = payload } ∷ [],
          ))))

-- `recieve_request`: the code and the datagrams sent. `dns_query` is the stack's message before the
-- call; the results of `send_packet` are not looked at.
unfoldable pub recieve_request : DnsServer → Message → Bytes → Bytes → ℕ → Outcome (ℕ × List Packet)
recieve_request s dns_query buffer message message_bytes = do
  (code, target) ← or_crash (parse_message message (some dns_query) message_bytes)
  parsed ← or_crash target
  if not (code == 0)
      then ok (1, [])
      else (if parsed.header.qr == 1 then ok (2, []) else respond s buffer parsed)
