-- ===== src/Generator/System.antt =====
-- src/generator.c: the system under test, and one request of a test. Random numbers, the time, and what
-- the variables on the stack hold at first are arguments.
pub mod Startup
pub mod Request
pub mod Requests
pub mod Turn
pub mod History
pub mod Running
pub mod Whole
pub mod Life
pub mod Course
pub mod Disable
pub mod Tests
use dns_server.Common.{
  ℕ, zero, suc, ◌+◌, ◌%◌, ℤ, Bool, true, false, Option, none, some, List, [], ◌∷◌, ◌++◌, Bytes,
  codes, length, take, get_elem?, read_at, ◌==◌, if◌then◌else◌, Outcome, ok, crash, ◌>>=◌, or_crash,
}
use dns_server.CliParser.{Arguments}
use dns_server.Dns.{craft_message}
use dns_server.DnsServer.{DnsServer}
use dns_server.DnsServer.Online.{Host, create_dns_server}
use dns_server.FileUtils.{get_domains}
use dns_server.Router.{
  Router, RouterMode, round_robin, create_router, add_dns_server, forward_request,
}
use dns_server.Scoreboard.{Scoreboard, create_scoreboard, recieve_generated_req}
use dns_server.Server.{Packet}

-- CLIENT_PORT and DNS_PORT_NUM
abbrev pub client_port : ℕ
client_port = 1050

abbrev pub dns_port_num : ℕ
dns_port_num = 1053

-- `generator_t`, but for the arguments.
pub record Generator (Time : Type 0) : Type 0 where
  pub router : Router
  pub scoreboard : Scoreboard Time
  pub dns_servers : List DnsServer
  pub dns_server_cnt : ℕ

-- The loop of `create_generator` from index `i` on: the servers, `server_count`, and the router.
unfoldable pub start_servers : Host → ℕ → ℕ → ℕ → Router → Outcome (List DnsServer × ℕ × Router)
start_servers host zero i server_count r = ok ([], server_count, r)
start_servers host (suc left) i server_count r =
    create_dns_server host server_count host.ip client_port ((dns_port_num + i) % 65536) true
    >>= (λ c.
        add_dns_server r c.0
        >>= (λ a. start_servers host left (i + 1) c.1 a.1 >>= (λ s. ok (c.0 ∷ s.0, s.1, s.2))))

-- What a request of a test takes from outside: `rand`, the buffer's contents, the time, and what the
-- variable `dns_id` holds.
pub record Draw (Time : Type 0) : Type 0 where
  pub rand : ℕ
  pub buffer : Bytes
  pub now : Time
  pub dns_id : ℕ

abbrev pub or_else_stale : ℕ → Option ℕ → ℕ
or_else_stale stale none = stale
or_else_stale stale (some dns_id) = dns_id

-- The array that `main` puts together: the domains of the hosts file, cut down to `domain_cnt`, a
-- uint8_t, and one that misses. With 255 domains the count is 0, and -1 the index that is written.
unfoldable pub main_domains : (Bytes → Option Bytes) → Outcome (List Bytes)
unfolding get_domains
main_domains files = do
  (count, domains) ← get_domains files (codes "hosts.txt")
  if (count + 1) % 256 == 0 then crash else ok (take count domains ++ (codes "new_domain" ∷ []))

-- The choice of a domain: `domain_cnt` is a uint8_t, and a remainder by 0 is undefined.
unfoldable pub pick_domain : List Bytes → ℕ → Outcome Bytes
pick_domain domains rand =
    let domain_cnt = length domains % 256 in
    if domain_cnt == 0 then crash else or_crash (get_elem? domains (rand % 256 % domain_cnt))

module _ {Time : Type 0} where
  -- `create_generator`, with the sockets of the router. The first server that the process creates has
  -- `server_count` 0.
  unfoldable pub create_generator : Host → ℤ → ℤ → Arguments → Outcome (Generator Time)
  unfolding start_servers
  create_generator host socket tcp_socket arguments =
      start_servers host arguments.starting_server_cnt 0 0
        (create_router round_robin false socket tcp_socket)
      >>= (λ s. ok (record {
        router = s.2;
        scoreboard = create_scoreboard;
        dns_servers = s.0;
        dns_server_cnt = arguments.starting_server_cnt;
      }))

  -- `send_to_router`: what is sent, and the generator afterwards. The time is taken before the request
  -- is forwarded, and the code of `forward_request` is not looked at.
  unfoldable pub send_to_router :
      (Packet → ℤ)
      → Time
      → Draw Time
      → Generator Time
      → Bytes
      → ℕ
      → Outcome (List Packet × Generator Time)
  send_to_router sendto zero_time draw g message id = do
    (f, router) ← forward_request sendto g.router message
    let (code, scoreboard) =
        recieve_generated_req zero_time g.scoreboard id (or_else_stale draw.dns_id f.dns_id)
          f.rrl_removed draw.now
    ok (f.sent, record g { router = router; scoreboard = scoreboard })

  -- `send_single_test`
  unfoldable pub send_single_test :
      (Packet → ℤ)
      → Time
      → List Bytes
      → Draw Time
      → Generator Time
      → ℕ
      → Outcome (List Packet × Generator Time)
  unfolding pick_domain
  send_single_test sendto zero_time domains draw g id = do
    domain ← pick_domain domains draw.rand
    (message_len, buffer) ← or_crash (craft_message draw.buffer true id domain none)
    message ← or_crash (read_at buffer 0 message_len)
    send_to_router sendto zero_time draw g message id

  -- A run of requests, as the loops of `run_test` make them.
  unfoldable pub send_tests :
      (Packet → ℤ)
      → Time
      → List Bytes
      → List (ℕ × Draw Time)
      → Generator Time
      → Outcome (List Packet × Generator Time)
  send_tests sendto zero_time domains [] g = ok ([], g)
  send_tests sendto zero_time domains ((id, draw) ∷ rest) g =
      send_single_test sendto zero_time domains draw g id
      >>= (λ a. send_tests sendto zero_time domains rest a.1 >>= (λ b. ok (a.0 ++ b.0, b.1)))
