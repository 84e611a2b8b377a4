-- ===== src/Router.antt =====
-- src/router.c and include/router.h. `servers` is the heap block that the pointer leads to, each
-- entry the dns_server_t behind its pointer: the router reads only fields that never change after
-- `create_dns_server`. A mutex is the test whether it is held; locking a held one blocks for good,
-- as each function is run by itself here. The thread handles and `query_counter` are left out.
pub mod Search
pub mod Remove
pub mod Balance
pub mod Spread
pub mod Survivors
pub mod Probe
pub mod Replies
pub mod Heard
pub mod Polling
pub mod Online
pub mod Threads
pub mod Exclusive
pub mod Locks
pub mod Tests
use dns_server.Common.{
  ℕ, zero, suc, ◌+◌, ◌-◌, ◌*◌, ◌%◌, ◌^◌, ℤ, is_negative, Bool, true, false, Option, none, some,
  List, [], ◌∷◌, ◌++◌, Bytes, codes, take, map, set, get_elem?, ltb, leb, ◌==◌, if◌then◌else◌,
  Outcome, ok, crash, blocked, running, ◌>>=◌, or_crash, read_at,
}
use dns_server.DnsServer.{DnsServer}
use dns_server.Server.{Packet, send_packet}
use dns_server.Dns.{craft_message}

-- `router_mode_t`
pub data RouterMode : Type 0 where
  overload round_robin : RouterMode

-- `router_t`; `rrl` tells whether the pointer is set.
pub record Router : Type 0 where
  pub mode : RouterMode
  pub rrl : Bool
  pub servers : List DnsServer
  pub server_cnt : ℕ
  pub curr_server : ℕ
  pub socket : ℤ
  pub tcp_socket : ℤ
  pub tcp_mutex : Bool
  pub mutex : Bool

-- The value of `create_router`, with the sockets that `setup_server` returned.
unfoldable pub create_router : RouterMode → Bool → ℤ → ℤ → Router
create_router mode rrl socket tcp_socket = record {
  mode = mode;
  rrl = rrl;
  servers = [];
  server_cnt = 0;
  curr_server = 0;
  socket = socket;
  tcp_socket = tcp_socket;
  tcp_mutex = false;
  mutex = false;
}

-- `pthread_mutex_lock` on each of the two
abbrev pub lock : Router → Outcome Router
lock r = if r.mutex then blocked else ok (record r { mutex = true })

abbrev pub lock_tcp : Router → Outcome Router
lock_tcp r = if r.tcp_mutex then blocked else ok (record r { tcp_mutex = true })

-- `add_dns_server`: the block grows to the new count, and its last slot takes the server. A count
-- that wraps to 0 makes that a write in front of the block.
unfoldable pub add_dns_server : Router → DnsServer → Outcome (ℕ × Router)
add_dns_server r dns = do
  r₁ ← lock r
  let server_cnt = (r₁.server_cnt + 1) % 256
  if server_cnt == 0
      then crash
      else ok (
        0,
        record r₁ {
          servers = take (server_cnt - 1) r₁.servers ++ (dns ∷ []);
          server_cnt = server_cnt;
          mutex = false;
        },
      )

-- The loop of `remove_server` from index `i` on: the block, `server_cnt` and `deleted` at its end.
-- Where the id is found, `--i` and the loop's `++i` cancel out. The first number is fuel.
unfoldable pub remove_loop :
    ℕ → ℕ → ℕ → List DnsServer → ℕ → Bool → Outcome (List DnsServer × ℕ × Bool)
remove_loop zero dns_id i servers server_cnt deleted =
    if ltb i server_cnt then running else ok (servers, server_cnt, deleted)
remove_loop (suc fuel) dns_id i servers server_cnt true = elim (ltb i server_cnt) [
  | false ↦ ok (servers, server_cnt, true)
  | true ↦ elim (get_elem? servers (i + 1)) [
    | none ↦ crash
    | some s ↦ remove_loop fuel dns_id (i + 1) (set servers i s) server_cnt true
  ]
]
remove_loop (suc fuel) dns_id i servers server_cnt false = elim (ltb i server_cnt) [
  | false ↦ ok (servers, server_cnt, false)
  | true ↦ elim (get_elem? servers i) [
    | none ↦ crash
    | some s ↦ elim (s.id == dns_id) [
      | true ↦ remove_loop fuel dns_id i servers (server_cnt - 1) true
      | false ↦ remove_loop fuel dns_id (i + 1) servers server_cnt false
    ]
  ]
]

-- `remove_server`. Where no server has the id it returns 1 with both locks held.
unfoldable pub remove_server : Router → ℕ → Outcome (ℕ × Router)
remove_server r dns_id = do
  r₁ ← lock r
  r₂ ← lock_tcp r₁
  (servers, server_cnt, deleted) ← remove_loop r₂.server_cnt dns_id 0 r₂.servers r₂.server_cnt false
  let r₃ = record r₂ { servers = servers; server_cnt = server_cnt }
  if deleted
      then ok (0, record r₃ { servers = take server_cnt servers; mutex = false; tcp_mutex = false })
      else ok (1, r₃)

-- The choice that `forward_request` makes: the index, and the next `curr_server`. A remainder by 0
-- is undefined.
unfoldable pub choose_server : RouterMode → ℕ → ℕ → Outcome (ℕ × ℕ)
choose_server round_robin curr_server server_cnt =
    if server_cnt == 0 then crash else ok (curr_server % server_cnt, (1 + curr_server) % server_cnt)
choose_server overload curr_server server_cnt =
    if leb server_cnt curr_server
    then (if server_cnt == 0 then crash else ok (0, (1 + curr_server) % (server_cnt * 2) % 256))
    else ok (curr_server, (curr_server + 1) % 256)

-- What `forward_request` gives back. `dns_id` is `none` where it is left as it was.
pub record Forwarded : Type 0 where
  pub code : ℕ
  pub dns_id : Option ℕ
  pub rrl_removed : ℕ
  pub sent : List Packet

-- `rrl_removed` as `forward_request` sets it
pub rrl_decision : Router → ℕ
rrl_decision r = if r.rrl then 0 else 0

-- The end of `forward_request`, with the slot of the chosen server.
pub forward_to : (Packet → ℤ) → Router → Bytes → Option DnsServer → Outcome (Forwarded × Router)
forward_to sendto r message none = crash
forward_to sendto r message (some s) =
    let packet : Packet = record { port = s.port_num; ip = s.ip; payload = message } in
    ok (
      record {
        code = send_packet sendto packet;
        dns_id = some (s.id % 256);
        rrl_removed = rrl_decision r;
        sent = packet ∷ [];
      },
      record r { mutex = false },
    )

-- `forward_request`. With no server it returns with
-- the lock held.
unfoldable pub forward_request : (Packet → ℤ) → Router → Bytes → Outcome (Forwarded × Router)
unfolding forward_to rrl_decision
forward_request sendto r message = do
  r₁ ← lock r
  (chosen_server, curr_server) ← choose_server r₁.mode r₁.curr_server r₁.server_cnt
  let r₂ = record r₁ { curr_server = curr_server }
  if r₂.server_cnt == 0
      then ok (record { code = 1; dns_id = none; rrl_removed = rrl_decision r; sent = [] }, r₂)
      else forward_to sendto r₂ message (get_elem? r₂.servers chosen_server)

-- The entries that a loop over `i < server_cnt` reads; a slot past the block is a crash.
unfoldable pub first_slots : ℕ → List DnsServer → Outcome (List DnsServer)
first_slots zero servers = ok []
first_slots (suc n) [] = crash
first_slots (suc n) (s ∷ rest) = do slots ← first_slots n rest; ok (s ∷ slots)

-- The probe that `query_response_time` crafts in a buffer with the contents given, and sends to each
-- server; the results of `send_packet` are not looked at.
unfoldable pub probe_message : Bytes → Outcome Bytes
probe_message buffer = do
  (message_bytes, message) ← or_crash (craft_message buffer true (2 ^ 15) (codes "") none)
  bytes ← or_crash (read_at message 0 message_bytes)
  ok bytes

unfoldable pub probes : Bytes → List DnsServer → Outcome (List Packet)
probes buffer [] = ok []
probes buffer (s ∷ rest) = do
  payload ← probe_message buffer
  sent ← probes buffer rest
  ok (record { port = s.port_num; ip = s.ip; payload = payload } ∷ sent)

-- One id leaves `offline`: the first entry that equals the byte received. The list is the part of
-- the array below `cnt`.
unfoldable pub strike : ℕ → List ℕ → List ℕ
strike byte [] = []
strike byte (id ∷ rest) = if byte == id then rest else id ∷ strike byte rest

-- The loop over the datagrams that had come in by the end of the wait, the last `recvfrom` being the
-- one that fails. An empty datagram leaves `*buffer` as it was.
unfoldable pub hear : ℕ → List (Option ℕ) → List ℕ → List ℕ
hear byte [] offline = offline
hear byte (none ∷ replies) offline = hear byte replies (strike byte offline)
hear byte (some byte' ∷ replies) offline = hear byte' replies (strike byte' offline)

-- The last loop: the results of `remove_server` are not looked at.
unfoldable pub remove_all : Router → List ℕ → Outcome Router
remove_all r [] = ok r
remove_all r (id ∷ rest) = do (_, r') ← remove_server r id; remove_all r' rest

-- `query_response_time`: the probes sent, the code and the router afterwards. `meanwhile` is what the
-- other threads make of the router during the wait; `byte` is what `buffer[1]` holds at first.
unfoldable pub query_response_time :
    Router → Bytes → (Router → Router) → ℕ → List (Option ℕ) → Outcome (List Packet × ℕ × Router)
query_response_time r packet_buffer meanwhile byte replies = do
  let starting_cnt = r.server_cnt
  probed ← first_slots r.server_cnt r.servers
  sent ← probes packet_buffer probed
  let r₁ = meanwhile r
  listed ← first_slots r₁.server_cnt r₁.servers
  let offline = map (λ (s : DnsServer). s.id % 256) listed
  let silent = hear byte replies offline
  if starting_cnt == r₁.server_cnt
      then (remove_all r₁ silent >>= (λ r₂. ok (sent, 0, r₂)))
      else ok (sent, 1, r₁)
