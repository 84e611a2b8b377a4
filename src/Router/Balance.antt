-- ===== src/Router/Balance.antt =====
-- `forward_request`: it stays inside the server list, and how it spreads the requests in each mode.
use dns_server.Common.{
  ℕ, ◌+◌, ◌*◌, ◌%◌, ◌<◌, ◌≡◌, refl, ℤ, false, some, [], ◌∷◌, length, get_elem?, get_elem?-some, leb,
  ◌==◌, if◌then◌else◌, Bytes, ok, crash, arith,
}
use dns_server.DnsServer.{DnsServer}
use dns_server.Server.{Packet, send_packet}
use dns_server.Router.{
  Router, RouterMode, overload, round_robin, Forwarded, choose_server, forward_to, forward_request,
}
use dns_server.Router.Remove.{IsReady}

-- The datagram that carries a message to a server.
abbrev pub packet_to : Bytes → DnsServer → Packet
packet_to message s = record { port = s.port_num; ip = s.ip; payload = message }

-- What the caller of `forward_request` gets when the request goes to `s`.
abbrev pub served_by : (Packet → ℤ) → Bytes → DnsServer → Forwarded
served_by sendto message s = record {
  code = send_packet sendto (packet_to message s);
  dns_id = some (s.id % 256);
  rrl_removed = 0;
  sent = packet_to message s ∷ [];
}

-- The index chosen and the next `curr_server`, where there is a server.
abbrev pub chosen : RouterMode → ℕ → ℕ → ℕ
chosen round_robin curr cnt = curr % cnt
chosen overload curr cnt = if leb cnt curr then 0 else curr

abbrev pub next : RouterMode → ℕ → ℕ → ℕ
next round_robin curr cnt = (1 + curr) % cnt
next overload curr cnt = if leb cnt curr then (1 + curr) % (cnt * 2) % 256 else (curr + 1) % 256

choose_server_lem :
    (mode : RouterMode) (curr cnt : ℕ)
    → 0 < cnt
    → choose_server mode curr cnt ≡ ok (chosen mode curr cnt, next mode curr cnt)
unfolding choose_server
choose_server_lem round_robin curr cnt h = ground arith
choose_server_lem overload curr cnt h = ground arith

pub chosen-lt : (mode : RouterMode) (curr cnt : ℕ) → 0 < cnt → chosen mode curr cnt < cnt
chosen-lt round_robin curr cnt h = omega arith
chosen-lt overload curr cnt h = ground arith

-- One request, given the server in the chosen slot.
pub forward_request-served :
    (sendto : Packet → ℤ) (r : Router) (message : Bytes) {s : DnsServer}
    → IsReady r
    → 0 < r.server_cnt
    → get_elem? r.servers (chosen r.mode r.curr_server r.server_cnt) ≡ some s
    → forward_request sendto r message
      ≡ ok (
        served_by sendto message s,
        record r { curr_server = next r.mode r.curr_server r.server_cnt; mutex = false },
      )
unfolding forward_request forward_to
forward_request-served sendto r message v h e =
    rw (v.unlocked, choose_server_lem r.mode r.curr_server r.server_cnt h, not_zero, e)
      (ground arith)
  where
    not_zero : (r.server_cnt == 0) ≡ false
    not_zero = ground arith

-- With a server at hand `forward_request` on a ready router, whatever `curr_server` is, sends the
-- message in one datagram to one of the listed servers, reports that server's id modulo 256, leaves
-- the list alone and is ready again: it neither reads past the list nor blocks.
pub forward_request_lem :
    (sendto : Packet → ℤ) (r : Router) (message : Bytes)
    → IsReady r
    → 0 < r.server_cnt
    → (i : ℕ) × (s : DnsServer) × (r' : Router) × (get_elem? r.servers i ≡ some s)
      × (forward_request sendto r message ≡ ok (served_by sendto message s, r'))
      × (r'.servers ≡ r.servers)
      × IsReady r'
forward_request_lem sendto r message v h =
    let i : ℕ = chosen r.mode r.curr_server r.server_cnt in
    let below : i < length r.servers =
      omega (arith, chosen-lt r.mode r.curr_server r.server_cnt h, v.counted) in
    let (s, e) = get_elem?-some r.servers i below in
    (
      i,
      s,
      record r { curr_server = next r.mode r.curr_server r.server_cnt; mutex = false },
      e,
      forward_request-served sendto r message v h e,
      refl,
      record {
        counted = v.counted;
        small = v.small;
        unlocked = refl;
        tcp_unlocked = v.tcp_unlocked;
      },
    )

-- With no server the remainder by `server_cnt` comes before the test for 0: in both modes the
-- request crashes the router instead of returning 1.
pub forward_request-empty :
    (sendto : Packet → ℤ) (r : Router) (message : Bytes)
    → IsReady r
    → r.server_cnt ≡ 0
    → forward_request sendto r message ≡ crash
unfolding forward_request choose_server
forward_request-empty sendto r message v h = go r.mode refl
  where
    go : (mode : RouterMode) → r.mode ≡ mode → forward_request sendto r message ≡ crash
    go round_robin e = ground arith
    go overload e = ground arith
