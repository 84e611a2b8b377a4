-- ===== src/Router/Tests.antt =====
-- Runs of the router, and its theorems at concrete inputs.
use dns_server.Common.{
  All, ◌==◌, ℕ, ◌+◌, ◌-◌, ◌≡◌, refl, ℤ, pos, true, false, none, some, List, [], ◌∷◌, map, length,
  get_elem?, Bytes, codes, replicate, ok, crash, blocked, arith,
}
use dns_server.DnsServer.{DnsServer}
use dns_server.DnsServer.Tests.{server}
use dns_server.Server.{Packet}
use dns_server.Router.{
  Router, RouterMode, overload, round_robin, add_dns_server, remove_loop, remove_server,
  forward_request, query_response_time,
}
use dns_server.Router.Remove.{IsReady, remove_server_lem, remove_server-missing_blocks}
use dns_server.Router.Balance.{packet_to, served_by, forward_request_lem, forward_request-empty}
use dns_server.Router.Spread.{forward_all, slot, GoesTo, forward_all-spread}
use dns_server.DnsServer.Handler.{Handler}
use dns_server.Dns.Tests.{blank, packet_buffer}
use dns_server.Router.Polling.{query_response_time-query_handler}
use dns_server.Router.Replies.{IsSettled, poll, thread_of, heard}
use dns_server.Router.Probe.{query_response_time-survivors}

abbrev pub three : RouterMode → ℕ → Router
three mode curr = record {
  mode = mode;
  rrl = false;
  servers = server 0 ∷ server 1 ∷ server 2 ∷ [];
  server_cnt = 3;
  curr_server = curr;
  socket = pos 6;
  tcp_socket = pos 7;
  tcp_mutex = false;
  mutex = false;
}

abbrev lone : RouterMode → Router
lone mode = record (three mode 0) { servers = []; server_cnt = 0 }

pub three-IsReady : (mode : RouterMode) (curr : ℕ) → IsReady (three mode curr)
three-IsReady mode curr = record {
  counted = refl;
  small = omega arith;
  unlocked = refl;
  tcp_unlocked = refl;
}

abbrev pub delivers : Packet → ℤ
delivers _ = pos 1

remove_runs :
    remove_server (three round_robin 2) 1
    ≡ ok (0, record (three round_robin 2) { servers = server 0 ∷ server 2 ∷ []; server_cnt = 2 })
unfolding remove_server remove_loop
remove_runs = refl

remove_server_lem_example :
    remove_server (three round_robin 0) 1
    ≡ ok
        (0, record (three round_robin 0) { servers = server 0 ∷ server 2 ∷ []; server_cnt = 3 - 1 })
remove_server_lem_example = remove_server_lem (three round_robin 0) 1 (three-IsReady round_robin 0)

remove_server-missing_blocks_example :
    ((dns : DnsServer)
      → add_dns_server (record (three round_robin 0) { mutex = true; tcp_mutex = true }) dns
        ≡ blocked)
    × ((other : ℕ)
        → remove_server (record (three round_robin 0) { mutex = true; tcp_mutex = true }) other
          ≡ blocked)
    × ((sendto : Packet → ℤ) (message : Bytes)
        → forward_request sendto
            (record (three round_robin 0) { mutex = true; tcp_mutex = true })
            message
          ≡ blocked)
remove_server-missing_blocks_example =
    remove_server-missing_blocks (three round_robin 0) 9 (three-IsReady round_robin 0) refl
      (remove_server_lem (three round_robin 0) 9 (three-IsReady round_robin 0))

abbrev crowded : Router
crowded = record (three round_robin 0) { servers = replicate 255 (server 0); server_cnt = 255 }

crowded-IsReady : IsReady crowded
crowded-IsReady = record {
  counted = refl;
  small = omega arith;
  unlocked = refl;
  tcp_unlocked = refl;
}

forward_request_lem_example :
    (i : ℕ) × (s : DnsServer) × (r' : Router) × (get_elem? (three overload 77).servers i ≡ some s)
    × (forward_request delivers (three overload 77) (codes "q")
        ≡ ok (served_by delivers (codes "q") s, r'))
    × (r'.servers ≡ (three overload 77).servers)
    × IsReady r'
forward_request_lem_example =
    forward_request_lem delivers (three overload 77) (codes "q") (three-IsReady overload 77)
      (omega arith)

forward_request-empty_example : forward_request delivers (lone overload) (codes "q") ≡ crash
forward_request-empty_example =
    forward_request-empty delivers (lone overload) (codes "q")
      (record { counted = refl; small = omega arith; unlocked = refl; tcp_unlocked = refl }) refl

abbrev questions : List Bytes
questions = codes "a" ∷ codes "b" ∷ codes "c" ∷ codes "d" ∷ codes "e" ∷ []

forward_all-spread_example :
    (sent : List Packet) × (r' : Router) × (forward_all delivers questions (three overload 1)
      ≡ ok (sent, r'))
    × (length sent ≡ 5)
    × GoesTo questions (three overload 1).servers (λ k. slot overload 3 (1 + k)) sent
forward_all-spread_example =
    forward_all-spread delivers questions (three overload 1) (three-IsReady overload 1)
      (omega arith) (omega arith)

query_response_time-survivors_example :
    (payload : Bytes) × (r' : Router) × (query_response_time
        (three round_robin 0)
        (replicate 64 0)
        (λ q. q)
        9
        (some 2 ∷ none ∷ some 0 ∷ [])
      ≡ ok (map (packet_to payload) (three round_robin 0).servers, 0, r'))
    × (r'.servers ≡ server 0 ∷ server 2 ∷ [])
    × IsReady r'
query_response_time-survivors_example =
    query_response_time-survivors (three round_robin 0) (replicate 64 0) 9
      (some 2 ∷ none ∷ some 0 ∷ []) (three-IsReady round_robin 0) (omega arith) (omega arith)
      (omega arith)

-- Three servers, of which the second is paused.
abbrev partly_paused : Router
partly_paused = record (three round_robin 0) {
  servers = server 0 ∷ record (server 1) { pause = true } ∷ server 2 ∷ [];
}

partly_paused-IsReady : IsReady partly_paused
partly_paused-IsReady = record {
  counted = refl;
  small = omega arith;
  unlocked = refl;
  tcp_unlocked = refl;
}

query_response_time-query_handler_example :
    (payload : Bytes) × (answers : List Packet) × (handlers : List Handler) × (r' : Router) × (poll
        2
        (map
          (thread_of
            (λ s. s.id == 0)
            (λ s. blank)
            (λ s. packet_buffer)
            (λ s. replicate 64 7)
            (λ s. refl)
            payload)
          partly_paused.servers)
      ≡ ok (answers, handlers))
    × All IsSettled handlers
    × (query_response_time partly_paused (replicate 64 9) (λ q. q) 0 (heard answers)
        ≡ ok (map (packet_to payload) partly_paused.servers, 0, r'))
    × (r'.servers ≡ server 0 ∷ server 2 ∷ [])
    × IsReady r'
query_response_time-query_handler_example =
    query_response_time-query_handler partly_paused (replicate 64 9) 0 0 (λ s. s.id == 0)
      (λ s. blank) (λ s. packet_buffer) (λ s. replicate 64 7) (λ s. refl) partly_paused-IsReady
      (omega arith) (omega arith) (omega arith)
