-- ===== src/Generator/System/Tests.antt =====
-- A system of three servers, and two requests to it; and a whole test of it.
use dns_server.Common.{
  get_elem?, ℕ, ◌+◌, ◌≡◌, refl, ap, pos, true, false, All, none, some, List, [], ◌∷◌, ◌++◌, map,
  Bytes, codes, replicate, length, text_eq, if◌then◌else◌, ok, arith,
}
use dns_server.CliParser.{Arguments, defaults}
use dns_server.DnsServer.{DnsServer}
use dns_server.DnsServer.Online.{Host}
use dns_server.FileUtils.{parse_hosts_file, parse_lines, parse_line, lines_of, read_word}
use dns_server.Generator.Schedule.{ids, ascending, run_test-ids}
use dns_server.Generator.System.{Generator, Draw, main_domains, send_single_test, create_generator}
use dns_server.Generator.System.History.{
  Happening, asks, answers, asked, HasRoom, in_turn, run_history,
}
use dns_server.Coms.{translate_ip}
use dns_server.Dns.{Message, is_null}
use dns_server.Dns.Tests.{blank, packet_buffer}
use dns_server.DnsServer.Handler.{Handler, query_handler, waiting}
use dns_server.DnsServer.Tests.{server}
use dns_server.Generator.System.Course.{Occurrence, Assigned, run_course, run_course-results}
use dns_server.Generator.System.Life.{send_single_test-handle_response}
use dns_server.Scoreboard.Response.{handle_response}
use dns_server.Generator.System.Whole.{run_history-results}
use dns_server.Generator.System.Startup.{server_ids, server_ports, create_generator-IsReady}
use dns_server.Router.{round_robin}
use dns_server.Router.Remove.{IsReady}
use dns_server.Router.Tests.{three, three-IsReady, delivers}
use dns_server.Scoreboard.{Scoreboard, create_scoreboard, destroy_scoreboard}
use dns_server.Scoreboard.Order.{Request, logged_requests, fresh, log}
use dns_server.Server.{Packet}

abbrev pub hosts : Bytes
hosts = codes "mail 10.10.10.11"

abbrev pub machine : Host
machine = record {
  udp_socket = λ p. pos 4;
  tcp_socket = λ p. pos 5;
  ip = codes "10.0.0.1";
  files = λ name. if text_eq name (codes "hosts.txt") then some hosts else none;
}

create_generator-IsReady_example :
    (g : Generator ℕ) × (create_generator machine (pos 6) (pos 7) defaults ≡ ok g)
    × IsReady g.router
    × (g.router.servers ≡ g.dns_servers)
    × (g.router.mode ≡ round_robin)
    × (g.router.curr_server ≡ 0)
    × (server_ids g.dns_servers ≡ ascending 0 3)
    × (server_ports g.dns_servers ≡ ascending 1053 3)
    × (g.scoreboard ≡ create_scoreboard)
    × All (λ (s : DnsServer). s.pause ≡ false) g.dns_servers
    × (g.dns_server_cnt ≡ 3)
unfolding parse_hosts_file parse_lines parse_line lines_of read_word text_eq
create_generator-IsReady_example =
    create_generator-IsReady machine ((codes "mail", codes "10.10.10.11") ∷ []) (pos 6) (pos 7)
      defaults refl (omega arith)

abbrev idle : Generator ℕ
idle = record {
  router = three round_robin 2;
  scoreboard = create_scoreboard;
  dns_servers = (three round_robin 2).servers;
  dns_server_cnt = 3;
}

abbrev pub draw : ℕ → Draw ℕ
draw time = record { rand = 77; buffer = replicate 64 9; now = time; dns_id = 9 }

abbrev two_tests : List (ℕ × Draw ℕ)
two_tests = (0, draw 10) ∷ (1, draw 13) ∷ []

abbrev names : List Bytes
names = codes "mail" ∷ codes "new_domain" ∷ []

-- Translations change in the test: 2304 requests.
abbrev changing : Arguments
changing = record defaults { make_translation_changes = true }

-- Each request is answered at once.
abbrev answered_at_once : List ℕ → List (Happening ℕ)
answered_at_once [] = []
answered_at_once (id ∷ rest) = asks id (draw id) ∷ answers id 1 (id + 2) ∷ answered_at_once rest

asked-answered_at_once : (l : List ℕ) → asked (answered_at_once l) ≡ l
asked-answered_at_once [] = refl
asked-answered_at_once (id ∷ rest) = ap (◌∷◌ id) (asked-answered_at_once rest)

answered_at_once-HasRoom : (l : List ℕ) → All HasRoom (answered_at_once l)
answered_at_once-HasRoom [] = tt
answered_at_once-HasRoom (id ∷ rest) = (refl, (tt, answered_at_once-HasRoom rest))

run_history-results_example :
    (domains : List Bytes) × (g : Generator ℕ) × (sent : List Packet) × (g' : Generator ℕ)
    × (main_domains machine.files ≡ ok domains)
    × (create_generator machine (pos 6) (pos 7) changing ≡ ok g)
    × (run_history delivers 0 domains (answered_at_once (ids (run_test-ids changing).0)) g
        ≡ ok (sent, g'))
    × (logged_requests (destroy_scoreboard g'.scoreboard).1.results_file
        ≡ in_turn 3 0 (answered_at_once (ids (run_test-ids changing).0)))
    × (map
          (λ (r : Request ℕ). r.0)
          (logged_requests (destroy_scoreboard g'.scoreboard).1.results_file)
        ≡ ascending 0 2304)
unfolding parse_hosts_file parse_lines parse_line lines_of read_word text_eq
run_history-results_example =
    run_history-results delivers 0 machine ((codes "mail", codes "10.10.10.11") ∷ []) (pos 6)
      (pos 7) changing (run_test-ids changing).0 (answered_at_once (ids (run_test-ids changing).0))
      refl (omega arith) (omega arith, tt) (omega arith) (omega arith) refl refl
      (answered_at_once-HasRoom (ids (run_test-ids changing).0)) (run_test-ids changing).1
      (asked-answered_at_once (ids (run_test-ids changing).0))

-- A request to the last of the three servers, which knows the domain drawn or does not.
send_single_test-handle_response_example :
    (i : ℕ) × (domain : Bytes) × (query : Packet) × (g' : Generator ℕ) × (reply : Packet)
    × (h : Handler) × (board : Scoreboard ℕ) × (m : Message) × (get_elem? names i ≡ some domain)
    × (send_single_test delivers 0 names (draw 10) idle 5 ≡ ok (query ∷ [], g'))
    × (query.port ≡ 1055)
    × (query_handler 2
          (waiting (server 2) false blank packet_buffer (replicate 64 3) (query.payload ∷ []))
        ≡ ok (reply ∷ [], h))
    × (reply.port ≡ 1050)
    × (handle_response g'.scoreboard blank (reply.payload ++ codes "old") (length reply.payload) 12
        ≡ ok (board, m))
    × (log board
        ≡ record (fresh 0 5 2 0 10) {
          finish_time = 12;
          recieved = 1;
          found = if is_null (translate_ip (server 2).coms domain) then 0 else 1;
        }
          ∷ [])
unfolding create_scoreboard
send_single_test-handle_response_example =
    send_single_test-handle_response delivers 0 names (draw 10) idle 5 (server 2) blank blank
      packet_buffer (replicate 64 3) (codes "old") false 0 12 (three-IsReady round_robin 2)
      (omega arith) refl refl tt (omega arith) (omega arith) (omega arith) (omega arith)
      (omega arith) (omega arith) refl refl refl

-- A request, a round of probing that the second server does not answer, the answer to the request, a
-- server that joins, and a request.
abbrev eventful : List (Occurrence ℕ)
eventful =
    Occurrence.asks 5 (draw 10)
    ∷ Occurrence.probes (replicate 64 0) 9 (some 2 ∷ none ∷ some 0 ∷ [])
    ∷ Occurrence.answers 5 1 12
    ∷ Occurrence.joins (server 3)
    ∷ Occurrence.asks 6 (draw 14)
    ∷ []

run_course-results_example :
    (g' : Generator ℕ) × (run_course delivers 0 names eventful idle ≡ ok g')
    × Assigned idle.router.servers eventful
        (logged_requests (destroy_scoreboard g'.scoreboard).1.results_file)
run_course-results_example =
    run_course-results delivers 0 names (omega arith) (omega arith) (omega arith) eventful idle
      (three-IsReady round_robin 2) refl
      (
        omega arith,
        refl,
        (omega arith, omega arith, omega arith, (omega arith, (omega arith, refl, tt))),
      )
