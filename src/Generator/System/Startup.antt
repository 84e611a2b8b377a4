-- ===== src/Generator/System/Startup.antt =====
-- The state in which `create_generator` hands the system over.
use dns_server.Common.{
  All, ℕ, zero, suc, ◌+◌, ◌%◌, ◌<◌, ◌≡◌, refl, sym, ◌∙◌, ap, ℤ, true, false, List, [], ◌∷◌, ◌++◌,
  map, append_assoc, append-nil, codes, ok, arith,
}
use mathlib.Core.Path.{ap₂}
use dns_server.CliParser.{Arguments}
use dns_server.Coms.Create.{create_coms}
use dns_server.Coms.Table.{Translations, assign_all}
use dns_server.DnsServer.{DnsServer}
use dns_server.DnsServer.Online.{Host, create_dns_server}
use dns_server.FileUtils.{parse_hosts_file}
use dns_server.Generator.Schedule.{ascending}
use dns_server.Generator.System.{
  Generator, client_port, dns_port_num, start_servers, create_generator,
}
use dns_server.Router.{Router, round_robin, create_router}
use dns_server.Router.Remove.{IsReady, with_server, add_dns_server-with_server, with_server-IsReady}
use dns_server.Scoreboard.{create_scoreboard}

-- The server that is created with a count and a port, where the hosts file holds `t`.
abbrev made : Host → Translations → ℕ → ℕ → DnsServer
made host t server_count port = record {
  coms = record {
    server_cnt = 0;
    socket = host.tcp_socket ((port + 128) % 65536);
    id = server_count % 256;
    ip_hash = assign_all [] t;
    version_num = 0;
  };
  socket = host.udp_socket port;
  tcp_socket = host.tcp_socket ((port + 128) % 65536);
  scoreboard_ip = host.ip;
  scoreboard_port = client_port;
  router_ip = host.ip;
  router_port = 2055;
  id = server_count;
  port_num = port;
  tcp_port_num = (port + 128) % 65536;
  ip = host.ip;
  pause = false;
}

create_dns_server-made :
    (host : Host) (t : Translations) (server_count port : ℕ)
    → parse_hosts_file host.files (codes "hosts.txt") ≡ ok t
    → create_dns_server host server_count host.ip client_port port true
      ≡ ok (made host t server_count port, (server_count + 1) % 65536)
unfolding create_dns_server create_coms
create_dns_server-made host t server_count port e = rw (e, create_coms)

-- The numbers that tell a server from the others.
abbrev pub server_ids : List DnsServer → List ℕ
server_ids = map (λ (s : DnsServer). s.id)

abbrev pub server_ports : List DnsServer → List ℕ
server_ports = map (λ (s : DnsServer). s.port_num)

start_servers-IsReady :
    (host : Host) (t : Translations) (left i : ℕ) (r : Router)
    → parse_hosts_file host.files (codes "hosts.txt") ≡ ok t
    → IsReady r
    → left + i < 256
    → r.server_cnt ≡ i
    → (made_servers : List DnsServer) × (r' : Router) × (start_servers host left i i r
        ≡ ok (made_servers, left + i, r'))
      × (r'.servers ≡ r.servers ++ made_servers)
      × (r'.mode ≡ r.mode)
      × (r'.curr_server ≡ r.curr_server)
      × (server_ids made_servers ≡ ascending i left)
      × (server_ports made_servers ≡ ascending (dns_port_num + i) left)
      × All (λ (s : DnsServer). s.pause ≡ false) made_servers
      × IsReady r'
unfolding start_servers ascending
start_servers-IsReady host t zero i r e v small counted = (
  [],
  r,
  ap (λ n. ok ([], n, r)) (omega arith),
  sym (append-nil r.servers),
  refl,
  refl,
  refl,
  refl,
  tt,
  v,
)
start_servers-IsReady host t (suc left) i r e v small counted =
    let (rest, r', started, listed, mode, curr, ids, ports, running, v') =
      start_servers-IsReady host t left (i + 1) (with_server r new) e
        (with_server-IsReady r new v (omega arith)) (omega arith) (omega arith) in
    (
      new ∷ rest,
      r',
      rw
          (
            create_dns_server-made host t i ((dns_port_num + i) % 65536) e,
            add_dns_server-with_server r new v (omega arith),
            next_count,
            started,
          )
          (ap (λ n. ok (new ∷ rest, n, r')) (omega arith)),
      listed ∙ append_assoc r.servers (new ∷ []) rest,
      mode,
      curr,
      ap (◌∷◌ i) ids,
      ap₂ (◌∷◌) port (ports ∙ ap (λ n. ascending n left) (omega arith)),
      (refl, running),
      v',
    )
  where
    new : DnsServer
    new = made host t i ((dns_port_num + i) % 65536)

    next_count : (i + 1) % 65536 ≡ i + 1
    next_count = omega arith

    port : (dns_port_num + i) % 65536 ≡ dns_port_num + i
    port = omega arith

-- Where hosts.txt can be read and fewer than 256 servers are asked for, `create_generator` hands over
-- a ready router in round robin mode at its first server, that lists exactly the servers made: as many
-- as asked for, with the ids from 0 on and the ports from 1053 on, all different and none paused; the
-- count of the servers is that number, and the scoreboard is empty.
pub create_generator-IsReady :
    {Time : Type 0} (host : Host) (t : Translations) (socket tcp_socket : ℤ) (a : Arguments)
    → parse_hosts_file host.files (codes "hosts.txt") ≡ ok t
    → a.starting_server_cnt < 256
    → (g : Generator Time) × (create_generator host socket tcp_socket a ≡ ok g)
      × IsReady g.router
      × (g.router.servers ≡ g.dns_servers)
      × (g.router.mode ≡ round_robin)
      × (g.router.curr_server ≡ 0)
      × (server_ids g.dns_servers ≡ ascending 0 a.starting_server_cnt)
      × (server_ports g.dns_servers ≡ ascending 1053 a.starting_server_cnt)
      × (g.scoreboard ≡ create_scoreboard)
      × All (λ (s : DnsServer). s.pause ≡ false) g.dns_servers
      × (g.dns_server_cnt ≡ a.starting_server_cnt)
unfolding create_generator create_router
create_generator-IsReady host t socket tcp_socket a e small =
    let (servers, r, started, listed, mode, curr, ids, ports, running, v) =
      start_servers-IsReady host t a.starting_server_cnt 0
        (create_router round_robin false socket tcp_socket) e empty-IsReady (omega arith) refl in
    (
      record {
        router = r;
        scoreboard = create_scoreboard;
        dns_servers = servers;
        dns_server_cnt = a.starting_server_cnt;
      },
      rw started,
      v,
      listed,
      mode,
      curr,
      ids,
      ports,
      refl,
      running,
      refl,
    )
  where
    empty-IsReady : IsReady (create_router round_robin false socket tcp_socket)
    empty-IsReady = record {
      counted = refl;
      small = omega arith;
      unlocked = refl;
      tcp_unlocked = refl;
    }
