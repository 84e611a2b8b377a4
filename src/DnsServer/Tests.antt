-- ===== src/DnsServer/Tests.antt =====
-- A server to run, and the theorems on `recieve_request` at concrete inputs.
use dns_server.Common.{ℕ, ◌+◌, ◌≡◌, pos, true, false, none, [], ◌∷◌, ◌++◌, Bytes, codes, ok, arith}
use dns_server.Coms.{translate_ip}
use dns_server.Coms.Tests.{office}
use dns_server.Dns.Craft.{wire}
use dns_server.Dns.Tests.{blank, packet_buffer}
use dns_server.DnsServer.{DnsServer, recieve_request}
use dns_server.DnsServer.Answer.{Reads, recieve_request-answers}

abbrev pub server : ℕ → DnsServer
server id = record {
  coms = office;
  socket = pos 4;
  tcp_socket = pos 5;
  scoreboard_ip = codes "10.0.0.1";
  scoreboard_port = 1050;
  router_ip = codes "10.0.0.1";
  router_port = 2055;
  id = id;
  port_num = 1053 + id;
  tcp_port_num = 1181 + id;
  ip = codes "10.0.0.1";
  pause = false;
}

abbrev mail : Bytes
mail = codes "mail"

recieve_request-answers_example :
    (payload : Bytes) × (recieve_request
        (server 1)
        blank
        packet_buffer
        (wire true 5 mail none 0 0 [] ++ codes "xyz")
        21
      ≡ ok (0, record { port = 1050; ip = codes "10.0.0.1"; payload = payload } ∷ []))
    × Reads 5 payload (translate_ip office mail)
recieve_request-answers_example =
    recieve_request-answers (server 1) blank packet_buffer 5 mail 0 0 (codes "xyz") (omega arith)
      (omega arith) (omega arith) (omega arith) (omega arith)
