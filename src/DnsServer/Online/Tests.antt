-- ===== src/DnsServer/Online/Tests.antt =====
-- A server that joins three others, the first of which does not answer.
use dns_server.Common.{
  ℕ, ◌≡◌, refl, negsuc, some, List, [], ◌∷◌, ◌++◌, map, Bytes, replicate, text_eq, ok, ◌==◌,
  if◌then◌else◌, arith,
}
use dns_server.Coms.{translate_ip}
use dns_server.Coms.Tests.{office, office-DistinctKeys}
use dns_server.Coms.Transfer.{send_entire_file, process_next_request, request_hosts}
use dns_server.Coms.Transfer.Tests.{no_failure, working, working-Works, office-Fits}
use dns_server.DnsServer.Online.{Conversation, Onlined, update_and_online}
use dns_server.DnsServer.Online.Joined.{Refuses, Gives, update_and_online-check_tcp_connections}
use dns_server.DnsServer.Tests.{server}
use dns_server.Router.{Router, round_robin}
use dns_server.Router.Online.{check_tcp_connections}
use dns_server.Router.Online.Joining.{whole}
use dns_server.Router.Online.Tests.{somewhere, at_address}
use dns_server.Router.Remove.{IsReady}
use dns_server.Router.Tests.{three, three-IsReady}

-- Server 0 is down, and the others send their translations.
abbrev peers : ℕ → Conversation
peers port =
    if port == 1181
    then record { sends = λ _. negsuc 0; stack = (0, [], 0); chunks = [] }
    else record {
      sends = no_failure;
      stack = (0, replicate 128 9, 0);
      chunks = map some (send_entire_file working office).1;
    }

first-Refuses : Refuses (peers 1181)
unfolding request_hosts
first-Refuses = record {
  code = 1;
  left = λ c. record c { ip_hash = [] };
  code_ne_zero = refl;
  refused = λ c. refl;
}

second-Gives : Gives (peers 1182) (server 1)
unfolding process_next_request
second-Gives = record {
  calls = working;
  works = working-Works;
  asked = λ k. refl;
  served = record { coms = office; sent = (send_entire_file working office).1 };
  handled = refl;
  arrived = refl;
  few = omega arith;
  fits = office-Fits;
  distinct = office-DistinctKeys;
}

update_and_online-check_tcp_connections_example :
    (sent : List Bytes) × (r' : Router) × (o : Onlined) × (check_tcp_connections working
        (λ _. ok (some somewhere))
        2
        at_address
        (three round_robin 0)
      ≡ ok (0, sent, r'))
    × (update_and_online no_failure peers (0, (0, 0)) somewhere (server 3) (map some sent) ≡ ok o)
    × (o.code ≡ 0)
    × (o.sent ≡ somewhere ∷ [])
    × ((x : Bytes) → translate_ip o.coms x ≡ translate_ip office x)
    × (r'.servers ≡ (three round_robin 0).servers ++ (server 3 ∷ []))
    × IsReady r'
unfolding text_eq
update_and_online-check_tcp_connections_example =
    update_and_online-check_tcp_connections no_failure (λ k. refl) peers (0, (0, 0)) somewhere
      (server 3) (server 0 ∷ []) (server 2 ∷ []) (server 1) (first-Refuses, tt) second-Gives
      (three round_robin 0) working (λ _. ok (some somewhere)) 0 at_address
      (three-IsReady round_robin 0) (omega arith) refl (omega arith) working-Works refl refl
      (whole refl)
