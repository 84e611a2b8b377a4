-- ===== src/Router/Online/Tests.antt =====
-- Servers that come online, and connections that go wrong.
use dns_server.Common.{
  ℕ, ◌≡◌, refl, pos, negsuc, Option, some, [], ◌∷◌, Bytes, true, Outcome, ok, crash, blocked,
  running, if◌then◌else◌, ◌==◌, write_at,
}
use dns_server.Coms.Transfer.{Calls}
use dns_server.Coms.Transfer.Tests.{working, working-Works}
use dns_server.DnsServer.{DnsServer}
use dns_server.DnsServer.Tests.{server}
use dns_server.Router.{round_robin, remove_server}
use dns_server.Router.Online.{null_address, read_address, read_round, check_tcp_connections}
use dns_server.Router.Online.Stuck.{check_tcp_connections-closed}
use dns_server.Router.Tests.{three, three-IsReady}

-- The address of server 3.
abbrev pub somewhere : Bytes
somewhere = 1 ∷ 2 ∷ 3 ∷ 4 ∷ 5 ∷ 6 ∷ 7 ∷ 8 ∷ []

abbrev pub at_address : Bytes → DnsServer
at_address _ = server 3

-- An address in three pieces goes past the end of the variable.
abbrev pieces : ℕ → Outcome (Option Bytes)
pieces i =
    if i == 0
    then ok (some (1 ∷ 2 ∷ []))
    else (if i == 1 then ok (some (3 ∷ 4 ∷ [])) else ok (some (5 ∷ 6 ∷ 7 ∷ 8 ∷ [])))

three_pieces : read_address pieces 5 0 null_address 0 0 ≡ crash
unfolding read_address read_round write_at
three_pieces = refl

check_tcp_connections-closed_example :
    ((fuel : ℕ)
      → check_tcp_connections working (λ _. ok (some [])) fuel at_address (three round_robin 0)
        ≡ running)
    × ((dns_id : ℕ)
        → remove_server (record (three round_robin 0) { tcp_mutex = true }) dns_id ≡ blocked)
check_tcp_connections-closed_example =
    check_tcp_connections-closed working (λ _. ok (some [])) at_address (three round_robin 0)
      (three-IsReady round_robin 0) working-Works (λ k. refl)

-- A connection on which the first `send` fails.
abbrev refusing : Calls
refusing = record { sends = λ _. negsuc 0; recvs = λ _. pos 1 }
