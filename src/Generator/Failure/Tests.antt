-- ===== src/Generator/Failure/Tests.antt =====
-- A failing update among three servers.
use dns_server.Common.{
  ℕ, ◌≡◌, refl, pos, false, true, ◌&&◌, some, [], ◌∷◌, All, length, ◌==◌, replicate, ok, arith,
}
use dns_server.Coms.Cluster.{Network}
use dns_server.Coms.Tests.{office}
use dns_server.DnsServer.Tests.{server}
use dns_server.Generator.Failure.{Tried, add_hosts_fail_wrapper, choose, same_int}
use dns_server.Generator.Failure.Second.{Current}
use dns_server.Generator.Failure.Exact.{Stale, add_hosts_fail_wrapper-exact}

abbrev net : Network
net p = some office

-- The last server is left out.
choice_of_two : choose 6 3 ≡ pos 2
unfolding choose
choice_of_two = refl

net-Stale : (p : ℕ) → Stale net p
net-Stale p = (office, refl, omega arith)

add_hosts_fail_wrapper-exact_example :
    (t : Tried) × (add_hosts_fail_wrapper net
        (server 0 ∷ server 1 ∷ server 2 ∷ [])
        6
        (replicate 128 9)
        (λ p. false)
        (replicate 128 7)
        (λ p. false)
        (some (1181 ∷ 1182 ∷ 1183 ∷ []))
        (some (1182 ∷ 1183 ∷ []))
      ≡ ok t)
    × (t.fails ≡ ((length (server 2 ∷ []) == 0) && same_int (choose 6 3) (pos 1)))
    × (t.first ≡ record (server 0) { pause = true })
    × All (Current t.net) (1182 ∷ 1183 ∷ [])
add_hosts_fail_wrapper-exact_example =
    add_hosts_fail_wrapper-exact net (server 0) (server 1) (server 2 ∷ []) 6 (replicate 128 9)
      (replicate 128 7) (λ p. false) (λ p. false) (omega arith) refl refl (λ p. refl) (λ p. refl)
      (omega arith) (net-Stale 1181, (net-Stale 1182, (net-Stale 1183, tt)))
