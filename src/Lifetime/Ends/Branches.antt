-- ===== src/Lifetime/Ends/Branches.antt =====
-- The part of run_test that adds a server: what it leaves of the system and what it loses.
use dns_server.Common.{
  ℕ, ◌+◌, ◌%◌, ◌<◌, ◌≡◌, false, List, [], ◌∷◌, ◌++◌, length-append, ◌==◌, ok, arith,
}
use dns_server.Lifetime.{Resource, block, Held, malloc}
use dns_server.Lifetime.Objects.{ServerParts, GeneratorParts, create_dns_server_parts}
use dns_server.Lifetime.Course.{add_midway_parts}
use dns_server.Lifetime.Ends.{
  server_given, server_left, servers_given, servers_left, router_left, scoreboard_left,
  generator_given, generator_left,
}
use dns_server.Lifetime.Ends.Objects.{create_dns_server_parts-count}
use dns_server.Lifetime.Release.{count, count-append, release-Holds}
use dns_server.Lifetime.Ends.System.{Owns, generator_given-count, generator_left-count}

servers_given-append :
    (x : Resource) (l : List ServerParts) (s : ServerParts)
    → count x (servers_given (l ++ (s ∷ []))) ≡ count x (servers_given l) + count x (server_given s)
servers_given-append x [] s = omega arith
servers_given-append x (s' ∷ l) s = omega (arith, servers_given-append x l s)

servers_left-append :
    (x : Resource) (l : List ServerParts) (s : ServerParts)
    → count x (servers_left (l ++ (s ∷ []))) ≡ count x (servers_left l) + count x (server_left s)
servers_left-append x [] s = omega arith
servers_left-append x (s' ∷ l) s = omega (arith, servers_left-append x l s)

-- The new server belongs to the system; the block of the thread's handle does not.
pub add_midway_parts-Owns :
    (g : GeneratorParts) (rest : List Resource) (h : Held)
    → g.dns_server_cnt < 255
    → Owns g rest h
    → (handle : ℕ) × (g' : GeneratorParts) × (h' : Held) × (add_midway_parts g h ≡ ok (g', h'))
      × (g'.dns_server_cnt ≡ g.dns_server_cnt + 1)
      × Owns g' (block handle ∷ rest) h'
unfolding add_midway_parts
add_midway_parts-Owns g rest h small v =
    let (handle, h₁) = malloc h in
    let others : List Resource =
      block handle
      ∷ (generator_given g
          ++ (scoreboard_left g.scoreboard
              ++ (router_left g.router ++ (servers_left g.dns_servers ++ rest)))) in
    let (h₂, freed, held) = release-Holds (block g.array) [] others h₁ (λ x. omega (
      arith,
      v.held x,
      count-append x (servers_left g.dns_servers) rest,
      count-append x (generator_given g) (
          scoreboard_left g.scoreboard
          ++ (router_left g.router ++ (servers_left g.dns_servers ++ rest))),
    )) in
    let (array, h₃) = malloc h₂ in
    let (ip, h₄) = malloc h₃ in
    let (s, h₅) = create_dns_server_parts ip h₄ in
    let g' : GeneratorParts = record g {
      array = array;
      dns_servers = g.dns_servers ++ (s ∷ []);
      dns_server_cnt = (g.dns_server_cnt + 1) % 256;
    } in
    (
      handle,
      g',
      h₅,
      rw (no_wrap, freed),
      omega arith,
      record {
        counted = omega (arith, v.counted, length-append g.dns_servers (s ∷ []));
        held = λ x. omega (
          arith,
          held x,
          create_dns_server_parts-count ip h₄ x,
          generator_given-count x g,
          generator_given-count x g',
          generator_left-count x g',
          servers_given-append x g.dns_servers s,
          servers_left-append x g.dns_servers s,
          count-append x (generator_left g') (block handle ∷ rest),
          count-append x (servers_left g.dns_servers) rest,
          count-append x (generator_given g) (
              scoreboard_left g.scoreboard
              ++ (router_left g.router ++ (servers_left g.dns_servers ++ rest))),
        );
      },
    )
  where
    no_wrap : ((g.dns_server_cnt + 1) % 256 == 0) ≡ false
    no_wrap = ground arith
