-- ===== src/Lifetime/Ends/System.antt =====
-- create_generator and destroy_generator: what the system holds, and what it leaves.
use dns_server.Common.{◌+◌, ◌<◌, ◌≡◌, refl, sym, ap, ◌∙◌, List, [], ◌∷◌, ◌++◌, length, ok, arith}
use dns_server.CliParser.{Arguments}
use dns_server.Lifetime.{Resource, block, Held, malloc, release, pointed}
use dns_server.Lifetime.Objects.{
  GeneratorParts, create_router_parts, destroy_router, create_scoreboard_parts,
  destroy_scoreboard_parts,
}
use dns_server.Lifetime.Course.{create_generator_parts, destroy_servers, destroy_generator}
use dns_server.Lifetime.Ends.{
  servers_given, servers_left, router_given, router_left, scoreboard_given, scoreboard_left,
  generator_given, generator_left,
}
use dns_server.Lifetime.Ends.Objects.{
  create_router_parts-count, create_router_parts-no_array, create_scoreboard_parts-count,
  destroy_router-Holds, destroy_scoreboard_parts-Holds, destroy_servers-Holds,
  start_servers_parts-Holds,
}
use dns_server.Lifetime.Release.{one, count, count-append, Holds, release-Holds}

-- The parts of the system that `destroy_generator` takes one by one, as numbers of a thing.
pub generator_given-count :
    (x : Resource) (g : GeneratorParts)
    → count x (generator_given g)
      ≡ one x (block g.self)
        + count x (scoreboard_given g.scoreboard)
        + count x (router_given g.router)
        + count x (pointed g.router.servers)
        + count x (servers_given g.dns_servers)
generator_given-count x g =
    omega (arith, count-append x (pointed g.router.servers) (servers_given g.dns_servers))

pub generator_left-count :
    (x : Resource) (g : GeneratorParts)
    → count x (generator_left g)
      ≡ one x (block g.array)
        + count x (scoreboard_left g.scoreboard)
        + count x (router_left g.router)
        + count x (servers_left g.dns_servers)
generator_left-count x g = omega arith

-- All that a system holds, and the count of its servers.
pub record Owns (g : GeneratorParts) (rest : List Resource) (h : Held) : Type 0 where
  pub counted : length g.dns_servers ≡ g.dns_server_cnt
  pub held : Holds h (generator_given g) (generator_left g ++ rest)

pub create_generator_parts-Owns :
    (a : Arguments) (h : Held)
    → a.starting_server_cnt < 256
    → (g : GeneratorParts) × (h' : Held) × (create_generator_parts a h ≡ ok (g, h'))
      × (g.dns_server_cnt ≡ a.starting_server_cnt)
      × Owns g h.live h'
unfolding create_generator_parts
create_generator_parts-Owns a h small =
    let (self, h₁) = malloc h in
    let (scoreboard, h₂) = create_scoreboard_parts h₁ in
    let (router, h₃) = create_router_parts h₂ in
    let (array, h₄) = malloc h₃ in
    let (ip, h₅) = malloc h₄ in
    let others : List Resource =
      block ip
      ∷ block array
      ∷ block self
      ∷ (scoreboard_given scoreboard
          ++ (scoreboard_left scoreboard
              ++ (router_given router ++ (router_left router ++ h.live)))) in
    let (servers, q, h₆, started, long, held) =
      start_servers_parts-Holds a.starting_server_cnt 0 router others h₅ (omega arith) (λ x. omega (
        arith,
        create_scoreboard_parts-count h₁ x,
        create_router_parts-count h₂ x,
        create_router_parts-no_array h₂ x,
      )) in
    let g : GeneratorParts = record {
      self = self;
      scoreboard = scoreboard;
      router = record router { servers = q };
      array = array;
      dns_servers = servers;
      dns_server_cnt = a.starting_server_cnt;
    } in
    let (h₇, freed, held') =
      release-Holds (block ip) [] (generator_given g ++ (generator_left g ++ h.live)) h₆ (λ x.
        omega (
          arith,
          held x,
          generator_given-count x g,
          count-append x (generator_given g) (generator_left g ++ h.live),
          count-append x (generator_left g) h.live,
          count-append x (pointed q) (servers_given servers ++ servers_left servers),
          count-append x (servers_given servers) (servers_left servers),
        )) in
    (
      g,
      h₇,
      rw (started, freed),
      refl,
      record {
        counted = long;
        held = λ x.
            omega (arith, held' x, count-append x (generator_given g) (generator_left g ++ h.live));
      },
    )

destroy_generator-all :
    (g : GeneratorParts) (h h₁ h₂ h₃ h₄ : Held)
    → destroy_scoreboard_parts g.scoreboard h ≡ ok (0, h₁)
    → destroy_router g.router h₁ ≡ ok (0, h₂)
    → destroy_servers g.dns_server_cnt g.dns_servers h₂ ≡ ok (0, h₃)
    → release (block g.self) h₃ ≡ ok h₄
    → destroy_generator g h ≡ ok (0, h₄)
unfolding destroy_generator
destroy_generator-all g h h₁ h₂ h₃ h₄ first second third last = rw (first, second, third, last)

pub destroy_generator-Holds :
    (g : GeneratorParts) (rest : List Resource) (h : Held)
    → Owns g rest h
    → (h' : Held) × (destroy_generator g h ≡ ok (0, h')) × Holds h' (generator_left g) rest
destroy_generator-Holds g rest h v =
    let (h₁, first, held₁) =
      destroy_scoreboard_parts-Holds g.scoreboard
        (router_given g.router
          ++ (pointed g.router.servers ++ (servers_given g.dns_servers ++ (block g.self ∷ left))))
        h
        (λ x. omega (
          arith,
          v.held x,
          generator_given-count x g,
          count-append x (pointed g.router.servers)
              (servers_given g.dns_servers ++ (block g.self ∷ left)),
          count-append x (servers_given g.dns_servers) (block g.self ∷ left),
        )) in
    let (h₂, second, held₂) =
      destroy_router-Holds g.router (servers_given g.dns_servers ++ (block g.self ∷ left)) h₁
        (λ x. omega (arith, held₁ x)) in
    let (h₃, third, held₃) = destroy_servers-Holds g.dns_servers (block g.self ∷ left) h₂ (λ x.
      omega (arith, held₂ x, count-append x (servers_given g.dns_servers) (block g.self ∷ left))) in
    let (h₄, last, held₄) = release-Holds (block g.self) [] left h₃ (λ x. omega (arith, held₃ x)) in
    (
      h₄,
      destroy_generator-all g h h₁ h₂ h₃ h₄ first second
          (ap (λ n. destroy_servers n g.dns_servers h₂) (sym v.counted) ∙ third) last,
      λ x. omega (arith, held₄ x, count-append x (generator_left g) rest),
    )
  where
    left : List Resource
    left = generator_left g ++ rest
