-- ===== src/Lifetime/Tests.antt =====
-- A system of three servers to which one is added, and whose router loses one meanwhile.
use dns_server.Common.{ℕ, ◌≡◌, refl, List, [], ◌∷◌, ◌++◌, length, Outcome, ok, ◌>>=◌, arith}
use dns_server.CliParser.{defaults}
use dns_server.Lifetime.{Resource, Held, block, release, release_all, take_out, same, realloc}
use dns_server.Lifetime.Objects.{
  GeneratorParts, create_dns_server_parts, create_coms_parts, create_router_parts,
  create_scoreboard_parts, destroy_dns_server, destroy_router, destroy_scoreboard_parts,
  resize_servers,
}
use dns_server.Lifetime.Course.{
  start_servers_parts, create_generator_parts, destroy_servers, destroy_generator, add_midway_parts,
  Change, resizes, grows, takes, run_changes,
}
use dns_server.Lifetime.Ends.{generator_left}
use dns_server.Lifetime.Ends.Whole.{destroy_generator-create_generator_parts}
use dns_server.Lifetime.Release.{Holds}

abbrev nothing : Held
nothing = record { next = 0; live = [] }

-- The router loses a server, the test adds one, and a query's domain is never given back.
abbrev meanwhile : List Change
meanwhile = resizes 2 ∷ grows ∷ takes block ∷ resizes 3 ∷ []

-- Of the 75 things that are taken, 24 are still held.
abbrev still_held : Outcome (ℕ × Held) → Outcome (ℕ × ℕ)
still_held r = r >>= (λ e. ok (length e.1.live, e.1.next))

abbrev created_and_destroyed : Outcome (ℕ × Held)
created_and_destroyed = do
  g ← create_generator_parts defaults nothing
  e ← run_changes meanwhile g.0 g.1
  destroy_generator e.0 e.1

run_growing : still_held created_and_destroyed ≡ ok (24, 75)
unfolding create_generator_parts create_scoreboard_parts create_router_parts start_servers_parts
    create_dns_server_parts create_coms_parts resize_servers run_changes realloc release release_all
    take_out same add_midway_parts destroy_generator destroy_servers destroy_dns_server
    destroy_router destroy_scoreboard_parts
run_growing = refl

destroy_generator-create_generator_parts_example :
    (g : GeneratorParts) × (h₁ : Held) × (g' : GeneratorParts) × (h₂ : Held) × (lost : List
      Resource)
    × (h' : Held) × (create_generator_parts defaults nothing ≡ ok (g, h₁))
    × (run_changes meanwhile g h₁ ≡ ok (g', h₂))
    × (destroy_generator g' h₂ ≡ ok (0, h'))
    × (length g'.dns_servers ≡ 4)
    × (length lost ≡ 2)
    × Holds h' (generator_left g' ++ lost) []
destroy_generator-create_generator_parts_example =
    destroy_generator-create_generator_parts defaults meanwhile nothing (omega arith)
