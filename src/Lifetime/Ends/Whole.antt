-- ===== src/Lifetime/Ends/Whole.antt =====
-- create_generator and destroy_generator: what is still held after them, whatever happens between.
use dns_server.Common.{ℕ, ◌+◌, ◌<◌, ◌≡◌, refl, Option, List, [], ◌∷◌, ◌++◌, length, ok, arith}
use dns_server.CliParser.{Arguments}
use dns_server.Lifetime.{Resource, block, Held, acquire}
use dns_server.Lifetime.Objects.{GeneratorParts, resize_servers}
use dns_server.Lifetime.Course.{
  Change, resizes, grows, takes, grown, kept, create_generator_parts, destroy_generator,
  run_changes,
}
use dns_server.Lifetime.Ends.{
  servers_given, router_given, scoreboard_given, generator_given, generator_left,
}
use dns_server.Lifetime.Ends.Objects.{resize_servers-Holds}
use dns_server.Lifetime.Release.{count-append, Holds}
use dns_server.Lifetime.Ends.System.{
  Owns, generator_given-count, create_generator_parts-Owns, destroy_generator-Holds,
}
use dns_server.Lifetime.Ends.Branches.{add_midway_parts-Owns}

-- A thread of the router that adds or removes a server changes the router's array only.
resize_servers-Owns :
    (server_cnt : ℕ) (g : GeneratorParts) (rest : List Resource) (h : Held)
    → Owns g rest h
    → (q : Option ℕ) × (h' : Held) × (resize_servers g.router server_cnt h
        ≡ ok (record g.router { servers = q }, h'))
      × Owns (record g { router = record g.router { servers = q } }) rest h'
resize_servers-Owns server_cnt g rest h v =
    let others : List Resource =
      block g.self
      ∷ (scoreboard_given g.scoreboard
          ++ (router_given g.router
              ++ (servers_given g.dns_servers ++ (generator_left g ++ rest)))) in
    let (q, h', moved, held) = resize_servers-Holds g.router server_cnt others h (λ x. omega (
      arith,
      v.held x,
      generator_given-count x g,
      count-append x (servers_given g.dns_servers) (generator_left g ++ rest),
    )) in
    let g' : GeneratorParts = record g { router = record g.router { servers = q } } in
    (
      q,
      h',
      moved,
      record {
        counted = v.counted;
        held = λ x. omega (
          arith,
          held x,
          generator_given-count x g',
          count-append x (servers_given g.dns_servers) (generator_left g ++ rest),
        );
      },
    )

takes-Owns :
    (kind : ℕ → Resource) (g : GeneratorParts) (rest : List Resource) (h : Held)
    → Owns g rest h
    → Owns g (kind h.next ∷ rest) (acquire kind h).1
takes-Owns kind g rest h v = record {
  counted = v.counted;
  held = λ x. omega (
    arith,
    v.held x,
    count-append x (generator_given g) (generator_left g ++ rest),
    count-append x (generator_left g) rest,
    count-append x (generator_left g) (kind h.next ∷ rest),
  );
}

-- Where a thing stands in what is held beside the system does not matter.
Owns-moved :
    (r : Resource) (lost rest : List Resource) (g : GeneratorParts) (h : Held)
    → Owns g (lost ++ (r ∷ rest)) h
    → Owns g ((r ∷ lost) ++ rest) h
Owns-moved r lost rest g h v = record {
  counted = v.counted;
  held = λ x. omega (
    arith,
    v.held x,
    count-append x (generator_left g) (lost ++ (r ∷ rest)),
    count-append x (generator_left g) ((r ∷ lost) ++ rest),
    count-append x lost (r ∷ rest),
    count-append x lost rest,
  );
}

-- The things that are taken and kept stand beside the system.
run_changes-Owns :
    (changes : List Change) (g : GeneratorParts) (rest : List Resource) (h : Held)
    → g.dns_server_cnt + grown changes < 256
    → Owns g rest h
    → (lost : List Resource) × (g' : GeneratorParts) × (h' : Held) × (run_changes changes g h
        ≡ ok (g', h'))
      × (length lost ≡ kept changes)
      × (g'.dns_server_cnt ≡ g.dns_server_cnt + grown changes)
      × Owns g' (lost ++ rest) h'
unfolding run_changes
run_changes-Owns [] g rest h small v = ([], g, h, refl, refl, omega arith, v)
run_changes-Owns (resizes server_cnt ∷ changes) g rest h small v =
    let (q, h₁, moved, v₁) = resize_servers-Owns server_cnt g rest h v in
    let (lost, g', h', ran, long, size, v') =
      run_changes-Owns changes (record g { router = record g.router { servers = q } }) rest h₁ small
        v₁ in
    (lost, g', h', rw (moved, ran), long, size, v')
run_changes-Owns (grows ∷ changes) g rest h small v =
    let (handle, g₁, h₁, moved, more, v₁) = add_midway_parts-Owns g rest h (omega arith) v in
    let (lost, g', h', ran, long, size, v') =
      run_changes-Owns changes g₁ (block handle ∷ rest) h₁ (omega (arith, more)) v₁ in
    (
      block handle ∷ lost,
      g',
      h',
      rw (moved, ran),
      omega (arith, long),
      omega (arith, size, more),
      Owns-moved (block handle) lost rest g' h' v',
    )
run_changes-Owns (takes kind ∷ changes) g rest h small v =
    let (lost, g', h', ran, long, size, v') =
      run_changes-Owns changes g (kind h.next ∷ rest) (acquire kind h).1 small
        (takes-Owns kind g rest h v) in
    (
      kind h.next ∷ lost,
      g',
      h',
      ran,
      omega (arith, long),
      size,
      Owns-moved (kind h.next) lost rest g' h' v',
    )

-- A system that is created and destroyed, fewer than 256 servers at every time, while between the two
-- the router's threads resize its array, servers are added as `run_test` does with -a, and other code
-- takes things that it never gives back, any number of each in any order. `destroy_generator` then
-- returns 0, and gives back nothing that is not held. What is held after it is what was held before
-- `create_generator`, the parts of the final system that `generator_left` lists (the scoreboard's
-- struct, socket and file, the handles of the router's threads, the array of servers, and all that
-- each server's coms holds, its thread included), and one thing more for each server added and
-- for each other thing taken.
pub destroy_generator-create_generator_parts :
    (a : Arguments) (changes : List Change) (h : Held)
    → a.starting_server_cnt + grown changes < 256
    → (g : GeneratorParts) × (h₁ : Held) × (g' : GeneratorParts) × (h₂ : Held) × (lost : List
        Resource)
      × (h' : Held) × (create_generator_parts a h ≡ ok (g, h₁))
      × (run_changes changes g h₁ ≡ ok (g', h₂))
      × (destroy_generator g' h₂ ≡ ok (0, h'))
      × (length g'.dns_servers ≡ a.starting_server_cnt + grown changes)
      × (length lost ≡ kept changes)
      × Holds h' (generator_left g' ++ lost) h.live
destroy_generator-create_generator_parts a changes h small =
    let (g, h₁, created, size, v) = create_generator_parts-Owns a h (omega arith) in
    let (lost, g', h₂, ran, long, size', v') =
      run_changes-Owns changes g h.live h₁ (omega (arith, size)) v in
    let (h', destroyed, held) = destroy_generator-Holds g' (lost ++ h.live) h₂ v' in
    (
      g,
      h₁,
      g',
      h₂,
      lost,
      h',
      created,
      ran,
      destroyed,
      omega (arith, v'.counted, size, size'),
      long,
      λ x.
          omega
            (arith, held x, count-append x lost h.live, count-append x (generator_left g') lost),
    )
