-- ===== src/Lifetime/Course.antt =====
-- src/generator.c: create_generator, destroy_generator and the part of run_test that adds a server, by
-- what they take from the system and give back.
use dns_server.Common.{
  ℕ, zero, suc, ◌+◌, ◌%◌, List, [], ◌∷◌, ◌++◌, ◌==◌, if◌then◌else◌, Outcome, ok, crash, ◌>>=◌,
}
use dns_server.CliParser.{Arguments}
use dns_server.Lifetime.{Resource, block, Held, acquire, malloc, release}
use dns_server.Lifetime.Objects.{
  ServerParts, RouterParts, GeneratorParts, create_dns_server_parts, destroy_dns_server,
  create_router_parts, destroy_router, resize_servers, create_scoreboard_parts,
  destroy_scoreboard_parts,
}

-- The loop of `create_generator` from index `i` on: each server has a copy of the address.
unfoldable pub start_servers_parts :
    ℕ → ℕ → RouterParts → Held → Outcome (List ServerParts × RouterParts × Held)
start_servers_parts zero i r h = ok ([], r, h)
start_servers_parts (suc left) i r h =
    let (copy, h₁) = malloc h in
    let (s, h₂) = create_dns_server_parts copy h₁ in
    if (i + 1) % 256 == 0
    then crash
    else (resize_servers r ((i + 1) % 256) h₂
        >>= (λ m. start_servers_parts left (i + 1) m.0 m.1 >>= (λ l. ok (s ∷ l.0, l.1, l.2))))

unfoldable pub create_generator_parts : Arguments → Held → Outcome (GeneratorParts × Held)
create_generator_parts arguments h =
    let (self, h₁) = malloc h in
    let (scoreboard, h₂) = create_scoreboard_parts h₁ in
    let (router, h₃) = create_router_parts h₂ in
    let (array, h₄) = malloc h₃ in
    let (ip, h₅) = malloc h₄ in
    start_servers_parts arguments.starting_server_cnt 0 router h₅ >>= (λ l.
      release (block ip) l.2 >>= (λ h₆. ok (
        record {
          self = self;
          scoreboard = scoreboard;
          router = l.1;
          array = array;
          dns_servers = l.0;
          dns_server_cnt = arguments.starting_server_cnt;
        },
        h₆,
      )))

-- The loop of `destroy_generator`, which a code other than 0 ends; past the array it is undefined.
unfoldable pub destroy_servers : ℕ → List ServerParts → Held → Outcome (ℕ × Held)
destroy_servers zero servers h = ok (0, h)
destroy_servers (suc left) [] h = crash
destroy_servers (suc left) (s ∷ rest) h =
    destroy_dns_server s h
    >>= (λ d. let others = destroy_servers left rest d.1 in if d.0 == 0 then others else ok d)

unfoldable pub destroy_generator : GeneratorParts → Held → Outcome (ℕ × Held)
destroy_generator g h = do
  s ← destroy_scoreboard_parts g.scoreboard h
  if s.0 == 0
      then (do
        r ← destroy_router g.router s.1
        if r.0 == 0
            then (do
              d ← destroy_servers g.dns_server_cnt g.dns_servers r.1
              if d.0 == 0 then (do h₁ ← release (block g.self) d.1; ok (0, h₁)) else ok d)
            else ok r)
      else ok s

-- The new server of a test that adds one midway: the array grows, in a new block (with 256 servers
-- the count is 0, and the write goes in front of the block), and the block of the thread's
-- handle is never given back.
unfoldable pub add_midway_parts : GeneratorParts → Held → Outcome (GeneratorParts × Held)
add_midway_parts g h =
    let (handle, h₁) = malloc h in
    if (g.dns_server_cnt + 1) % 256 == 0
    then crash
    else (release (block g.array) h₁ >>= (λ h₂.
        let (array, h₃) = malloc h₂ in
        let (ip, h₄) = malloc h₃ in
        let (s, h₅) = create_dns_server_parts ip h₄ in
        ok (
          record g {
            array = array;
            dns_servers = g.dns_servers ++ (s ∷ []);
            dns_server_cnt = (g.dns_server_cnt + 1) % 256;
          },
          h₅,
        )))

-- What else happens to what is held while the system runs: a thread of the router adds or removes a
-- server of its array, the test adds a server, or some code takes a thing that it never gives back.
pub data Change : Type 0 where
  resizes : ℕ → Change
  grows : Change
  takes : (ℕ → Resource) → Change

unfoldable pub run_changes : List Change → GeneratorParts → Held → Outcome (GeneratorParts × Held)
run_changes [] g h = ok (g, h)
run_changes (resizes server_cnt ∷ rest) g h =
    resize_servers g.router server_cnt h >>= (λ m. run_changes rest (record g { router = m.0 }) m.1)
run_changes (grows ∷ rest) g h = add_midway_parts g h >>= (λ m. run_changes rest m.0 m.1)
run_changes (takes kind ∷ rest) g h = run_changes rest g (acquire kind h).1

-- How many servers are added, and how many things are taken and kept: one for each such server.
abbrev pub grown : List Change → ℕ
grown [] = 0
grown (resizes server_cnt ∷ rest) = grown rest
grown (grows ∷ rest) = grown rest + 1
grown (takes kind ∷ rest) = grown rest

abbrev pub kept : List Change → ℕ
kept [] = 0
kept (resizes server_cnt ∷ rest) = kept rest
kept (grows ∷ rest) = kept rest + 1
kept (takes kind ∷ rest) = kept rest + 1
