-- ===== src/Lifetime/Ends/Objects.antt =====
-- One object after the other: what is held when it has been created, and when it has been destroyed.
use dns_server.Common.{
  ℕ, zero, suc, ◌+◌, ◌%◌, ◌<◌, ◌≡◌, refl, ap, Option, List, [], ◌∷◌, ◌++◌, length, ◌==◌, ok, false,
  arith,
}
use dns_server.Lifetime.{Resource, block, descriptor, thread, Held, malloc, pointed}
use dns_server.Lifetime.Objects.{
  ServerParts, RouterParts, ScoreboardParts, create_coms_parts, destroy_coms,
  create_dns_server_parts, destroy_dns_server, create_router_parts, destroy_router, resize_servers,
  create_scoreboard_parts, destroy_scoreboard_parts,
}
use dns_server.Lifetime.Course.{start_servers_parts, destroy_servers}
use dns_server.Lifetime.Ends.{
  server_given, server_left, servers_given, servers_left, router_given, router_left,
  scoreboard_given, scoreboard_left,
}
use dns_server.Lifetime.Release.{one, count, count-append, Holds, release_all-Holds, realloc-Holds}

pub create_dns_server_parts-count :
    (scoreboard_ip : ℕ) (h : Held) (r : Resource)
    → let (s, h') = create_dns_server_parts scoreboard_ip h in
      one r (block scoreboard_ip) + count r h'.live
      ≡ count r (server_given s) + count r (server_left s) + count r h.live
unfolding create_dns_server_parts create_coms_parts
create_dns_server_parts-count scoreboard_ip h r = omega arith

pub create_router_parts-count :
    (h : Held) (x : Resource)
    → let (r, h') = create_router_parts h in
      count x h'.live ≡ count x (router_given r) + count x (router_left r) + count x h.live
unfolding create_router_parts
create_router_parts-count h x = omega arith

pub create_router_parts-no_array :
    (h : Held) (x : Resource) → count x (pointed (create_router_parts h).0.servers) ≡ 0
unfolding create_router_parts
create_router_parts-no_array h x = refl

pub create_scoreboard_parts-count :
    (h : Held) (x : Resource)
    → let (s, h') = create_scoreboard_parts h in
      count x h'.live ≡ count x (scoreboard_given s) + count x (scoreboard_left s) + count x h.live
unfolding create_scoreboard_parts
create_scoreboard_parts-count h x = omega arith

destroy_dns_server-Holds :
    (s : ServerParts) (rest : List Resource) (h : Held)
    → Holds h (server_given s) rest
    → (h' : Held) × (destroy_dns_server s h ≡ ok (0, h')) × Holds h' [] rest
unfolding destroy_dns_server
destroy_dns_server-Holds s rest h held =
    let (h', given, held') = release_all-Holds (server_given s) rest h held in (h', rw given, held')

-- `destroy_coms` on a server gives back what `destroy_dns_server` leaves, but for the block of the
-- thread's handle, and closes the socket that `destroy_dns_server` closes too.
destroy_coms-Holds :
    (s : ServerParts) (rest : List Resource) (h : Held)
    → Holds h (descriptor s.tcp_socket ∷ server_left s) rest
    → (h' : Held) × (destroy_coms s.coms s.tcp_socket h ≡ ok (0, h'))
      × Holds h' (block s.coms.tcp_resp_thread ∷ []) rest
unfolding destroy_coms
destroy_coms-Holds s rest h held =
    let (h', given, held') =
      release_all-Holds
        (thread s.coms.listener
          ∷ descriptor s.tcp_socket
          ∷ block s.coms.ip_hash
          ∷ block s.coms.self
          ∷ [])
        (block s.coms.tcp_resp_thread ∷ rest) h (λ x. omega (arith, held x)) in
    (h', rw given, λ x. omega (arith, held' x))

pub destroy_router-Holds :
    (r : RouterParts) (rest : List Resource) (h : Held)
    → Holds h (router_given r) (pointed r.servers ++ rest)
    → (h' : Held) × (destroy_router r h ≡ ok (0, h')) × Holds h' [] rest
unfolding destroy_router
destroy_router-Holds r rest h held =
    let (h', given, held') =
      release_all-Holds (thread r.prober ∷ thread r.listener ∷ (pointed r.servers ++ closed)) rest h
        (λ x. omega (
          arith,
          held x,
          count-append x (pointed r.servers) closed,
          count-append x (pointed r.servers) rest,
        )) in
    (h', rw given, held')
  where
    closed : List Resource
    closed =
        descriptor r.socket
        ∷ descriptor r.tcp_socket
        ∷ block r.mutex
        ∷ block r.tcp_mutex
        ∷ block r.self
        ∷ []

pub destroy_scoreboard_parts-Holds :
    (s : ScoreboardParts) (rest : List Resource) (h : Held)
    → Holds h (scoreboard_given s) rest
    → (h' : Held) × (destroy_scoreboard_parts s h ≡ ok (0, h')) × Holds h' [] rest
unfolding destroy_scoreboard_parts
destroy_scoreboard_parts-Holds s rest h held =
    let (h', given, held') = release_all-Holds (scoreboard_given s) rest h held in
    (h', rw given, held')

pub destroy_servers-Holds :
    (servers : List ServerParts) (rest : List Resource) (h : Held)
    → Holds h (servers_given servers) rest
    → (h' : Held) × (destroy_servers (length servers) servers h ≡ ok (0, h')) × Holds h' [] rest
unfolding destroy_servers
destroy_servers-Holds [] rest h held = (h, refl, held)
destroy_servers-Holds (s ∷ servers) rest h held =
    let (h₁, given, held') =
      destroy_dns_server-Holds s (servers_given servers ++ rest) h
        (λ x. omega (arith, held x, count-append x (servers_given servers) rest)) in
    let (h₂, others, held'') =
      destroy_servers-Holds servers rest h₁
        (λ x. omega (arith, held' x, count-append x (servers_given servers) rest)) in
    (h₂, rw (given, others), held'')

pub resize_servers-Holds :
    (r : RouterParts) (server_cnt : ℕ) (rest : List Resource) (h : Held)
    → Holds h (pointed r.servers) rest
    → (q : Option ℕ) × (h' : Held) × (resize_servers r server_cnt h
        ≡ ok (record r { servers = q }, h'))
      × Holds h' (pointed q) rest
unfolding resize_servers
resize_servers-Holds r server_cnt rest h held =
    let (q, h', moved, held') = realloc-Holds r.servers server_cnt rest h held in
    (q, h', rw moved, held')

pub start_servers_parts-Holds :
    (left i : ℕ) (r : RouterParts) (rest : List Resource) (h : Held)
    → i + left < 256
    → Holds h (pointed r.servers) rest
    → (servers : List ServerParts) × (q : Option ℕ) × (h' : Held) × (start_servers_parts left i r h
        ≡ ok (servers, record r { servers = q }, h'))
      × (length servers ≡ left)
      × Holds h' (pointed q ++ (servers_given servers ++ servers_left servers)) rest
unfolding start_servers_parts
start_servers_parts-Holds zero i r rest h small held =
    ([], r.servers, h, refl, refl, λ x. omega (arith, held x, count-append))
start_servers_parts-Holds (suc left) i r rest h small held =
    let (copy, h₁) = malloc h in
    let (s, h₂) = create_dns_server_parts copy h₁ in
    let (p, h₃, moved, held') =
      resize_servers-Holds r ((i + 1) % 256) (server_given s ++ (server_left s ++ rest)) h₂
        (λ x. omega (arith, held x, create_dns_server_parts-count copy h₁ x)) in
    let (servers, q, h₄, started, long, held'') =
      start_servers_parts-Holds left (i + 1) (record r { servers = p })
        (server_given s ++ (server_left s ++ rest)) h₃ (omega arith) held' in
    (
      s ∷ servers,
      q,
      h₄,
      rw (no_wrap, moved, started),
      ap suc long,
      λ x. omega (
        arith,
        held'' x,
        count-append x (pointed q) (servers_given (s ∷ servers) ++ servers_left (s ∷ servers)),
        count-append x (servers_given servers) (servers_left (s ∷ servers)),
        count-append x (pointed q) (servers_given servers ++ servers_left servers),
        count-append x (servers_given servers) (servers_left servers),
      ),
    )
  where
    no_wrap : ((i + 1) % 256 == 0) ≡ false
    no_wrap = ground arith
