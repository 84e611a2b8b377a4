-- ===== src/Lifetime/Ends.antt =====
-- The destroy functions against the create functions: what each object takes, what is given back when
-- it is destroyed, and what is left.
pub mod Objects
pub mod System
pub mod Branches
pub mod Whole
use dns_server.Common.{ℕ, ◌+◌, ◌≡◌, Option, none, some, List, [], ◌∷◌, ◌++◌}
use dns_server.Lifetime.{Resource, block, descriptor, stream, thread, pointed}
use dns_server.Lifetime.Objects.{
  ComsParts, ServerParts, RouterParts, ScoreboardParts, GeneratorParts,
}

-- What `destroy_dns_server` gives back, and what it leaves: all that the server's coms holds.
abbrev pub server_given : ServerParts → List Resource
server_given s =
    thread s.handler
    ∷ descriptor s.socket
    ∷ descriptor s.tcp_socket
    ∷ block s.scoreboard_ip
    ∷ block s.router_ip
    ∷ block s.ip
    ∷ block s.response_thread
    ∷ block s.self
    ∷ []

abbrev pub server_left : ServerParts → List Resource
server_left s =
    block s.coms.self
    ∷ block s.coms.ip_hash
    ∷ block s.coms.tcp_resp_thread
    ∷ thread s.coms.listener
    ∷ []

abbrev pub servers_given : List ServerParts → List Resource
servers_given [] = []
servers_given (s ∷ rest) = server_given s ++ servers_given rest

abbrev pub servers_left : List ServerParts → List Resource
servers_left [] = []
servers_left (s ∷ rest) = server_left s ++ servers_left rest

-- Of the router, but for its array: the blocks of its threads' handles are left.
abbrev pub router_given : RouterParts → List Resource
router_given r =
    thread r.prober
    ∷ thread r.listener
    ∷ descriptor r.socket
    ∷ descriptor r.tcp_socket
    ∷ block r.mutex
    ∷ block r.tcp_mutex
    ∷ block r.self
    ∷ []

abbrev pub router_left : RouterParts → List Resource
router_left r = block r.resp_thread ∷ block r.tcp_resp_thread ∷ []

-- Of the scoreboard: its struct, its socket and its file are left.
abbrev pub scoreboard_given : ScoreboardParts → List Resource
scoreboard_given s =
    thread s.handler ∷ block s.lock ∷ block s.queue ∷ block s.dns_response_thread ∷ []

abbrev pub scoreboard_left : ScoreboardParts → List Resource
scoreboard_left s = block s.self ∷ descriptor s.socket ∷ stream s.results_file ∷ []

-- Of the whole system: the array of servers is left.
abbrev pub generator_given : GeneratorParts → List Resource
generator_given g =
    block g.self
    ∷ (scoreboard_given g.scoreboard
        ++ (router_given g.router ++ (pointed g.router.servers ++ servers_given g.dns_servers)))

abbrev pub generator_left : GeneratorParts → List Resource
generator_left g =
    block g.array
    ∷ (scoreboard_left g.scoreboard ++ (router_left g.router ++ servers_left g.dns_servers))
