-- ===== src/Lifetime/Objects.antt =====
-- src/coms.cc, src/dns_server.c, src/router.c, src/scoreboard.cc, src/generator.c: what the functions
-- that create and destroy objects take from the system and give back. get_ip is taken to find an
-- address. Only what these functions handle is counted, not what other calls take inside.
use dns_server.Common.{ℕ, Option, none, List, [], ◌∷◌, ◌++◌, Outcome, ok, ◌>>=◌}
use dns_server.Lifetime.{
  block, descriptor, stream, thread, Held, acquire, malloc, release_all, pointed, realloc,
}

-- The pointers and handles of `coms_t`; its socket is the server's.
pub record ComsParts : Type 0 where
  pub self : ℕ
  pub ip_hash : ℕ
  pub tcp_resp_thread : ℕ
  pub listener : ℕ

-- Those of `dns_server_t`; `handler` is the thread that runs.
pub record ServerParts : Type 0 where
  pub self : ℕ
  pub scoreboard_ip : ℕ
  pub router_ip : ℕ
  pub ip : ℕ
  pub response_thread : ℕ
  pub socket : ℕ
  pub tcp_socket : ℕ
  pub handler : ℕ
  pub coms : ComsParts

-- Those of `router_t`; `prober` and `listener` are its threads.
pub record RouterParts : Type 0 where
  pub self : ℕ
  pub servers : Option ℕ
  pub socket : ℕ
  pub tcp_socket : ℕ
  pub resp_thread : ℕ
  pub tcp_resp_thread : ℕ
  pub mutex : ℕ
  pub tcp_mutex : ℕ
  pub prober : ℕ
  pub listener : ℕ

-- Those of `scoreboard_t`.
pub record ScoreboardParts : Type 0 where
  pub self : ℕ
  pub lock : ℕ
  pub queue : ℕ
  pub dns_response_thread : ℕ
  pub socket : ℕ
  pub results_file : ℕ
  pub handler : ℕ

-- Those of `generator_t`; `array` is the block of `dns_servers`.
pub record GeneratorParts : Type 0 where
  pub self : ℕ
  pub scoreboard : ScoreboardParts
  pub router : RouterParts
  pub array : ℕ
  pub dns_servers : List ServerParts
  pub dns_server_cnt : ℕ

unfoldable pub create_coms_parts : Held → ComsParts × Held
create_coms_parts h =
    let (self, h₁) = malloc h in
    let (ip_hash, h₂) = malloc h₁ in
    let (tcp_resp_thread, h₃) = malloc h₂ in
    let (listener, h₄) = acquire thread h₃ in
    (
      record {
        self = self;
        ip_hash = ip_hash;
        tcp_resp_thread = tcp_resp_thread;
        listener = listener;
      },
      h₄,
    )

-- The code of `destroy_coms`, with the server's socket, and what is held then.
unfoldable pub destroy_coms : ComsParts → ℕ → Held → Outcome (ℕ × Held)
destroy_coms c socket h =
    release_all (thread c.listener ∷ descriptor socket ∷ block c.ip_hash ∷ block c.self ∷ []) h
    >>= (λ h₁. ok (0, h₁))

unfoldable pub create_dns_server_parts : ℕ → Held → ServerParts × Held
unfolding create_coms_parts
create_dns_server_parts scoreboard_ip h =
    let (self, h₁) = malloc h in
    let (socket, h₂) = acquire descriptor h₁ in
    let (tcp_socket, h₃) = acquire descriptor h₂ in
    let (router_ip, h₄) = malloc h₃ in
    let (ip, h₅) = malloc h₄ in
    let (response_thread, h₆) = malloc h₅ in
    let (handler, h₇) = acquire thread h₆ in
    let (coms, h₈) = create_coms_parts h₇ in
    (
      record {
        self = self;
        scoreboard_ip = scoreboard_ip;
        router_ip = router_ip;
        ip = ip;
        response_thread = response_thread;
        socket = socket;
        tcp_socket = tcp_socket;
        handler = handler;
        coms = coms;
      },
      h₈,
    )

-- The code of `destroy_dns_server`, and what is held then.
unfoldable pub destroy_dns_server : ServerParts → Held → Outcome (ℕ × Held)
destroy_dns_server s h =
    release_all
      (thread s.handler
        ∷ descriptor s.socket
        ∷ descriptor s.tcp_socket
        ∷ block s.scoreboard_ip
        ∷ block s.router_ip
        ∷ block s.ip
        ∷ block s.response_thread
        ∷ block s.self
        ∷ [])
      h
    >>= (λ h₁. ok (0, h₁))

unfoldable pub create_router_parts : Held → RouterParts × Held
create_router_parts h =
    let (self, h₁) = malloc h in
    let (socket, h₂) = acquire descriptor h₁ in
    let (tcp_socket, h₃) = acquire descriptor h₂ in
    let (resp_thread, h₄) = malloc h₃ in
    let (tcp_resp_thread, h₅) = malloc h₄ in
    let (mutex, h₆) = malloc h₅ in
    let (tcp_mutex, h₇) = malloc h₆ in
    let (prober, h₈) = acquire thread h₇ in
    let (listener, h₉) = acquire thread h₈ in
    (
      record {
        self = self;
        servers = none;
        socket = socket;
        tcp_socket = tcp_socket;
        resp_thread = resp_thread;
        tcp_resp_thread = tcp_resp_thread;
        mutex = mutex;
        tcp_mutex = tcp_mutex;
        prober = prober;
        listener = listener;
      },
      h₉,
    )

unfoldable pub destroy_router : RouterParts → Held → Outcome (ℕ × Held)
destroy_router r h =
    release_all
      (thread r.prober
        ∷ thread r.listener
        ∷ (pointed r.servers
            ++ (descriptor r.socket
                ∷ descriptor r.tcp_socket
                ∷ block r.mutex
                ∷ block r.tcp_mutex
                ∷ block r.self
                ∷ [])))
      h
    >>= (λ h₁. ok (0, h₁))

-- The array of the router's servers in `add_dns_server` and `remove_server`, for a new count.
unfoldable pub resize_servers : RouterParts → ℕ → Held → Outcome (RouterParts × Held)
resize_servers r server_cnt h =
    realloc r.servers server_cnt h >>= (λ m. ok (record r { servers = m.0 }, m.1))

unfoldable pub create_scoreboard_parts : Held → ScoreboardParts × Held
create_scoreboard_parts h =
    let (self, h₁) = malloc h in
    let (lock, h₂) = malloc h₁ in
    let (queue, h₃) = malloc h₂ in
    let (dns_response_thread, h₄) = malloc h₃ in
    let (socket, h₅) = acquire descriptor h₄ in
    let (results_file, h₆) = acquire stream h₅ in
    let (handler, h₇) = acquire thread h₆ in
    (
      record {
        self = self;
        lock = lock;
        queue = queue;
        dns_response_thread = dns_response_thread;
        socket = socket;
        results_file = results_file;
        handler = handler;
      },
      h₇,
    )

unfoldable pub destroy_scoreboard_parts : ScoreboardParts → Held → Outcome (ℕ × Held)
destroy_scoreboard_parts s h =
    release_all (thread s.handler ∷ block s.lock ∷ block s.queue ∷ block s.dns_response_thread ∷ [])
      h
    >>= (λ h₁. ok (0, h₁))
