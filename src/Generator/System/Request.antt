-- ===== src/Generator/System/Request.antt =====
-- One request: its domain, and what it leaves in the generator.
use dns_server.Common.{
  ℕ, ◌+◌, ◌%◌, ◌≤◌, ◌<◌, ◌≡◌, true, false, none, some, List, [], ◌∷◌, ◌++◌, Bytes, length,
  get_elem?, get_elem?-some, ◌==◌, ok, arith,
}
use dns_server.Dns.Craft.{wire}
use dns_server.DnsServer.{DnsServer}
use dns_server.Generator.System.{Generator, Draw, pick_domain}
use dns_server.Router.Balance.{packet_to, next}
use dns_server.Scoreboard.{Results}
use dns_server.Scoreboard.Order.{fresh}
use dns_server.Server.{Packet}

-- The size of the buffer in which a request is crafted.
abbrev pub room : ℕ
room = 64

-- A domain that a request has room for.
abbrev pub Askable : Bytes → Type 0
Askable domain = 17 + length domain ≤ room

pub pick_domain-picks :
    (domains : List Bytes) (rand : ℕ)
    → 0 < length domains
    → length domains < 256
    → (i : ℕ) × (domain : Bytes) × (pick_domain domains rand ≡ ok domain)
      × (get_elem? domains i ≡ some domain)
unfolding pick_domain
pick_domain-picks domains rand some_domain few =
    let (domain, e) = get_elem?-some domains (rand % 256 % (length domains % 256)) (ground arith) in
    (rand % 256 % (length domains % 256), domain, rw (nonempty, e), e)
  where
    nonempty : ((length domains % 256) == 0) ≡ false
    nonempty = ground arith

-- The generator after a request that went to the server.
abbrev pub after_request :
    {Time : Type 0} → Time → Generator Time → ℕ → Draw Time → DnsServer → Generator Time
after_request zero_time g id draw s = record g {
  router = record g.router {
    curr_server = next g.router.mode g.router.curr_server g.router.server_cnt;
    mutex = false;
  };
  scoreboard = record g.scoreboard {
    queue = g.scoreboard.queue ++ (fresh zero_time id (s.id % 256) 0 draw.now ∷ []);
  };
}

-- Where the `k`-th request of a run goes, and the entry that it leaves.
unfoldable pub Placed :
    {Time : Type 0}
    → Time
    → List Bytes
    → List (ℕ × Draw Time)
    → List DnsServer
    → (ℕ → ℕ)
    → List Packet
    → List (Results Time)
    → Type 0
Placed {Time} zero_time domains tests servers place sent entries =
    (k id : ℕ) (draw : Draw Time) (s : DnsServer)
    → get_elem? tests k ≡ some (id, draw)
    → get_elem? servers (place k) ≡ some s
    → (i : ℕ) × (domain : Bytes) × (q0 : ℕ) × (q2 : ℕ) × (get_elem? domains i ≡ some domain)
      × (get_elem? sent k ≡ some (packet_to (wire true id domain none q0 q2 []) s))
      × (get_elem? entries k ≡ some (fresh zero_time id (s.id % 256) 0 draw.now))
