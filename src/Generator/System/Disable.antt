-- ===== src/Generator/System/Disable.antt =====
-- src/generator.c, src/router.c: a test with -d, in which the last server is paused midway, the
-- servers' threads answer the router's probes unless they are paused, and the router removes the
-- servers that do not answer.
pub mod Servers
pub mod Requests
pub mod Running
pub mod Made
pub mod Whole
pub mod Tests
use dns_server.Common.{
  Bool, false, ◌&&◌, if◌then◌else◌, ℕ, zero, suc, ◌+◌, ◌-◌, ◌%◌, ◌≤◌, ◌≡◌, ℤ, not, ◌||◌, Option,
  List, [], ◌∷◌, map, keep_if, Bytes, length, get_elem?, some, ◌==◌, Outcome, ok, or_crash, ◌>>=◌,
}
use dns_server.Dns.{Message}
use dns_server.DnsServer.{DnsServer}
use dns_server.DnsServer.Handler.{Handler, waiting}
use dns_server.Generator.{Action, send, pause_last}
use dns_server.Generator.System.{Generator, Draw, send_single_test}
use dns_server.Generator.System.Request.{room}
use dns_server.Router.{probe_message, query_response_time}
use dns_server.Router.Replies.{poll, heard, is_mute}
use dns_server.Scoreboard.{recieve_dns_answer}
use dns_server.Scoreboard.Order.{Request}
use dns_server.Server.{Packet}

-- A round of probing: the router's two buffers, how many steps the servers' threads make until the
-- router listens, which of them wait in `recvfrom` when the probe comes (of those that can), and what
-- their memory holds.
pub record Poll : Type 0 where
  pub packet_buffer : Bytes
  pub byte : ℕ
  pub rounds : ℕ
  pub inside : DnsServer → Bool
  pub stack : DnsServer → Message
  pub answer : DnsServer → Bytes
  pub buffer : DnsServer → Bytes

-- What happens in such a test: a request, an answer that reaches the scoreboard, the pause of the last
-- server, and a round of probing.
pub data Moment (Time : Type 0) : Type 0 where
  asks : ℕ → Draw Time → Moment Time
  answers : ℕ → ℕ → Time → Moment Time
  pauses : Moment Time
  polls : Poll → Moment Time

-- The pause flag of the server with an id, wherever a pointer to it is kept: `dns_servers` and the
-- router's list point to the same servers, whose ids differ.
abbrev pub pause_id : ℕ → List DnsServer → List DnsServer
pause_id id = map (λ (s : DnsServer). record s { pause = s.pause || s.id == id })

-- Where the threads stand: one whose server runs anywhere, one whose server is paused inside
-- `recvfrom` only if it may still be there since before the pause.
abbrev pub stands : (ℕ → Bool) → Poll → DnsServer → Bool
stands may p s = if s.pause then may s.id && p.inside s else p.inside s

-- Whether the thread of a paused server with the id waits in `recvfrom` after a round.
unfoldable pub still_inside : List Handler → ℕ → Bool
still_inside [] id = false
still_inside (h ∷ handlers) id =
    (h.server.id == id && (h.server.pause && h.inside)) || still_inside handlers id

-- The servers that a round of probing leaves.
abbrev pub kept : (ℕ → Bool) → Poll → List DnsServer → List DnsServer
kept may p = keep_if (λ (s : DnsServer). not (is_mute (stands may p) s))

module _ {Time : Type 0} where
  -- `generator->dns_servers[generator->dns_server_cnt - 1]->pause = true`
  -- The id is that of the server.
  unfoldable pub pause_last_server : Generator Time → Outcome (ℕ × Generator Time)
  pause_last_server g = do
    s ← or_crash (get_elem? g.dns_servers (g.dns_server_cnt - 1))
    ok (
      s.id,
      record g {
        router = record g.router { servers = pause_id s.id g.router.servers };
        dns_servers = pause_id s.id g.dns_servers;
      },
    )

  -- A round of the router's thread `check_servers`, with the servers' threads: which of those that
  -- are paused still wait in `recvfrom`, and the system.
  unfoldable pub poll_round :
      Poll → (ℕ → Bool) → Generator Time → Outcome ((ℕ → Bool) × Generator Time)
  poll_round p may g = do
    payload ← probe_message p.packet_buffer
    (sent, handlers) ← poll (suc (suc p.rounds)) (
        map
          (λ (s : DnsServer).
            waiting s (stands may p s) (p.stack s) (p.answer s) (p.buffer s) (payload ∷ []))
          g.router.servers)
    q ← query_response_time g.router p.packet_buffer (λ r. r) p.byte (heard sent)
    ok (still_inside handlers, record g { router = q.2 })

  -- The thread of a server that is paused may at that time wait in `recvfrom`.
  unfoldable pub run_moments :
      (Packet → ℤ)
      → Time
      → List Bytes
      → List (Moment Time)
      → (ℕ → Bool)
      → Generator Time
      → Outcome (Generator Time)
  run_moments sendto zero_time domains [] may g = ok g
  run_moments sendto zero_time domains (asks id draw ∷ rest) may g =
      send_single_test sendto zero_time domains draw g id
      >>= (λ a. run_moments sendto zero_time domains rest may a.1)
  run_moments sendto zero_time domains (answers id valid_trans now ∷ rest) may g =
      run_moments sendto zero_time domains rest may
        (record g { scoreboard = (recieve_dns_answer g.scoreboard id valid_trans now).1 })
  run_moments sendto zero_time domains (pauses ∷ rest) may g =
      pause_last_server g
      >>= (λ a. run_moments sendto zero_time domains rest (λ id. a.0 == id || may id) a.1)
  run_moments sendto zero_time domains (polls p ∷ rest) may g =
      poll_round p may g >>= (λ a. run_moments sendto zero_time domains rest a.0 a.1)

  -- What of it `run_test` does itself.
  abbrev pub acted : List (Moment Time) → List Action
  acted [] = []
  acted (asks id draw ∷ rest) = send id ∷ acted rest
  acted (answers id valid_trans now ∷ rest) = acted rest
  acted (pauses ∷ rest) = pause_last ∷ acted rest
  acted (polls p ∷ rest) = acted rest

  -- The ids that are asked for.
  abbrev pub asked : List (Moment Time) → List ℕ
  asked [] = []
  asked (asks id draw ∷ rest) = id ∷ asked rest
  asked (answers id valid_trans now ∷ rest) = asked rest
  asked (pauses ∷ rest) = asked rest
  asked (polls p ∷ rest) = asked rest

  -- The ids of requests, in order.
  abbrev pub request_ids : List (Request Time) → List ℕ
  request_ids = map (λ (r : Request Time). r.0)

  -- The buffers have the sizes that the code gives them.
  abbrev pub HasRoom : Moment Time → Type 0
  HasRoom (asks id draw) = length draw.buffer ≡ room
  HasRoom (answers id valid_trans now) = Unit {0}
  HasRoom pauses = Unit {0}
  HasRoom (polls p) = (length p.packet_buffer ≡ room) × ((s : DnsServer) → length (p.buffer s) ≡ 64)

  -- A part of the test in which no server is paused.
  abbrev pub HasNoPause : List (Moment Time) → Type 0
  HasNoPause [] = Unit {0}
  HasNoPause (asks id draw ∷ rest) = HasNoPause rest
  HasNoPause (answers id valid_trans now ∷ rest) = HasNoPause rest
  HasNoPause (pauses ∷ rest) = ⊥
  HasNoPause (polls p ∷ rest) = HasNoPause rest

  -- Which threads of paused servers may wait in `recvfrom` after a history whose pauses are those of
  -- the server `last`: a round of probing brings them all to the test.
  abbrev pub reach_may : ℕ → List (Moment Time) → (ℕ → Bool) → ℕ → Bool
  reach_may last [] may = may
  reach_may last (asks id draw ∷ rest) may = reach_may last rest may
  reach_may last (answers id valid_trans now ∷ rest) may = reach_may last rest may
  reach_may last (pauses ∷ rest) may = reach_may last rest (λ id. last == id || may id)
  reach_may last (polls p ∷ rest) may = reach_may last rest (λ _. false)

  -- The servers that the router lists after such a history.
  abbrev pub reach : ℕ → List (Moment Time) → (ℕ → Bool) → List DnsServer → List DnsServer
  reach last [] may servers = servers
  reach last (asks id draw ∷ rest) may servers = reach last rest may servers
  reach last (answers id valid_trans now ∷ rest) may servers = reach last rest may servers
  reach last (pauses ∷ rest) may servers =
      reach last rest (λ id. last == id || may id) (pause_id last servers)
  reach last (polls p ∷ rest) may servers = reach last rest (λ _. false) (kept may p servers)

  -- Each request goes to a server that is listed at that time.
  abbrev pub Goes :
      ℕ → (ℕ → Bool) → List DnsServer → List (Moment Time) → List (Request Time) → Type 0
  Goes last may servers [] requests = requests ≡ []
  Goes last may servers (asks id draw ∷ rest) requests =
      (i : ℕ) × (s : DnsServer) × (later : List (Request Time)) × (get_elem? servers i ≡ some s)
      × (requests ≡ (id, s.id % 256, draw.now) ∷ later)
      × Goes last may servers rest later
  Goes last may servers (answers id valid_trans now ∷ rest) requests =
      Goes last may servers rest requests
  Goes last may servers (pauses ∷ rest) requests =
      Goes last (λ id. last == id || may id) (pause_id last servers) rest requests
  Goes last may servers (polls p ∷ rest) requests =
      Goes last (λ _. false) (kept may p servers) rest requests
