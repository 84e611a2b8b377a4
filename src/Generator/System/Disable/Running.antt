-- ===== src/Generator/System/Disable/Running.antt =====
-- A test with -d step by step: it goes on, and the scoreboard notes where each request goes.
use dns_server.Common.{
  Bool, false, Bool-cases, inl, inr, ℕ, zero, suc, ◌||◌, ◌==◌, ◌-◌, ◌%◌, ◌<◌, ◌≡◌, refl, ◌∙◌, ap, ℤ,
  some, List, [], ◌∷◌, All, Bytes, length, get_elem?, ok, arith,
}
use mathlib.Core.Option.{some-injective}
use mathlib.Core.Path.{fun_ext}
use dns_server.DnsServer.{DnsServer}
use dns_server.DnsServer.Handler.{Handler}
use dns_server.Generator.System.{Generator}
use dns_server.Generator.System.Disable.{
  Moment, asks, answers, pauses, polls, Poll, pause_id, kept, stands, still_inside,
  pause_last_server, poll_round, run_moments, HasRoom, Goes,
}
use dns_server.Generator.System.Disable.Servers.{
  IsSound, IsSound-nonempty, pause_id-IsSound, kept-IsSound,
}
use dns_server.Generator.System.Request.{room, Askable, after_request}
use dns_server.Generator.System.Turn.{send_single_test-listed}
use dns_server.Router.{Router}
use dns_server.Router.Polling.{query_response_time-polled}
use dns_server.Router.Replies.{IsSettled}
use dns_server.Router.Remove.{IsReady}
use dns_server.Scoreboard.{recieve_generated_req, recieve_dns_answer}
use dns_server.Scoreboard.Order.{Event, run, step, sent_requests}
use dns_server.Server.{Packet}

length-pause_id : (id : ℕ) (l : List DnsServer) → length (pause_id id l) ≡ length l
length-pause_id id [] = refl
length-pause_id id (s ∷ l) = ap suc (length-pause_id id l)

get_elem?-pause_id :
    (id : ℕ) (l : List DnsServer) (i : ℕ) (s : DnsServer)
    → get_elem? l i ≡ some s
    → (s' : DnsServer) × (get_elem? (pause_id id l) i ≡ some s') × (s'.id ≡ s.id)
get_elem?-pause_id id [] i s e = absurd (cc)
get_elem?-pause_id id (x ∷ l) zero s e = (
  record x { pause = x.pause || x.id == id },
  refl,
  ap (λ (t : DnsServer). t.id) (some-injective x s e),
)
get_elem?-pause_id id (x ∷ l) (suc i) s e = get_elem?-pause_id id l i s e

-- Where the threads of all paused servers stand at the test, none waits in `recvfrom`.
still_inside-settled :
    (handlers : List Handler) → All IsSettled handlers → (id : ℕ) → still_inside handlers id ≡ false
unfolding still_inside
still_inside-settled [] settled id = refl
still_inside-settled (h ∷ handlers) (first, settled) id =
    let others : still_inside handlers id ≡ false = still_inside-settled handlers settled id in
    elim (Bool-cases h.server.pause) [
      | inl paused ↦ let out : h.inside ≡ false = first paused in ground arith
      | inr running ↦ ground arith
    ]

module _ {Time : Type 0} where
  -- The server that the test pauses is there, and has the id `last`.
  abbrev pub HasLast : ℕ → Generator Time → Type 0
  HasLast last g =
      (s : DnsServer) × (get_elem? g.dns_servers (g.dns_server_cnt - 1) ≡ some s) × (s.id ≡ last)

  poll_round-kept :
      (p : Poll) (last : ℕ) (may : ℕ → Bool) (g : Generator Time)
      → IsReady g.router
      → length p.packet_buffer ≡ room
      → ((s : DnsServer) → length (p.buffer s) ≡ 64)
      → IsSound last g.router.servers
      → (r : Router) × (poll_round p may g ≡ ok (λ _. false, record g { router = r }))
        × (r.servers ≡ kept may p g.router.servers)
        × IsReady r
  unfolding poll_round
  poll_round-kept p last may g v size sizes sound =
      let (payload, sent, handlers, r, crafted, polled, settled, ran, left, v') =
        query_response_time-polled g.router p.packet_buffer p.byte p.rounds (stands may p) p.stack
          p.answer p.buffer sizes v (omega arith) sound.bytes sound.distinct in
      let outside : still_inside handlers ≡ (λ _. false) =
        fun_ext (λ id. still_inside-settled handlers settled id) in
      (
        r,
        rw (crafted, polled, ran) (ap (λ inside. ok (inside, record g { router = r })) outside),
        left,
        v',
      )

  pause_last_server-HasLast :
      (last : ℕ) (g : Generator Time)
      → HasLast last g
      → (servers : List DnsServer) × (pause_last_server g
          ≡ ok (
            last,
            record g {
              router = record g.router { servers = pause_id last g.router.servers };
              dns_servers = servers;
            },
          ))
        × HasLast last (record g { dns_servers = servers })
  unfolding pause_last_server
  pause_last_server-HasLast last g (s, e, named) =
      let (s', e', same) = get_elem?-pause_id last g.dns_servers (g.dns_server_cnt - 1) s e in
      (pause_id last g.dns_servers, rw (e, named), (s', e', same ∙ named))

module _ {Time : Type 0} (sendto : Packet → ℤ) (zero_time : Time) (domains : List Bytes)
    (some_domain : 0 < length domains) (few : length domains < 256)
    (askable : All Askable domains) where
  pub run_moments-Goes :
      (last : ℕ) (history : List (Moment Time)) (may : ℕ → Bool) (servers : List DnsServer)
      (g : Generator Time)
      → IsReady g.router
      → g.router.servers ≡ servers
      → IsSound last servers
      → HasLast last g
      → All HasRoom history
      → (g' : Generator Time) × (es : List (Event Time)) × (run_moments sendto zero_time domains
            history may g
          ≡ ok g')
        × (g'.scoreboard ≡ run zero_time g.scoreboard es)
        × Goes last may servers history (sent_requests es)
  unfolding run_moments run step recieve_generated_req
  run_moments-Goes last [] may servers g v listed sound there sizes = (g, [], refl, refl, refl)
  run_moments-Goes last (answers id valid_trans now ∷ rest) may servers g v listed sound there
        (_, sizes) =
      let (g', es, ran, noted, goes) =
        run_moments-Goes last rest may servers
          (record g { scoreboard = (recieve_dns_answer g.scoreboard id valid_trans now).1 }) v
          listed sound there sizes in
      (g', Event.answered id valid_trans now ∷ es, ran, noted, goes)
  run_moments-Goes last (asks id draw ∷ rest) may servers g v listed sound there (size, sizes) =
      let (sent, i, s, place, sends, v') =
        send_single_test-listed sendto zero_time domains some_domain few askable draw g id servers v
          listed (IsSound-nonempty last servers sound) size in
      let (g', es, ran, noted, goes) =
        run_moments-Goes last rest may servers (after_request zero_time g id draw s) v' listed sound
          there sizes in
      (
        g',
        Event.requested id (s.id % 256) 0 draw.now ∷ es,
        rw (sends, ran),
        noted,
        (i, s, sent_requests es, place, refl, goes),
      )
  run_moments-Goes last (pauses ∷ rest) may servers g v listed sound there (_, sizes) =
      let (dns_servers, paused, there') = pause_last_server-HasLast last g there in
      let (g', es, ran, noted, goes) =
        run_moments-Goes last rest (λ id. last == id || may id) (pause_id last servers)
          (record g {
            router = record g.router { servers = pause_id last g.router.servers };
            dns_servers = dns_servers;
          })
          (record {
            counted = length-pause_id last g.router.servers ∙ v.counted;
            small = v.small;
            unlocked = v.unlocked;
            tcp_unlocked = v.tcp_unlocked;
          })
          (ap (pause_id last) listed) (pause_id-IsSound last servers sound) there' sizes in
      (g', es, rw (paused, ran), noted, goes)
  run_moments-Goes last (polls p ∷ rest) may servers g v listed sound there
        ((size, threads), sizes) =
      let (r, polled, left, v') = poll_round-kept p last may g v size threads (rw listed sound) in
      let (g', es, ran, noted, goes) =
        run_moments-Goes last rest (λ _. false) (kept may p servers) (record g { router = r }) v'
          (left ∙ ap (kept may p) listed) (kept-IsSound last may p servers sound) there sizes in
      (g', es, rw (polled, ran), noted, goes)
