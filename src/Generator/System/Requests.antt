-- ===== src/Generator/System/Requests.antt =====
-- A run of requests: where each goes, and what the scoreboard notes of it.
use dns_server.Common.{
  ℕ, zero, suc, ◌+◌, ◌%◌, ◌≤◌, ◌<◌, ◌≡◌, refl, sym, ◌∙◌, ap, true, Option, none, some, List, [],
  ◌∷◌, ◌++◌, append_assoc, append-nil, map, All, All-get_elem?, ℤ, Bytes, length, get_elem?,
  get_elem?-some, ok, arith,
}
use dns_server.Dns.Craft.{wire}
use dns_server.Dns.Transit.{craft_message-sent}
use dns_server.DnsServer.{DnsServer}
use dns_server.Generator.System.{Generator, Draw, send_to_router, send_single_test, send_tests}
use mathlib.Core.Path.{ap₂}
use mathlib.Core.Option.{some-injective}
use dns_server.Router.{RouterMode}
use dns_server.Router.Balance.{packet_to, chosen, next, chosen-lt, forward_request-served}
use dns_server.Router.Remove.{IsReady}
use dns_server.Router.Spread.{slot, InCycle, chosen-slot, next-slot, next-InCycle}
use dns_server.Scoreboard.{Results, recieve_generated_req}
use dns_server.Scoreboard.Order.{fresh}
use dns_server.Server.{Packet}
use dns_server.Generator.System.Request.{room, Askable, pick_domain-picks, after_request, Placed}

module _ {Time : Type 0} (sendto : Packet → ℤ) (zero_time : Time) (domains : List Bytes)
    (some_domain : 0 < length domains) (few : length domains < 256)
    (askable : All Askable domains) where
  pub send_single_test-served :
      (draw : Draw Time) (g : Generator Time) (id : ℕ) {s : DnsServer}
      → IsReady g.router
      → 0 < g.router.server_cnt
      → length draw.buffer ≡ room
      → get_elem? g.router.servers (chosen g.router.mode g.router.curr_server g.router.server_cnt)
        ≡ some s
      → (i : ℕ) × (domain : Bytes) × (q0 : ℕ) × (q2 : ℕ) × (get_elem? domains i ≡ some domain)
        × (send_single_test sendto zero_time domains draw g id
            ≡ ok (
              packet_to (wire true id domain none q0 q2 []) s ∷ [],
              after_request zero_time g id draw s,
            ))
  unfolding send_single_test send_to_router recieve_generated_req
  send_single_test-served draw g id {s} v pos size e =
      let (i, domain, picked, listed) = pick_domain-picks domains draw.rand some_domain few in
      let fits : 17 + length domain ≤ room = All-get_elem? Askable domains i askable listed in
      let (q0, q2, buffer, crafted, read) =
        craft_message-sent draw.buffer true id domain none (omega arith) (omega arith) in
      (
        i,
        domain,
        q0,
        q2,
        listed,
        rw (
          picked,
          crafted,
          read,
          forward_request-served sendto g.router (wire true id domain none q0 q2 []) v pos e,
        ),
      )

  Placed-cons :
      (id : ℕ) (draw : Draw Time) (tests : List (ℕ × Draw Time)) (servers : List DnsServer)
      (mode : RouterMode) (curr cnt : ℕ) (s : DnsServer) (i : ℕ) (domain : Bytes) (q0 q2 : ℕ)
      (sent : List Packet) (entries : List (Results Time))
      → 0 < cnt
      → InCycle mode curr cnt
      → get_elem? servers (chosen mode curr cnt) ≡ some s
      → get_elem? domains i ≡ some domain
      → Placed zero_time domains tests servers
          (λ k. slot mode cnt (next mode curr cnt + k))
          sent
          entries
      → Placed zero_time domains
          ((id, draw) ∷ tests)
          servers
          (λ k. slot mode cnt (curr + k))
          (packet_to (wire true id domain none q0 q2 []) s ∷ sent)
          (fresh zero_time id (s.id % 256) 0 draw.now ∷ entries)
  unfolding Placed
  Placed-cons id draw tests servers mode curr cnt s i domain q0 q2 sent entries pos c e listed
        placed zero id' draw' s' et es =
      (
        i,
        domain,
        q0,
        q2,
        listed,
        ap₂ request_of same_test same_server,
        ap₂ entry_of same_test same_server,
      )
    where
      request_of : ℕ × Draw Time → DnsServer → Option Packet
      request_of t to = some (packet_to (wire true t.0 domain none q0 q2 []) to)

      entry_of : ℕ × Draw Time → DnsServer → Option (Results Time)
      entry_of t to = some (fresh zero_time t.0 (to.id % 256) 0 t.1.now)

      same_test : ◌≡◌ {A = ℕ × Draw Time} (id, draw) (id', draw')
      same_test = some-injective (id, draw) (id', draw') et

      same_server : s ≡ s'
      same_server = some-injective s s' (
          sym e
          ∙ ap (get_elem? servers) (chosen-slot mode curr cnt c ∙ ap (slot mode cnt) (omega arith))
          ∙ es)
  Placed-cons id draw tests servers mode curr cnt s i domain q0 q2 sent entries pos c e listed
        placed (suc k) id' draw' s' et es =
      placed k id' draw' s' et (ap (get_elem? servers) (next-slot mode curr cnt k pos c) ∙ es)

  -- A run of requests to a ready router that has servers, each crafted in a buffer of 64 bytes for a
  -- domain that has room there, sends one query for each, in order, and notes each in the scoreboard,
  -- in order, behind what was there. The `k`-th carries its id and one of the domains to slot
  -- `curr_server + k` of the mode's cycle, and its entry has its id, that server's id modulo 256, and
  -- its time. The router is ready afterwards.
  pub send_tests-spread :
      (tests : List (ℕ × Draw Time)) (g : Generator Time)
      → IsReady g.router
      → 0 < g.router.server_cnt
      → InCycle g.router.mode g.router.curr_server g.router.server_cnt
      → All (λ (t : ℕ × Draw Time). length t.1.buffer ≡ room) tests
      → (sent : List Packet) × (entries : List (Results Time)) × (g' : Generator Time) × (send_tests
            sendto zero_time domains tests g
          ≡ ok (sent, g'))
        × (length sent ≡ length tests)
        × (map (λ (r : Results Time). r.id) entries ≡ map (λ (t : ℕ × Draw Time). t.0) tests)
        × (g'.scoreboard ≡ record g.scoreboard { queue = g.scoreboard.queue ++ entries })
        × Placed zero_time domains tests g.router.servers
            (λ k. slot g.router.mode g.router.server_cnt (g.router.curr_server + k))
            sent
            entries
        × IsReady g'.router
  unfolding send_tests Placed
  send_tests-spread [] g v pos c sizes = (
    [],
    [],
    g,
    refl,
    refl,
    refl,
    ap (λ q. record g.scoreboard { queue = q }) (sym (append-nil g.scoreboard.queue)),
    λ k id draw s et es. absurd (cc),
    v,
  )
  send_tests-spread ((id, draw) ∷ tests) g v pos c (size, sizes) =
      let (s, e) =
        get_elem?-some g.router.servers
          (chosen g.router.mode g.router.curr_server g.router.server_cnt)
          (omega (
            arith,
            chosen-lt g.router.mode g.router.curr_server g.router.server_cnt pos,
            v.counted,
          )) in
      let (i, domain, q0, q2, listed, step) = send_single_test-served draw g id v pos size e in
      let (sent, entries, g', run, long, in_order, noted, placed, v') =
        send_tests-spread tests (after_request zero_time g id draw s)
          (record {
            counted = v.counted;
            small = v.small;
            unlocked = refl;
            tcp_unlocked = v.tcp_unlocked;
          })
          pos (next-InCycle g.router.mode g.router.curr_server g.router.server_cnt pos c) sizes in
      (
        packet_to (wire true id domain none q0 q2 []) s ∷ sent,
        fresh zero_time id (s.id % 256) 0 draw.now ∷ entries,
        g',
        rw (step, run),
        ap suc long,
        ap (◌∷◌ id) in_order,
        noted
            ∙ ap (λ q. record g.scoreboard { queue = q })
                (append_assoc g.scoreboard.queue (fresh zero_time id (s.id % 256) 0 draw.now ∷ [])
                  entries),
        Placed-cons id draw tests g.router.servers g.router.mode g.router.curr_server
            g.router.server_cnt s i domain q0 q2 sent entries pos c e listed placed,
        v',
      )
