-- ===== src/Generator/System/Life.antt =====
-- The life of one request, from the generator over the router and a server to the scoreboard.
use dns_server.Common.{
  Bool, not, ◌&&◌, ℕ, suc, ◌+◌, ◌%◌, ◌≤◌, ◌<◌, ◌≡◌, ◌≢◌, refl, sym, ◌∙◌, ap, ℤ, true, false, none,
  some, List, [], ◌∷◌, ◌++◌, append_assoc, map, All, All-get_elem?, Bytes, NoNul, length, get_elem?,
  drop, ◌==◌, ==_refl, if◌then◌else◌, ok, arith,
}
use mathlib.Core.List.{map-append}
use mathlib.Core.Path.{ap₂}
use dns_server.Coms.{translate_ip}
use dns_server.Dns.{Message, is_null}
use dns_server.Dns.Craft.{wire}
use dns_server.DnsServer.{DnsServer, probe_id}
use dns_server.DnsServer.Handler.{Handler, query_handler, waiting}
use dns_server.DnsServer.Handler.Rounds.{query_handler-recieve_request}
use dns_server.Generator.System.{Generator, Draw, send_single_test}
use dns_server.Generator.System.Request.{room, Askable, after_request}
use dns_server.Generator.System.Requests.{send_single_test-served}
use dns_server.Router.Balance.{chosen, packet_to}
use dns_server.Router.Remove.{IsReady}
use dns_server.Scoreboard.{Results, Scoreboard}
use dns_server.Scoreboard.Order.{fresh, log, with_answer, recieve_dns_answer-log}
use dns_server.Scoreboard.Response.{handle_response, answered_for, handle_response-recieve_request}
use dns_server.Server.{Packet}

module _ {Time : Type 0} where
  -- An answer changes no entry of another id.
  others_stay :
      (id valid_trans : ℕ) (now : Time) (q : List (Results Time))
      → All (λ (r : Results Time). r.id ≢ id) q
      → map (with_answer id valid_trans now) q ≡ q
  others_stay id valid_trans now [] h = refl
  others_stay id valid_trans now (r ∷ rest) h = rw (other, others_stay id valid_trans now rest h.1)
    where
      other : (r.id == id) ≡ false
      other = ground (arith, h.0)

  -- The scoreboard after the answer to the request that was noted last.
  answered_last :
      (board : Scoreboard Time) (r : Results Time) (valid_trans : ℕ) (now : Time)
      → All (λ (x : Results Time). x.id ≢ r.id) board.queue
      → board.results_file ++ map (with_answer r.id valid_trans now) (board.queue ++ (r ∷ []))
        ≡ log board ++ (record r { finish_time = now; recieved = 1; found = valid_trans } ∷ [])
  answered_last board r valid_trans now h =
      ap (◌++◌ board.results_file) (
        map-append (with_answer r.id valid_trans now) board.queue (r ∷ [])
        ∙ ap₂ ◌++◌ (others_stay r.id valid_trans now board.queue h) (
            ap
              (λ b.
                (if b then record r { finish_time = now; recieved = 1; found = valid_trans } else r)
                ∷ [])
              (==_refl r.id)))
      ∙ sym (
          append_assoc board.results_file board.queue
            (record r { finish_time = now; recieved = 1; found = valid_trans } ∷ []))

  -- A request from its crafting to its record: with a ready router, the server whose turn it is
  -- running, and the id of no request in the queue. The domain drawn is one of the list, which has
  -- 1 to 255 domains, all with room in the buffers of 64 bytes and without a NUL; the id fits 16 bits
  -- and is not that of the probes. One query goes to that server. Its thread, with nothing else in its
  -- inbox, answers with one datagram to the scoreboard's port, after two
  -- steps or more: it may stand at the test of `pause` or wait in `recvfrom`. The scoreboard's
  -- handler then records, behind all it had, this request with its server, its start and its end, as
  -- found exactly if the server has a translation of the domain.
  pub send_single_test-handle_response :
      (sendto : Packet → ℤ) (zero_time : Time) (domains : List Bytes) (draw : Draw Time)
      (g : Generator Time) (id : ℕ) (s : DnsServer) (stack stale : Message)
      (answer buffer pad : Bytes) (inside : Bool) (rounds : ℕ) (now : Time)
      → IsReady g.router
      → 0 < g.router.server_cnt
      → get_elem? g.router.servers (chosen g.router.mode g.router.curr_server g.router.server_cnt)
        ≡ some s
      → s.pause ≡ false
      → All (λ (r : Results Time). r.id ≢ id) g.scoreboard.queue
      → 0 < length domains
      → length domains < 256
      → All Askable domains
      → All NoNul domains
      → id < 65536
      → id ≢ probe_id
      → length draw.buffer ≡ room
      → length answer ≡ 64
      → length buffer ≡ 64
      → (i : ℕ) × (domain : Bytes) × (query : Packet) × (g' : Generator Time) × (reply : Packet)
        × (h : Handler) × (board : Scoreboard Time) × (m : Message) × (get_elem? domains i
            ≡ some domain)
        × (send_single_test sendto zero_time domains draw g id ≡ ok (query ∷ [], g'))
        × (query.port ≡ s.port_num)
        × (query_handler
              (suc (suc rounds))
              (waiting s inside stack answer buffer (query.payload ∷ []))
            ≡ ok (reply ∷ [], h))
        × (reply.port ≡ s.scoreboard_port)
        × (handle_response g'.scoreboard stale (reply.payload ++ pad) (length reply.payload) now
            ≡ ok (board, m))
        × (log board
            ≡ log g.scoreboard
              ++ (record (fresh zero_time id (s.id % 256) 0 draw.now) {
                finish_time = now;
                recieved = 1;
                found = if is_null (translate_ip s.coms domain) then 0 else 1;
              }
                  ∷ []))
  send_single_test-handle_response sendto zero_time domains draw g id s stack stale answer buffer
        pad inside rounds now v pos turn running new some_domain few askable texts range other size
        size' size'' =
      let (i, domain, q0, q2, listed, sends) =
        send_single_test-served sendto zero_time domains some_domain few askable draw g id v pos
          size turn in
      let fits : 17 + length domain ≤ 64 = All-get_elem? Askable domains i askable listed in
      let text : NoNul domain = All-get_elem? NoNul domains i texts listed in
      let g' : Generator Time = after_request zero_time g id draw s in
      let found : ℕ = if is_null (translate_ip s.coms domain) then 0 else 1 in
      let (payload, answers, m, handled) =
        handle_response-recieve_request s stack answer id domain q0 q2
          (drop (17 + length domain) buffer) g'.scoreboard stale pad now range text other
          (omega (arith, fits, size')) (omega (arith, fits)) in
      let (inside', ran, _) =
        query_handler-recieve_request s stack answer buffer id domain q0 q2 inside rounds 0 _
          (ap (λ b. b && not inside) running) size'' fits answers in
      (
        i,
        domain,
        packet_to (wire true id domain none q0 q2 []) s,
        g',
        record { port = s.scoreboard_port; ip = s.scoreboard_ip; payload = payload },
        waiting s inside' stack answer
            (wire true id domain none q0 q2 [] ++ drop (17 + length domain) buffer) [],
        answered_for g'.scoreboard id (translate_ip s.coms domain) now,
        m,
        listed,
        sends,
        refl,
        ran,
        refl,
        handled,
        (recieve_dns_answer-log g'.scoreboard id found now).0
            ∙ answered_last g.scoreboard (fresh zero_time id (s.id % 256) 0 draw.now) found now new,
      )
