-- ===== src/Generator/System/Whole.antt =====
-- A whole test: the system is started, its requests are sent while answers come in, and the
-- scoreboard is closed. No server is removed meanwhile.
use dns_server.Common.{
  sym, append-nil, take, take-append, length-map, length-append, All-append, Option, ◌%◌, ◌==◌, ℕ,
  ◌+◌, ◌<◌, ◌≡◌, refl, ◌∙◌, ap, ℤ, false, true, none, List, [], ◌∷◌, ◌++◌, map, All, Bytes, codes,
  length, get_elem?-some, ok, arith,
}
use dns_server.CliParser.{Arguments}
use dns_server.Coms.Table.{Translations}
use dns_server.DnsServer.Online.{Host}
use dns_server.FileUtils.{up_to_nul, parse_hosts_file, get_domains}
use dns_server.Generator.{Action, run_test}
use dns_server.Generator.Schedule.{ids, ascending, request_count, run_test-ids}
use dns_server.Generator.System.{Generator, main_domains, create_generator}
use dns_server.Generator.System.Request.{Askable, after_request}
use dns_server.Generator.System.Requests.{send_single_test-served}
use dns_server.Generator.System.Startup.{create_generator-IsReady}
use dns_server.Dns.Craft.{wire}
use dns_server.Router.Balance.{packet_to, chosen, chosen-lt}
use dns_server.Scoreboard.{recieve_generated_req, recieve_dns_answer, destroy_scoreboard}
use dns_server.Scoreboard.Order.{Request, run, step, logged_requests, results_file-in_order}
use dns_server.Server.{Packet}
use dns_server.Generator.System.History.{
  Happening, asks, answers, asked, HasRoom, in_turn, ids-in_turn, events, sent_requests-events,
  run_history,
}
use dns_server.Generator.System.Running.{
  IsRunning, next-IsRunning, entry-place, create_generator-IsRunning,
}

module _ {Time : Type 0} (sendto : Packet → ℤ) (zero_time : Time) (domains : List Bytes)
    (some_domain : 0 < length domains) (few : length domains < 256)
    (askable : All Askable domains) where
  run_history-events :
      (cnt k : ℕ) (history : List (Happening Time)) (g : Generator Time)
      → 0 < cnt
      → IsRunning cnt k g.router
      → All HasRoom history
      → (sent : List Packet) × (g' : Generator Time) × (run_history sendto zero_time domains history
            g
          ≡ ok (sent, g'))
        × (g'.scoreboard ≡ run zero_time g.scoreboard (events cnt k history))
  unfolding run_history run step recieve_generated_req events
  run_history-events cnt k [] g pos v sizes = ([], g, refl, refl)
  run_history-events cnt k (answers id valid_trans now ∷ rest) g pos v (_, sizes) =
      run_history-events cnt k rest
        (record g { scoreboard = (recieve_dns_answer g.scoreboard id valid_trans now).1 }) pos v
        sizes
  run_history-events cnt k (asks id draw ∷ rest) g pos v (size, sizes) =
      let (s, e) =
        get_elem?-some g.router.servers
          (chosen g.router.mode g.router.curr_server g.router.server_cnt)
          (omega (
            arith,
            chosen-lt g.router.mode g.router.curr_server g.router.server_cnt
                (omega (arith, v.counted)),
            v.ready.counted,
          )) in
      let (i, domain, q0, q2, listed, sends) =
        send_single_test-served sendto zero_time domains some_domain few askable draw g id v.ready
          (omega (arith, v.counted)) size e in
      let (sent, g', went, noted) =
        run_history-events cnt (k + 1) rest (after_request zero_time g id draw s) pos
          (next-IsRunning cnt k g.router v) sizes in
      (
        packet_to (wire true id domain none q0 q2 []) s ∷ sent,
        g',
        rw (sends, went),
        noted
            ∙ ap
                (λ n.
                  run zero_time (record g.scoreboard { queue = g.scoreboard.queue ++ (n ∷ []) })
                    (events cnt (k + 1) rest))
                (entry-place cnt k g.router v draw.now zero_time id e),
      )

-- With fewer than 255 translations in the hosts file `main` requests all their domains, and one more.
pub main_domains-lists :
    (files : Bytes → Option Bytes) (t : Translations)
    → parse_hosts_file files (codes "hosts.txt") ≡ ok t
    → length t < 255
    → main_domains files
      ≡ ok (map (λ (x : Bytes × Bytes). up_to_nul x.0) t ++ (codes "new_domain" ∷ []))
unfolding main_domains get_domains
main_domains-lists files t e few =
    rw (e, no_wrap, nonzero)
      (ap (λ l. ok (l ++ (codes "new_domain" ∷ [])))
        (ap (take (length t)) (sym (append-nil names))
          ∙ take-append (length t) names [] (length-map (λ (x : Bytes × Bytes). up_to_nul x.0) t)))
  where
    names : List Bytes
    names = map (λ (x : Bytes × Bytes). up_to_nul x.0) t

    no_wrap : length t % 256 ≡ length t
    no_wrap = omega arith

    nonzero : (((length t + 1) % 256) == 0) ≡ false
    nonzero = ground arith

run_history-kept :
    {Time : Type 0} (sendto : Packet → ℤ) (zero_time : Time) (domains : List Bytes) (host : Host)
    (t : Translations) (socket tcp_socket : ℤ) (a : Arguments) (acts : List Action)
    (history : List (Happening Time))
    → parse_hosts_file host.files (codes "hosts.txt") ≡ ok t
    → 0 < a.starting_server_cnt
    → a.starting_server_cnt < 256
    → 0 < length domains
    → length domains < 256
    → All Askable domains
    → All HasRoom history
    → run_test a ≡ ok acts
    → asked history ≡ ids acts
    → (g : Generator Time) × (sent : List Packet) × (g' : Generator Time) × (create_generator host
          socket tcp_socket a
        ≡ ok g)
      × (run_history sendto zero_time domains history g ≡ ok (sent, g'))
      × (logged_requests (destroy_scoreboard g'.scoreboard).1.results_file
          ≡ in_turn a.starting_server_cnt 0 history)
      × (map
            (λ (r : Request Time). r.0)
            (logged_requests (destroy_scoreboard g'.scoreboard).1.results_file)
          ≡ ascending 0 (request_count a))
run_history-kept {Time} sendto zero_time domains host t socket tcp_socket a acts history hosts pos
      small some_domain few askable sizes acted follows =
    let (g, created, v, listed, mode, curr, numbered, ports, empty, running, count) =
      create_generator-IsReady {Time = Time} host t socket tcp_socket a hosts small in
    let (sent, g', went, noted) =
      run_history-events sendto zero_time domains some_domain few askable a.starting_server_cnt 0
        history g pos
        (create_generator-IsRunning a.starting_server_cnt g v listed mode curr numbered) sizes in
    let kept : logged_requests (destroy_scoreboard g'.scoreboard).1.results_file
        ≡ in_turn a.starting_server_cnt 0 history =
      ap (λ s. logged_requests (destroy_scoreboard s).1.results_file)
        (noted ∙ ap (λ s. run zero_time s (events a.starting_server_cnt 0 history)) empty)
      ∙ results_file-in_order zero_time (events a.starting_server_cnt 0 history)
      ∙ sent_requests-events a.starting_server_cnt 0 history in
    let (acts', acted', numbers) = run_test-ids a in
    let same_acts : acts ≡ acts' = cc in
    (
      g,
      sent,
      g',
      created,
      went,
      kept,
      ap (map (λ (r : Request Time). r.0)) kept
          ∙ ids-in_turn a.starting_server_cnt 0 history
          ∙ follows
          ∙ ap ids same_acts
          ∙ numbers,
    )

-- A test that neither pauses nor adds a server, from the domains of `main` and `create_generator` with
-- 1 to 255 servers, to `destroy_scoreboard`. The hosts file can be read and has fewer than 255 entries,
-- whose domains have room in the buffer of 64 bytes; the history asks for the ids that `run_test`
-- sends, with answers anywhere between, and removes no server. The test runs to its end, and the results file then lists every
-- request once, in order: the `k`-th with server `k` modulo the number of servers. Their ids are all
-- the numbers below the number of requests, in ascending order.
pub run_history-results :
    {Time : Type 0} (sendto : Packet → ℤ) (zero_time : Time) (host : Host) (t : Translations)
    (socket tcp_socket : ℤ) (a : Arguments) (acts : List Action) (history : List (Happening Time))
    → parse_hosts_file host.files (codes "hosts.txt") ≡ ok t
    → length t < 255
    → All Askable (map (λ (x : Bytes × Bytes). up_to_nul x.0) t)
    → 0 < a.starting_server_cnt
    → a.starting_server_cnt < 256
    → a.randomly_disable ≡ false
    → a.add_midway ≡ false
    → All HasRoom history
    → run_test a ≡ ok acts
    → asked history ≡ ids acts
    → (domains : List Bytes) × (g : Generator Time) × (sent : List Packet) × (g' : Generator Time)
      × (main_domains host.files ≡ ok domains)
      × (create_generator host socket tcp_socket a ≡ ok g)
      × (run_history sendto zero_time domains history g ≡ ok (sent, g'))
      × (logged_requests (destroy_scoreboard g'.scoreboard).1.results_file
          ≡ in_turn a.starting_server_cnt 0 history)
      × (map
            (λ (r : Request Time). r.0)
            (logged_requests (destroy_scoreboard g'.scoreboard).1.results_file)
          ≡ ascending 0 (request_count a))
run_history-results sendto zero_time host t socket tcp_socket a acts history hosts few askable pos
      small steady fixed sizes acted follows =
    let (g, sent, g', created, went, kept, numbers) =
      run_history-kept sendto zero_time (names ++ (codes "new_domain" ∷ [])) host t socket
        tcp_socket a acts history hosts pos small (omega (arith, count)) (omega (arith, count))
        (All-append Askable names (codes "new_domain" ∷ []) askable (omega arith, tt)) sizes acted
        follows in
    (
      names ++ (codes "new_domain" ∷ []),
      g,
      sent,
      g',
      main_domains-lists host.files t hosts few,
      created,
      went,
      kept,
      numbers,
    )
  where
    names : List Bytes
    names = map (λ (x : Bytes × Bytes). up_to_nul x.0) t

    count : length (names ++ (codes "new_domain" ∷ [])) ≡ length t + 1
    count =
        length-append names (codes "new_domain" ∷ [])
        ∙ ap (λ n. n + 1) (length-map (λ (x : Bytes × Bytes). up_to_nul x.0) t)
