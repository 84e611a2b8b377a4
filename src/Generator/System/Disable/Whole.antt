-- ===== src/Generator/System/Disable/Whole.antt =====
-- A whole test with -d, from the domains of `main` and `create_generator` to the results file.
use dns_server.Common.{
  Bool, false, ◌||◌, ◌==◌, ℕ, ◌+◌, ◌-◌, ◌<◌, ◌≡◌, ◌≢◌, refl, sym, ◌∙◌, ap, ℤ, true, List, [], ◌∷◌,
  ◌++◌, map, length, length-append, length-map, All, All-append, get_elem?, Bytes, codes, ok, arith,
}
use mathlib.Core.List.{map-append, append_assoc}
use mathlib.Core.Path.{ap₂}
use dns_server.CliParser.{Arguments}
use dns_server.Coms.Table.{Translations}
use dns_server.DnsServer.{DnsServer}
use dns_server.DnsServer.Online.{Host}
use dns_server.FileUtils.{up_to_nul, parse_hosts_file}
use dns_server.Generator.{Action, run_test}
use dns_server.Generator.Schedule.{ids, ascending, request_count, run_test-ids}
use dns_server.Generator.System.{Generator, main_domains, create_generator}
use dns_server.Generator.System.Disable.{
  Moment, asks, answers, pauses, polls, Poll, run_moments, acted, asked, HasRoom, request_ids,
  pause_id, kept, HasNoPause, reach_may, reach, Goes,
}
use dns_server.Generator.System.Disable.Made.{made-HasLast, made-IsSound}
use dns_server.Generator.System.Disable.Requests.{Goes-append, Goes-avoids}
use dns_server.Generator.System.Disable.Running.{HasLast, run_moments-Goes}
use dns_server.Generator.System.Disable.Servers.{
  IsSound, reach-IsSound, reach-IsNot, pause_id-IsSound, kept-IsSound,
}
use dns_server.Generator.System.Request.{Askable}
use dns_server.Generator.System.Startup.{create_generator-IsReady}
use dns_server.Generator.System.Whole.{main_domains-lists}
use dns_server.Scoreboard.{destroy_scoreboard}
use dns_server.Scoreboard.Order.{Request, run, logged_requests, results_file-in_order}
use dns_server.Server.{Packet}

module _ {Time : Type 0} where
  asked-append : (l r : List (Moment Time)) → asked (l ++ r) ≡ asked l ++ asked r
  asked-append [] r = refl
  asked-append (asks id draw ∷ l) r = ap (◌∷◌ id) (asked-append l r)
  asked-append (answers id valid_trans now ∷ l) r = asked-append l r
  asked-append (pauses ∷ l) r = asked-append l r
  asked-append (polls p ∷ l) r = asked-append l r

  ids-acted : (history : List (Moment Time)) → ids (acted history) ≡ asked history
  unfolding ids
  ids-acted [] = refl
  ids-acted (asks id draw ∷ rest) = ap (◌∷◌ id) (ids-acted rest)
  ids-acted (answers id valid_trans now ∷ rest) = ids-acted rest
  ids-acted (pauses ∷ rest) = ids-acted rest
  ids-acted (polls p ∷ rest) = ids-acted rest

  -- A history in which two rounds of probing follow a pause.
  abbrev pub probed_twice :
      (before middle between after : List (Moment Time)) → Poll → Poll → List (Moment Time)
  probed_twice before middle between after p q =
      before ++ (pauses ∷ (middle ++ (polls p ∷ (between ++ (polls q ∷ after)))))

  -- What `Goes-append` gives for one part, with the ids of all requests.
  joined_ids :
      (earlier later : List (Request Time)) (l r : List (Moment Time))
      → request_ids earlier ≡ asked l
      → request_ids later ≡ asked r
      → request_ids (earlier ++ later) ≡ asked (l ++ r)
  joined_ids earlier later l r e f =
      map-append (λ (x : Request Time). x.0) earlier later ∙ ap₂ ◌++◌ e f ∙ sym (asked-append l r)

  -- The requests after a pause and two later rounds of probing avoid the last server.
  Goes-parts :
      (last : ℕ) (before middle between after : List (Moment Time)) (p q : Poll) (may : ℕ → Bool)
      (servers : List DnsServer) (requests : List (Request Time))
      → IsSound last servers
      → HasNoPause between
      → Goes last may servers (probed_twice before middle between after p q) requests
      → (earlier : List (Request Time)) × (later : List (Request Time)) × (requests
          ≡ earlier ++ later)
        × (request_ids requests ≡ asked (probed_twice before middle between after p q))
        × (request_ids later ≡ asked after)
        × All (λ (r : Request Time). r.1 ≢ last) later
  Goes-parts last before middle between after p q may servers requests sound quiet goes =
      let may₁ : ℕ → Bool = λ id. last == id || reach_may last before may id in
      let listed : List DnsServer = reach last before may servers in
      let paused : List DnsServer = pause_id last listed in
      let probed : List DnsServer =
        kept (reach_may last middle may₁) p (reach last middle may₁ paused) in
      let left : List DnsServer =
        kept (reach_may last between (λ _. false)) q (reach last between (λ _. false) probed) in
      let last_part : List (Moment Time) = between ++ (polls q ∷ after) in
      let (a, rest, split, ids_a, goes_a) =
        Goes-append last before (pauses ∷ (middle ++ (polls p ∷ last_part))) may servers requests
          goes in
      let (b, rest', split', ids_b, goes_b) =
        Goes-append last middle (polls p ∷ last_part) may₁ paused rest goes_a in
      let (c, later, split'', ids_c, goes_c) =
        Goes-append last between (polls q ∷ after) (λ _. false) probed rest' goes_b in
      let sound' : IsSound last left =
        kept-IsSound last (reach_may last between (λ _. false)) q
          (reach last between (λ _. false) probed)
          (reach-IsSound last between (λ _. false) probed
            (kept-IsSound last (reach_may last middle may₁) p (reach last middle may₁ paused) (
              reach-IsSound last middle may₁ paused
                (pause_id-IsSound last listed (reach-IsSound last before may servers sound))))) in
      let (avoided, ids_later) =
        Goes-avoids last after (λ _. false) left later sound'.bytes
          (reach-IsNot last middle between p q (reach_may last before may) listed quiet) goes_c in
      (
        a ++ (b ++ c),
        later,
        split
            ∙ ap (λ l. a ++ l) (split' ∙ ap (λ l. b ++ l) split'')
            ∙ sym (append_assoc a (b ++ c) later ∙ ap (λ l. a ++ l) (append_assoc b c later)),
        ap request_ids split
            ∙ joined_ids a rest before (pauses ∷ (middle ++ (polls p ∷ last_part))) ids_a (
                ap request_ids split'
                ∙ joined_ids b rest' middle (polls p ∷ last_part) ids_b (
                    ap request_ids split''
                    ∙ joined_ids c later between (polls q ∷ after) ids_c ids_later)),
        ids_later,
        avoided,
      )

-- A whole test with -d and 2 to 255 servers, from the domains of `main` and `create_generator` to
-- `destroy_scoreboard`. The hosts file can be read and has fewer than 255 entries, whose domains have
-- room in the buffer of 64 bytes; what `run_test` does happens in its order, with answers and rounds
-- of probing anywhere between. Two rounds follow a pause of the last server, without another pause
-- between the two. In a round the threads that take the probe have nothing else in their inboxes,
-- and the router hears all answers; a thread that waits in `recvfrom` takes it even if its server has
-- been paused since. The test runs to its end, and the results file then lists every request once, in
-- order, with the ids from 0 to 2549. Once the second round has ended, no request goes to the last
-- server.
pub run_moments-results :
    {Time : Type 0} (sendto : Packet → ℤ) (zero_time : Time) (host : Host) (t : Translations)
    (socket tcp_socket : ℤ) (a : Arguments) (acts : List Action)
    (before middle between after : List (Moment Time)) (p q : Poll) (may : ℕ → Bool)
    → parse_hosts_file host.files (codes "hosts.txt") ≡ ok t
    → length t < 255
    → All Askable (map (λ (x : Bytes × Bytes). up_to_nul x.0) t)
    → 1 < a.starting_server_cnt
    → a.starting_server_cnt < 256
    → a.randomly_disable ≡ true
    → HasNoPause between
    → All HasRoom (probed_twice before middle between after p q)
    → run_test a ≡ ok acts
    → acted (probed_twice before middle between after p q) ≡ acts
    → (domains : List Bytes) × (g : Generator Time) × (g' : Generator Time) × (earlier : List
        (Request Time))
      × (later : List (Request Time)) × (main_domains host.files ≡ ok domains)
      × (create_generator host socket tcp_socket a ≡ ok g)
      × (run_moments sendto zero_time domains (probed_twice before middle between after p q) may g
          ≡ ok g')
      × (logged_requests (destroy_scoreboard g'.scoreboard).1.results_file ≡ earlier ++ later)
      × (request_ids (earlier ++ later) ≡ ascending 0 2550)
      × (request_ids later ≡ asked after)
      × All (λ (r : Request Time). r.1 ≢ a.starting_server_cnt - 1) later
run_moments-results {Time} sendto zero_time host t socket tcp_socket a acts before middle between
      after p q may hosts few askable two small disable quiet sizes acts_eq follows =
    let history : List (Moment Time) = probed_twice before middle between after p q in
    let (g, created, v, listed, mode, curr, numbered, ports, empty, running, count) =
      create_generator-IsReady {Time = Time} host t socket tcp_socket a hosts small in
    let sound : IsSound (a.starting_server_cnt - 1) g.dns_servers =
      made-IsSound g.dns_servers a.starting_server_cnt numbered two small running in
    let (last, found, named_last) =
      made-HasLast g.dns_servers a.starting_server_cnt numbered (omega arith) in
    let there : HasLast (a.starting_server_cnt - 1) g =
      (last, ap (λ n. get_elem? g.dns_servers (n - 1)) count ∙ found, named_last) in
    let (g', es, went, noted, goes) =
      run_moments-Goes sendto zero_time domains (omega (arith, size)) (omega (arith, size))
        (All-append Askable names (codes "new_domain" ∷ []) askable (omega arith, tt))
        (a.starting_server_cnt - 1) history may g.dns_servers g v listed sound there sizes in
    let (earlier, later, split, named, named', avoided) =
      Goes-parts (a.starting_server_cnt - 1) before middle between after p q may g.dns_servers _
        sound quiet goes in
    let (acts', acted', numbers) = run_test-ids a in
    let same_acts : acts ≡ acts' = cc in
    (
      domains,
      g,
      g',
      earlier,
      later,
      main_domains-lists host.files t hosts few,
      created,
      went,
      ap (λ s. logged_requests (destroy_scoreboard s).1.results_file)
            (noted ∙ ap (λ s. run zero_time s es) empty)
          ∙ results_file-in_order zero_time es
          ∙ split,
      ap request_ids (sym split)
          ∙ named
          ∙ sym (ids-acted history)
          ∙ ap ids (follows ∙ same_acts)
          ∙ numbers
          ∙ all_ids,
      named',
      avoided,
    )
  where
    names : List Bytes
    names = map (λ (x : Bytes × Bytes). up_to_nul x.0) t

    domains : List Bytes
    domains = names ++ (codes "new_domain" ∷ [])

    size : length domains ≡ length t + 1
    size =
        length-append names (codes "new_domain" ∷ [])
        ∙ ap (λ n. n + 1) (length-map (λ (x : Bytes × Bytes). up_to_nul x.0) t)

    all_ids : ascending 0 (request_count a) ≡ ascending 0 2550
    all_ids = rw disable
