-- ===== src/Generator/System/Course.antt =====
-- src/generator.c, src/router.c: a test in which the list of servers changes: between the requests and
-- the answers the router probes its servers and removes the silent ones, and servers join.
use dns_server.Common.{
  ℕ, ◌%◌, ◌≤◌, ◌<◌, ◌≡◌, refl, sym, ◌∙◌, ap, ℤ, some, List, [], ◌∷◌, ◌++◌, map, All, keep_if,
  Distinct, Option, Bytes, length, get_elem?, Outcome, ok, ◌>>=◌, arith,
}
use dns_server.DnsServer.{DnsServer}
use dns_server.Generator.System.{Generator, Draw, send_single_test}
use dns_server.Generator.System.Request.{room, Askable, after_request}
use dns_server.Generator.System.Turn.{send_single_test-listed}
use dns_server.Router.{add_dns_server, query_response_time}
use dns_server.Router.Probe.{query_response_time-survivors}
use dns_server.Router.Remove.{IsReady, with_server, add_dns_server-with_server, with_server-IsReady}
use dns_server.Router.Survivors.{answered, ByteIds}
use dns_server.Scoreboard.{
  recieve_generated_req, recieve_dns_answer, create_scoreboard, destroy_scoreboard,
}
use dns_server.Scoreboard.Order.{
  Event, Request, run, step, sent_requests, logged_requests, results_file-in_order,
}
use dns_server.Server.{Packet}

-- What happens: a request, an answer, a round of probing with what the router hears, and a server that
-- is added.
pub data Occurrence (Time : Type 0) : Type 0 where
  asks : ℕ → Draw Time → Occurrence Time
  answers : ℕ → ℕ → Time → Occurrence Time
  probes : Bytes → ℕ → List (Option ℕ) → Occurrence Time
  joins : DnsServer → Occurrence Time

-- The servers that a round of probing leaves.
abbrev pub survivors : ℕ → List (Option ℕ) → List DnsServer → List DnsServer
survivors byte replies = keep_if (λ (s : DnsServer). answered byte replies s.id)

module _ {Time : Type 0} where
  -- Some server is there for each request, at most 255 are there, and in each round of probing their
  -- ids are distinct bytes. The buffers have the sizes that the code gives them.
  abbrev pub Serves : List DnsServer → List (Occurrence Time) → Type 0
  Serves servers [] = Unit {0}
  Serves servers (asks id draw ∷ rest) =
      (0 < length servers) × (length draw.buffer ≡ room) × Serves servers rest
  Serves servers (answers id valid_trans now ∷ rest) = Serves servers rest
  Serves servers (probes buffer byte replies ∷ rest) =
      (17 ≤ length buffer)
      × ByteIds servers
      × Distinct (map (λ (s : DnsServer). s.id) servers)
      × Serves (survivors byte replies servers) rest
  Serves servers (joins s ∷ rest) = (length servers < 255) × Serves (servers ++ (s ∷ [])) rest

  -- Each request goes to a server that is listed at that time.
  abbrev pub Assigned : List DnsServer → List (Occurrence Time) → List (Request Time) → Type 0
  Assigned servers [] requests = requests ≡ []
  Assigned servers (asks id draw ∷ rest) requests =
      (i : ℕ) × (s : DnsServer) × (later : List (Request Time)) × (get_elem? servers i ≡ some s)
      × (requests ≡ (id, s.id % 256, draw.now) ∷ later)
      × Assigned servers rest later
  Assigned servers (answers id valid_trans now ∷ rest) requests = Assigned servers rest requests
  Assigned servers (probes buffer byte replies ∷ rest) requests =
      Assigned (survivors byte replies servers) rest requests
  Assigned servers (joins s ∷ rest) requests = Assigned (servers ++ (s ∷ [])) rest requests

  unfoldable pub run_course :
      (Packet → ℤ)
      → Time
      → List Bytes
      → List (Occurrence Time)
      → Generator Time
      → Outcome (Generator Time)
  run_course sendto zero_time domains [] g = ok g
  run_course sendto zero_time domains (asks id draw ∷ rest) g =
      send_single_test sendto zero_time domains draw g id
      >>= (λ a. run_course sendto zero_time domains rest a.1)
  run_course sendto zero_time domains (answers id valid_trans now ∷ rest) g =
      run_course sendto zero_time domains rest
        (record g { scoreboard = (recieve_dns_answer g.scoreboard id valid_trans now).1 })
  run_course sendto zero_time domains (probes buffer byte replies ∷ rest) g =
      query_response_time g.router buffer (λ q. q) byte replies
      >>= (λ a. run_course sendto zero_time domains rest (record g { router = a.2 }))
  run_course sendto zero_time domains (joins s ∷ rest) g =
      add_dns_server g.router s
      >>= (λ a. run_course sendto zero_time domains rest (record g { router = a.1 }))

module _ {Time : Type 0} (sendto : Packet → ℤ) (zero_time : Time) (domains : List Bytes)
    (some_domain : 0 < length domains) (few : length domains < 256)
    (askable : All Askable domains) where
  run_course-Assigned :
      (course : List (Occurrence Time)) (servers : List DnsServer) (g : Generator Time)
      → IsReady g.router
      → g.router.servers ≡ servers
      → Serves servers course
      → (g' : Generator Time) × (es : List (Event Time)) × (run_course sendto zero_time domains
            course g
          ≡ ok g')
        × (g'.scoreboard ≡ run zero_time g.scoreboard es)
        × Assigned servers course (sent_requests es)
  unfolding run_course run step recieve_generated_req
  run_course-Assigned [] servers g v listed serves = (g, [], refl, refl, refl)
  run_course-Assigned (answers id valid_trans now ∷ rest) servers g v listed serves =
      let (g', es, ran, noted, assigned) =
        run_course-Assigned rest servers
          (record g { scoreboard = (recieve_dns_answer g.scoreboard id valid_trans now).1 }) v
          listed serves in
      (g', Event.answered id valid_trans now ∷ es, ran, noted, assigned)
  run_course-Assigned (asks id draw ∷ rest) servers g v listed (some_server, size, serves) =
      let (sent, i, s, place, sends, v') =
        send_single_test-listed sendto zero_time domains some_domain few askable draw g id servers v
          listed some_server size in
      let (g', es, ran, noted, assigned) =
        run_course-Assigned rest servers (after_request zero_time g id draw s) v' listed serves in
      (
        g',
        Event.requested id (s.id % 256) 0 draw.now ∷ es,
        rw (sends, ran),
        noted,
        (i, s, sent_requests es, place, refl, assigned),
      )
  run_course-Assigned (probes buffer byte replies ∷ rest) servers g v listed
        (space, bytes, distinct, serves) =
      let (payload, r, round, left, v') =
        query_response_time-survivors g.router buffer byte replies v space (rw listed bytes)
          (rw listed distinct) in
      let (g', es, ran, noted, assigned) =
        run_course-Assigned rest (survivors byte replies servers) (record g { router = r }) v'
          (left ∙ ap (survivors byte replies) listed) serves in
      (g', es, rw (round, ran), noted, assigned)
  run_course-Assigned (joins s ∷ rest) servers g v listed (small, serves) =
      let (g', es, ran, noted, assigned) =
        run_course-Assigned rest (servers ++ (s ∷ []))
          (record g { router = with_server g.router s })
          (with_server-IsReady g.router s v few_servers) (ap (λ l. l ++ (s ∷ [])) listed) serves in
      (g', es, rw (add_dns_server-with_server g.router s v few_servers, ran), noted, assigned)
    where
      few_servers : g.router.server_cnt < 255
      few_servers = omega (arith, small, sym v.counted ∙ ap length listed)

  -- A test in which the router probes its servers and servers join while requests are made and
  -- answers come in: from a ready router and a new scoreboard, with 1 to 255 domains that have room in
  -- the buffers of 64 bytes. When a request is made some server is there, when one joins fewer than
  -- 255 are, and in each round of probing nothing else happens and the ids are distinct bytes. The
  -- test runs to its end, and the results file then lists every request once, in order, each with a
  -- server that is listed at that time: those of the beginning and those that joined, less those
  -- that a round of probing before it found silent.
  pub run_course-results :
      (course : List (Occurrence Time)) (g : Generator Time)
      → IsReady g.router
      → g.scoreboard ≡ create_scoreboard
      → Serves g.router.servers course
      → (g' : Generator Time) × (run_course sendto zero_time domains course g ≡ ok g')
        × Assigned g.router.servers course
            (logged_requests (destroy_scoreboard g'.scoreboard).1.results_file)
  run_course-results course g v empty serves =
      let (g', es, ran, noted, assigned) =
        run_course-Assigned course g.router.servers g v refl serves in
      let filed : logged_requests (destroy_scoreboard g'.scoreboard).1.results_file
          ≡ sent_requests es =
        ap (λ s. logged_requests (destroy_scoreboard s).1.results_file)
          (noted ∙ ap (λ s. run zero_time s es) empty)
        ∙ results_file-in_order zero_time es in
      (g', ran, rw filed assigned)
