-- ===== src/Scoreboard/Order.antt =====
-- The results file keeps every request once, in the order in which the requests were made.
use dns_server.Common.{
  ℕ, ◌≡◌, refl, sym, ◌∙◌, ap, true, false, List, [], ◌∷◌, ◌++◌, append_assoc, append-nil, map, ◌==◌,
  if◌then◌else◌, Bool-cases, inl, inr, arith,
}
use dns_server.Scoreboard.{
  Results, Scoreboard, write_results, recieve_generated_req, mark, is_found, is_done, flush,
  recieve_dns_answer, drain, destroy_scoreboard, create_scoreboard,
}

-- What reaches the scoreboard: a request from the generator, or an answer from a server.
pub data Event (Time : Type 0) : Type 0 where
  requested : ℕ → ℕ → ℕ → Time → Event Time
  answered : ℕ → ℕ → Time → Event Time

-- A request as the generator handed it over: id, server and start time.
abbrev pub Request : Type 0 → Type 0
Request Time = ℕ × ℕ × Time

module _ {Time : Type 0} where
  -- An entry after the answer for `id`.
  abbrev pub with_answer : ℕ → ℕ → Time → Results Time → Results Time
  with_answer id valid_trans now r =
      if r.id == id then record r { finish_time = now; recieved = 1; found = valid_trans } else r

  pub mark-map :
      (id valid_trans : ℕ) (now : Time) (q : List (Results Time))
      → mark id valid_trans now q ≡ map (with_answer id valid_trans now) q
  unfolding mark
  mark-map id valid_trans now [] = refl
  mark-map id valid_trans now (r ∷ rest) =
      ap (◌∷◌ (with_answer id valid_trans now r)) (mark-map id valid_trans now rest)

  -- Flushing moves entries from the queue to the file, and changes neither order nor contents.
  pub flush-append :
      (q file : List (Results Time)) → (flush q file).1 ++ (flush q file).0 ≡ file ++ q
  unfolding flush
  flush-append [] file = refl
  flush-append (r ∷ rest) file = elim (Bool-cases (is_done r rest)) [
    | inl done ↦ rw done (flush-append rest (file ++ (r ∷ [])) ∙ append_assoc file (r ∷ []) rest)
    | inr waits ↦ rw waits
  ]

  pub drain-append : (q file : List (Results Time)) → drain q file ≡ file ++ q
  unfolding drain write_results
  drain-append [] file = sym (append-nil file)
  drain-append (r ∷ rest) file =
      drain-append rest (file ++ (r ∷ [])) ∙ append_assoc file (r ∷ []) rest

  -- Written entries, then those still in flight.
  abbrev pub log : Scoreboard Time → List (Results Time)
  log s = s.results_file ++ s.queue

  -- An answer sets time, `recieved` and `found` of the entries with its id, keeps all entries and
  -- their order, and returns 0 exactly if there was such an entry in the queue.
  pub recieve_dns_answer-log :
      (s : Scoreboard Time) (id valid_trans : ℕ) (now : Time)
      → (log (recieve_dns_answer s id valid_trans now).1
          ≡ s.results_file ++ map (with_answer id valid_trans now) s.queue)
        × ((recieve_dns_answer s id valid_trans now).0 ≡ (if is_found id s.queue then 0 else 1))
  unfolding recieve_dns_answer
  recieve_dns_answer-log s id valid_trans now = (
    flush-append (mark id valid_trans now s.queue) s.results_file
        ∙ ap (◌++◌ s.results_file) (mark-map id valid_trans now s.queue),
    refl,
  )

  unfoldable pub step : Time → Scoreboard Time → Event Time → Scoreboard Time
  step zero_time s (requested id dns_id rrl_removed time) =
      (recieve_generated_req zero_time s id dns_id rrl_removed time).1
  step zero_time s (answered id valid_trans now) = (recieve_dns_answer s id valid_trans now).1

  unfoldable pub run : Time → Scoreboard Time → List (Event Time) → Scoreboard Time
  run zero_time s [] = s
  run zero_time s (e ∷ es) = run zero_time (step zero_time s e) es

  -- The requests of a history that were not removed by rate limiting.
  abbrev pub sent_requests : List (Event Time) → List (Request Time)
  sent_requests [] = []
  sent_requests (requested id dns_id rrl_removed time ∷ es) =
      if rrl_removed == 0 then (id, dns_id, time) ∷ sent_requests es else sent_requests es
  sent_requests (answered id valid_trans now ∷ es) = sent_requests es

  -- The same, as the log shows them.
  abbrev pub logged_requests : List (Results Time) → List (Request Time)
  logged_requests [] = []
  logged_requests (r ∷ rest) =
      if r.rrl_removed == 0
      then (r.id, r.dns_id, r.start_time) ∷ logged_requests rest
      else logged_requests rest

  logged_requests-append :
      (xs ys : List (Results Time))
      → logged_requests (xs ++ ys) ≡ logged_requests xs ++ logged_requests ys
  logged_requests-append [] ys = refl
  logged_requests-append (x ∷ xs) ys = elim (Bool-cases (x.rrl_removed == 0)) [
    | inl kept ↦ rw kept (ap (◌∷◌ (x.id, x.dns_id, x.start_time)) (logged_requests-append xs ys))
    | inr left ↦ rw left (logged_requests-append xs ys)
  ]

  logged_requests-answer :
      (id valid_trans : ℕ) (now : Time) (q : List (Results Time))
      → logged_requests (map (with_answer id valid_trans now) q) ≡ logged_requests q
  logged_requests-answer id valid_trans now [] = refl
  logged_requests-answer id valid_trans now (r ∷ rest) =
      ground (arith, logged_requests-answer id valid_trans now rest)

  -- The entry of a new request.
  abbrev pub fresh : Time → ℕ → ℕ → ℕ → Time → Results Time
  fresh zero_time id dns_id rrl_removed time = record {
    start_time = time;
    id = id;
    dns_id = dns_id;
    rrl_removed = rrl_removed;
    recieved = 0;
    finish_time = zero_time;
    found = 0;
  }

  -- A request goes into the queue, or straight into the file if rate limiting removed it.
  pub step-request :
      (zero_time : Time) (s : Scoreboard Time) (id dns_id rrl_removed : ℕ) (time : Time)
      → let entry = fresh zero_time id dns_id rrl_removed time in
        step zero_time s (requested id dns_id rrl_removed time) ≡ (
          if rrl_removed == 0
          then record s { queue = s.queue ++ (entry ∷ []) }
          else record s { results_file = s.results_file ++ (entry ∷ []) })
  unfolding step recieve_generated_req write_results
  step-request zero_time s id dns_id rrl_removed time = ground arith

  log-request :
      (zero_time : Time) (s : Scoreboard Time) (id dns_id rrl_removed : ℕ) (time : Time)
      → log (step zero_time s (requested id dns_id rrl_removed time)) ≡ (
          if rrl_removed == 0
          then s.results_file ++ (s.queue ++ (fresh zero_time id dns_id rrl_removed time ∷ []))
          else (s.results_file ++ (fresh zero_time id dns_id rrl_removed time ∷ [])) ++ s.queue)
  unfolding step recieve_generated_req write_results
  log-request zero_time s id dns_id rrl_removed time = ground arith

  step-logged :
      (zero_time : Time) (s : Scoreboard Time) (e : Event Time) (es : List (Event Time))
      → logged_requests (log (step zero_time s e)) ++ sent_requests es
        ≡ logged_requests (log s) ++ sent_requests (e ∷ es)
  unfolding step
  step-logged zero_time s (answered id valid_trans now) es =
      ap (λ l. l ++ sent_requests es)
        (ap logged_requests (recieve_dns_answer-log s id valid_trans now).0
          ∙ logged_requests-append s.results_file (map (with_answer id valid_trans now) s.queue)
          ∙ ap (◌++◌ (logged_requests s.results_file))
              (logged_requests-answer id valid_trans now s.queue)
          ∙ sym (logged_requests-append s.results_file s.queue))
  step-logged zero_time s (requested id dns_id rrl_removed time) es =
      elim (Bool-cases (rrl_removed == 0)) [
        | inl goes ↦
            rw
              (
                log-request zero_time s id dns_id rrl_removed time,
                goes,
                ← append_assoc s.results_file s.queue (entry ∷ []),
                logged_requests-append (log s) (entry ∷ []),
              )
              (queued goes)
        | inr stays ↦
            rw
              (
                log-request zero_time s id dns_id rrl_removed time,
                stays,
                logged_requests-append (s.results_file ++ (entry ∷ [])) s.queue,
                logged_requests-append s.results_file (entry ∷ []),
                logged_requests-append s.results_file s.queue,
              )
              (ap (λ l. (l ++ logged_requests s.queue) ++ sent_requests es) (written stays))
      ]
    where
      entry : Results Time
      entry = fresh zero_time id dns_id rrl_removed time

      queued :
          (rrl_removed == 0) ≡ true
          → (logged_requests (log s) ++ logged_requests (entry ∷ [])) ++ sent_requests es
            ≡ logged_requests (log s) ++ ((id, dns_id, time) ∷ sent_requests es)
      queued goes =
          rw goes
            (append_assoc (logged_requests (log s)) ((id, dns_id, time) ∷ []) (sent_requests es))

      written :
          (rrl_removed == 0) ≡ false
          → logged_requests s.results_file ++ logged_requests (entry ∷ [])
            ≡ logged_requests s.results_file
      written stays = rw stays (append-nil (logged_requests s.results_file))

  run-logged :
      (zero_time : Time) (s : Scoreboard Time) (es : List (Event Time))
      → logged_requests (log (run zero_time s es)) ≡ logged_requests (log s) ++ sent_requests es
  unfolding run
  run-logged zero_time s [] = sym (append-nil (logged_requests (log s)))
  run-logged zero_time s (e ∷ es) =
      run-logged zero_time (step zero_time s e) es ∙ step-logged zero_time s e es

  -- After any history of requests and answers, once the scoreboard is destroyed, the results file
  -- lists every request that was not rate-limited exactly once, with its server and start time, in
  -- the order in which the requests were made.
  pub results_file-in_order :
      (zero_time : Time) (es : List (Event Time))
      → logged_requests (destroy_scoreboard (run zero_time create_scoreboard es)).1.results_file
        ≡ sent_requests es
  unfolding destroy_scoreboard create_scoreboard
  results_file-in_order zero_time es =
      let end : Scoreboard Time = run zero_time create_scoreboard es in
      ap logged_requests (drain-append end.queue end.results_file)
      ∙ run-logged zero_time create_scoreboard es
