-- ===== src/Scoreboard/Flight.antt =====
-- When an entry leaves the queue: which lines the results file can hold while the test runs.
use dns_server.Common.{
  ℕ, ◌+◌, ◌≤◌, ◌≡◌, ◌≢◌, ◌⊎◌, true, List, [], ◌∷◌, ◌++◌, All, All-append, length, length-append,
  length-map, ◌==◌, Bool-cases, inl, inr, arith,
}
use dns_server.Scoreboard.{
  Results, Scoreboard, mark, is_done, flush, recieve_dns_answer, create_scoreboard,
  destroy_scoreboard,
}
use dns_server.Scoreboard.Order.{
  Event, requested, answered, with_answer, mark-map, fresh, step, step-request, run, sent_requests,
  drain-append,
}

module _ {Time : Type 0} where
  -- A line that is final: its answer came, or rate limiting removed its request.
  abbrev pub IsFinal : Results Time → Type 0
  IsFinal r = (r.recieved ≢ 0) ⊎ (r.rrl_removed ≢ 0)

  -- The front of the queue still waits for its answer.
  abbrev pub Waits : List (Results Time) → Type 0
  Waits [] = Unit {0}
  Waits (r ∷ rest) = (r.recieved ≡ 0) × (length (r ∷ rest) ≤ 65535)

  flush-Waits : (q file : List (Results Time)) → Waits (flush q file).0
  unfolding flush
  flush-Waits [] file = tt
  flush-Waits (r ∷ rest) file = elim (Bool-cases (is_done r rest)) [
    | inl done ↦ rw done (flush-Waits rest (file ++ (r ∷ [])))
    | inr waits ↦ rw waits (ground arith)
  ]

  -- After every answer the queue holds at most 65535 entries, and the first of them, if any, has no
  -- answer yet: nothing that could be written is held back.
  pub recieve_dns_answer-Waits :
      (s : Scoreboard Time) (id valid_trans : ℕ) (now : Time)
      → Waits (recieve_dns_answer s id valid_trans now).1.queue
  unfolding recieve_dns_answer
  recieve_dns_answer-Waits s id valid_trans now =
      flush-Waits (mark id valid_trans now s.queue) s.results_file

  flush-IsFinal :
      (q file : List (Results Time))
      → length q ≤ 65535
      → All IsFinal file
      → All IsFinal (flush q file).1 × (length (flush q file).0 ≤ length q)
  unfolding flush
  flush-IsFinal [] file h f = (f, omega arith)
  flush-IsFinal (r ∷ rest) file h f = elim (Bool-cases (is_done r rest)) [
    | inl done ↦
        let over =
          flush-IsFinal rest (file ++ (r ∷ [])) (omega arith)
            (All-append IsFinal file (r ∷ []) f (received done, tt)) in
        rw done (over.0, omega (arith, over.1))
    | inr waits ↦ rw waits (f, omega arith)
  ]
    where
      received : is_done r rest ≡ true → IsFinal r
      received done = inl (ground arith)

  -- The requests that a history puts into the queue.
  abbrev IsCalm : List (Event Time) → Scoreboard Time → Type 0
  IsCalm es s = length s.queue + length (sent_requests es) ≤ 65535

  step-IsFinal :
      (zero_time : Time) (s : Scoreboard Time) (e : Event Time) (es : List (Event Time))
      → IsCalm (e ∷ es) s
      → All IsFinal s.results_file
      → All IsFinal (step zero_time s e).results_file × IsCalm es (step zero_time s e)
  step-IsFinal zero_time s (answered id valid_trans now) es h f =
      unfold step recieve_dns_answer in
      let (final, shorter) =
        flush-IsFinal (mark id valid_trans now s.queue) s.results_file
          (omega (arith, marked_length)) f in
      (final, omega (arith, shorter, marked_length))
    where
      marked_length : length (mark id valid_trans now s.queue) ≡ length s.queue
      marked_length =
          rw (mark-map id valid_trans now s.queue)
            (length-map (with_answer id valid_trans now) s.queue)
  step-IsFinal zero_time s (requested id dns_id rrl_removed time) es h f =
      elim (Bool-cases (rrl_removed == 0)) [
        | inl goes ↦
            let h' = rw goes at h in
            rw (step-request zero_time s id dns_id rrl_removed time, goes)
              (f, omega (arith, length-append s.queue (entry ∷ [])))
        | inr stays ↦
            let h' = rw stays at h in
            rw (step-request zero_time s id dns_id rrl_removed time, stays)
              (All-append IsFinal s.results_file (entry ∷ []) f (inr (ground arith), tt), h')
      ]
    where
      entry : Results Time
      entry = fresh zero_time id dns_id rrl_removed time

  run-IsFinal :
      (zero_time : Time) (s : Scoreboard Time) (es : List (Event Time))
      → IsCalm es s
      → All IsFinal s.results_file
      → All IsFinal (run zero_time s es).results_file
  unfolding run
  run-IsFinal zero_time s [] h f = f
  run-IsFinal zero_time s (e ∷ es) h f =
      let (final, calm) = step-IsFinal zero_time s e es h f in
      run-IsFinal zero_time (step zero_time s e) es calm final

  -- While a test sends at most 65535 requests, the results file holds only lines of answered or
  -- rate-limited requests before `destroy_scoreboard`: none is written before its answer. What
  -- `destroy_scoreboard` writes after them are the entries still in flight, in order and as they are,
  -- answered or not.
  pub results_file-IsFinal :
      (zero_time : Time) (es : List (Event Time))
      → length (sent_requests es) ≤ 65535
      → let end = run zero_time create_scoreboard es in
        All IsFinal end.results_file
        × ((destroy_scoreboard end).1.results_file ≡ end.results_file ++ end.queue)
  unfolding create_scoreboard destroy_scoreboard
  results_file-IsFinal zero_time es h =
      let end : Scoreboard Time = run zero_time create_scoreboard es in
      (
        run-IsFinal zero_time create_scoreboard es (omega arith) tt,
        drain-append end.queue end.results_file,
      )
