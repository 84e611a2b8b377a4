-- ===== src/Scoreboard/Tests.antt =====
-- Runs of the scoreboard with numbers for times, and its theorems at concrete inputs.
use dns_server.Common.{◌++◌, ℕ, ◌+◌, ◌≡◌, refl, List, [], ◌∷◌, All, map, arith}
use dns_server.Scoreboard.{
  Results, Scoreboard, recieve_dns_answer, create_scoreboard, destroy_scoreboard, is_found,
}
use dns_server.Scoreboard.Order.{
  Event, requested, answered, run, logged_requests, log, with_answer, recieve_dns_answer-log,
  results_file-in_order,
}
use dns_server.Scoreboard.Flight.{IsFinal, Waits, recieve_dns_answer-Waits, results_file-IsFinal}

abbrev line : ℕ → ℕ → ℕ → Results ℕ
line id recieved finish = record {
  start_time = 10 + id;
  id = id;
  dns_id = 2;
  rrl_removed = 0;
  recieved = recieved;
  finish_time = finish;
  found = recieved;
}

abbrev history : List (Event ℕ)
history =
    requested 0 2 0 10
    ∷ requested 1 2 0 11
    ∷ requested 2 2 1 12
    ∷ answered 1 1 20
    ∷ answered 0 1 21
    ∷ []

abbrev waiting : Scoreboard ℕ
waiting = record { queue = line 0 0 0 ∷ line 1 1 20 ∷ []; results_file = [] }

answer_runs :
    recieve_dns_answer waiting 0 1 30
    ≡ (0, record { queue = []; results_file = line 0 1 30 ∷ line 1 1 20 ∷ [] })
unfolding recieve_dns_answer
answer_runs = refl

recieve_dns_answer-log_example :
    (log (recieve_dns_answer waiting 1 0 30).1 ≡ map (with_answer 1 0 30) (waiting.queue))
    × ((recieve_dns_answer waiting 1 0 30).0 ≡ 0)
unfolding is_found
recieve_dns_answer-log_example = recieve_dns_answer-log waiting 1 0 30

results_file-in_order_example :
    logged_requests (destroy_scoreboard (run 0 create_scoreboard history)).1.results_file
    ≡ (0, 2, 10) ∷ (1, 2, 11) ∷ []
results_file-in_order_example = results_file-in_order 0 history

recieve_dns_answer-Waits_example : Waits (recieve_dns_answer waiting 7 0 30).1.queue
recieve_dns_answer-Waits_example = recieve_dns_answer-Waits waiting 7 0 30

results_file-IsFinal_example :
    let end = run 0 create_scoreboard history in
    All IsFinal end.results_file
    × ((destroy_scoreboard end).1.results_file ≡ end.results_file ++ end.queue)
results_file-IsFinal_example = results_file-IsFinal 0 history (omega arith)
