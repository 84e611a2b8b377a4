-- ===== src/Scoreboard.antt =====
-- src/scoreboard.cc and include/scoreboard.h: the queue of requests in flight and the results file.
-- The times are doubles that the code only stores: their type is a parameter, and so is 0.0. The
-- file is the list of the records written, each being one line. The lock is taken and given back by
-- each function's lock_guard, so a call is one step. The deque's front is the head of the list.
pub mod Order
pub mod Flight
pub mod Response
pub mod Tests
use dns_server.Common.{
  ℕ, ◌≡◌, Bool, true, false, not, ◌&&◌, ◌||◌, List, [], ◌∷◌, ◌++◌, map, length, ltb, ◌==◌,
  if◌then◌else◌,
}

-- `results_t`
pub record Results (Time : Type 0) : Type 0 where
  pub start_time : Time
  pub id : ℕ
  pub dns_id : ℕ
  pub rrl_removed : ℕ
  pub recieved : ℕ
  pub finish_time : Time
  pub found : ℕ

-- `scoreboard_t`: the queue and the results file.
pub record Scoreboard (Time : Type 0) : Type 0 where
  pub queue : List (Results Time)
  pub results_file : List (Results Time)

module _ {Time : Type 0} where
  -- `write_results`. It returns `0 < fprintf(…)`, so 1 for a line that was written.
  unfoldable pub write_results : List (Results Time) → Results Time → ℕ × List (Results Time)
  write_results file r = (1, file ++ (r ∷ []))

  -- `recieve_generated_req`
  unfoldable pub recieve_generated_req :
      Time → Scoreboard Time → ℕ → ℕ → ℕ → Time → ℕ × Scoreboard Time
  unfolding write_results
  recieve_generated_req zero_time s id dns_id rrl_removed elapsed_time =
      let results : Results Time = record {
        start_time = elapsed_time;
        id = id;
        dns_id = dns_id;
        rrl_removed = rrl_removed;
        recieved = 0;
        finish_time = zero_time;
        found = 0;
      } in
      if rrl_removed == 0
      then (0, record s { queue = s.queue ++ (results ∷ []) })
      else (0, record s { results_file = (write_results s.results_file results).1 })

  -- The loop of `recieve_dns_answer` over the deque: every entry with the id is marked.
  unfoldable pub mark : ℕ → ℕ → Time → List (Results Time) → List (Results Time)
  mark id valid_trans now [] = []
  mark id valid_trans now (r ∷ rest) =
      (if r.id == id then record r { finish_time = now; recieved = 1; found = valid_trans } else r)
      ∷ mark id valid_trans now rest

  unfoldable pub is_found : ℕ → List (Results Time) → Bool
  is_found id [] = false
  is_found id (r ∷ rest) = (r.id == id) || is_found id rest

  -- The condition under which the front is written and popped.
  unfoldable pub is_done : Results Time → List (Results Time) → Bool
  is_done r rest = not (r.recieved == 0) || ltb 0xFFFF (length (r ∷ rest))

  -- The second loop, which takes finished entries off the front: the queue and the file.
  unfoldable pub flush :
      List (Results Time) → List (Results Time) → List (Results Time) × List (Results Time)
  unfolding is_done write_results
  flush [] file = ([], file)
  flush (r ∷ rest) file =
      let popped = flush rest (write_results file r).1 in
      if is_done r rest then popped else (r ∷ rest, file)

  -- `recieve_dns_answer`, at the time that `get_time_elapsed` returns.
  unfoldable pub recieve_dns_answer : Scoreboard Time → ℕ → ℕ → Time → ℕ × Scoreboard Time
  unfolding mark is_found flush
  recieve_dns_answer s id valid_trans now =
      let (queue, file) = flush (mark id valid_trans now s.queue) s.results_file in
      (if is_found id s.queue then 0 else 1, record { queue = queue; results_file = file })

  -- The loop of `destroy_scoreboard`: whatever is left is written, and the queue is empty.
  unfoldable pub drain : List (Results Time) → List (Results Time) → List (Results Time)
  unfolding write_results
  drain [] file = file
  drain (r ∷ rest) file = drain rest (write_results file r).1

  unfoldable pub destroy_scoreboard : Scoreboard Time → ℕ × Scoreboard Time
  unfolding drain
  destroy_scoreboard s = (0, record { queue = []; results_file = drain s.queue s.results_file })

  -- The value of `create_scoreboard`: an empty queue and a file opened for writing.
  unfoldable pub create_scoreboard : Scoreboard Time
  create_scoreboard = record { queue = []; results_file = [] }
