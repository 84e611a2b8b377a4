-- ===== src/Generator/System/History.antt =====
-- src/generator.c: the course of a test, in which requests go out and answers reach the scoreboard.
use dns_server.Common.{
  ℕ, ◌+◌, ◌%◌, ◌≡◌, refl, ap, ℤ, List, [], ◌∷◌, ◌++◌, map, Bytes, length, Outcome, ok, ◌>>=◌,
}
use dns_server.Generator.System.{Generator, Draw, send_single_test}
use dns_server.Generator.System.Request.{room}
use dns_server.Scoreboard.{recieve_dns_answer}
use dns_server.Scoreboard.Order.{Event, requested, answered, Request, sent_requests}
use dns_server.Server.{Packet}

-- What happens during a test: a request is sent, or an answer reaches the scoreboard.
pub data Happening (Time : Type 0) : Type 0 where
  asks : ℕ → Draw Time → Happening Time
  answers : ℕ → ℕ → Time → Happening Time

module _ {Time : Type 0} where
  -- The ids that are asked for.
  abbrev pub asked : List (Happening Time) → List ℕ
  asked [] = []
  asked (asks id draw ∷ rest) = id ∷ asked rest
  asked (answers id valid_trans now ∷ rest) = asked rest

  -- Each request is crafted in a buffer of 64 bytes.
  abbrev pub HasRoom : Happening Time → Type 0
  HasRoom (asks id draw) = length draw.buffer ≡ room
  HasRoom (answers id valid_trans now) = Unit {0}

  -- The requests of a test with `cnt` servers, from the `k`-th on: id, server and time.
  unfoldable pub in_turn : ℕ → ℕ → List (Happening Time) → List (Request Time)
  in_turn cnt k [] = []
  in_turn cnt k (asks id draw ∷ rest) = (id, k % cnt % 256, draw.now) ∷ in_turn cnt (k + 1) rest
  in_turn cnt k (answers id valid_trans now ∷ rest) = in_turn cnt k rest

  pub ids-in_turn :
      (cnt k : ℕ) (history : List (Happening Time))
      → map (λ (r : Request Time). r.0) (in_turn cnt k history) ≡ asked history
  unfolding in_turn
  ids-in_turn cnt k [] = refl
  ids-in_turn cnt k (asks id draw ∷ rest) = ap (◌∷◌ id) (ids-in_turn cnt (k + 1) rest)
  ids-in_turn cnt k (answers id valid_trans now ∷ rest) = ids-in_turn cnt k rest

  -- The history as the scoreboard sees it.
  unfoldable pub events : ℕ → ℕ → List (Happening Time) → List (Event Time)
  events cnt k [] = []
  events cnt k (asks id draw ∷ rest) =
      requested id (k % cnt % 256) 0 draw.now ∷ events cnt (k + 1) rest
  events cnt k (answers id valid_trans now ∷ rest) = answered id valid_trans now ∷ events cnt k rest

  pub sent_requests-events :
      (cnt k : ℕ) (history : List (Happening Time))
      → sent_requests (events cnt k history) ≡ in_turn cnt k history
  unfolding events in_turn
  sent_requests-events cnt k [] = refl
  sent_requests-events cnt k (asks id draw ∷ rest) =
      ap (◌∷◌ (id, k % cnt % 256, draw.now)) (sent_requests-events cnt (k + 1) rest)
  sent_requests-events cnt k (answers id valid_trans now ∷ rest) = sent_requests-events cnt k rest

  -- The system goes through a history.
  unfoldable pub run_history :
      (Packet → ℤ)
      → Time
      → List Bytes
      → List (Happening Time)
      → Generator Time
      → Outcome (List Packet × Generator Time)
  run_history sendto zero_time domains [] g = ok ([], g)
  run_history sendto zero_time domains (asks id draw ∷ rest) g =
      send_single_test sendto zero_time domains draw g id
      >>= (λ a. run_history sendto zero_time domains rest a.1 >>= (λ b. ok (a.0 ++ b.0, b.1)))
  run_history sendto zero_time domains (answers id valid_trans now ∷ rest) g =
      run_history sendto zero_time domains rest
        (record g { scoreboard = (recieve_dns_answer g.scoreboard id valid_trans now).1 })
