-- ===== src/Generator/System/Disable/Tests.antt =====
-- A test with -d on the three servers of a small system: the router probes
-- them twice right after the pause, and in the first round the thread of the paused server still waits
-- in `recvfrom`.
use dns_server.Common.{
  false, ℕ, ◌+◌, ◌≡◌, ◌≢◌, refl, pos, true, List, [], ◌∷◌, ◌++◌, All, All-append, Bytes, codes,
  replicate, text_eq, ok, arith,
}
use dns_server.CliParser.{Arguments, defaults}
use dns_server.Dns.Tests.{blank, packet_buffer}
use dns_server.FileUtils.{parse_hosts_file, parse_lines, parse_line, lines_of, read_word}
use dns_server.Generator.{sends, rounds, after_disable, run_test}
use dns_server.Generator.Schedule.{ascending}
use dns_server.Generator.System.{Generator, main_domains, create_generator}
use dns_server.Generator.System.Disable.{
  Moment, asks, answers, pauses, polls, Poll, run_moments, acted, asked, HasRoom, request_ids,
}
use dns_server.Generator.System.Disable.Whole.{probed_twice, run_moments-results}
use dns_server.Generator.System.Tests.{machine, draw}
use dns_server.Router.Tests.{delivers}
use dns_server.Scoreboard.{destroy_scoreboard}
use dns_server.Scoreboard.Order.{Request, logged_requests}

abbrev disabling : Arguments
disabling = record defaults { randomly_disable = true }

abbrev poll_once : Poll
poll_once = record {
  packet_buffer = replicate 64 9;
  byte = 0;
  rounds = 0;
  inside = λ s. true;
  stack = λ s. blank;
  answer = λ s. packet_buffer;
  buffer = λ s. replicate 64 7;
}

-- The requests of some ids, each answered at once.
abbrev answered_requests : List ℕ → List (Moment ℕ)
answered_requests [] = []
answered_requests (id ∷ rest) = asks id (draw id) ∷ answers id 1 (id + 2) ∷ answered_requests rest

answered_requests-HasRoom : (l : List ℕ) → All HasRoom (answered_requests l)
answered_requests-HasRoom [] = tt
answered_requests-HasRoom (id ∷ rest) = (refl, (tt, answered_requests-HasRoom rest))

abbrev first_part : List (Moment ℕ)
first_part = answered_requests (ascending 0 255)

abbrev last_part : List (Moment ℕ)
last_part = answered_requests (ascending 255 2295)

abbrev whole_test : List (Moment ℕ)
whole_test = probed_twice first_part [] [] last_part poll_once poll_once

whole_test-acts : run_test disabling ≡ ok (acted whole_test)
unfolding run_test rounds sends after_disable ascending
whole_test-acts = refl

whole_test-HasRoom : All HasRoom whole_test
unfolding ascending
whole_test-HasRoom =
    All-append HasRoom first_part (pauses ∷ (polls poll_once ∷ (polls poll_once ∷ last_part)))
      (answered_requests-HasRoom (ascending 0 255))
      (tt, ((refl, λ s. refl), ((refl, λ s. refl), answered_requests-HasRoom (ascending 255 2295))))

run_moments-results_example :
    (domains : List Bytes) × (g : Generator ℕ) × (g' : Generator ℕ) × (earlier : List (Request ℕ))
    × (later : List (Request ℕ)) × (main_domains machine.files ≡ ok domains)
    × (create_generator machine (pos 6) (pos 7) disabling ≡ ok g)
    × (run_moments delivers 0 domains whole_test (λ _. false) g ≡ ok g')
    × (logged_requests (destroy_scoreboard g'.scoreboard).1.results_file ≡ earlier ++ later)
    × (request_ids (earlier ++ later) ≡ ascending 0 2550)
    × (request_ids later ≡ asked last_part)
    × All (λ (r : Request ℕ). r.1 ≢ 2) later
unfolding parse_hosts_file parse_lines parse_line lines_of read_word text_eq
run_moments-results_example =
    run_moments-results delivers 0 machine ((codes "mail", codes "10.10.10.11") ∷ []) (pos 6)
      (pos 7) disabling (acted whole_test) first_part [] [] last_part poll_once poll_once
      (λ _. false) refl (omega arith) (omega arith, tt) (omega arith) (omega arith) refl tt
      whole_test-HasRoom whole_test-acts refl
