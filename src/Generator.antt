-- ===== src/Generator.antt =====
-- src/generator.c: the schedules of `run_test`. An action is a call that the test makes, in order;
-- the waits between the calls, the random choice of domains and what is printed are left out.
pub mod Schedule
pub mod System
pub mod Translations
pub mod Failure
pub mod Tests
use dns_server.Common.{
  ℕ, zero, suc, ◌+◌, ◌%◌, List, [], ◌∷◌, ◌++◌, ltb, ◌==◌, if◌then◌else◌, Outcome, ok, running,
  ◌>>=◌,
}
use dns_server.CliParser.{Arguments}

-- `send id`: send_single_test. `pause_last`: the last server is paused. `start_server`: a server more,
-- which goes online in a thread. The last three start the wrappers of `update_hosts` in a thread.
pub data Action : Type 0 where
  send : ℕ → Action
  pause_last : Action
  start_server : Action
  add_hosts : Action
  remove_hosts : Action
  add_hosts_fail : Action

-- The inner loop, from the id on: a uint16_t.
unfoldable pub sends : ℕ → ℕ → List Action
sends zero id = []
sends (suc left) id = send (id % 65536) ∷ sends left (id + 1)

-- The outer loop, which adds `step` to `i`; `after` is what its body does behind the inner loop.
unfoldable pub rounds : ℕ → (ℕ → List Action) → ℕ → ℕ → Outcome (List Action)
rounds step after zero i = running
rounds step after (suc fuel) i =
    let rest = rounds step after fuel (i + step) in
    if ltb i 0x8FF then (rest >>= (λ acts. ok (sends step i ++ (after i ++ acts)))) else ok []

-- The actions behind the inner loop in the four kinds of test.
unfoldable pub after_disable : ℕ → List Action
after_disable i = if i == 0 then pause_last ∷ [] else []

unfoldable pub after_add : ℕ → List Action
after_add i = if i == 0 then start_server ∷ [] else []

unfoldable pub after_change : ℕ → List Action
after_change i =
    (if i == 0 then add_hosts ∷ [] else []) ++ (if i == 0x200 then remove_hosts ∷ [] else [])

unfoldable pub after_fail : ℕ → List Action
after_fail i = if i == 0 then add_hosts_fail ∷ [] else []

-- `run_test`: at most ten rounds and the last test of the loop.
unfoldable pub run_test : Arguments → Outcome (List Action)
unfolding rounds
run_test a =
    if a.randomly_disable
    then rounds 0xFF after_disable 11 0
    else (if a.add_midway
        then rounds 0xFF after_add 11 0
        else (if a.make_translation_changes
            then rounds 0x100 after_change 11 0
            else (if a.fail_translation_changes then rounds 0x100 after_fail 11 0 else ok [])))
