-- ===== src/Generator/Tests.antt =====
-- The schedule of a test that disables a server.
use dns_server.Common.{◌≡◌, true, some, List, codes, ok}
use dns_server.CliParser.{Arguments, defaults}
use dns_server.Generator.{Action, run_test}
use dns_server.Generator.Schedule.{ids, ascending, request_count, run_test-ids}

abbrev disabling : Arguments
disabling = record defaults { test_name = some (codes "down"); randomly_disable = true }

run_test-ids_example :
    (acts : List Action) × (run_test disabling ≡ ok acts)
    × (ids acts ≡ ascending 0 (request_count disabling))
run_test-ids_example = run_test-ids disabling
