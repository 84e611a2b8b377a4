-- ===== src/Generator/Failure.antt =====
-- src/generator.c: `add_hosts_fail_wrapper`, an update that leaves out one server, a second one that
-- repairs it, and what the test concludes from the second one's code.
pub mod Second
pub mod Judged
pub mod Exact
pub mod Tests
use dns_server.Common.{
  ℕ, ◌+◌, ◌-◌, ◌%◌, ℤ, pos, negsuc, Bool, true, false, not, ◌&&◌, Option, some, none, List, Bytes,
  length, get_elem?, ltb, ◌==◌, if◌then◌else◌, Outcome, ◌>>=◌, ok, or_crash,
}
use dns_server.Coms.Cluster.{Network, update_hosts}
use dns_server.DnsServer.{DnsServer}
use dns_server.Generator.Translations.{change}

-- The index of the server that is left out; -1 stands for all of them.
unfoldable pub choose : ℕ → ℕ → ℤ
choose rand server_cnt =
    let choice = rand % 256 % (server_cnt + 1) in
    if choice == server_cnt then negsuc 0 else pos choice

-- The conversion of an int to the parameter `fail`, an int8_t.
unfoldable pub byte_to_int8 : ℕ → ℤ
byte_to_int8 byte = if ltb byte 128 then pos byte else negsuc (255 - byte)

unfoldable pub to_int8 : ℤ → ℤ
unfolding byte_to_int8
to_int8 (pos n) = byte_to_int8 (n % 256)
to_int8 (negsuc n) = byte_to_int8 (255 - n % 256)

unfoldable pub above_one : ℤ → Bool
above_one (pos n) = ltb 1 n
above_one (negsuc n) = false

unfoldable pub same_int : ℤ → ℤ → Bool
same_int (pos m) (pos n) = m == n
same_int (pos m) (negsuc n) = false
same_int (negsuc m) (pos n) = false
same_int (negsuc m) (negsuc n) = m == n

-- `answer`, by the code of the second update.
unfoldable pub answer_for : ℤ → ℕ → ℤ
unfolding above_one
answer_for choice res =
    if res == 6
    then pos 0
    else (if res == 0
        then negsuc 0
        else (if res == 8
            then pos 1
            else (if res == 9 && above_one choice then choice else negsuc 1)))

-- What the call leaves: whether it prints FAIL, the first server, and the network.
pub record Tried : Type 0 where
  pub fails : Bool
  pub first : DnsServer
  pub net : Network

-- `add_hosts_fail_wrapper`. The router lists `listed` to the first update, and `listed'` to the second,
-- 6 s after the first server was paused.
unfoldable pub add_hosts_fail_wrapper :
    Network
    → List DnsServer
    → ℕ
    → Bytes
    → (ℕ → Bool)
    → Bytes
    → (ℕ → Bool)
    → Option (List ℕ)
    → Option (List ℕ)
    → Outcome Tried
unfolding choose to_int8 answer_for same_int
add_hosts_fail_wrapper net servers rand stack resets stack' resets' listed listed' = do
  let choice = choose rand (length servers)
  first ← or_crash (get_elem? servers 0)
  (_, net') ←
      update_hosts net first.tcp_port_num (change false 16 stack resets) first.tcp_port_num
        (to_int8 choice) listed
  second ← or_crash (get_elem? servers 1)
  (res, net'') ←
      update_hosts net' second.tcp_port_num (change false 16 stack' resets') first.tcp_port_num
        (pos 0) listed'
  ok (record {
    fails = not (same_int choice (answer_for choice res));
    first = record first { pause = true };
    net = net'';
  })
