-- ===== src/Generator/Translations.antt =====
-- src/generator.c: the changes of the translations that a test makes, `add_hosts_wrapper` and then
-- `remove_hosts_wrapper`, through `update_hosts` of the first server.
pub mod Effect
pub mod Tests
use dns_server.Common.{
  ℕ, ◌≡◌, ◌≢◌, ℤ, pos, Bool, true, false, Option, none, some, List, Bytes, codes, text_eq,
  if◌then◌else◌, Outcome,
}
use dns_server.Coms.{Coms, translate_ip}
use dns_server.Coms.Table.{DistinctKeys}
use dns_server.Coms.Cluster.{Network, Request, update_hosts}

abbrev pub new_domain : Bytes
new_domain = codes "new_domain"

abbrev pub new_ip : Bytes
new_ip = codes "6.6.6.6"

-- The arguments of the two calls; `stack` and `resets` are as in `Request`.
abbrev pub change : Bool → ℕ → Bytes → (ℕ → Bool) → Request
change remove id stack resets = record {
  remove = remove;
  domain = new_domain;
  ip = new_ip;
  id = id;
  stack = stack;
  resets = resets;
}

-- `add_hosts_wrapper`, where the first server has the TCP port `port`.
unfoldable pub add_hosts_wrapper :
    Network → ℕ → Bytes → (ℕ → Bool) → Option (List ℕ) → Outcome (ℕ × Network)
add_hosts_wrapper net port stack resets listed =
    update_hosts net port (change false 1 stack resets) port (pos 0) listed

-- `remove_hosts_wrapper`
unfoldable pub remove_hosts_wrapper :
    Network → ℕ → Bytes → (ℕ → Bool) → Option (List ℕ) → Outcome (ℕ × Network)
remove_hosts_wrapper net port stack resets listed =
    update_hosts net port (change true 2 stack resets) port (pos 0) listed

-- What a server answers for `new_domain` between the two changes, and behind them.
abbrev pub Changed : Coms → Option Coms → Option Coms → Type 0
Changed c o o' =
    (c' : Coms) × (c'' : Coms) × (o ≡ some c')
    × (o' ≡ some c'')
    × ((x : Bytes)
        → translate_ip c' x ≡ (if text_eq new_domain x then some new_ip else translate_ip c x))
    × ((x : Bytes) → translate_ip c'' x ≡ (if text_eq new_domain x then none else translate_ip c x))
    × (c''.version_num ≡ 2)

-- A server whose translations have each domain once, and that does not stand at version 1.
abbrev pub IsOld : Option Coms → Type 0
IsOld none = Unit {0}
IsOld (some c) = DistinctKeys c.ip_hash × (c.version_num ≢ 1)

-- A listed server goes through both changes, another through none.
abbrev pub Settled : Bool → Option Coms → Option Coms → Option Coms → Type 0
Settled true o o' o'' = (c : Coms) × (o ≡ some c) × Changed c o' o''
Settled false o o' o'' = (o' ≡ o) × (o'' ≡ o)
