-- ===== src/Coms.antt =====
-- src/coms.cc and include/coms.h: a server's translations and their version, and the changes to them.
-- `ip_hash` is an association list in an iteration order of the unordered_map; a new key comes last.
-- The unused fields `coms` and `server_cnt` keep their initial values; threads are not modelled.
pub mod Table
pub mod Update
pub mod Cluster
pub mod Bring
pub mod Converge
pub mod Verdict
pub mod Lookup
pub mod Transfer
pub mod Create
pub mod Tests
use dns_server.Common.{
  ℕ, ℤ, Bool, true, false, Option, none, some, List, [], ◌∷◌, ◌++◌, Bytes, codes, if◌then◌else◌,
}
use Table.{Translations, find, assign, erase}

-- `coms_t`
pub record Coms : Type 0 where
  pub server_cnt : ℕ
  pub socket : ℤ
  pub id : ℕ
  pub ip_hash : Translations
  pub version_num : ℕ

-- `translate_ip`: NULL is `none`.
unfoldable pub translate_ip : Coms → Bytes → Option Bytes
translate_ip c domain = find domain c.ip_hash

-- The text that `write_hosts_file` writes to the server's own hosts file, and its code.
unfoldable pub hosts_text : Translations → Bytes
hosts_text [] = []
hosts_text ((domain, ip) ∷ rest) = domain ++ (codes " " ++ (ip ++ (10 ∷ hosts_text rest)))

-- A hosts file that was written: the `id` of its name, and its text.
pub record HostsFile : Type 0 where
  pub owner : ℕ
  pub text : Bytes

unfoldable pub write_hosts_file : Coms → ℕ × HostsFile
write_hosts_file c = (0, record { owner = c.id; text = hosts_text c.ip_hash })

-- `actually_update`: the new state, the code and the file that is written.
unfoldable pub actually_update : Coms → Bool → Bytes → Bytes → ℕ → Coms × ℕ × HostsFile
actually_update c remove domain ip id =
    let table = if remove then erase domain c.ip_hash else assign domain ip c.ip_hash in
    let c' = record c { version_num = id; ip_hash = table } in
    let (code, file) = write_hosts_file c' in (c', code, file)
