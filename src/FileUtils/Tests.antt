-- ===== src/FileUtils/Tests.antt =====
-- Runs of the reader of hosts files, and a server that starts from one.
use dns_server.Common.{
  ◌≡◌, refl, pos, true, Option, none, some, [], ◌∷◌, ◌++◌, All, Bytes, codes, text_eq,
  if◌then◌else◌, ok, crash, arith,
}
use dns_server.Coms.{Coms, translate_ip, write_hosts_file}
use dns_server.Coms.Create.{create_coms, create_coms-write_hosts_file}
use dns_server.Coms.Tests.{office, office-DistinctKeys}
use dns_server.FileUtils.{
  lines_of, read_word, parse_line, parse_lines, parse_hosts_file, get_domains,
}
use dns_server.FileUtils.Reread.{AreTokens}

-- A directory with one file, and one with none.
abbrev with_hosts : Bytes → Bytes → Option Bytes
with_hosts text name = if text_eq name (codes "hosts.txt") then some text else none

abbrev small_file : Bytes
small_file = codes "mail  10.10.10.11" ++ (10 ∷ codes " maps 10.10.10.01 # old")

domains_read :
    get_domains (with_hosts small_file) (codes "other.txt")
    ≡ ok (2, codes "mail" ∷ codes "maps" ∷ [])
unfolding get_domains parse_hosts_file parse_lines parse_line lines_of read_word text_eq
domains_read = refl

half_line : parse_hosts_file (with_hosts (codes "mail")) (codes "hosts.txt") ≡ crash
unfolding parse_hosts_file parse_lines parse_line lines_of read_word text_eq
half_line = refl

office-AreTokens : All AreTokens office.ip_hash
office-AreTokens = (
  ((λ e. cc, ground arith), (λ e. cc, ground arith)),
  (((λ e. cc, ground arith), (λ e. cc, ground arith)), tt),
)

create_coms-write_hosts_file_example :
    (c' : Coms) × (create_coms (with_hosts (write_hosts_file office).1.text) 4 true (pos 9) ≡ ok c')
    × ((x : Bytes) → translate_ip c' x ≡ translate_ip office x)
    × (c'.version_num ≡ 0)
    × (c'.id ≡ 4)
unfolding text_eq
create_coms-write_hosts_file_example =
    create_coms-write_hosts_file office (with_hosts (write_hosts_file office).1.text) 4 (pos 9)
      office-DistinctKeys office-AreTokens refl
