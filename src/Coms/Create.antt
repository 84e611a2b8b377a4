-- ===== src/Coms/Create.antt =====
-- src/coms.cc: `create_coms`, and a server that starts from a hosts file.
use dns_server.Common.{
  ℕ, ◌≡◌, refl, ◌∙◌, ℤ, Bool, true, Option, some, [], All, Bytes, codes, Outcome, ok, ◌>>=◌,
  if◌then◌else◌,
}
use dns_server.Coms.{Coms, translate_ip, write_hosts_file}
use dns_server.Coms.Table.{DistinctKeys, find, assign_all, find-assign_all, or_else-none}
use dns_server.FileUtils.{parse_hosts_file}
use dns_server.FileUtils.Reread.{AreTokens, parse_hosts_file-hosts_text}

-- `create_coms`; its thread, which runs `process_next_request` again and again, is left out.
unfoldable pub create_coms : (Bytes → Option Bytes) → ℕ → Bool → ℤ → Outcome Coms
create_coms files id read_hosts tcp_socket = do
  translations ← if read_hosts then parse_hosts_file files (codes "hosts.txt") else ok []
  ok (record {
    server_cnt = 0;
    socket = tcp_socket;
    id = id;
    ip_hash = assign_all [] translations;
    version_num = 0;
  })

-- A hosts file that a server wrote starts another server with the same translations: if its table
-- holds words, each domain at most once, and its file lies at hosts.txt, `create_coms` succeeds, and
-- the new server translates every domain as the old one did, at version 0.
pub create_coms-write_hosts_file :
    (c : Coms) (files : Bytes → Option Bytes) (id : ℕ) (tcp_socket : ℤ)
    → DistinctKeys c.ip_hash
    → All AreTokens c.ip_hash
    → files (codes "hosts.txt") ≡ some (write_hosts_file c).1.text
    → (c' : Coms) × (create_coms files id true tcp_socket ≡ ok c')
      × ((x : Bytes) → translate_ip c' x ≡ translate_ip c x)
      × (c'.version_num ≡ 0)
      × (c'.id ≡ id)
unfolding create_coms translate_ip write_hosts_file find
create_coms-write_hosts_file c files id tcp_socket distinct words stored = (
  record {
    server_cnt = 0;
    socket = tcp_socket;
    id = id;
    ip_hash = assign_all [] c.ip_hash;
    version_num = 0;
  },
  rw (parse_hosts_file-hosts_text files (codes "hosts.txt") c.ip_hash words stored, create_coms),
  λ x. find-assign_all x [] c.ip_hash distinct ∙ or_else-none (find x c.ip_hash),
  refl,
  refl,
)
