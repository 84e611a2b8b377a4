-- ===== src/Coms/Tests.antt =====
-- Runs of the update code, and its theorems at concrete inputs.
use dns_server.Common.{
  ℕ, ◌≡◌, ◌≢◌, refl, pos, true, false, none, some, List, [], ◌∷◌, ◌||◌, Bytes, codes, replicate,
  text_eq, if◌then◌else◌, ◌==◌, ok, arith,
}
use mathlib.Core.Option
use dns_server.Coms.{Coms, translate_ip, actually_update, write_hosts_file, hosts_text}
use dns_server.Coms.Table.{find, assign, DistinctKeys}
use dns_server.Coms.Lookup.{actually_update_lem}
use dns_server.Coms.Update.{IsWord, update_text, recieve_update, recieve_update-update_text}
use dns_server.Coms.Cluster.{Network, Request, update_hosts, is_failing}
use dns_server.Coms.Bring.{bring, targets, Harmless, IsSound, Answers}
use dns_server.Coms.Converge.{update_hosts-converges}

abbrev pub office : Coms
office = record {
  server_cnt = 0;
  socket = pos 5;
  id = 1;
  ip_hash = (codes "mail", codes "10.10.10.11") ∷ (codes "maps", codes "10.10.10.01") ∷ [];
  version_num = 0;
}

abbrev new_domain : Bytes
new_domain = codes "new_domain"

abbrev new_ip : Bytes
new_ip = codes "6.6.6.6"

abbrev updated : Coms
updated = record office {
  ip_hash =
      (codes "mail", codes "10.10.10.11")
      ∷ (codes "maps", codes "10.10.10.01")
      ∷ (new_domain, new_ip)
      ∷ [];
  version_num = 1;
}

pub office-DistinctKeys : DistinctKeys office.ip_hash
unfolding find text_eq
office-DistinctKeys = (refl, (refl, tt))

update_runs : (actually_update office false new_domain new_ip 1).0 ≡ updated
unfolding actually_update write_hosts_file assign text_eq
update_runs = refl

actually_update_lem_example :
    let (c', code, file) = actually_update office true (codes "mail") [] 2 in
    ((x : Bytes)
      → translate_ip c' x ≡ (
          if text_eq (codes "mail") x
          then (if true then none else some [])
          else translate_ip office x))
    × (c'.version_num ≡ 2)
    × DistinctKeys c'.ip_hash
    × (code ≡ 0)
    × (file ≡ record { owner = 1; text = hosts_text c'.ip_hash })
actually_update_lem_example =
    actually_update_lem office true (codes "mail") [] 2 office-DistinctKeys

domain-IsWord : IsWord new_domain
domain-IsWord = (λ e. cc, omega arith, omega arith)

ip-IsWord : IsWord new_ip
ip-IsWord = (λ e. cc, omega arith, omega arith)

recieve_update-update_text_example :
    let (c', code, file) = actually_update office false new_domain new_ip 1 in
    recieve_update office true (replicate 128 9) (some (update_text false new_domain new_ip 1) ∷ [])
    ≡ ok (record { code = code; coms = c'; file = some file })
recieve_update-update_text_example =
    recieve_update-update_text office false new_domain new_ip 1 (replicate 128 9) [] domain-IsWord
      ip-IsWord (omega arith)

abbrev request : Request
request = record {
  remove = false;
  domain = new_domain;
  ip = new_ip;
  id = 1;
  stack = replicate 128 9;
  resets = λ _. false;
}

request-IsSound : IsSound request
request-IsSound = record {
  domain_word = domain-IsWord;
  ip_word = ip-IsWord;
  fits = omega arith;
  no_resets = λ p. refl;
}

-- Servers at the ports 1181 to 1183, the last of which has the update already.
abbrev net : Network
net p = if p == 1183 then some updated else some office

abbrev ports : List ℕ
ports = 1181 ∷ 1182 ∷ 1183 ∷ []

net-Answers : (p : ℕ) → Answers net p
net-Answers p = ground arith

ports-Harmless : Harmless 1181 (pos 0) 0 ports
unfolding is_failing
ports-Harmless = (λ _. refl, (λ e. ground arith, (λ e. ground arith, tt)))

update_hosts-converges_example :
    (code : ℕ) × (net' : Network) × (update_hosts net 1181 request 1181 (pos 0) (some ports)
      ≡ ok (code, net'))
    × (code ≢ 1)
    × (code ≢ 3)
    × ((p : ℕ)
        → net' p ≡ (
            if targets 1181 ports p || (1181 == p)
            then Option.map (bring request) (net p)
            else net p))
update_hosts-converges_example =
    update_hosts-converges net 1181 request 0 ports request-IsSound ports-Harmless
      (net-Answers 1181) (net-Answers 1181, (net-Answers 1182, (net-Answers 1183, tt)))
