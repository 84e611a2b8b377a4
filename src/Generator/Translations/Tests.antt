-- ===== src/Generator/Translations/Tests.antt =====
-- Three servers whose translations change and change back.
use dns_server.Common.{ℕ, ◌≡◌, refl, false, some, [], ◌∷◌, codes, lists, replicate, pos, ok}
use dns_server.Coms.{Coms}
use dns_server.Coms.Cluster.{Network}
use dns_server.Coms.Bring.{Answers}
use dns_server.Coms.Table.{find}
use dns_server.Generator.Translations.{add_hosts_wrapper, remove_hosts_wrapper, IsOld, Settled}
use dns_server.Generator.Translations.Effect.{add_hosts_wrapper-remove_hosts_wrapper}

abbrev fresh : Coms
fresh = record {
  server_cnt = 0;
  socket = pos 5;
  id = 0;
  ip_hash = (codes "mail", codes "10.10.10.11") ∷ [];
  version_num = 0;
}

abbrev net : Network
net p = some fresh

net-Answers : (p : ℕ) → Answers net p
net-Answers p = λ e. cc

fresh-IsOld : IsOld (some fresh)
unfolding find
fresh-IsOld = ((refl, tt), λ e. cc)

add_hosts_wrapper-remove_hosts_wrapper_example :
    (code : ℕ) × (net' : Network) × (code' : ℕ) × (net'' : Network) × (add_hosts_wrapper net 1181
        (replicate 128 9)
        (λ p. false)
        (some (1181 ∷ 1182 ∷ 1183 ∷ []))
      ≡ ok (code, net'))
    × (remove_hosts_wrapper net' 1181
          (replicate 128 7)
          (λ p. false)
          (some (1181 ∷ 1182 ∷ 1183 ∷ []))
        ≡ ok (code', net''))
    × ((p : ℕ) → Settled (lists (1181 ∷ 1182 ∷ 1183 ∷ []) p) (net p) (net' p) (net'' p))
add_hosts_wrapper-remove_hosts_wrapper_example =
    add_hosts_wrapper-remove_hosts_wrapper net 1181 (1182 ∷ 1183 ∷ []) (replicate 128 9)
      (replicate 128 7) (λ p. false) (λ p. false) refl refl (λ p. refl) (λ p. refl)
      (net-Answers 1181, (net-Answers 1182, (net-Answers 1183, tt)))
      (fresh-IsOld, (fresh-IsOld, (fresh-IsOld, tt)))
