-- ===== src/Coms/Lookup.antt =====
-- What a client of `translate_ip` sees of an update.
use dns_server.Common.{ℕ, ◌≡◌, refl, Bool, true, false, none, some, Bytes, text_eq, if◌then◌else◌}
use dns_server.Coms.{Coms, translate_ip, actually_update, write_hosts_file, hosts_text}
use dns_server.Coms.Table.{
  find-assign, find-erase, DistinctKeys, assign-DistinctKeys, erase-DistinctKeys,
}

-- After `actually_update` the updated domain has the new address, or none if it was removed, and
-- every other domain has the translation that it had. The version is the update's, a domain still
-- stands in the table at most once, the code is 0, and the hosts file written is that of the new
-- table under the server's id.
pub actually_update_lem :
    (c : Coms) (remove : Bool) (domain ip : Bytes) (id : ℕ)
    → DistinctKeys c.ip_hash
    → let (c', code, file) = actually_update c remove domain ip id in
      ((x : Bytes)
        → translate_ip c' x
          ≡ (if text_eq domain x then (if remove then none else some ip) else translate_ip c x))
      × (c'.version_num ≡ id)
      × DistinctKeys c'.ip_hash
      × (code ≡ 0)
      × (file ≡ record { owner = c.id; text = hosts_text c'.ip_hash })
unfolding translate_ip actually_update write_hosts_file
actually_update_lem c true domain ip id h =
    (λ x. find-erase domain x c.ip_hash, refl, erase-DistinctKeys domain c.ip_hash h, refl, refl)
actually_update_lem c false domain ip id h = (
  λ x. find-assign domain x ip c.ip_hash,
  refl,
  assign-DistinctKeys domain ip c.ip_hash h,
  refl,
  refl,
)
