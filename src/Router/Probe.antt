-- ===== src/Router/Probe.antt =====
-- `query_response_time`: the servers that stay are those that answered.
use dns_server.Common.{
  Distinct, ℕ, ◌^◌, ◌≤◌, ◌≡◌, ◌≢◌, refl, ap, true, false, not, Option, none, List, [], ◌∷◌, map,
  keep_if, length, ◌==◌, ==_refl, Bytes, ok, arith,
}
use dns_server.DnsServer.{DnsServer}
use dns_server.Dns.Craft.{wire}
use dns_server.Dns.Transit.{craft_message-sent}
use dns_server.Router.{Router, probe_message, probes, hear, query_response_time}
use dns_server.Router.Remove.{IsReady}
use dns_server.Router.Balance.{packet_to}
use dns_server.Router.Survivors.{
  answered, hear-keep, first_slots-all, ids, ByteIds, remove_all-survivors,
}

ids-eq :
    (servers : List DnsServer)
    → ByteIds servers
    → ids servers ≡ map (λ (s : DnsServer). s.id) servers
ids-eq [] b = refl
ids-eq (s ∷ rest) b =
    rw (ids-eq rest b.1) (ap (λ i. i ∷ map (λ (s : DnsServer). s.id) rest) (omega arith))

-- The probes go out, one to each server, all with the same payload.
probes-all :
    (buffer payload : Bytes) (servers : List DnsServer)
    → probe_message buffer ≡ ok payload
    → probes buffer servers ≡ ok (map (packet_to payload) servers)
unfolding probes
probes-all buffer payload [] e = refl
probes-all buffer payload (s ∷ rest) e = rw (e, probes-all buffer payload rest e)

-- In a buffer with room for it the probe is crafted: a query without a domain, under the probes' id.
pub probe_message-wire :
    (buffer : Bytes)
    → 17 ≤ length buffer
    → (q0 : ℕ) × (q2 : ℕ) × (probe_message buffer ≡ ok (wire true (2 ^ 15) [] none q0 q2 []))
unfolding probe_message
probe_message-wire buffer h =
    let (q0, q2, buffer', crafted, read) =
      craft_message-sent buffer true (2 ^ 15) [] none h (omega arith) in
    (q0, q2, rw (crafted, read))

-- A round of probing that nothing disturbs, by the payload of its probes.
pub query_response_time-heard :
    (r : Router) (buffer payload : Bytes) (byte : ℕ) (replies : List (Option ℕ))
    → IsReady r
    → probe_message buffer ≡ ok payload
    → ByteIds r.servers
    → Distinct (map (λ (s : DnsServer). s.id) r.servers)
    → (r' : Router) × (query_response_time r buffer (λ q. q) byte replies
        ≡ ok (map (packet_to payload) r.servers, 0, r'))
      × (r'.servers ≡ keep_if (λ (s : DnsServer). answered byte replies s.id) r.servers)
      × IsReady r'
unfolding query_response_time
query_response_time-heard r buffer payload byte replies v crafted b distinct =
    let (r', run, left, v') =
      remove_all-survivors (answered byte replies) r.servers [] r v refl tt b in
    (
      r',
      rw (
        first_slots-all r.servers r.server_cnt v.counted,
        probes-all buffer payload r.servers crafted,
        ==_refl r.server_cnt,
        silent,
        run,
      ),
      left,
      v',
    )
  where
    silent :
        hear byte replies (ids r.servers)
        ≡ keep_if (λ y. not (answered byte replies y)) (ids r.servers)
    silent = hear-keep byte replies (ids r.servers) (rw (ids-eq r.servers b) distinct)

-- A round of probing that nothing disturbs, on a ready router whose ids are distinct bytes: each
-- server is sent one probe, the code is 0, the servers whose id came back stay in their order, all
-- others are removed, and the router is ready again.
pub query_response_time-survivors :
    (r : Router) (buffer : Bytes) (byte : ℕ) (replies : List (Option ℕ))
    → IsReady r
    → 17 ≤ length buffer
    → ByteIds r.servers
    → Distinct (map (λ (s : DnsServer). s.id) r.servers)
    → (payload : Bytes) × (r' : Router) × (query_response_time r buffer (λ q. q) byte replies
        ≡ ok (map (packet_to payload) r.servers, 0, r'))
      × (r'.servers ≡ keep_if (λ (s : DnsServer). answered byte replies s.id) r.servers)
      × IsReady r'
query_response_time-survivors r buffer byte replies v room b distinct =
    let (q0, q2, crafted) = probe_message-wire buffer room in
    let payload : Bytes = wire true (2 ^ 15) [] none q0 q2 [] in
    let (r', run, left, v') =
      query_response_time-heard r buffer payload byte replies v crafted b distinct in
    (payload, r', run, left, v')

-- If servers were added or removed during the wait, the round removes nobody and returns 1.
pub query_response_time-disturbed :
    (r : Router) (buffer : Bytes) (meanwhile : Router → Router) (byte : ℕ)
    (replies : List (Option ℕ))
    → IsReady r
    → 17 ≤ length buffer
    → length (meanwhile r).servers ≡ (meanwhile r).server_cnt
    → r.server_cnt ≢ (meanwhile r).server_cnt
    → (payload : Bytes) × (query_response_time r buffer meanwhile byte replies
        ≡ ok (map (packet_to payload) r.servers, 1, meanwhile r))
unfolding query_response_time
query_response_time-disturbed r buffer meanwhile byte replies v room counted changed =
    let (q0, q2, crafted) = probe_message-wire buffer room in
    let payload : Bytes = wire true (2 ^ 15) [] none q0 q2 [] in
    (
      payload,
      rw (
        first_slots-all r.servers r.server_cnt v.counted,
        probes-all buffer payload r.servers crafted,
        first_slots-all (meanwhile r).servers (meanwhile r).server_cnt counted,
        differ,
      ),
    )
  where
    differ : (r.server_cnt == (meanwhile r).server_cnt) ≡ false
    differ = ground arith
