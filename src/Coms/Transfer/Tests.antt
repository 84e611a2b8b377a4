-- ===== src/Coms/Transfer/Tests.antt =====
-- Transfers between servers with a small table and one that is too large.
use dns_server.Common.{
  ℕ, ◌≡◌, refl, ℤ, pos, some, [], ◌∷◌, map, Bytes, codes, replicate, All, ok, arith,
}
use dns_server.Coms.{Coms, translate_ip}
use dns_server.Coms.Table.{assign_all}
use dns_server.Coms.Tests.{office, office-DistinctKeys}
use dns_server.Coms.Transfer.{Calls, Served, send_entire_file, process_next_request, request_hosts}
use dns_server.Coms.Transfer.Entry.{Works, Fits}
use dns_server.Coms.Transfer.Copy.{request_hosts-process_next_request, request_hosts-wraps}

abbrev pub no_failure : ℕ → ℤ
no_failure _ = pos 1

abbrev pub working : Calls
working = record { sends = no_failure; recvs = no_failure }

pub working-Works : Works working
working-Works = record { sent = λ i. refl; received = λ i. refl }

-- A new server, with the buffer's contents.
abbrev empty : Coms
empty = record office { ip_hash = []; id = 3 }

abbrev stack : ℕ × Bytes × ℕ
stack = (0, replicate 128 9, 0)

pub office-Fits : All (Fits 128) office.ip_hash
office-Fits = (
  ((λ e. cc, omega arith, omega arith), omega arith, omega arith),
  (((λ e. cc, omega arith, omega arith), omega arith, omega arith), tt),
)

request_hosts-process_next_request_example :
    (served : Served) × (process_next_request working [] [] office 1 ≡ ok served)
    × (served.coms ≡ office)
    × (c' : Coms) × (request_hosts no_failure stack empty (map some served.sent) ≡ ok (0, c'))
    × ((x : Bytes) → translate_ip c' x ≡ translate_ip office x)
    × (c'.version_num ≡ office.version_num)
    × (c'.id ≡ empty.id)
request_hosts-process_next_request_example =
    request_hosts-process_next_request working no_failure working-Works (λ k. refl) office empty
      stack [] [] (omega arith) office-Fits office-DistinctKeys

-- A server with 256 translations.
abbrev crowded : Coms
crowded = record office {
  ip_hash = (codes "mail", codes "1.1.1.1") ∷ replicate 255 (codes "maps", codes "1.1.1.2");
}

request_hosts-wraps_example :
    request_hosts no_failure stack empty (map some (send_entire_file working crowded).1)
    ≡ ok (0, record empty { ip_hash = assign_all [] []; version_num = b'm' })
request_hosts-wraps_example =
    request_hosts-wraps working no_failure working-Works (λ k. refl) crowded empty stack []
      (replicate 255 (codes "maps", codes "1.1.1.2")) b'm' (codes "ail") (codes "1.1.1.1") refl refl
      tt
