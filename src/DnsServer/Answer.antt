-- ===== src/DnsServer/Answer.antt =====
-- `recieve_request` on the messages that the program crafts: queries, probes and answers.
use dns_server.Common.{
  ℕ, ◌+◌, ◌%◌, ◌≤◌, ◌<◌, ◌≡◌, ◌≢◌, ◌∙◌, ap, true, false, Option, none, some, [], ◌∷◌, ◌++◌, Bytes,
  c_string-append, NoNul, length, ◌==◌, if◌then◌else◌, ok, arith,
}
use dns_server.Coms.{translate_ip}
use dns_server.Dns.{Message, is_null, parse_message}
use dns_server.Dns.Craft.{wire}
use dns_server.Dns.Transit.{
  craft_message-sent, parse_message-wire, arrived, arrived-header, length-wire,
}
use dns_server.DnsServer.{DnsServer, probe_id, respond, recieve_request}

-- What the scoreboard reads from an answer to the query `id`, whatever its buffer and its last
-- message held: the id, and the code 3 exactly if there is no address.
abbrev pub Reads : ℕ → Bytes → Option Bytes → Type 0
Reads id payload ip =
    (stale : Message) (pad : Bytes)
    → (m : Message) × (parse_message (payload ++ pad) (some stale) (length payload)
        ≡ some (0, some m))
      × (m.header.id ≡ id)
      × (m.header.rcode ≡ (if is_null ip then 3 else 0))

-- A message of the program, as it lies in the receiver's buffer.
module _ (s : DnsServer) (stack : Message) (buffer : Bytes) (id : ℕ) (domain : Bytes) (q0 q2 : ℕ)
    (rest : Bytes) (range : id < 65536) (n : NoNul domain) where
  -- The steps of `recieve_request` up to `respond`, on a query.
  query-respond :
      recieve_request s stack buffer
        (wire true id domain none q0 q2 [] ++ rest)
        (17 + length domain)
      ≡ respond s buffer (arrived true id domain none q0 stack)
  unfolding recieve_request
  query-respond = rw (
    parse_message-wire true id domain none q0 q2 rest stack n,
    ap (λ h. h.qr) (arrived-header true id domain none q0 stack range),
  )

  -- A message with the response bit is dropped with code 2: a server never answers an answer.
  pub recieve_request-ignores :
      (ip : Option Bytes)
      → recieve_request s stack buffer
          (wire false id domain ip q0 q2 [] ++ rest)
          (17 + length domain)
        ≡ ok (2, [])
  unfolding recieve_request
  recieve_request-ignores ip = rw (
    parse_message-wire false id domain ip q0 q2 rest stack n,
    ap (λ h. h.qr) (arrived-header false id domain ip q0 stack range),
  )

  -- The router's probe is answered to the router, with the server's id modulo 256 as its one byte,
  -- and with code 0.
  pub recieve_request-probe :
      id ≡ probe_id
      → recieve_request s stack buffer
          (wire true id domain none q0 q2 [] ++ rest)
          (17 + length domain)
        ≡ ok (0, record { port = s.router_port; ip = s.router_ip; payload = s.id % 256 ∷ [] } ∷ [])
  unfolding respond
  recieve_request-probe e =
      query-respond
      ∙ rw (
        c_string-append domain [] n,
        ap (λ h. h.id) (arrived-header true id domain none q0 stack range),
        e,
      )

  wire-Reads : (ip : Option Bytes) (p0 p2 : ℕ) → Reads id (wire false id domain ip p0 p2 []) ip
  wire-Reads ip p0 p2 stale pad =
      let seen = arrived-header false id domain ip p0 stale range in
      (
        arrived false id domain ip p0 stale,
        ap (parse_message (wire false id domain ip p0 p2 [] ++ pad) (some stale))
              (omega (arith, length-wire false id domain ip p0 p2 []))
            ∙ parse_message-wire false id domain ip p0 p2 pad stale n,
        ap (λ h. h.id) seen,
        ap (λ h. h.rcode) seen,
      )

  -- A query that is no probe, for a domain that leaves room in the answer's buffer, is answered by one
  -- datagram to the scoreboard, with code 0. The scoreboard reads from it the query's id, and the
  -- code 3 exactly if the server's table has no translation of the domain.
  pub recieve_request-answers :
      id ≢ probe_id
      → 17 + length domain ≤ length buffer
      → 17 + length domain < 256
      → (payload : Bytes) × (recieve_request s stack buffer
            (wire true id domain none q0 q2 [] ++ rest)
            (17 + length domain)
          ≡ ok (
            0,
            record { port = s.scoreboard_port; ip = s.scoreboard_ip; payload = payload } ∷ [],
          ))
        × Reads id payload (translate_ip s.coms domain)
  unfolding respond
  recieve_request-answers other room short =
      let ip : Option Bytes = translate_ip s.coms domain in
      let (p0, p2, buffer', crafted, sent) =
        craft_message-sent buffer false id domain ip room short in
      (
        wire false id domain ip p0 p2 [],
        query-respond
            ∙ rw (
              c_string-append domain [] n,
              ap (λ h. h.id) (arrived-header true id domain none q0 stack range),
              not_probe other,
              crafted,
              sent,
            ),
        wire-Reads ip p0 p2,
      )
    where
      not_probe : id ≢ probe_id → (id == probe_id) ≡ false
      not_probe h = ground arith
