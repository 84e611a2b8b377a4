-- ===== src/Scoreboard/Response.antt =====
-- `dns_response_handler` of src/scoreboard.cc, and an answer's way from the server to the scoreboard.
use dns_server.Common.{
  ℕ, ◌+◌, ◌≤◌, ◌<◌, ◌≡◌, ◌≢◌, true, Option, none, some, [], ◌∷◌, ◌++◌, Bytes, NoNul, length, ◌==◌,
  if◌then◌else◌, Outcome, ok, ◌>>=◌, or_crash, Option-cases, inl, inr,
}
use dns_server.Coms.{translate_ip}
use dns_server.Dns.{Message, is_null, parse_message}
use dns_server.Dns.Craft.{wire}
use dns_server.DnsServer.{DnsServer, probe_id, recieve_request}
use dns_server.DnsServer.Answer.{Reads, recieve_request-answers}
use dns_server.Scoreboard.{Scoreboard, recieve_dns_answer}

module _ {Time : Type 0} where
  -- One round of the handler's loop, on the bytes that `recieve_message` stored: the scoreboard and
  -- `dns_message` afterwards. The code of `parse_message` is not looked at.
  unfoldable pub handle_response :
      Scoreboard Time → Message → Bytes → ℕ → Time → Outcome (Scoreboard Time × Message)
  unfolding recieve_dns_answer
  handle_response s dns_message buffer message_len now = do
    (error, parsed) ← or_crash (parse_message buffer (some dns_message) message_len)
    m ← or_crash parsed
    ok ((recieve_dns_answer s m.header.id (if m.header.rcode == 3 then 0 else 1) now).1, m)

  -- The scoreboard after an answer for `id` that is found exactly if there is an address.
  abbrev pub answered_for : Scoreboard Time → ℕ → Option Bytes → Time → Scoreboard Time
  answered_for board id ip now = (recieve_dns_answer board id (if is_null ip then 0 else 1) now).1

  -- What a message reads is what the scoreboard marks.
  handle_response-Reads :
      (board : Scoreboard Time) (stale : Message) (id : ℕ) (payload pad : Bytes) (ip : Option Bytes)
      (now : Time)
      → Reads id payload ip
      → (m : Message) × (handle_response board stale (payload ++ pad) (length payload) now
          ≡ ok (answered_for board id ip now, m))
  unfolding handle_response
  handle_response-Reads board stale id payload pad ip now reads =
      let (m, parsed, same_id, code) = reads stale pad in
      (
        m,
        elim (Option-cases ip) [
          | inl e ↦ rw (parsed, same_id, code, e)
          | inr (a, e) ↦ rw (parsed, same_id, code, e)
        ],
      )

  -- A query that is no probe, for a domain that leaves room in the answer's buffer, ends in the
  -- scoreboard: the one datagram that the server sends makes the handler record, for the query's id,
  -- an answer that is found exactly if the server's table has a translation of the domain. What the
  -- scoreboard's buffer and its last message held does not matter.
  pub handle_response-recieve_request :
      (s : DnsServer) (stack : Message) (buffer : Bytes) (id : ℕ) (domain : Bytes) (q0 q2 : ℕ)
      (rest : Bytes) (board : Scoreboard Time) (stale : Message) (pad : Bytes) (now : Time)
      → id < 65536
      → NoNul domain
      → id ≢ probe_id
      → 17 + length domain ≤ length buffer
      → 17 + length domain < 256
      → (payload : Bytes) × (recieve_request s stack buffer
            (wire true id domain none q0 q2 [] ++ rest)
            (17 + length domain)
          ≡ ok (
            0,
            record { port = s.scoreboard_port; ip = s.scoreboard_ip; payload = payload } ∷ [],
          ))
        × (m : Message) × (handle_response board stale (payload ++ pad) (length payload) now
            ≡ ok (answered_for board id (translate_ip s.coms domain) now, m))
  handle_response-recieve_request s stack buffer id domain q0 q2 rest board stale pad now range n
        other room short =
      let (payload, sent, reads) =
        recieve_request-answers s stack buffer id domain q0 q2 rest range n other room short in
      let (m, handled) =
        handle_response-Reads board stale id payload pad (translate_ip s.coms domain) now reads in
      (payload, sent, m, handled)
