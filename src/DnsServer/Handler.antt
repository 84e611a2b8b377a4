-- ===== src/DnsServer/Handler.antt =====
-- src/dns_server.c: `query_handler`, the loop in which a server takes its requests. The inbox holds the
-- datagrams that have come in; where it is empty `recvfrom` waits.
pub mod Rounds
use dns_server.Common.{
  append-nil, le→ltb, ℕ, zero, suc, uint8, refl, ap, pos, Bool, true, false, not, none, List, [],
  ◌∷◌, ◌++◌, Bytes, length, take, drop, take-short, min, if◌then◌else◌, Outcome, ◌>>=◌, ok, arith,
}
use mathlib.Core.Path.{ap₂}
use dns_server.Dns.{Message}
use dns_server.Dns.Craft.{wire}
use dns_server.Dns.Transit.{length-wire}
use dns_server.DnsServer.{DnsServer, recieve_request}
use dns_server.DnsServer.Answer.{recieve_request-probe}
use dns_server.Server.{Packet, recieve_message}

-- A server's thread: `stack` and `answer` are what the memory of `recieve_request` holds before a call,
-- and `buffer` is the array in which the thread receives. It is `inside` where it has passed the test of
-- `pause` and waits in `recvfrom`, and else before that test.
pub record Handler : Type 0 where
  pub server : DnsServer
  pub stack : Message
  pub answer : Bytes
  pub buffer : Bytes
  pub inbox : List Bytes
  pub inside : Bool

-- `recvfrom` stores what of a datagram has room, and returns how much that was.
unfoldable pub store : Bytes → Bytes → Bytes
store datagram buffer = take (length buffer) datagram ++ drop (length datagram) buffer

-- Inside `recvfrom`: with an empty inbox the thread stays there; else the first datagram is taken,
-- and the thread comes back to the test.
unfoldable pub handle : Handler → List Bytes → Outcome (List Packet × Handler)
unfolding store
handle h [] = ok ([], h)
handle h (datagram ∷ rest) = do
  let (message_len, buffer) =
      recieve_message (pos (min (length datagram) (length h.buffer))) (store datagram h.buffer)
  (_, sent) ← recieve_request h.server h.stack h.answer buffer message_len
  ok (sent, record h { buffer = buffer; inbox = rest; inside = false })

-- A step of the loop. The test of `pause` leads into `recvfrom` or, by `continue`, back to itself.
unfoldable pub handler_round : Handler → Outcome (List Packet × Handler)
unfolding handle
handler_round h =
    if h.inside then handle h h.inbox else ok ([], record h { inside = not h.server.pause })

-- So many steps of `query_handler`.
unfoldable pub query_handler : ℕ → Handler → Outcome (List Packet × Handler)
unfolding handler_round
query_handler zero h = ok ([], h)
query_handler (suc rounds) h = do
  (sent, h') ← handler_round h
  (more, h'') ← query_handler rounds h'
  ok (sent ++ more, h'')

-- A server's thread with the datagrams that have come in.
abbrev pub waiting : DnsServer → Bool → Message → Bytes → Bytes → List Bytes → Handler
waiting s inside stack answer buffer inbox = record {
  server = s;
  stack = stack;
  answer = answer;
  buffer = buffer;
  inbox = inbox;
  inside = inside;
}
