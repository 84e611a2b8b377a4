-- ===== src/Dns/RoundTrip.antt =====
-- `parse_message` reads back what `craft_message` wrote.
use dns_server.Common.{
  ℕ, ◌+◌, ◌%◌, ◌≤◌, ◌<◌, ◌≡◌, refl, ◌∙◌, ap, Bool, true, false, not, ◌&&◌, Option, none, some, [],
  ◌∷◌, ◌++◌, Bytes, NoNul, length, if◌then◌else◌, arith,
}
use dns_server.Dns.{
  Message, Header, bit_of, is_null, craft_message, crafted_header, header_bytes, read_header,
  flip_header_endian, parse_message,
}
use dns_server.Dns.Layout.{
  FitsHeader, length-header_bytes, read_header-header_bytes, swap16-swap16, swap16-lt,
}
use dns_server.Dns.Craft.{wire, craft_message-wire}
use dns_server.Dns.Parse.{parsed, parse_message-accepts}

-- The header that a receiver sees, with its numbers in the host's byte order.
abbrev pub seen_header : Bool → ℕ → Option Bytes → Header
seen_header query id ip = record {
  id = id;
  rd = 1;
  tc = 0;
  aa = 0;
  opcode = 0;
  qr = bit_of (not query);
  rcode = if not query && is_null ip then 3 else 0;
  z = 0;
  ra = 0;
  qdcount = 1;
  ancount = 0;
  nscount = 0;
  arcount = 0;
}

crafted-FitsHeader :
    (query : Bool) (id : ℕ) (ip : Option Bytes) → FitsHeader (crafted_header query id ip)
unfolding crafted_header
crafted-FitsHeader true id ip = ground (arith, swap16-lt id)
crafted-FitsHeader false id none = ground (arith, swap16-lt id)
crafted-FitsHeader false id (some a) = ground (arith, swap16-lt id)

flip-crafted :
    (query : Bool) (id : ℕ) (ip : Option Bytes)
    → id < 65536
    → flip_header_endian (crafted_header query id ip) ≡ seen_header query id ip
unfolding crafted_header flip_header_endian
flip-crafted query id ip h = λ i. record (seen_header query id ip) { id = swap16-swap16 id h i }

pub header-seen :
    (query : Bool) (id : ℕ) (ip : Option Bytes)
    → id < 65536
    → flip_header_endian (read_header (header_bytes (crafted_header query id ip)))
      ≡ seen_header query id ip
header-seen query id ip h =
    ap flip_header_endian
      (read_header-header_bytes (crafted_header query id ip) (crafted-FitsHeader query id ip))
    ∙ flip-crafted query id ip h

-- A message as `parse_message` stores it: the question of `craft_message` is one terminated domain.
pub record Received (query : Bool) (id : ℕ) (domain : Bytes) (ip : Option Bytes) (m : Message)
    : Type 0 where
  pub header : m.header ≡ seen_header query id ip
  pub domain_block : m.question.domain ≡ domain ++ (0 ∷ [])

-- A message crafted for a domain with no NUL byte, in a buffer with room for it and short enough for
-- a uint8_t length, is accepted by `parse_message` at the length returned. The receiver sees the
-- same id, the query bit, the code 3 exactly for an answer with no address, one question, and the
-- same domain.
pub parse_message-craft_message :
    (buffer : Bytes) (query : Bool) (id : ℕ) (domain : Bytes) (ip : Option Bytes) (m : Message)
    → 17 + length domain ≤ length buffer
    → 17 + length domain < 256
    → id < 65536
    → NoNul domain
    → (sent : ℕ) × (buffer' : Bytes) × (m' : Message) × (craft_message buffer query id domain ip
        ≡ some (sent, buffer'))
      × (parse_message buffer' (some m) sent ≡ some (0, some m'))
      × Received query id domain ip m'
parse_message-craft_message buffer query id domain ip m room short hid n =
    let (q0, q2, rest, crafted) = craft_message-wire buffer query id domain ip room in
    (
      (17 + length domain) % 256,
      wire query id domain ip q0 q2 rest,
      parsed header domain q0 1 m,
      crafted,
      parse_message-accepts header domain q0 1 (q2 ∷ 1 ∷ rest) m ((17 + length domain) % 256)
          (length-header_bytes (crafted_header query id ip)) n (omega arith),
      record { header = header-seen query id ip hid; domain_block = refl },
    )
  where
    header : Bytes
    header = header_bytes (crafted_header query id ip)
