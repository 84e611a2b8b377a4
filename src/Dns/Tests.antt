-- ===== src/Dns/Tests.antt =====
-- Runs of the message code, and its theorems at concrete inputs.
use dns_server.Common.{
  ℕ, ◌+◌, ◌%◌, ◌≡◌, ◌≢◌, refl, true, false, none, some, [], ◌∷◌, ◌++◌, Bytes, codes, replicate,
  read_at, write_at, arith,
}
use dns_server.Dns.{
  Message, Header, craft_message, crafted_header, header_bytes, u16_bytes, read_header, read_u16,
  flip_header_endian, swap16, count_chars, parse_question, parse_message,
}
use dns_server.Dns.Craft.{wire, craft_message-wire, craft_message-overflow}
use dns_server.Dns.Safety.{
  parse_message-safe, parse_message-overread, parse_message-Accepted, Accepted,
}
use dns_server.Dns.RoundTrip.{Received, seen_header, parse_message-craft_message}

abbrev blank_header : Header
blank_header = seen_header true 0 none

abbrev pub blank : Message
blank = record {
  header = blank_header;
  question = record { domain = []; qtype = 0; qclass = 0 };
  answer = record { name = 0; type = 0; dclass = 0; ttl = 0; rdlength = 0; rdata = [] };
}

abbrev pub packet_buffer : Bytes
packet_buffer = replicate 64 7

abbrev mail : Bytes
mail = codes "mail"

abbrev answer_bytes : Bytes
answer_bytes =
    0 ∷ 5 ∷ 129 ∷ 3 ∷ 0 ∷ 1 ∷ 0 ∷ 0 ∷ 0 ∷ 0 ∷ 0 ∷ 0 ∷ 109 ∷ 97 ∷ 105 ∷ 108 ∷ 0 ∷ 7 ∷ 1 ∷ 7 ∷ 1 ∷ []

craft_runs :
    craft_message packet_buffer false 5 mail none ≡ some (21, answer_bytes ++ replicate 43 7)
unfolding craft_message write_at header_bytes u16_bytes crafted_header
craft_runs = refl

-- The class is a copy of the type, and both take a byte that `craft_message` never wrote.
parse_runs :
    parse_message answer_bytes (some blank) 21
    ≡ some (
      0,
      some (record blank {
        header = seen_header false 5 none;
        question = record { domain = mail ++ (0 ∷ []); qtype = 0x701; qclass = 0x701 };
      }),
    )
unfolding parse_message parse_question read_at read_header read_u16 flip_header_endian swap16
    count_chars
parse_runs = refl

parse_message-craft_message_example :
    (sent : ℕ) × (buffer' : Bytes) × (m' : Message) × (craft_message packet_buffer false 5 mail none
      ≡ some (sent, buffer'))
    × (parse_message buffer' (some blank) sent ≡ some (0, some m'))
    × Received false 5 mail none m'
parse_message-craft_message_example =
    parse_message-craft_message packet_buffer false 5 mail none blank (omega arith) (omega arith)
      (omega arith) (omega arith)

craft_message-overflow_example : craft_message (replicate 64 7) true 5 (replicate 48 97) none ≡ none
craft_message-overflow_example =
    craft_message-overflow (replicate 64 7) true 5 (replicate 48 97) none (omega arith)

craft_message-wire_example :
    (q0 : ℕ) × (q2 : ℕ) × (rest : Bytes) × (craft_message packet_buffer true 5
        (replicate 47 97)
        none
      ≡ some ((17 + 47) % 256, wire true 5 (replicate 47 97) none q0 q2 rest))
craft_message-wire_example =
    craft_message-wire packet_buffer true 5 (replicate 47 97) none (omega arith)

parse_message-safe_example : parse_message answer_bytes (some blank) 20 ≢ none
parse_message-safe_example = parse_message-safe answer_bytes (some blank) 20 (omega arith)

parse_message-overread_example : parse_message packet_buffer (some blank) 64 ≡ none
parse_message-overread_example =
    parse_message-overread packet_buffer blank (omega arith) (omega arith)

parse_message-Accepted_example : Accepted answer_bytes 21 (record blank {
  header = seen_header false 5 none;
  question = record { domain = mail ++ (0 ∷ []); qtype = 0x701; qclass = 0x701 };
})
parse_message-Accepted_example = parse_message-Accepted answer_bytes blank 21 parse_runs
