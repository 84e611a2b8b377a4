-- ===== src/Dns/Transit.antt =====
-- A message from the sender's buffer to the receiver's: the bytes that `sendto` takes, and what
-- `parse_message` makes of them in a larger buffer.
use dns_server.Common.{
  ℕ, ◌+◌, ◌≤◌, ◌<◌, ◌≡◌, refl, sym, ◌∙◌, ap, Bool, Option, some, [], ◌∷◌, ◌++◌, append_assoc, Bytes,
  NoNul, length, length-append, read_at, read_at-append, arith,
}
use dns_server.Dns.{Message, craft_message, crafted_header, header_bytes, parse_message}
use dns_server.Dns.Layout.{length-header_bytes}
use dns_server.Dns.Craft.{wire, craft_message-wire}
use dns_server.Dns.Parse.{parsed, parse_message-accepts}
use dns_server.Dns.RoundTrip.{seen_header, header-seen}

pub length-wire :
    (query : Bool) (id : ℕ) (domain : Bytes) (ip : Option Bytes) (q0 q2 : ℕ) (rest : Bytes)
    → length (wire query id domain ip q0 q2 rest) ≡ 17 + length domain + length rest
length-wire query id domain ip q0 q2 rest = omega (
  arith,
  length-append (header_bytes (crafted_header query id ip))
      ((domain ++ (0 ∷ [])) ++ (q0 ∷ 1 ∷ q2 ∷ 1 ∷ rest)),
  length-header_bytes (crafted_header query id ip),
  length-append (domain ++ (0 ∷ [])) (q0 ∷ 1 ∷ q2 ∷ 1 ∷ rest),
  length-append domain (0 ∷ []),
)

pub wire-append :
    (query : Bool) (id : ℕ) (domain : Bytes) (ip : Option Bytes) (q0 q2 : ℕ) (rest : Bytes)
    → wire query id domain ip q0 q2 rest ≡ wire query id domain ip q0 q2 [] ++ rest
wire-append query id domain ip q0 q2 rest = sym (
    append_assoc header ((domain ++ (0 ∷ [])) ++ (q0 ∷ 1 ∷ q2 ∷ 1 ∷ [])) rest
    ∙ ap (◌++◌ header) (append_assoc (domain ++ (0 ∷ [])) (q0 ∷ 1 ∷ q2 ∷ 1 ∷ []) rest))
  where
    header : Bytes
    header = header_bytes (crafted_header query id ip)

-- The bytes sent are the message and nothing behind it.
pub craft_message-sent :
    (buffer : Bytes) (query : Bool) (id : ℕ) (domain : Bytes) (ip : Option Bytes)
    → 17 + length domain ≤ length buffer
    → 17 + length domain < 256
    → (q0 : ℕ) × (q2 : ℕ) × (buffer' : Bytes) × (craft_message buffer query id domain ip
        ≡ some (17 + length domain, buffer'))
      × (read_at buffer' 0 (17 + length domain) ≡ some (wire query id domain ip q0 q2 []))
craft_message-sent buffer query id domain ip room short =
    let (q0, q2, rest, crafted) = craft_message-wire buffer query id domain ip room in
    (
      q0,
      q2,
      wire query id domain ip q0 q2 rest,
      crafted ∙ ap (λ n. some (n, wire query id domain ip q0 q2 rest)) (omega arith),
      ap (λ b. read_at b 0 (17 + length domain)) (wire-append query id domain ip q0 q2 rest)
          ∙ read_at-append [] (wire query id domain ip q0 q2 []) rest 0 (17 + length domain) refl
              (omega (arith, length-wire query id domain ip q0 q2 [])),
    )

-- The message as the receiver stores it.
abbrev pub arrived : Bool → ℕ → Bytes → Option Bytes → ℕ → Message → Message
arrived query id domain ip q0 m = parsed (header_bytes (crafted_header query id ip)) domain q0 1 m

-- In a buffer where other bytes follow it, the message is accepted at its own length.
pub parse_message-wire :
    (query : Bool) (id : ℕ) (domain : Bytes) (ip : Option Bytes) (q0 q2 : ℕ) (rest : Bytes)
    (m : Message)
    → NoNul domain
    → parse_message (wire query id domain ip q0 q2 [] ++ rest) (some m) (17 + length domain)
      ≡ some (0, some (arrived query id domain ip q0 m))
parse_message-wire query id domain ip q0 q2 rest m n =
    ap (λ b. parse_message b (some m) (17 + length domain))
      (sym (wire-append query id domain ip q0 q2 rest))
    ∙ parse_message-accepts (header_bytes (crafted_header query id ip)) domain q0 1 (q2 ∷ 1 ∷ rest)
        m (17 + length domain) (length-header_bytes (crafted_header query id ip)) n (omega arith)

pub arrived-header :
    (query : Bool) (id : ℕ) (domain : Bytes) (ip : Option Bytes) (q0 : ℕ) (m : Message)
    → id < 65536
    → (arrived query id domain ip q0 m).header ≡ seen_header query id ip
arrived-header query id domain ip q0 m h = header-seen query id ip h
