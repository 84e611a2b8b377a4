-- ===== src/Dns.antt =====
-- src/dns.c and include/dns.h: the message format, `craft_message` and `parse_message`.
-- Bytes are numbers below 256 in memory order. The layout of `header_t` is that of the little-endian
-- ABI which the source's own initialiser (`.qdcount = 0x100`) relies on: bit-fields fill each byte
-- from its low bit, and a uint16_t keeps its low byte first. `htons` and `ntohs` swap the two bytes.
pub mod Layout
pub mod Craft
pub mod Parse
pub mod Safety
pub mod RoundTrip
pub mod Transit
pub mod Tests
use dns_server.Common.{
  ℕ, zero, suc, ◌+◌, ◌-◌, ◌*◌, ◌/◌, ◌%◌, Bool, true, false, not, ◌&&◌, Option, none, some, List, [],
  ◌∷◌, ◌++◌, Bytes, length, drop, ltb, if◌then◌else◌, read_at, write_at,
}
use mathlib.Core.Option

-- `header_t`
pub record Header : Type 0 where
  pub id : ℕ
  pub rd : ℕ
  pub tc : ℕ
  pub aa : ℕ
  pub opcode : ℕ
  pub qr : ℕ
  pub rcode : ℕ
  pub z : ℕ
  pub ra : ℕ
  pub qdcount : ℕ
  pub ancount : ℕ
  pub nscount : ℕ
  pub arcount : ℕ

-- `question_t`. `domain` is the block that the pointer leads to, the terminator included.
pub record Question : Type 0 where
  pub domain : Bytes
  pub qtype : ℕ
  pub qclass : ℕ

-- `answer_t`
pub record Answer : Type 0 where
  pub name : ℕ
  pub type : ℕ
  pub dclass : ℕ
  pub ttl : ℕ
  pub rdlength : ℕ
  pub rdata : Bytes

-- `message_t`
pub record Message : Type 0 where
  pub header : Header
  pub question : Question
  pub answer : Answer

-- sizeof(header_t)
abbrev pub header_size : ℕ
header_size = 12

-- `htons`, and `ntohs`, which is the same swap
unfoldable pub swap16 : ℕ → ℕ
swap16 x = x % 256 * 256 + x / 256 % 256

-- a uint16_t in memory
pub u16_bytes : ℕ → Bytes
u16_bytes x = x % 256 ∷ x / 256 % 256 ∷ []

-- The object representation of a `header_t`.
pub header_bytes : Header → Bytes
unfolding u16_bytes
header_bytes h =
    u16_bytes h.id
    ++ ((h.rd + 2 * h.tc + 4 * h.aa + 8 * h.opcode + 128 * h.qr)
        ∷ (h.rcode + 16 * h.z + 128 * h.ra)
        ∷ (u16_bytes h.qdcount
            ++ (u16_bytes h.ancount ++ (u16_bytes h.nscount ++ u16_bytes h.arcount))))

-- `*((uint16_t*) p)`
pub read_u16 : Bytes → ℕ
read_u16 (lo ∷ hi ∷ _) = lo + 256 * hi
read_u16 _ = 0

-- The header that twelve bytes represent.
pub read_header : Bytes → Header
unfolding read_u16
read_header (i0 ∷ i1 ∷ f ∷ g ∷ rest) = record {
  id = i0 + 256 * i1;
  rd = f % 2;
  tc = f / 2 % 2;
  aa = f / 4 % 2;
  opcode = f / 8 % 16;
  qr = f / 128 % 2;
  rcode = g % 16;
  z = g / 16 % 8;
  ra = g / 128 % 2;
  qdcount = read_u16 rest;
  ancount = read_u16 (drop 2 rest);
  nscount = read_u16 (drop 4 rest);
  arcount = read_u16 (drop 6 rest);
}
read_header _ = record {
  id = 0;
  rd = 0;
  tc = 0;
  aa = 0;
  opcode = 0;
  qr = 0;
  rcode = 0;
  z = 0;
  ra = 0;
  qdcount = 0;
  ancount = 0;
  nscount = 0;
  arcount = 0;
}

abbrev pub bit_of : Bool → ℕ
bit_of true = 1
bit_of false = 0

abbrev pub is_null {ℓ} : {A : Type ℓ} → Option A → Bool
is_null none = true
is_null (some _) = false

-- The header that `craft_message` fills in. `ip` is the answer's address, or NULL.
pub crafted_header : Bool → ℕ → Option Bytes → Header
unfolding swap16
crafted_header query id ip = record {
  id = swap16 id;
  rd = 1;
  tc = 0;
  aa = 0;
  opcode = 0;
  qr = bit_of (not query);
  rcode = if not query && is_null ip then 3 else 0;
  z = 0;
  ra = 0;
  qdcount = 0x100;
  ancount = 0;
  nscount = 0;
  arcount = 0;
}

infixl 5 ◌>>=◌
abbrev ◌>>=◌ {ℓ κ} : {A : Type ℓ} {B : Type κ} → Option A → (A → Option B) → Option B
none >>= f = none
some a >>= f = f a

-- `craft_message`: the byte count returned, and the buffer afterwards. `none`: a write past its end.
-- Of the four bytes behind the domain it writes the second and the last alone.
unfoldable pub craft_message : Bytes → Bool → ℕ → Bytes → Option Bytes → Option (ℕ × Bytes)
craft_message buffer query id domain ip = do
  with_header ← write_at buffer 0 (header_bytes (crafted_header query id ip))
  let curr = header_size
  let bytes = (0 + header_size) % 256
  with_domain ← write_at with_header curr (domain ++ (0 ∷ []))
  let curr = curr + (length domain + 1)
  let bytes = (bytes + (length domain + 1)) % 256
  with_type ← write_at with_domain (curr + 1) (1 ∷ [])
  with_class ← write_at with_type (curr + 3) (1 ∷ [])
  some ((bytes + 4) % 256, with_class)

-- `flip_header_endian`
pub flip_header_endian : Header → Header
unfolding swap16
flip_header_endian h = record h {
  id = swap16 h.id;
  qdcount = swap16 h.qdcount;
  ancount = swap16 h.ancount;
  nscount = swap16 h.nscount;
  arcount = swap16 h.arcount;
}

-- The loop that counts the domain's bytes. The list is the memory from `buffer + char_cnt` on, the
-- number is `message_bytes - 12 - char_cnt`. The byte is read before the bound is tested.
pub count_chars : Bytes → ℕ → Option ℕ
count_chars [] left = none
count_chars (zero ∷ rest) left = some 0
count_chars (suc b ∷ rest) zero = some 0
count_chars (suc b ∷ rest) (suc left) = Option.map suc (count_chars rest left)

-- The part of `parse_message` behind its loop, with `left` for `message_bytes - 12`. The class is
-- read where the type is, as in the source.
pub parse_question : Bytes → Message → ℕ → ℕ → Option (ℕ × Option Message)
parse_question buffer m left char_cnt = if ltb left (char_cnt + 4) then some (3, some m) else do
  domain ← read_at buffer header_size (char_cnt + 1)
  qtype ← read_at buffer (header_size + (char_cnt + 1)) 2
  qclass ← read_at buffer (header_size + (char_cnt + 1)) 2
  let question : Question = record {
    domain = domain;
    qtype = swap16 (read_u16 qtype);
    qclass = swap16 (read_u16 qclass);
  }
  some (0, some (record m { question = question }))

-- `parse_message`: the error code, and `*message` afterwards (`none` is a NULL pointer). The outer
-- `none`: a read past the end of `buffer`.
unfoldable pub parse_message : Bytes → Option Message → ℕ → Option (ℕ × Option Message)
parse_message buffer none message_bytes = some (1, none)
parse_message buffer (some m) message_bytes =
    if ltb message_bytes header_size then some (2, some m) else do
      raw ← read_at buffer 0 header_size
      let m' = record m { header = flip_header_endian (read_header raw) }
      char_cnt ← count_chars (drop header_size buffer) (message_bytes - 12)
      parse_question buffer m' (message_bytes - 12) char_cnt
