-- ===== src/Dns/Layout.antt =====
-- `header_t` in memory: the twelve bytes of a header determine it.
use dns_server.Common.{ℕ, ◌+◌, ◌*◌, ◌/◌, ◌%◌, ◌<◌, ◌≡◌, refl, length, arith}
use dns_server.Dns.{Header, header_size, swap16, u16_bytes, header_bytes, read_u16, read_header}

-- Every field lies in the range of its bit-field.
pub record FitsHeader (h : Header) : Type 0 where
  pub id : h.id < 65536
  pub rd : h.rd < 2
  pub tc : h.tc < 2
  pub aa : h.aa < 2
  pub opcode : h.opcode < 16
  pub qr : h.qr < 2
  pub rcode : h.rcode < 16
  pub z : h.z < 8
  pub ra : h.ra < 2
  pub qdcount : h.qdcount < 65536
  pub ancount : h.ancount < 65536
  pub nscount : h.nscount < 65536
  pub arcount : h.arcount < 65536

pub length-header_bytes : (h : Header) → length (header_bytes h) ≡ header_size
unfolding header_bytes u16_bytes
length-header_bytes h = refl

pub swap16-swap16 : (x : ℕ) → x < 65536 → swap16 (swap16 x) ≡ x
unfolding swap16
swap16-swap16 x h = omega arith

pub swap16-lt : (x : ℕ) → swap16 x < 65536
unfolding swap16
swap16-lt x = omega arith

-- The two flag bytes, taken apart.
first_flags :
    (rd tc aa opcode qr : ℕ)
    → rd < 2
    → tc < 2
    → aa < 2
    → opcode < 16
    → qr < 2
    → let f = rd + 2 * tc + 4 * aa + 8 * opcode + 128 * qr in
      (f % 2 ≡ rd)
      × (f / 2 % 2 ≡ tc)
      × (f / 4 % 2 ≡ aa)
      × (f / 8 % 16 ≡ opcode)
      × (f / 128 % 2 ≡ qr)
first_flags rd tc aa opcode qr h1 h2 h3 h4 h5 =
    (omega arith, omega arith, omega arith, omega arith, omega arith)

second_flags :
    (rcode z ra : ℕ)
    → rcode < 16
    → z < 8
    → ra < 2
    → let g = rcode + 16 * z + 128 * ra in (g % 16 ≡ rcode) × (g / 16 % 8 ≡ z) × (g / 128 % 2 ≡ ra)
second_flags rcode z ra h1 h2 h3 = (omega arith, omega arith, omega arith)

word_lem : (x : ℕ) → x < 65536 → x % 256 + 256 * (x / 256 % 256) ≡ x
word_lem x h = omega arith

-- A header in range is read back from its bytes, every field of it.
pub read_header-header_bytes : (h : Header) → FitsHeader h → read_header (header_bytes h) ≡ h
unfolding read_header header_bytes u16_bytes read_u16
read_header-header_bytes h v =
    let f = first_flags h.rd h.tc h.aa h.opcode h.qr v.rd v.tc v.aa v.opcode v.qr in
    let g = second_flags h.rcode h.z h.ra v.rcode v.z v.ra in
    λ i. record {
      id = word_lem h.id v.id i;
      rd = f.0 i;
      tc = f.1 i;
      aa = f.2 i;
      opcode = f.3 i;
      qr = f.4 i;
      rcode = g.0 i;
      z = g.1 i;
      ra = g.2 i;
      qdcount = word_lem h.qdcount v.qdcount i;
      ancount = word_lem h.ancount v.ancount i;
      nscount = word_lem h.nscount v.nscount i;
      arcount = word_lem h.arcount v.arcount i;
    }
