-- ===== src/Dns/Parse.antt =====
-- What `parse_message` reads, and which messages it accepts.
use mathlib.Core.Option
use dns_server.Common.{
  ℕ, zero, suc, ◌+◌, ◌-◌, ◌*◌, ◌≤◌, ◌<◌, ◌≡◌, refl, ap, Option, none, some, [], ◌∷◌, ◌++◌, Bytes,
  NoNul, length, length-append, drop, le→ltb, read_at, read_at-append, append_assoc, drop-append,
  arith,
}
use dns_server.Dns.{
  Message, swap16, read_u16, read_header, flip_header_endian, count_chars, parse_question,
  parse_message,
}

-- The loop stops at the terminator, if that lies within the bound.
pub count_chars-terminated :
    (domain rest : Bytes) (left : ℕ)
    → NoNul domain
    → length domain ≤ left
    → count_chars (domain ++ (0 ∷ rest)) left ≡ some (length domain)
unfolding count_chars
count_chars-terminated [] rest left n h = refl
count_chars-terminated (zero ∷ domain) rest left n h = absurd (n.0 refl)
count_chars-terminated (suc b ∷ domain) rest zero n h = absurd (omega arith)
count_chars-terminated (suc b ∷ domain) rest (suc left) n h =
    rw (count_chars-terminated domain rest left n.1 (omega arith))

-- A count that ends below the bound ends at a terminator.
abbrev pub Terminated : Bytes → ℕ → Type 0
Terminated bs c =
    (domain : Bytes) × (rest : Bytes) × (bs ≡ domain ++ (0 ∷ rest))
    × (length domain ≡ c)
    × NoNul domain

map-suc :
    (o : Option ℕ) {c : ℕ} → Option.map suc o ≡ some c → (c' : ℕ) × (o ≡ some c') × (c ≡ suc c')
map-suc none e = cc
map-suc (some c') e = (c', refl, ground arith)

pub count_chars-Terminated :
    (bs : Bytes) (left : ℕ) {c : ℕ} → count_chars bs left ≡ some c → c < left → Terminated bs c
unfolding count_chars
count_chars-Terminated [] left e h = cc
count_chars-Terminated (zero ∷ bs) left {c} e h = ([], bs, refl, ground arith, tt)
count_chars-Terminated (suc b ∷ bs) zero e h = absurd (omega arith)
count_chars-Terminated (suc b ∷ bs) (suc left) {c} e h =
    let (c', e', l) = map-suc (count_chars bs left) e in
    let (domain, rest, split, long, n) = count_chars-Terminated bs left e' (omega arith) in
    (suc b ∷ domain, rest, ap (◌∷◌ (suc b)) split, omega arith, (omega arith, n))

-- The loop reads one byte beyond its bound at most, so memory that goes on past the bound suffices.
pub count_chars-total :
    (bs : Bytes) (left : ℕ)
    → left < length bs
    → (c : ℕ) × (count_chars bs left ≡ some c) × (c ≤ left)
unfolding count_chars
count_chars-total [] left h = absurd (omega arith)
count_chars-total (zero ∷ bs) left h = (0, refl, omega arith)
count_chars-total (suc b ∷ bs) zero h = (0, refl, omega arith)
count_chars-total (suc b ∷ bs) (suc left) h =
    let (c, e, l) = count_chars-total bs left (omega arith) in (suc c, rw e, omega arith)

-- Without a terminator the loop reads the byte behind the bound: past the end where the memory ends.
pub count_chars-overread : (bs : Bytes) → NoNul bs → count_chars bs (length bs) ≡ none
unfolding count_chars
count_chars-overread [] n = refl
count_chars-overread (zero ∷ bs) n = absurd (n.0 refl)
count_chars-overread (suc b ∷ bs) n = rw (count_chars-overread bs n.1)

-- The message that is read from a buffer in its parts.
abbrev pub parsed : Bytes → Bytes → ℕ → ℕ → Message → Message
parsed head domain t0 t1 m = record m {
  header = flip_header_endian (read_header head);
  question = record {
    domain = domain ++ (0 ∷ []);
    qtype = swap16 (t0 + 256 * t1);
    qclass = swap16 (t0 + 256 * t1);
  };
}

module _ (head domain : Bytes) (t0 t1 : ℕ) (more : Bytes) (m : Message) (message_bytes : ℕ) where
  abbrev buffer : Bytes
  buffer = head ++ ((domain ++ (0 ∷ [])) ++ (t0 ∷ t1 ∷ more))

  regroup : buffer ≡ head ++ (domain ++ (0 ∷ t0 ∷ t1 ∷ more))
  regroup = ap (◌++◌ head) (append_assoc domain (0 ∷ []) (t0 ∷ t1 ∷ more))

  -- The question behind a terminated domain.
  parse_question-accepts :
      (m' : Message) (left : ℕ)
      → length head ≡ 12
      → length domain + 4 ≤ left
      → parse_question buffer m' left (length domain)
        ≡ some (0, some (record m' { question = (parsed head domain t0 t1 m).question }))
  unfolding parse_question read_u16
  parse_question-accepts m' left hh hl = rw (
    le→ltb left (length domain + 4) hl,
    read_at-append head (domain ++ (0 ∷ [])) (t0 ∷ t1 ∷ more) 12 (length domain + 1) hh
        (omega (arith, length-append domain (0 ∷ []))),
    read_type,
  )
    where
      read_type : read_at buffer (12 + (length domain + 1)) 2 ≡ some (t0 ∷ t1 ∷ [])
      read_type = rw (← append_assoc head (domain ++ (0 ∷ [])) (t0 ∷ t1 ∷ more)) (
          read_at-append (head ++ (domain ++ (0 ∷ []))) (t0 ∷ t1 ∷ []) more _ 2
            (omega (arith, length-append head (domain ++ (0 ∷ [])), length-append domain (0 ∷ [])))
            refl)

  -- A header, a domain without NUL, its terminator and four bytes within the count are accepted, and
  -- read field by field. Three of the four bytes need only exist.
  pub parse_message-accepts :
      length head ≡ 12
      → NoNul domain
      → 16 + length domain ≤ message_bytes
      → parse_message buffer (some m) message_bytes ≡ some (0, some (parsed head domain t0 t1 m))
  unfolding parse_message
  parse_message-accepts hh n h =
      rw
        (
          le→ltb message_bytes 12 (omega arith),
          read_at-append [] head ((domain ++ (0 ∷ [])) ++ (t0 ∷ t1 ∷ more)) 0 12 refl hh,
          counted,
        )
        (parse_question-accepts _ (message_bytes - 12) hh (omega arith))
    where
      counted : count_chars (drop 12 buffer) (message_bytes - 12) ≡ some (length domain)
      counted =
          rw (regroup, drop-append 12 head (domain ++ (0 ∷ t0 ∷ t1 ∷ more)) hh)
            (count_chars-terminated domain (t0 ∷ t1 ∷ more) (message_bytes - 12) n (omega arith))
