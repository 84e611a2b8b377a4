-- ===== src/Dns/Safety.antt =====
-- Which memory `parse_message` reads, and what its acceptance and its error codes mean.
use dns_server.Common.{
  ℕ, ◌+◌, ◌-◌, ◌≤◌, ◌<◌, ◌≡◌, ◌≢◌, refl, sym, ◌∙◌, ap, inl, inr, Bool-cases, Option, none, some, [],
  ◌∷◌, ◌++◌, Bytes, NoNul, length, length-append, length-drop, drop, take, take-append,
  append_assoc, ltb, le→ltb, read_at, read_at-some, arith,
}
use dns_server.Dns.{
  Message, read_header, flip_header_endian, count_chars, parse_question, parse_message, ◌>>=◌,
}
use dns_server.Dns.Parse.{count_chars-total, count_chars-Terminated, count_chars-overread}

parse_question-defined :
    (buffer : Bytes) (m : Message) (left c : ℕ)
    → 12 + left ≤ length buffer
    → parse_question buffer m left c ≢ none
unfolding parse_question
parse_question-defined buffer m left c h = elim (Bool-cases (ltb left (c + 4))) [
  | inl short ↦ rw short (λ e. cc)
  | inr long ↦
      rw
        (
          long,
          read_at-some buffer 12 (c + 1) (ground arith),
          read_at-some buffer (12 + (c + 1)) 2 (ground arith),
        )
        (λ e. cc)
]

-- With one byte of memory behind the bytes received, `parse_message` never reads out of bounds,
-- whatever they are.
pub parse_message-safe :
    (buffer : Bytes) (target : Option Message) (message_bytes : ℕ)
    → message_bytes < length buffer
    → parse_message buffer target message_bytes ≢ none
unfolding parse_message
parse_message-safe buffer none message_bytes h = λ e. cc
parse_message-safe buffer (some m) message_bytes h = elim (Bool-cases (ltb message_bytes 12)) [
  | inl short ↦ rw short (λ e. cc)
  | inr long ↦
      let enough : 12 ≤ message_bytes = ground arith in
      let (c, e, _) =
        count_chars-total (drop 12 buffer) (message_bytes - 12)
          (omega (arith, length-drop 12 buffer)) in
      rw (long, read_at-some buffer 0 12 (omega arith), e)
        (parse_question-defined buffer _ (message_bytes - 12) c (omega arith))
]

-- A message with no NUL behind its header, in a buffer that it fills, makes the counting loop read
-- the byte past the buffer's end.
pub parse_message-overread :
    (buffer : Bytes) (m : Message)
    → 12 ≤ length buffer
    → NoNul (drop 12 buffer)
    → parse_message buffer (some m) (length buffer) ≡ none
unfolding parse_message
parse_message-overread buffer m h n = rw (
  le→ltb (length buffer) 12 h,
  read_at-some buffer 0 12 h,
  ← length-drop 12 buffer,
  count_chars-overread (drop 12 buffer) n,
)

>>=-eq-some :
    {A B : Type 0} (m : Option A) (f : A → Option B) {b : B}
    → (m >>= f) ≡ some b
    → (a : A) × (m ≡ some a) × (f a ≡ some b)
>>=-eq-some none f h = cc
>>=-eq-some (some a) f h = (a, refl, h)

-- What an accepted message held.
pub record Accepted (buffer : Bytes) (message_bytes : ℕ) (m : Message) : Type 0 where
  pub domain : Bytes
  pub rest : Bytes
  pub terminated : drop 12 buffer ≡ domain ++ (0 ∷ rest)
  pub no_nul : NoNul domain
  pub within : 16 + length domain ≤ message_bytes
  pub stored : m.question.domain ≡ domain ++ (0 ∷ [])
  pub header : m.header ≡ flip_header_endian (read_header (take 12 buffer))
  pub same_class : m.question.qclass ≡ m.question.qtype

parse_question-Accepted :
    (buffer : Bytes) (m : Message) (message_bytes c : ℕ) {m' : Message}
    → 12 ≤ message_bytes
    → m.header ≡ flip_header_endian (read_header (take 12 buffer))
    → count_chars (drop 12 buffer) (message_bytes - 12) ≡ some c
    → parse_question buffer m (message_bytes - 12) c ≡ some (0, some m')
    → Accepted buffer message_bytes m'
unfolding parse_question read_at
parse_question-Accepted buffer m message_bytes c {m'} h hm e accepted =
    let fits : c + 4 ≤ message_bytes - 12 = ground arith in
    let (domain, rest, split, long, n) =
      count_chars-Terminated (drop 12 buffer) _ e (omega arith) in
    record {
      domain = domain;
      rest = rest;
      terminated = split;
      no_nul = n;
      within = omega arith;
      stored = stored_block domain rest split long;
      header = ground arith;
      same_class = ground arith;
    }
  where
    block : m'.question.domain ≡ take (c + 1) (drop 12 buffer)
    block = ground arith

    stored_block :
        (domain rest : Bytes)
        → drop 12 buffer ≡ domain ++ (0 ∷ rest)
        → length domain ≡ c
        → m'.question.domain ≡ domain ++ (0 ∷ [])
    stored_block domain rest split long =
        block
        ∙ ap (take (c + 1)) (split ∙ sym (append_assoc domain (0 ∷ []) rest))
        ∙ take-append (c + 1) (domain ++ (0 ∷ [])) rest
            (omega (arith, length-append domain (0 ∷ [])))

-- Whatever `parse_message` accepts had a header and a domain ended by NUL, with four more bytes'
-- length counted; the header and the domain are stored whole, and the class repeats the type.
pub parse_message-Accepted :
    (buffer : Bytes) (m : Message) (message_bytes : ℕ) {m' : Message}
    → parse_message buffer (some m) message_bytes ≡ some (0, some m')
    → Accepted buffer message_bytes m'
unfolding parse_message
parse_message-Accepted buffer m message_bytes accepted = elim (Bool-cases (ltb message_bytes 12)) [
  | inl short ↦ absurd (let e = rw short at accepted in cc)
  | inr long ↦
      let enough : 12 ≤ message_bytes = ground arith in
      let (raw, read, counting) = >>=-eq-some _ _ (rw long at accepted) in
      let (c, counted, question) = >>=-eq-some _ _ counting in
      parse_question-Accepted buffer _ message_bytes c enough (header_of raw read) counted question
]
  where
    header_of :
        (raw : Bytes)
        → read_at buffer 0 12 ≡ some raw
        → flip_header_endian (read_header raw) ≡ flip_header_endian (read_header (take 12 buffer))
    header_of raw read = unfold read_at in ground arith
