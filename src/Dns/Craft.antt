-- ===== src/Dns/Craft.antt =====
-- What `craft_message` leaves in the buffer, and when it stays inside it.
use dns_server.Common.{
  ℕ, ◌+◌, ◌%◌, ◌≤◌, ◌<◌, ◌≡◌, refl, sym, ◌∙◌, ap, Bool, Option, none, some, [], ◌∷◌, ◌++◌, Bytes,
  length, length-append, append_assoc, write_at, write_at-append, write_at-none, length-write_at,
  split_at, arith,
}
use dns_server.Dns.{craft_message, crafted_header, header_bytes, ◌>>=◌}
use dns_server.Dns.Layout.{length-header_bytes}

-- The message for a domain: header, domain, terminator, and the four bytes of type and class, of
-- which the first and third are whatever the buffer held.
abbrev pub wire : Bool → ℕ → Bytes → Option Bytes → ℕ → ℕ → Bytes → Bytes
wire query id domain ip q0 q2 rest =
    header_bytes (crafted_header query id ip) ++ ((domain ++ (0 ∷ [])) ++ (q0 ∷ 1 ∷ q2 ∷ 1 ∷ rest))

-- Four bytes at the front of a list that has them.
four :
    (xs : Bytes)
    → 4 ≤ length xs
    → (a : ℕ) × (b : ℕ) × (c : ℕ) × (d : ℕ) × (rest : Bytes) × (xs ≡ a ∷ b ∷ c ∷ d ∷ rest)
four [] h = absurd (omega arith)
four (a ∷ []) h = absurd (omega arith)
four (a ∷ b ∷ []) h = absurd (omega arith)
four (a ∷ b ∷ c ∷ []) h = absurd (omega arith)
four (a ∷ b ∷ c ∷ d ∷ rest) h = (a, b, c, d, rest, refl)

-- A write of one byte behind three known parts.
write_byte :
    (a b c post : Bytes) (x y at : ℕ)
    → length a + length b + length c ≡ at
    → write_at (a ++ (b ++ (c ++ (x ∷ post)))) at (y ∷ []) ≡ some (a ++ (b ++ (c ++ (y ∷ post))))
write_byte a b c post x y at h =
    rw (← join x, ← join y)
      (write_at-append (a ++ (b ++ c)) (x ∷ []) post (y ∷ []) at
        (omega (arith, length-append a (b ++ c), length-append b c)) refl)
  where
    join : (z : ℕ) → (a ++ (b ++ c)) ++ (z ∷ post) ≡ a ++ (b ++ (c ++ (z ∷ post)))
    join z = append_assoc a (b ++ c) (z ∷ post) ∙ ap (◌++◌ a) (append_assoc b c (z ∷ post))

-- The four writes, on a buffer given in its parts.
craft_parts :
    (query : Bool) (id : ℕ) (domain : Bytes) (ip : Option Bytes) (old_header old_domain : Bytes)
    (q0 q1 q2 q3 : ℕ) (rest : Bytes)
    → length old_header ≡ 12
    → length old_domain ≡ length domain + 1
    → craft_message (old_header ++ (old_domain ++ (q0 ∷ q1 ∷ q2 ∷ q3 ∷ rest))) query id domain ip
      ≡ some ((17 + length domain) % 256, wire query id domain ip q0 q2 rest)
unfolding craft_message
craft_parts query id domain ip old_header old_domain q0 q1 q2 q3 rest hh hd =
    rw
      (
        write_at-append [] old_header (old_domain ++ (q0 ∷ q1 ∷ q2 ∷ q3 ∷ rest)) header 0 refl
            (hh ∙ sym header_length),
        write_at-append header old_domain (q0 ∷ q1 ∷ q2 ∷ q3 ∷ rest) (domain ++ (0 ∷ [])) 12
            header_length (omega (arith, length-append domain (0 ∷ []))),
        write_byte header (domain ++ (0 ∷ [])) (q0 ∷ []) (q2 ∷ q3 ∷ rest) q1 1 _ at_type,
        write_byte header (domain ++ (0 ∷ [])) (q0 ∷ 1 ∷ q2 ∷ []) rest q3 1 _ at_class,
      )
      (ap (λ n. some (n, wire query id domain ip q0 q2 rest)) (omega arith))
  where
    header : Bytes
    header = header_bytes (crafted_header query id ip)

    header_length : length header ≡ 12
    header_length = length-header_bytes (crafted_header query id ip)

    at_type : length header + length (domain ++ (0 ∷ [])) + 1 ≡ 12 + (length domain + 1) + 1
    at_type = omega (arith, header_length, length-append domain (0 ∷ []))

    at_class : length header + length (domain ++ (0 ∷ [])) + 3 ≡ 12 + (length domain + 1) + 3
    at_class = omega (arith, header_length, length-append domain (0 ∷ []))

-- A buffer with room for the message, in the parts that the writes meet.
record Room (buffer : Bytes) (n : ℕ) : Type 0 where
  old_header : Bytes
  old_domain : Bytes
  q0 : ℕ
  q1 : ℕ
  q2 : ℕ
  q3 : ℕ
  rest : Bytes
  parts : buffer ≡ old_header ++ (old_domain ++ (q0 ∷ q1 ∷ q2 ∷ q3 ∷ rest))
  header_length : length old_header ≡ 12
  domain_length : length old_domain ≡ n + 1

room : (buffer : Bytes) (n : ℕ) → 17 + n ≤ length buffer → Room buffer n
room buffer n h =
    let (old_header, r, e, hl) = split_at buffer 12 (omega arith) in
    let long : 5 + n ≤ length r = omega (arith, ap length e, length-append old_header r) in
    let (old_domain, r', e', dl) = split_at r (n + 1) (omega arith) in
    let long' : 4 ≤ length r' = omega (arith, ap length e', length-append old_domain r') in
    let (q0, q1, q2, q3, rest, e'') = four r' long' in
    record {
      old_header = old_header;
      old_domain = old_domain;
      q0 = q0;
      q1 = q1;
      q2 = q2;
      q3 = q3;
      rest = rest;
      parts = e ∙ ap (◌++◌ old_header) (e' ∙ ap (◌++◌ old_domain) e'');
      header_length = hl;
      domain_length = dl;
    }

-- In a buffer with room for header, domain, terminator and four more bytes, `craft_message` never
-- writes past the end: the buffer then begins with the message, in which two of the last four bytes
-- are 1 and two are not determined, and the length returned is the message's modulo 256.
pub craft_message-wire :
    (buffer : Bytes) (query : Bool) (id : ℕ) (domain : Bytes) (ip : Option Bytes)
    → 17 + length domain ≤ length buffer
    → (q0 : ℕ) × (q2 : ℕ) × (rest : Bytes) × (craft_message buffer query id domain ip
        ≡ some ((17 + length domain) % 256, wire query id domain ip q0 q2 rest))
craft_message-wire buffer query id domain ip h =
    let v = room buffer (length domain) h in
    (
      v.q0,
      v.q2,
      v.rest,
      ap (λ b. craft_message b query id domain ip) v.parts
          ∙ craft_parts query id domain ip v.old_header v.old_domain v.q0 v.q1 v.q2 v.q3 v.rest
              v.header_length v.domain_length,
    )

bind_none :
    {A B : Type 0} (m : Option A) (f : A → Option B)
    → ((a : A) → m ≡ some a → f a ≡ none)
    → (m >>= f) ≡ none
bind_none none f h = refl
bind_none (some a) f h = h a refl

-- Where the buffer is shorter than header, domain, terminator and four more bytes, some write of
-- `craft_message` goes past its end.
pub craft_message-overflow :
    (buffer : Bytes) (query : Bool) (id : ℕ) (domain : Bytes) (ip : Option Bytes)
    → length buffer < 17 + length domain
    → craft_message buffer query id domain ip ≡ none
unfolding craft_message
craft_message-overflow buffer query id domain ip h = bind_none (write_at buffer 0 header) _ λ b₁ e₁.
    bind_none (write_at b₁ 12 (domain ++ (0 ∷ []))) _ λ b₂ e₂.
      bind_none (write_at b₂ (12 + (length domain + 1) + 1) (1 ∷ [])) _ λ b₃ e₃. rw (
        write_at-none b₃ (12 + (length domain + 1) + 3) (1 ∷ []) (
          omega
            (arith, length-write_at _ _ _ e₁, length-write_at _ _ _ e₂, length-write_at _ _ _ e₃)))
  where
    header : Bytes
    header = header_bytes (crafted_header query id ip)
