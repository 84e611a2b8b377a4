-- ===== src/Coms/Transfer/Copy.antt =====
-- What a transfer of the translations leaves at the server that asked for it.
use dns_server.Common.{
  ℕ, ◌+◌, ◌%◌, ◌<◌, ◌≡◌, refl, ◌∙◌, ap, ℤ, is_negative, false, Option, some, List, [], ◌∷◌, ◌++◌,
  map, All, Bytes, length, length-append, length-set, set, split_at, ok, arith,
}
use dns_server.Coms.{Coms, translate_ip}
use dns_server.Coms.Table.{
  Translations, find, assign, DistinctKeys, assign_all, find-assign_all, or_else-none,
}
use dns_server.Coms.Transfer.{
  Calls, entry_text, send_entire_file, Served, process_next_request, recv_byte, fetch_entries,
  fetch_version, request_hosts,
}
use dns_server.Coms.Transfer.Entry.{
  Works, Fits, entry_of, send_entire_file-Works, length-entry_text, receive_entry-text,
  store_entry-text,
}

arriving : Translations → List (Option Bytes)
arriving = map (λ entry. some (entry_of entry))

-- The loop takes entries that arrive one by one into the table.
fetch_entries-arriving :
    (sends : ℕ → ℤ) (t : Translations) (i : ℕ) (buffer : Bytes) (c : Coms)
    (chunks : List (Option Bytes)) (room : ℕ)
    → length buffer ≡ room
    → ((k : ℕ) → is_negative (sends k) ≡ false)
    → All (Fits room) t
    → fetch_entries sends (length t) i buffer c (arriving t ++ chunks)
      ≡ ok (0, record c { ip_hash = assign_all c.ip_hash t }, chunks)
unfolding fetch_entries arriving assign_all
fetch_entries-arriving sends [] i buffer c chunks room long w fits = refl
fetch_entries-arriving sends ((domain, ip) ∷ rest) i buffer c chunks room size w
      ((word, n, short), fits) =
    let (old, pad, split, long) =
      split_at buffer (length (entry_text domain ip))
        (omega (arith, length-entry_text domain ip)) in
    rw
      (
        w (i + 1),
        split,
        receive_entry-text domain ip old pad (arriving rest ++ chunks) long,
        store_entry-text c domain ip pad word n,
      )
      (fetch_entries-arriving sends rest (i + 1)
        (set (entry_text domain ip ++ pad) (length domain) 0)
        (record c { ip_hash = assign domain ip c.ip_hash }) chunks room
        (omega (
          arith,
          length-set (entry_text domain ip ++ pad) (length domain) 0,
          length-append (entry_text domain ip) pad,
          length-append old pad,
          ap length split,
        ))
        w fits)

-- `request_hosts` on a stream of a count, as many entries, and more.
request_hosts-stream :
    (sends : ℕ → ℤ) (stack : ℕ × Bytes × ℕ) (c : Coms) (t : Translations) (b : ℕ) (bs : Bytes)
    (more : List (Option Bytes))
    → ((k : ℕ) → is_negative (sends k) ≡ false)
    → All (Fits (length stack.1)) t
    → request_hosts sends stack c (some (length t ∷ []) ∷ (arriving t ++ (some (b ∷ bs) ∷ more)))
      ≡ ok (0, record c { ip_hash = assign_all [] t; version_num = b })
unfolding request_hosts fetch_version recv_byte
request_hosts-stream sends stack c t b [] more w fits = rw (
  w 0,
  fetch_entries-arriving sends t 0 stack.1 (record c { ip_hash = [] }) (some (b ∷ []) ∷ more)
      (length stack.1) refl w fits,
  w (length t + 1),
)
request_hosts-stream sends stack c t b (b' ∷ bs) more w fits = rw (
  w 0,
  fetch_entries-arriving sends t 0 stack.1 (record c { ip_hash = [] }) (some (b ∷ (b' ∷ bs)) ∷ more)
      (length stack.1) refl w fits,
  w (length t + 1),
)

map-some-entries :
    (t : Translations) (more : List Bytes)
    → map some (map entry_of t ++ more) ≡ arriving t ++ map some more
unfolding arriving
map-some-entries [] more = refl
map-some-entries (entry ∷ t) more = ap (◌∷◌ (some (entry_of entry))) (map-some-entries t more)

-- What `send_entire_file` puts on the stream.
stream_of : Coms → ℕ → List (Option Bytes)
stream_of peer cnt =
    some (cnt ∷ []) ∷ (arriving peer.ip_hash ++ (some (peer.version_num ∷ []) ∷ []))

map-some-send_entire_file :
    (calls : Calls) (peer : Coms)
    → Works calls
    → map some (send_entire_file calls peer).1 ≡ stream_of peer (length peer.ip_hash % 256)
unfolding stream_of
map-some-send_entire_file calls peer works = rw (
  send_entire_file-Works calls peer works,
  map-some-entries peer.ip_hash ((peer.version_num ∷ []) ∷ []),
)

arriving-append :
    (l r : Translations) (more : List (Option Bytes))
    → arriving (l ++ r) ++ more ≡ arriving l ++ (arriving r ++ more)
unfolding arriving
arriving-append [] r more = refl
arriving-append (entry ∷ l) r more = ap (◌∷◌ (some (entry_of entry))) (arriving-append l r more)

module _ (calls : Calls) (sends : ℕ → ℤ) (works : Works calls)
    (sent : (k : ℕ) → is_negative (sends k) ≡ false) (peer c : Coms) (stack : ℕ × Bytes × ℕ) where
  -- The new server asks a peer for its translations, and each message arrives in one piece. If the
  -- peer has fewer than 256 translations, all of which fit the receiving buffer, the peer is left as
  -- it was, `request_hosts` returns 0, and the new server translates every domain as the peer does
  -- and has the peer's version, whatever it and its buffers held before.
  pub request_hosts-process_next_request :
      (peer_stack : Bytes) (update : List (Option Bytes))
      → length peer.ip_hash < 256
      → All (Fits (length stack.1)) peer.ip_hash
      → DistinctKeys peer.ip_hash
      → (served : Served) × (process_next_request calls peer_stack update peer 1 ≡ ok served)
        × (served.coms ≡ peer)
        × (c' : Coms) × (request_hosts sends stack c (map some served.sent) ≡ ok (0, c'))
        × ((x : Bytes) → translate_ip c' x ≡ translate_ip peer x)
        × (c'.version_num ≡ peer.version_num)
        × (c'.id ≡ c.id)
  unfolding process_next_request translate_ip find
  request_hosts-process_next_request peer_stack update few fits distinct = (
    record { coms = peer; sent = (send_entire_file calls peer).1 },
    refl,
    refl,
    record c { ip_hash = assign_all [] peer.ip_hash; version_num = peer.version_num },
    ap (request_hosts sends stack c) (map-some-send_entire_file calls peer works)
        ∙ ap (λ n. request_hosts sends stack c (stream_of peer n)) counted
        ∙ received,
    λ x. find-assign_all x [] peer.ip_hash distinct ∙ or_else-none (find x peer.ip_hash),
    refl,
    refl,
  )
    where
      counted : length peer.ip_hash % 256 ≡ length peer.ip_hash
      counted = omega arith

      received :
          request_hosts sends stack c (stream_of peer (length peer.ip_hash))
          ≡ ok
              (0, record c { ip_hash = assign_all [] peer.ip_hash; version_num = peer.version_num })
      received =
          unfold stream_of in
          request_hosts-stream sends stack c peer.ip_hash peer.version_num [] [] sent fits

  -- From 256 translations on the count that is sent wraps around. If the count modulo 256 is that of
  -- the translations in front of one of them, the new server takes only those in front, returns 0
  -- all the same, and takes the first byte of the next domain for the version.
  pub request_hosts-wraps :
      (front back : Translations) (b : ℕ) (domain ip : Bytes)
      → peer.ip_hash ≡ front ++ ((b ∷ domain, ip) ∷ back)
      → length peer.ip_hash % 256 ≡ length front
      → All (Fits (length stack.1)) front
      → request_hosts sends stack c (map some (send_entire_file calls peer).1)
        ≡ ok (0, record c { ip_hash = assign_all [] front; version_num = b })
  unfolding stream_of arriving entry_text
  request_hosts-wraps front back b domain ip split counted fits =
      ap (request_hosts sends stack c) (map-some-send_entire_file calls peer works)
      ∙ ap (λ n. request_hosts sends stack c (stream_of peer n)) counted
      ∙ ap (request_hosts sends stack c) stream
      ∙ request_hosts-stream sends stack c front b (domain ++ (b' ' ∷ (ip ++ (0 ∷ []))))
          (arriving back ++ (some (peer.version_num ∷ []) ∷ [])) sent fits
    where
      stream :
          stream_of peer (length front)
          ≡ some (length front ∷ [])
            ∷ (arriving front
                ++ (some (b ∷ (domain ++ (b' ' ∷ (ip ++ (0 ∷ [])))))
                    ∷ (arriving back ++ (some (peer.version_num ∷ []) ∷ []))))
      stream =
          ap (λ t. some (length front ∷ []) ∷ (arriving t ++ (some (peer.version_num ∷ []) ∷ [])))
            split
          ∙ ap (◌∷◌ (some (length front ∷ [])))
              (arriving-append front ((b ∷ domain, ip) ∷ back) (some (peer.version_num ∷ []) ∷ []))
