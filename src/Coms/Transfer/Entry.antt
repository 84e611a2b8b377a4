-- ===== src/Coms/Transfer/Entry.antt =====
-- One entry of a transfer, from `send_entire_file` to the table of the receiver.
use dns_server.Common.{
  ℕ, ◌+◌, ◌-◌, ◌%◌, ◌≤◌, ◌≡◌, refl, sym, ◌∙◌, ap, is_negative, false, Option, some, List, [], ◌∷◌,
  ◌++◌, map, append_assoc, Bytes, NoNul, c_string-append, length, length-append, get_elem?,
  get_elem?-last, set, write_at-append, ◌==◌, ok, arith,
}
use dns_server.Coms.{Coms}
use dns_server.Coms.Table.{Translations, assign}
use dns_server.Coms.Update.{IsWord, take_word-word}
use dns_server.Coms.Transfer.{
  Calls, entry_text, send_entries, send_entire_file, receive_entry, store_entry,
}

-- No call of the connection fails.
pub record Works (calls : Calls) : Type 0 where
  pub sent : (i : ℕ) → is_negative (calls.sends i) ≡ false
  pub received : (i : ℕ) → is_negative (calls.recvs i) ≡ false

-- An entry that the receiving buffer has room for, and that reads back.
abbrev pub Fits : ℕ → Bytes × Bytes → Type 0
Fits room entry = IsWord entry.0 × NoNul entry.1 × (length entry.0 + length entry.1 + 2 ≤ room)

abbrev pub entry_of : Bytes × Bytes → Bytes
entry_of entry = entry_text entry.0 entry.1

send_entries-Works :
    (calls : Calls) (version i : ℕ) (t : Translations)
    → Works calls
    → send_entries calls version i t ≡ (0, map entry_of t ++ ((version ∷ []) ∷ []))
unfolding send_entries
send_entries-Works calls version i [] w = rw (w.received i, w.sent (i + 1))
send_entries-Works calls version i ((domain, ip) ∷ rest) w =
    rw (w.received i, w.sent (i + 1), send_entries-Works calls version (i + 1) rest w)

pub send_entire_file-Works :
    (calls : Calls) (c : Coms)
    → Works calls
    → send_entire_file calls c
      ≡ (0, (length c.ip_hash % 256 ∷ []) ∷ (map entry_of c.ip_hash ++ ((c.version_num ∷ []) ∷ [])))
unfolding send_entire_file
send_entire_file-Works calls c w =
    rw (w.sent 0, send_entries-Works calls c.version_num 0 c.ip_hash w)

pub length-entry_text :
    (domain ip : Bytes) → length (entry_text domain ip) ≡ length domain + length ip + 2
unfolding entry_text
length-entry_text domain ip =
    omega (arith, length-append domain (b' ' ∷ (ip ++ (0 ∷ []))), length-append ip (0 ∷ []))

entry_text-append :
    (domain ip pad : Bytes) → entry_text domain ip ++ pad ≡ domain ++ (b' ' ∷ (ip ++ (0 ∷ pad)))
unfolding entry_text
entry_text-append domain ip pad =
    append_assoc domain (b' ' ∷ (ip ++ (0 ∷ []))) pad
    ∙ ap (λ l. domain ++ (b' ' ∷ l)) (append_assoc ip (0 ∷ []) pad)

-- A whole entry ends the receiving loop, and lies at the front of the buffer.
pub receive_entry-text :
    (domain ip old pad : Bytes) (chunks : List (Option Bytes))
    → length old ≡ length (entry_text domain ip)
    → receive_entry (old ++ pad) 0 (some (entry_text domain ip) ∷ chunks)
      ≡ ok (some (entry_text domain ip ++ pad, chunks))
unfolding receive_entry
receive_entry-text domain ip old pad chunks long =
    rw (write_at-append [] old pad (entry_text domain ip) 0 refl long, no_wait, last)
  where
    no_wait : ((0 + length (entry_text domain ip)) == 0) ≡ false
    no_wait = ground (arith, length-entry_text domain ip)

    last : get_elem? (entry_text domain ip ++ pad) (0 + length (entry_text domain ip) - 1) ≡ some 0
    last =
        get_elem?-last (entry_text domain ip) (domain ++ (b' ' ∷ ip)) 0 pad
          (0 + length (entry_text domain ip) - 1)
          (unfold entry_text in sym (append_assoc domain (b' ' ∷ ip) (0 ∷ [])))
          (omega (arith, length-entry_text domain ip))

pub store_entry-text :
    (c : Coms) (domain ip pad : Bytes)
    → IsWord domain
    → NoNul ip
    → store_entry c (entry_text domain ip ++ pad)
      ≡ ok (
        record c { ip_hash = assign domain ip c.ip_hash },
        set (entry_text domain ip ++ pad) (length domain) 0,
      )
unfolding store_entry
store_entry-text c domain ip pad word n = rw (
  entry_text-append domain ip pad,
  take_word-word domain (ip ++ (0 ∷ pad)) word,
  c_string-append domain (ip ++ (0 ∷ pad)) word.1,
  c_string-append ip pad n,
)
