-- ===== src/Coms/Update.antt =====
-- src/coms.cc: the update message, from the text that `update_hosts` sends to `recieve_update`.
-- The list of chunks is what `recv` returns, call by call: `none` is -1, an empty chunk is the end of
-- the stream. A list that ends stands for the 2 s timeout that `recieve_update` sets, so for -1 too.
use dns_server.Common.{
  ℕ, zero, suc, ◌+◌, ◌-◌, ◌≤◌, ◌≡◌, ◌≢◌, refl, sym, ◌∙◌, ap, Bool, true, false, Option, none, some,
  List, [], ◌∷◌, ◌++◌, append_assoc, All, Bytes, NoNul, length, length-append, get_elem?,
  get_elem?-last, split_at, write_at, write_at-append, ◌==◌, if◌then◌else◌, Outcome, ok, ◌>>=◌,
  or_crash, arith,
}
use mathlib.Core.Option
use dns_server.Coms.{Coms, HostsFile, actually_update}

-- The string that `update_hosts` sends, its terminator included.
unfoldable pub update_text : Bool → Bytes → Bytes → ℕ → Bytes
update_text remove domain ip id =
    (if remove then b'1' else b'0') ∷ (b' ' ∷ (domain ++ (b' ' ∷ (ip ++ (b' ' ∷ (id ∷ (0 ∷ [])))))))

-- The loop `do … while (*curr_loc != 0)`: each chunk is received at the start of `buffer`, and the
-- byte looked at is the last of all received so far. `none` is the early return.
unfoldable pub receive_text : Bytes → ℕ → List (Option Bytes) → Outcome (Option Bytes)
receive_text buffer total [] = ok none
receive_text buffer total (none ∷ chunks) = ok none
receive_text buffer total (some [] ∷ chunks) = ok none
receive_text buffer total (some (b ∷ bs) ∷ chunks) = do
  buffer' ← or_crash (write_at buffer 0 (b ∷ bs))
  let total' = total + length (b ∷ bs)
  last ← or_crash (get_elem? buffer' (total' - 1))
  let rest = receive_text buffer' total' chunks
  if last == 0 then ok (some buffer') else rest

-- `do { ++p; } while (*p != ' ');` from the start of a word: the word, and what follows its space.
unfoldable pub until_space : Bytes → Option (Bytes × Bytes)
until_space [] = none
until_space (c ∷ rest) =
    let more = Option.map (λ (p : Bytes × Bytes). (c ∷ p.0, p.1)) (until_space rest) in
    if c == b' ' then some ([], rest) else more

unfoldable pub take_word : Bytes → Option (Bytes × Bytes)
unfolding until_space
take_word [] = none
take_word (c ∷ rest) = Option.map (λ (p : Bytes × Bytes). (c ∷ p.0, p.1)) (until_space rest)

-- `std::string(p)` where the word's space was overwritten by NUL.
unfoldable pub before_nul : Bytes → Bytes
before_nul [] = []
before_nul (zero ∷ rest) = []
before_nul (suc b ∷ rest) = suc b ∷ before_nul rest

-- What `recieve_update` does with a received buffer.
unfoldable pub apply_text : Coms → Bytes → Outcome (Coms × ℕ × HostsFile)
apply_text c buffer = do
  flag ← or_crash (get_elem? buffer 0)
  (_, from_domain) ← or_crash (take_word buffer)
  (domain, from_ip) ← or_crash (take_word from_domain)
  (ip, from_id) ← or_crash (take_word from_ip)
  id ← or_crash (get_elem? from_id 0)
  ok (actually_update c (flag == b'1') (before_nul domain) (before_nul ip) id)

-- The outcome of `recieve_update`: the code, the state, and the file if one was written.
pub record Updated : Type 0 where
  pub code : ℕ
  pub coms : Coms
  pub file : Option HostsFile

unfoldable pub finish_update : Coms → Option Bytes → Outcome Updated
finish_update c none = ok (record { code = 1; coms = c; file = none })
finish_update c (some buffer) =
    apply_text c buffer >>= (λ u. ok (record { code = u.1; coms = u.0; file = some u.2 }))

-- `recieve_update`, once the version has been sent (`acked`). `buffer` is the array of 128 bytes.
unfoldable pub recieve_update : Coms → Bool → Bytes → List (Option Bytes) → Outcome Updated
recieve_update c acked buffer chunks =
    if acked
    then (receive_text buffer 0 chunks >>= (λ text. finish_update c text))
    else ok (record { code = 1; coms = c; file = none })

-- A word of the update text: not empty, with no space and no NUL.
abbrev pub IsWord : Bytes → Type 0
IsWord w = (w ≢ []) × NoNul w × All (λ b. b ≢ b' ') w

until_space-word :
    (w rest : Bytes) → All (λ b. b ≢ b' ') w → until_space (w ++ (b' ' ∷ rest)) ≡ some (w, rest)
unfolding until_space
until_space-word [] rest h = refl
until_space-word (c ∷ w) rest h = rw (until_space-word w rest h.1) (ground arith)

pub take_word-word : (w rest : Bytes) → IsWord w → take_word (w ++ (b' ' ∷ rest)) ≡ some (w, rest)
unfolding take_word
take_word-word [] rest h = absurd (h.0 refl)
take_word-word (c ∷ w) rest h = rw (until_space-word w rest h.2.1)

before_nul-word : (w : Bytes) → NoNul w → before_nul w ≡ w
unfolding before_nul
before_nul-word [] h = refl
before_nul-word (zero ∷ w) h = absurd (h.0 refl)
before_nul-word (suc b ∷ w) h = ap (◌∷◌ (suc b)) (before_nul-word w h.1)

-- The text up to the byte behind its last space.
abbrev text_front : Bool → Bytes → Bytes → Bytes → Bytes
text_front remove domain ip rest =
    ((if remove then b'1' else b'0') ∷ []) ++ (b' ' ∷ (domain ++ (b' ' ∷ (ip ++ (b' ' ∷ rest)))))

update_text-append :
    (remove : Bool) (domain ip : Bytes) (id : ℕ) (pad : Bytes)
    → update_text remove domain ip id ++ pad ≡ text_front remove domain ip (id ∷ (0 ∷ pad))
unfolding update_text
update_text-append remove domain ip id pad =
    ap (λ t. (if remove then b'1' else b'0') ∷ (b' ' ∷ t))
      (append_assoc domain (b' ' ∷ (ip ++ (b' ' ∷ (id ∷ (0 ∷ []))))) pad
        ∙ ap (λ t. domain ++ (b' ' ∷ t)) (append_assoc ip (b' ' ∷ (id ∷ (0 ∷ []))) pad))

flag-IsWord : (remove : Bool) → IsWord ((if remove then b'1' else b'0') ∷ [])
flag-IsWord true = (λ e. cc, (omega arith, tt), (omega arith, tt))
flag-IsWord false = (λ e. cc, (omega arith, tt), (omega arith, tt))

apply_text-update :
    (c : Coms) (remove : Bool) (domain ip : Bytes) (id : ℕ) (pad : Bytes)
    → IsWord domain
    → IsWord ip
    → apply_text c (update_text remove domain ip id ++ pad)
      ≡ ok (actually_update c remove domain ip id)
unfolding apply_text
apply_text-update c remove domain ip id pad hd hi =
    rw
      (
        update_text-append remove domain ip id pad,
        take_word-word ((if remove then b'1' else b'0') ∷ [])
            (domain ++ (b' ' ∷ (ip ++ (b' ' ∷ (id ∷ (0 ∷ pad)))))) (flag-IsWord remove),
        take_word-word domain (ip ++ (b' ' ∷ (id ∷ (0 ∷ pad)))) hd,
        take_word-word ip (id ∷ (0 ∷ pad)) hi,
        before_nul-word domain hd.1,
        before_nul-word ip hi.1,
      )
      (ap (λ r. ok (actually_update c r domain ip id)) (flag_read remove))
  where
    flag_read : (r : Bool) → ((if r then b'1' else b'0') == b'1') ≡ r
    flag_read true = refl
    flag_read false = refl

pub length-update_text :
    (remove : Bool) (domain ip : Bytes) (id : ℕ)
    → length (update_text remove domain ip id) ≡ length domain + length ip + 6
unfolding update_text
length-update_text remove domain ip id = omega (
  arith,
  length-append domain (b' ' ∷ (ip ++ (b' ' ∷ (id ∷ (0 ∷ []))))),
  length-append ip (b' ' ∷ (id ∷ (0 ∷ []))),
)

-- A chunk that ends in NUL ends the loop, and lies at the front of the buffer.
receive_text-chunk :
    (b : ℕ) (t init old pad : Bytes) (chunks : List (Option Bytes))
    → b ∷ t ≡ init ++ (0 ∷ [])
    → length old ≡ length (b ∷ t)
    → receive_text (old ++ pad) 0 (some (b ∷ t) ∷ chunks) ≡ ok (some ((b ∷ t) ++ pad))
unfolding receive_text
receive_text-chunk b t init old pad chunks ends long =
    rw (write_at-append [] old pad (b ∷ t) 0 refl long, last)
  where
    last : get_elem? ((b ∷ t) ++ pad) (0 + length (b ∷ t) - 1) ≡ some 0
    last = get_elem?-last (b ∷ t) init 0 pad (0 + length (b ∷ t) - 1) ends (omega arith)

update_text-ends :
    (remove : Bool) (domain ip : Bytes) (id : ℕ)
    → update_text remove domain ip id ≡ text_front remove domain ip (id ∷ []) ++ (0 ∷ [])
unfolding update_text
update_text-ends remove domain ip id = sym (
    ap (λ t. (if remove then b'1' else b'0') ∷ (b' ' ∷ t))
      (append_assoc domain (b' ' ∷ (ip ++ (b' ' ∷ (id ∷ [])))) (0 ∷ [])
        ∙ ap (λ t. domain ++ (b' ' ∷ t)) (append_assoc ip (b' ' ∷ (id ∷ [])) (0 ∷ []))))

-- The update that one server sends is the update that the other makes: if the text arrives in one
-- chunk and fits the buffer, and domain and address are words, `recieve_update` does exactly what
-- `actually_update` does with the sender's arguments, whatever the buffer held.
pub recieve_update-update_text :
    (c : Coms) (remove : Bool) (domain ip : Bytes) (id : ℕ) (buffer : Bytes)
    (chunks : List (Option Bytes))
    → IsWord domain
    → IsWord ip
    → length domain + length ip + 6 ≤ length buffer
    → let (c', code, file) = actually_update c remove domain ip id in
      recieve_update c true buffer (some (update_text remove domain ip id) ∷ chunks)
      ≡ ok (record { code = code; coms = c'; file = some file })
unfolding recieve_update finish_update
recieve_update-update_text c remove domain ip id buffer chunks hd hi room =
    let (old, pad, split, long) =
      split_at buffer (length (update_text remove domain ip id))
        (omega (arith, length-update_text remove domain ip id)) in
    rw (split, received old pad long, apply_text-update c remove domain ip id pad hd hi)
  where
    received :
        (old pad : Bytes)
        → length old ≡ length (update_text remove domain ip id)
        → receive_text (old ++ pad) 0 (some (update_text remove domain ip id) ∷ chunks)
          ≡ ok (some (update_text remove domain ip id ++ pad))
    received old pad long =
        unfold update_text in
        receive_text-chunk (if remove then b'1' else b'0')
          (b' ' ∷ (domain ++ (b' ' ∷ (ip ++ (b' ' ∷ (id ∷ (0 ∷ [])))))))
          (text_front remove domain ip (id ∷ [])) old pad chunks
          (update_text-ends remove domain ip id) long
