-- ===== src/Coms/Transfer.antt =====
-- src/coms.cc: the transfer of all translations to a new server, `send_entire_file` on the one side
-- and `request_hosts` on the other, and the dispatch of `process_next_request`.
-- Results of `send` and `recv` are arguments: a number for each call, counted from 0. What `recv`
-- stores is the list of chunks that it returns, call by call, `none` for -1. The sockets of
-- `request_hosts` have no timeout, so a list that ends is a wait for ever.
pub mod Entry
pub mod Copy
pub mod Tests
use dns_server.Common.{
  ℕ, zero, suc, ◌+◌, ◌-◌, ◌%◌, ℤ, is_negative, Bool, not, true, false, Option, none, some, List, [],
  ◌∷◌, ◌++◌, Bytes, c_string, length, get_elem?, set, write_at, ◌==◌, if◌then◌else◌, Outcome, ok,
  crash, blocked, ◌>>=◌, or_crash,
}
use dns_server.Coms.{Coms}
use dns_server.Coms.Table.{Translations, assign}
use dns_server.Coms.Update.{Updated, take_word, recieve_update}

-- What the calls of one connection return.
pub record Calls : Type 0 where
  pub sends : ℕ → ℤ
  pub recvs : ℕ → ℤ

-- `(domain + " " + ip).c_str()` with its terminator
unfoldable pub entry_text : Bytes → Bytes → Bytes
entry_text domain ip = domain ++ (b' ' ∷ (ip ++ (0 ∷ [])))

-- The loop of `send_entire_file` from the `i`-th entry on, and what follows it: the code, and the
-- messages sent. Each waits for an ack.
unfoldable pub send_entries : Calls → ℕ → ℕ → Translations → ℕ × List Bytes
send_entries calls version i [] =
    if is_negative (calls.recvs i)
    then (4, [])
    else (if is_negative (calls.sends (i + 1)) then (5, []) else (0, (version ∷ []) ∷ []))
send_entries calls version i ((domain, ip) ∷ rest) =
    let (code, sent) = send_entries calls version (i + 1) rest in
    if is_negative (calls.recvs i)
    then (2, [])
    else (if is_negative (calls.sends (i + 1))
        then (3, [])
        else (code, entry_text domain ip ∷ sent))

-- `send_entire_file`: the code and the messages sent. The count is a uint8_t.
unfoldable pub send_entire_file : Calls → Coms → ℕ × List Bytes
unfolding send_entries entry_text
send_entire_file calls c =
    let (code, sent) = send_entries calls c.version_num 0 c.ip_hash in
    if is_negative (calls.sends 0) then (1, []) else (code, (length c.ip_hash % 256 ∷ []) ∷ sent)

-- What `process_next_request` leaves behind: the server, and the messages it sent if it was asked for
-- the file.
pub record Served : Type 0 where
  pub coms : Coms
  pub sent : List Bytes

-- `process_next_request`, by the request code received: 1 asks for the whole file, 2 brings an update.
-- It returns 0 whatever the handlers return.
unfoldable pub process_next_request :
    Calls → Bytes → List (Option Bytes) → Coms → ℕ → Outcome Served
process_next_request calls stack chunks c request_code =
    if request_code == 1
    then ok (record { coms = c; sent = (send_entire_file calls c).1 })
    else (if request_code == 2
        then (recieve_update c (not (is_negative (calls.sends 0))) stack chunks
            >>= (λ u. ok (record { coms = u.coms; sent = [] })))
        else ok (record { coms = c; sent = [] }))

-- `recv` of one byte into a variable that holds `old`: its value and the chunks left. A failure and
-- the end of the stream leave the variable alone.
unfoldable pub recv_byte : ℕ → List (Option Bytes) → Outcome (ℕ × List (Option Bytes))
recv_byte old [] = blocked
recv_byte old (none ∷ chunks) = ok (old, chunks)
recv_byte old (some [] ∷ chunks) = ok (old, chunks)
recv_byte old (some (b ∷ []) ∷ chunks) = ok (b, chunks)
recv_byte old (some (b ∷ bs) ∷ chunks) = ok (b, some bs ∷ chunks)

-- The loop `do … while (*curr_loc != 0)` of `request_hosts`: the buffer and the chunks left, or `none`
-- for the early return. A first chunk of no bytes makes it look at the byte in front of the buffer.
unfoldable pub receive_entry :
    Bytes → ℕ → List (Option Bytes) → Outcome (Option (Bytes × List (Option Bytes)))
receive_entry buffer total [] = blocked
receive_entry buffer total (none ∷ chunks) = ok none
receive_entry buffer total (some bs ∷ chunks) = do
  buffer' ← or_crash (write_at buffer 0 bs)
  let total' = total + length bs
  last ← if total' == 0 then crash else or_crash (get_elem? buffer' (total' - 1))
  let rest = receive_entry buffer' total' chunks
  if last == 0 then ok (some (buffer', chunks)) else rest

-- An entry that was received goes into the table; the buffer keeps a NUL in place of the space.
unfoldable pub store_entry : Coms → Bytes → Outcome (Coms × Bytes)
store_entry c buffer = do
  (word, from_ip) ← or_crash (take_word buffer)
  domain ← or_crash (c_string (word ++ (0 ∷ from_ip)))
  ip ← or_crash (c_string from_ip)
  ok (record c { ip_hash = assign domain ip c.ip_hash }, set buffer (length word) 0)

-- The for loop of `request_hosts`, `left` rounds before its end: the code (0 where it goes on), the
-- state and the chunks left.
unfoldable pub fetch_entries :
    (ℕ → ℤ) → ℕ → ℕ → Bytes → Coms → List (Option Bytes) → Outcome (ℕ × Coms × List (Option Bytes))
fetch_entries sends zero i buffer c chunks = ok (0, c, chunks)
fetch_entries sends (suc left) i buffer c chunks =
    if is_negative (sends (i + 1))
    then ok (2, c, chunks)
    else (receive_entry buffer 0 chunks >>= (λ received. elim received [
      | none ↦ ok (3, c, chunks)
      | some (buffer', chunks') ↦
          store_entry c buffer' >>= (λ s. fetch_entries sends left (i + 1) s.1 s.0 chunks')
    ]))

-- The end of `request_hosts`: the last ack, and the version.
unfoldable pub fetch_version : (ℕ → ℤ) → ℕ → ℕ → Coms → List (Option Bytes) → Outcome (ℕ × Coms)
fetch_version sends i old c chunks =
    if is_negative (sends i)
    then ok (4, c)
    else (recv_byte old chunks >>= (λ v. ok (0, record c { version_num = v.0 })))

-- `request_hosts`: the code and the server's state. `stack` is what its variables `trans_cnt`,
-- `buffer` and `ver` hold at first.
unfoldable pub request_hosts :
    (ℕ → ℤ) → ℕ × Bytes × ℕ → Coms → List (Option Bytes) → Outcome (ℕ × Coms)
request_hosts sends stack c chunks =
    let cleared = record c { ip_hash = [] } in
    if is_negative (sends 0) then ok (1, cleared) else do
      (trans_cnt, chunks₁) ← recv_byte stack.0 chunks
      (code, filled, chunks₂) ← fetch_entries sends trans_cnt 0 stack.1 cleared chunks₁
      if code == 0
          then fetch_version sends (trans_cnt + 1) stack.2 filled chunks₂
          else ok (code, filled)
