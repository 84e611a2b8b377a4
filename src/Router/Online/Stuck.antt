-- ===== src/Router/Online/Stuck.antt =====
-- The ways in which `check_tcp_connections` fails to give its lock back.
use dns_server.Common.{
  ℕ, zero, suc, ◌+◌, ◌≡◌, ◌≢◌, ◌⊎◌, inl, inr, Bool-cases, List, refl, is_negative, true, false,
  Option, some, [], ◌∷◌, Bytes, write_at, ◌==◌, Outcome, ok, blocked, running, arith,
}
use dns_server.Coms.Transfer.{Calls}
use dns_server.Coms.Transfer.Entry.{Works}
use dns_server.DnsServer.{DnsServer}
use dns_server.Router.{Router, remove_server}
use dns_server.Router.Survivors.{first_slots-all}
use dns_server.Router.Remove.{IsReady}
use dns_server.Router.Online.{
  send_ports, read_round, read_address, null_address, check_tcp_connections,
}
use dns_server.Router.Online.Joining.{send_ports-Works}

read_address-closed :
    (recv : ℕ → Outcome (Option Bytes)) (fuel i : ℕ)
    → ((k : ℕ) → recv k ≡ ok (some []))
    → read_address recv fuel i null_address 0 0 ≡ running
unfolding read_address read_round write_at
read_address-closed recv zero i closed = refl
read_address-closed recv (suc fuel) i closed =
    rw (closed i) (read_address-closed recv fuel (i + 1) closed)

-- A server that takes the ports and closes the connection without sending an address, as
-- `update_and_online` does where no peer gives it the translations, holds the router's TCP thread for
-- ever: `recv` returns 0 each time, and however long the loop runs it does not end. The other threads
-- find the router with `tcp_mutex` held.
pub check_tcp_connections-closed :
    (calls : Calls) (recv : ℕ → Outcome (Option Bytes)) (deref : Bytes → DnsServer) (r : Router)
    → IsReady r
    → Works calls
    → ((k : ℕ) → recv k ≡ ok (some []))
    → ((fuel : ℕ) → check_tcp_connections calls recv fuel deref r ≡ running)
      × ((dns_id : ℕ) → remove_server (record r { tcp_mutex = true }) dns_id ≡ blocked)
unfolding check_tcp_connections
check_tcp_connections-closed calls recv deref r v w closed = (
  λ fuel. rw (
    v.tcp_unlocked,
    first_slots-all r.servers r.server_cnt v.counted,
    send_ports-Works calls 0 r.servers w,
    w.sent 0,
    read_address-closed recv fuel 0 closed,
  ),
  λ dns_id. unfold remove_server in rw v.unlocked,
)

-- If a call that sends the ports fails, `check_tcp_connections` returns 1 or 2 with `tcp_mutex` held:
-- the next connection and every removal of a server block.
pub check_tcp_connections-failing :
    (calls : Calls) (recv : ℕ → Outcome (Option Bytes)) (fuel : ℕ) (deref : Bytes → DnsServer)
    (r : Router)
    → IsReady r
    → (is_negative (calls.sends 0) ≡ true) ⊎ ((send_ports calls 0 r.servers).0 ≢ 0)
    → (code : ℕ) × (sent : List Bytes) × (r' : Router) × (check_tcp_connections calls recv fuel
          deref r
        ≡ ok (code, sent, r'))
      × (code ≢ 0)
      × ((calls' : Calls) (recv' : ℕ → Outcome (Option Bytes)) (fuel' : ℕ)
          → check_tcp_connections calls' recv' fuel' deref r' ≡ blocked)
      × ((dns_id : ℕ) → remove_server r' dns_id ≡ blocked)
unfolding check_tcp_connections remove_server
check_tcp_connections-failing calls recv fuel deref r v why =
    elim (Bool-cases (is_negative (calls.sends 0))) [
      | inl refused ↦ (
        1,
        [],
        record r { tcp_mutex = true },
        rw (v.tcp_unlocked, first_slots-all r.servers r.server_cnt v.counted, refused),
        λ e. omega arith,
        λ calls' recv' fuel'. refl,
        λ dns_id. rw v.unlocked,
      )
      | inr sent ↦ (
        (send_ports calls 0 r.servers).0,
        (r.server_cnt ∷ []) ∷ (send_ports calls 0 r.servers).1,
        record r { tcp_mutex = true },
        rw (v.tcp_unlocked, first_slots-all r.servers r.server_cnt v.counted, sent, nonzero sent),
        failed sent,
        λ calls' recv' fuel'. refl,
        λ dns_id. rw v.unlocked,
      )
    ]
  where
    failed : is_negative (calls.sends 0) ≡ false → (send_ports calls 0 r.servers).0 ≢ 0
    failed sent = elim why [ inl refused ↦ absurd (cc) | inr nonzero_code ↦ nonzero_code ]

    nonzero : is_negative (calls.sends 0) ≡ false → ((send_ports calls 0 r.servers).0 == 0) ≡ false
    nonzero sent = ground (arith, failed sent)
