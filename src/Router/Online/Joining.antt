-- ===== src/Router/Online/Joining.antt =====
-- A server that comes online.
use dns_server.Common.{
  ℕ, zero, suc, ◌+◌, ◌-◌, ◌%◌, ◌<◌, ◌≡◌, refl, sym, ◌∙◌, ap, true, false, Option, some, List, [],
  ◌∷◌, ◌++◌, map, append-nil, Bytes, length, length-append, write_at-append, if◌then◌else◌, text_eq,
  Outcome, ok, split_at, Bool-cases, inl, inr, arith,
}
use dns_server.Coms.Transfer.{Calls}
use dns_server.Coms.Transfer.Entry.{Works}
use dns_server.DnsServer.{DnsServer}
use dns_server.Router.{Router, add_dns_server}
use dns_server.Router.Survivors.{first_slots-all}
use dns_server.Router.Remove.{IsReady, take_all}
use dns_server.Router.Online.{
  port_bytes, send_ports, read_round, read_address, null_address, join, check_tcp_connections,
}

pub send_ports-Works :
    (calls : Calls) (i : ℕ) (servers : List DnsServer)
    → Works calls
    → send_ports calls i servers ≡ (0, map (λ (s : DnsServer). port_bytes s.tcp_port_num) servers)
unfolding send_ports
send_ports-Works calls i [] w = refl
send_ports-Works calls i (s ∷ rest) w =
    rw (w.received i, w.sent (i + 1), send_ports-Works calls (i + 1) rest w)

-- An address that arrives in one piece, or in two.
pub data Arrives (recv : ℕ → Outcome (Option Bytes)) (address : Bytes) : Type 0 where
  whole : recv 0 ≡ ok (some address) → Arrives recv address
  halves :
      (front back : Bytes)
      → address ≡ front ++ back
      → 0 < length front
      → 0 < length back
      → recv 0 ≡ ok (some front)
      → recv 1 ≡ ok (some back)
      → Arrives recv address

read_address-done :
    (recv : ℕ → Outcome (Option Bytes)) (fuel i : ℕ) (result : Bytes) (at : ℕ)
    → read_address recv fuel i result 8 at ≡ ok result
unfolding read_address
read_address-done recv zero i result at = refl
read_address-done recv (suc fuel) i result at = refl

-- A round that starts where the bytes read so far end puts its bytes behind them.
read_round-some :
    (pre old post bs : Bytes) (size : ℕ)
    → length pre ≡ size
    → length old ≡ length bs
    → size + length bs < 256
    → read_round (some bs) (pre ++ (old ++ post)) size size
      ≡ ok (pre ++ (bs ++ post), size + length bs, size + (size + length bs))
unfolding read_round
read_round-some pre old post bs size here fits small =
    rw (write_at-append pre old post bs size here fits, no_wrap)
  where
    no_wrap : (size + length bs) % 256 ≡ size + length bs
    no_wrap = omega arith

read_round-first :
    (bs post old : Bytes)
    → null_address ≡ old ++ post
    → length old ≡ length bs
    → length bs < 256
    → read_round (some bs) null_address 0 0 ≡ ok (bs ++ post, length bs, length bs)
read_round-first bs post old split fits small =
    ap (λ l. read_round (some bs) l 0 0) split
    ∙ read_round-some [] old post bs 0 refl fits (omega arith)
    ∙ rw (zero_left (length bs), zero_left (length bs))
  where
    zero_left : (n : ℕ) → 0 + n ≡ n
    zero_left n = omega arith

-- One round of the loop.
read_address-round :
    (recv : ℕ → Outcome (Option Bytes)) (fuel i size at size' at' : ℕ) (bs result result' : Bytes)
    → size < 8
    → recv i ≡ ok (some bs)
    → read_round (some bs) result size at ≡ ok (result', size', at')
    → read_address recv (suc fuel) i result size at
      ≡ read_address recv fuel (i + 1) result' size' at'
unfolding read_address
read_address-round recv fuel i size at size' at' bs result result' more e round =
    ground (arith, e, round)

-- Two rounds read such an address.
pub read_address-Arrives :
    (recv : ℕ → Outcome (Option Bytes)) (fuel : ℕ) (address : Bytes)
    → length address ≡ 8
    → Arrives recv address
    → read_address recv (suc (suc fuel)) 0 null_address 0 0 ≡ ok address
read_address-Arrives recv fuel address long (whole e) =
    read_address-round recv (suc fuel) 0 0 0 (length address) (length address) address null_address
      (address ++ []) (omega arith) e
      (read_round-first address [] null_address refl (omega arith) (omega arith))
    ∙ rw long (read_address-done recv (suc fuel) (0 + 1) (address ++ []) 8)
    ∙ ap ok (append-nil address)
read_address-Arrives recv fuel address long (halves front back split hf hb e₀ e₁) =
    let (old, post, cut, same) = split_at null_address (length front) (omega (arith, total)) in
    read_address-round recv (suc fuel) 0 0 0 (length front) (length front) front null_address
      (front ++ post) (omega arith) e₀
      (read_round-first front post old cut same (omega (arith, total)))
    ∙ read_address-round recv fuel 1 (length front) (length front) (length front + length back)
        (length front + (length front + length back)) back (front ++ post) (front ++ (back ++ []))
        (omega (arith, total)) e₁
        (second post (omega (arith, total, ap length cut, length-append old post)))
    ∙ rw total (read_address-done recv fuel 2 (front ++ (back ++ [])) (length front + 8))
    ∙ ap ok (ap (λ l. front ++ l) (append-nil back) ∙ sym split)
  where
    total : length front + length back ≡ 8
    total = omega (arith, ap length split, length-append front back)

    second :
        (post : Bytes)
        → length post ≡ length back
        → read_round (some back) (front ++ post) (length front) (length front)
          ≡ ok (
            front ++ (back ++ []),
            length front + length back,
            length front + (length front + length back),
          )
    second post e =
        ap (λ l. read_round (some back) (front ++ l) (length front) (length front))
          (sym (append-nil post))
        ∙ read_round-some front post [] back (length front) refl e (omega (arith, total))

-- `add_dns_server` does not look at the other lock.
add_dns_server-held :
    (r : Router) (dns : DnsServer)
    → IsReady r
    → r.server_cnt < 255
    → add_dns_server (record r { tcp_mutex = true }) dns
      ≡ ok (
        0,
        record r {
          tcp_mutex = true;
          servers = r.servers ++ (dns ∷ []);
          server_cnt = r.server_cnt + 1;
          mutex = false;
        },
      )
unfolding add_dns_server
add_dns_server-held r dns v few =
    ground (arith, take_all r.servers ((r.server_cnt + 1) % 256 - 1) (omega arith))

-- A server comes online: it has taken the list of ports, and its address arrives in at most two
-- pieces. If the router is ready and has fewer than 255 servers, `check_tcp_connections` returns 0,
-- sends the count and every listed server's TCP port in order, puts the new server behind the others,
-- and leaves the router ready. For the address of 8 zero bytes the list stays as it was.
pub check_tcp_connections_lem :
    (calls : Calls) (recv : ℕ → Outcome (Option Bytes)) (fuel : ℕ) (deref : Bytes → DnsServer)
    (r : Router) (address : Bytes)
    → IsReady r
    → r.server_cnt < 255
    → Works calls
    → length address ≡ 8
    → Arrives recv address
    → (r' : Router) × (check_tcp_connections calls recv (suc (suc fuel)) deref r
        ≡ ok (
          0,
          (r.server_cnt ∷ []) ∷ map (λ (s : DnsServer). port_bytes s.tcp_port_num) r.servers,
          r',
        ))
      × (r'.servers
          ≡ (if text_eq address null_address then r.servers else r.servers ++ (deref address ∷ [])))
      × IsReady r'
unfolding check_tcp_connections join
check_tcp_connections_lem calls recv fuel deref r address v few w long arrives =
    elim (Bool-cases (text_eq address null_address)) [
      | inl null ↦ (
        r,
        rw (
          v.tcp_unlocked,
          first_slots-all r.servers r.server_cnt v.counted,
          send_ports-Works calls 0 r.servers w,
          w.sent 0,
          read_address-Arrives recv fuel address long arrives,
          null,
        ),
        rw null,
        v,
      )
      | inr fresh ↦ (
        record r {
          servers = r.servers ++ (deref address ∷ []);
          server_cnt = r.server_cnt + 1;
          mutex = false;
        },
        rw (
          v.tcp_unlocked,
          first_slots-all r.servers r.server_cnt v.counted,
          send_ports-Works calls 0 r.servers w,
          w.sent 0,
          read_address-Arrives recv fuel address long arrives,
          fresh,
          add_dns_server-held r (deref address) v few,
        ),
        rw fresh,
        ground (arith, length-append r.servers (deref address ∷ [])),
      )
    ]
