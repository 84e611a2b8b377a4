-- ===== src/Router/Remove.antt =====
-- `remove_server` and `add_dns_server` against the list of servers that they stand for.
use dns_server.Common.{
  ℕ, zero, suc, ◌+◌, ◌-◌, ◌<◌, ◌≡◌, refl, ap, true, false, List, [], ◌∷◌, ◌++◌, length,
  length-append, take, take-append, if◌then◌else◌, Bool-cases, inl, inr, ok, blocked, crash, ℤ,
  Bytes, ◌%◌, arith,
}
use dns_server.DnsServer.{DnsServer}
use dns_server.Router.{Router, add_dns_server, remove_server, forward_request}
use dns_server.Server.{Packet}
use dns_server.Router.Search.{remove_first, has_id, search_lem}

-- The router between calls: the block holds exactly `server_cnt` servers and both locks are free.
pub record IsReady (r : Router) : Type 0 where
  pub counted : length r.servers ≡ r.server_cnt
  pub small : r.server_cnt < 256
  pub unlocked : r.mutex ≡ false
  pub tcp_unlocked : r.tcp_mutex ≡ false

length-remove_first :
    (dns_id : ℕ) (servers : List DnsServer)
    → has_id dns_id servers ≡ true
    → length (remove_first dns_id servers) + 1 ≡ length servers
length-remove_first dns_id [] h = cc
length-remove_first dns_id (s ∷ rest) h = ground (arith, length-remove_first dns_id rest)

-- On a ready router `remove_server` takes the first server with the id out of the list, keeps the
-- others in order, and returns 0 with both locks free. If no server has the id it returns 1, changes
-- nothing else, and leaves both locks held.
pub remove_server_lem :
    (r : Router) (dns_id : ℕ)
    → IsReady r
    → remove_server r dns_id ≡ (
        if has_id dns_id r.servers
        then ok (
          0,
          record r {
            servers = remove_first dns_id r.servers;
            server_cnt = r.server_cnt - 1;
            mutex = false;
            tcp_mutex = false;
          },
        )
        else ok (1, record r { mutex = true; tcp_mutex = true }))
unfolding remove_server
remove_server_lem r dns_id v =
    let (spare, e) =
      search_lem r.servers [] dns_id r.server_cnt 0 r.server_cnt refl (omega arith) (omega arith) in
    elim (Bool-cases (has_id dns_id r.servers)) [
      | inl found ↦
          rw (v.unlocked, v.tcp_unlocked, e, found)
            (ap (λ l. ok (0, shorter l))
              (take-append (r.server_cnt - 1) (remove_first dns_id r.servers) spare
                (omega (arith, length-remove_first dns_id r.servers found))))
      | inr missing ↦ rw (v.unlocked, v.tcp_unlocked, e, missing)
    ]
  where
    shorter : List DnsServer → Router
    shorter l = record r {
      servers = l;
      server_cnt = r.server_cnt - 1;
      mutex = false;
      tcp_mutex = false;
    }

-- After a removal that found its server the router is ready again, one server shorter.
pub remove_server-IsReady :
    (r : Router) (dns_id : ℕ) {r' : Router}
    → IsReady r
    → remove_server r dns_id ≡ ok (0, r')
    → IsReady r' × (r'.server_cnt + 1 ≡ r.server_cnt) × (r'.servers ≡ remove_first dns_id r.servers)
remove_server-IsReady r dns_id v e =
    ground (arith, remove_server_lem r dns_id v, length-remove_first dns_id r.servers)

-- A removal that found no server has shut the router for good: both locks stay held, so the next
-- `add_dns_server`, `remove_server` and `forward_request` all block.
pub remove_server-missing_blocks :
    (r : Router) (dns_id : ℕ) {r' : Router}
    → IsReady r
    → has_id dns_id r.servers ≡ false
    → remove_server r dns_id ≡ ok (1, r')
    → ((dns : DnsServer) → add_dns_server r' dns ≡ blocked)
      × ((other : ℕ) → remove_server r' other ≡ blocked)
      × ((sendto : Packet → ℤ) (message : Bytes) → forward_request sendto r' message ≡ blocked)
remove_server-missing_blocks r dns_id {r'} v missing e = (
  λ dns. unfold add_dns_server in rw held,
  λ other. unfold remove_server in rw held,
  λ sendto message. unfold forward_request in rw held,
)
  where
    held : r'.mutex ≡ true
    held = ground (arith, remove_server_lem r dns_id v)

pub take_all : (servers : List DnsServer) (n : ℕ) → length servers ≡ n → take n servers ≡ servers
take_all [] zero h = refl
take_all [] (suc n) h = refl
take_all (s ∷ servers) zero h = absurd (omega arith)
take_all (s ∷ servers) (suc n) h = ap (◌∷◌ s) (take_all servers n (omega arith))

-- The router with one server more, its lock free.
abbrev pub with_server : Router → DnsServer → Router
with_server r dns = record r {
  servers = r.servers ++ (dns ∷ []);
  server_cnt = r.server_cnt + 1;
  mutex = false;
}

pub add_dns_server-with_server :
    (r : Router) (dns : DnsServer)
    → IsReady r
    → r.server_cnt < 255
    → add_dns_server r dns ≡ ok (0, with_server r dns)
unfolding add_dns_server
add_dns_server-with_server r dns v h =
    ground (arith, take_all r.servers ((r.server_cnt + 1) % 256 - 1))

pub with_server-IsReady :
    (r : Router) (dns : DnsServer) → IsReady r → r.server_cnt < 255 → IsReady (with_server r dns)
with_server-IsReady r dns v h = ground (arith, length-append r.servers (dns ∷ []))

-- On a ready router with fewer than 255 servers `add_dns_server` returns 0, puts the server behind
-- the others, and leaves the router ready.
pub add_dns_server_lem :
    (r : Router) (dns : DnsServer)
    → IsReady r
    → r.server_cnt < 255
    → (r' : Router) × (add_dns_server r dns ≡ ok (0, r'))
      × (r'.servers ≡ r.servers ++ (dns ∷ []))
      × IsReady r'
add_dns_server_lem r dns v h =
    (with_server r dns, add_dns_server-with_server r dns v h, refl, with_server-IsReady r dns v h)

-- The 256th server wraps the count to 0, and the write goes in front of the block.
pub add_dns_server-overflow :
    (r : Router) (dns : DnsServer) → IsReady r → r.server_cnt ≡ 255 → add_dns_server r dns ≡ crash
unfolding add_dns_server
add_dns_server-overflow r dns v h = ground arith
