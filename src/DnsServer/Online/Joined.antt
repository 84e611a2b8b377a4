-- ===== src/DnsServer/Online/Joined.antt =====
-- A new server, from the router's list to its place in it.
use dns_server.Common.{
  ℕ, suc, ◌+◌, ◌*◌, ◌/◌, ◌%◌, ◌<◌, ◌≡◌, refl, sym, ◌∙◌, ap, ℤ, is_negative, true, false, Option,
  some, List, [], ◌∷◌, ◌++◌, map, All, Bytes, length, ◌==◌, text_eq, Outcome, ok, arith,
}
use dns_server.Coms.{Coms, translate_ip}
use dns_server.Coms.Table.{DistinctKeys}
use dns_server.Coms.Transfer.{Calls, Served, process_next_request, recv_byte, request_hosts}
use dns_server.Coms.Transfer.Entry.{Works, Fits}
use dns_server.Coms.Transfer.Copy.{request_hosts-process_next_request}
use dns_server.DnsServer.{DnsServer}
use dns_server.DnsServer.Online.{
  read_port, read_ports, Conversation, find_hosts, Onlined, announce, update_and_online,
}
use dns_server.Router.{Router}
use dns_server.Router.Remove.{IsReady}
use dns_server.Router.Online.{port_bytes, null_address, check_tcp_connections}
use dns_server.Router.Online.Joining.{Arrives, check_tcp_connections_lem}

abbrev listing : List DnsServer → List (Option Bytes)
listing = map (λ (s : DnsServer). some (port_bytes s.tcp_port_num))

abbrev tcp_ports : List DnsServer → List ℕ
tcp_ports = map (λ (s : DnsServer). s.tcp_port_num)

abbrev pub HasPort : DnsServer → Type 0
HasPort s = s.tcp_port_num < 65536

-- The ports are read as the router sends them.
read_ports-listing :
    (sends : ℕ → ℤ) (old : ℕ × ℕ) (i : ℕ) (servers : List DnsServer)
    → ((k : ℕ) → is_negative (sends k) ≡ false)
    → All HasPort servers
    → read_ports sends (length servers) old i (listing servers) ≡ ok (some (tcp_ports servers))
unfolding read_ports read_port port_bytes
read_ports-listing sends old i [] w h = refl
read_ports-listing sends old i (s ∷ rest) w (hs, h) =
    rw (w i, read_ports-listing sends old (i + 1) rest w h)
      (ap (λ p. ok (some (p ∷ tcp_ports rest))) whole)
  where
    whole : s.tcp_port_num % 256 + 256 * (s.tcp_port_num / 256 % 256) ≡ s.tcp_port_num
    whole = omega arith

-- The conversation with a server that does not give its translations, such as one that is down.
pub record Refuses (peer : Conversation) : Type 0 where
  pub code : ℕ
  pub left : Coms → Coms
  pub code_ne_zero : (code == 0) ≡ false
  pub refused : (c : Coms) → request_hosts peer.sends peer.stack c peer.chunks ≡ ok (code, left c)

find_hosts-first :
    (peers : ℕ → Conversation) (front back : List DnsServer) (s : DnsServer) (c : Coms)
    → All (λ (t : DnsServer). Refuses (peers t.tcp_port_num)) front
    → ((d : Coms)
        → (d' : Coms) × (request_hosts
              (peers s.tcp_port_num).sends
              (peers s.tcp_port_num).stack
              d
              (peers s.tcp_port_num).chunks
            ≡ ok (0, d'))
          × ((x : Bytes) → translate_ip d' x ≡ translate_ip s.coms x))
    → (c' : Coms) × (find_hosts peers (tcp_ports (front ++ (s ∷ back))) c ≡ ok (true, c'))
      × ((x : Bytes) → translate_ip c' x ≡ translate_ip s.coms x)
unfolding find_hosts
find_hosts-first peers [] back s c refuse gives =
    let (c', fetched, same) = gives c in (c', rw fetched, same)
find_hosts-first peers (t ∷ front) back s c (r, refuse) gives =
    let (c', found, same) = find_hosts-first peers front back s (r.left c) refuse gives in
    (c', rw (r.refused c, r.code_ne_zero) found, same)

-- The conversation with a server that answers the request with all its translations.
pub record Gives (peer : Conversation) (s : DnsServer) : Type 0 where
  pub calls : Calls
  pub works : Works calls
  pub asked : (k : ℕ) → is_negative (peer.sends k) ≡ false
  pub served : Served
  pub handled : process_next_request calls [] [] s.coms 1 ≡ ok served
  pub arrived : peer.chunks ≡ map some served.sent
  pub few : length s.coms.ip_hash < 256
  pub fits : All (Fits (length peer.stack.1)) s.coms.ip_hash
  pub distinct : DistinctKeys s.coms.ip_hash

request_hosts-Gives :
    (peer : Conversation) (s : DnsServer) (c : Coms)
    → Gives peer s
    → (c' : Coms) × (request_hosts peer.sends peer.stack c peer.chunks ≡ ok (0, c'))
      × ((x : Bytes) → translate_ip c' x ≡ translate_ip s.coms x)
request_hosts-Gives peer s c g =
    let (served, handled, _, c', fetched, same, _, _) =
      request_hosts-process_next_request g.calls peer.sends g.works g.asked s.coms c peer.stack []
        [] g.few g.fits g.distinct in
    (
      c',
      ap (request_hosts peer.sends peer.stack c) (g.arrived ∙ ap (map some) (alike served handled))
          ∙ fetched,
      same,
    )
  where
    alike :
        (served : Served)
        → process_next_request g.calls [] [] s.coms 1 ≡ ok served
        → g.served.sent ≡ served.sent
    alike served handled = ground (arith, g.handled, handled)

map-some-listing :
    (servers : List DnsServer)
    → map some (map (λ (s : DnsServer). port_bytes s.tcp_port_num) servers) ≡ listing servers
map-some-listing [] = refl
map-some-listing (s ∷ rest) = ap (◌∷◌ (some (port_bytes s.tcp_port_num))) (map-some-listing rest)

module _ (sends : ℕ → ℤ) (asked : (k : ℕ) → is_negative (sends k) ≡ false)
    (peers : ℕ → Conversation) (old : ℕ × (ℕ × ℕ)) (address : Bytes) (new : DnsServer)
    (front back : List DnsServer) (s : DnsServer)
    (refuse : All (λ (t : DnsServer). Refuses (peers t.tcp_port_num)) front)
    (gives : Gives (peers s.tcp_port_num) s) where
  update_and_online-listing :
      All HasPort (front ++ (s ∷ back))
      → (o : Onlined) × (update_and_online sends peers old address new
            (some (length (front ++ (s ∷ back)) ∷ []) ∷ listing (front ++ (s ∷ back)))
          ≡ ok o)
        × (o.code ≡ 0)
        × (o.sent ≡ address ∷ [])
        × ((x : Bytes) → translate_ip o.coms x ≡ translate_ip s.coms x)
  unfolding update_and_online recv_byte announce
  update_and_online-listing ports =
      let (c', found, same) =
        find_hosts-first peers front back s new.coms refuse
          (λ d. request_hosts-Gives (peers s.tcp_port_num) s d gives) in
      (
        record { code = 0; coms = c'; sent = address ∷ [] },
        rw (read_ports-listing sends old.1 0 (front ++ (s ∷ back)) asked ports, found),
        refl,
        refl,
        same,
      )

  -- A new server asks a ready router with fewer than 255 servers to be listed. If some listed server
  -- gives its translations and those in front of it refuse, `update_and_online` reads the router's
  -- list of ports, returns 0 with that server's translations for every domain, and sends its address;
  -- and `check_tcp_connections`, which reads that address in at most two pieces, puts the new server
  -- behind the others and leaves the router ready.
  pub update_and_online-check_tcp_connections :
      (r : Router) (calls : Calls) (recv : ℕ → Outcome (Option Bytes)) (fuel : ℕ)
      (deref : Bytes → DnsServer)
      → IsReady r
      → r.server_cnt < 255
      → r.servers ≡ front ++ (s ∷ back)
      → All HasPort (front ++ (s ∷ back))
      → Works calls
      → length address ≡ 8
      → text_eq address null_address ≡ false
      → Arrives recv address
      → (sent : List Bytes) × (r' : Router) × (o : Onlined) × (check_tcp_connections calls recv
            (suc (suc fuel))
            deref
            r
          ≡ ok (0, sent, r'))
        × (update_and_online sends peers old address new (map some sent) ≡ ok o)
        × (o.code ≡ 0)
        × (o.sent ≡ address ∷ [])
        × ((x : Bytes) → translate_ip o.coms x ≡ translate_ip s.coms x)
        × (r'.servers ≡ r.servers ++ (deref address ∷ []))
        × IsReady r'
  update_and_online-check_tcp_connections r calls recv fuel deref v few split ports w long fresh
        arrives =
      let (r', checked, listed, ready) =
        check_tcp_connections_lem calls recv fuel deref r address v few w long arrives in
      let (o, onlined, code, announced, same) = update_and_online-listing ports in
      (
        (r.server_cnt ∷ []) ∷ map (λ (t : DnsServer). port_bytes t.tcp_port_num) r.servers,
        r',
        o,
        checked,
        ap (update_and_online sends peers old address new) stream ∙ onlined,
        code,
        announced,
        same,
        listed ∙ rw fresh,
        ready,
      )
    where
      stream :
          map some
            ((r.server_cnt ∷ []) ∷ map (λ (t : DnsServer). port_bytes t.tcp_port_num) r.servers)
          ≡ some (length (front ++ (s ∷ back)) ∷ []) ∷ listing (front ++ (s ∷ back))
      stream =
          ap
            (λ n.
              some (n ∷ [])
              ∷ map some (map (λ (t : DnsServer). port_bytes t.tcp_port_num) r.servers))
            (sym v.counted ∙ ap length split)
          ∙ ap (λ l. some (length (front ++ (s ∷ back)) ∷ []) ∷ l)
              (map-some-listing r.servers ∙ ap listing split)
