-- ===== src/Generator/System/Turn.antt =====
-- One request to a ready router that lists some server.
use dns_server.Common.{
  ℕ, ◌<◌, ◌≡◌, refl, sym, ◌∙◌, ap, ℤ, true, none, some, List, [], ◌∷◌, All, Bytes, length,
  get_elem?, get_elem?-some, ok, arith,
}
use dns_server.Dns.Craft.{wire}
use dns_server.DnsServer.{DnsServer}
use dns_server.Generator.System.{Generator, Draw, send_single_test}
use dns_server.Generator.System.Request.{room, Askable, after_request}
use dns_server.Generator.System.Requests.{send_single_test-served}
use dns_server.Router.Balance.{packet_to, chosen, chosen-lt}
use dns_server.Router.Remove.{IsReady}
use dns_server.Server.{Packet}

module _ {Time : Type 0} (sendto : Packet → ℤ) (zero_time : Time) (domains : List Bytes)
    (some_domain : 0 < length domains) (few : length domains < 256)
    (askable : All Askable domains) where
  -- The request goes to a server that is listed, is noted, and leaves the router ready.
  pub send_single_test-listed :
      (draw : Draw Time) (g : Generator Time) (id : ℕ) (servers : List DnsServer)
      → IsReady g.router
      → g.router.servers ≡ servers
      → 0 < length servers
      → length draw.buffer ≡ room
      → (sent : List Packet) × (i : ℕ) × (s : DnsServer) × (get_elem? servers i ≡ some s)
        × (send_single_test sendto zero_time domains draw g id
            ≡ ok (sent, after_request zero_time g id draw s))
        × IsReady (after_request zero_time g id draw s).router
  send_single_test-listed draw g id servers v listed some_server size =
      let place : ℕ = chosen g.router.mode g.router.curr_server g.router.server_cnt in
      let (s, e) = get_elem?-some g.router.servers place (
        omega (
          arith,
          chosen-lt g.router.mode g.router.curr_server g.router.server_cnt
              (omega (arith, some_server, count)),
          v.counted,
        )) in
      let (i, domain, q0, q2, known, sends) =
        send_single_test-served sendto zero_time domains some_domain few askable draw g id v
          (omega (arith, some_server, count)) size e in
      (
        packet_to (wire true id domain none q0 q2 []) s ∷ [],
        place,
        s,
        ap (λ l. get_elem? l place) (sym listed) ∙ e,
        sends,
        record {
          counted = v.counted;
          small = v.small;
          unlocked = refl;
          tcp_unlocked = v.tcp_unlocked;
        },
      )
    where
      count : g.router.server_cnt ≡ length servers
      count = sym v.counted ∙ ap length listed
