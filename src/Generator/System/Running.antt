-- ===== src/Generator/System/Running.antt =====
-- The router of a test that runs: ready, and at the turn that the number of requests gives.
use dns_server.Common.{
  ℕ, zero, suc, ◌+◌, ◌%◌, ◌≡◌, refl, sym, ◌∙◌, ap, false, some, List, [], ◌∷◌, length, length-map,
  get_elem?, arith,
}
use dns_server.DnsServer.{DnsServer}
use dns_server.Generator.Schedule.{ascending}
use dns_server.Generator.System.{Generator}
use dns_server.Generator.System.Startup.{server_ids}
use dns_server.Router.{Router, round_robin}
use native.Mathlib.Nat.{mod-mod, add-mod-mod}
use dns_server.Router.Balance.{chosen, next}
use dns_server.Router.Remove.{IsReady}
use dns_server.Scoreboard.Order.{fresh}

-- Where the ids are consecutive, so are those that the slots give.
id_at :
    (servers : List DnsServer) (x cnt i : ℕ) {s : DnsServer}
    → server_ids servers ≡ ascending x cnt
    → get_elem? servers i ≡ some s
    → s.id ≡ x + i
unfolding ascending
id_at [] x cnt i e es = cc
id_at (t ∷ servers) x zero i e es = cc
id_at (t ∷ servers) x (suc cnt) zero e es = ground arith
id_at (t ∷ servers) x (suc cnt) (suc i) e es = omega (arith, id_at servers (x + 1) cnt i (cc) es)

length-ascending : (x n : ℕ) → length (ascending x n) ≡ n
unfolding ascending
length-ascending x zero = refl
length-ascending x (suc n) = ap suc (length-ascending (x + 1) n)

-- The router of a running test: ready, in round robin mode, at the `k`-th request.
pub record IsRunning (cnt k : ℕ) (r : Router) : Type 0 where
  pub ready : IsReady r
  pub turns : r.mode ≡ round_robin
  pub counted : r.server_cnt ≡ cnt
  pub numbered : server_ids r.servers ≡ ascending 0 cnt
  pub turn : r.curr_server % cnt ≡ k % cnt

-- Where the next request goes, and the turn after it.
chosen-IsRunning :
    (cnt k : ℕ) (r : Router)
    → IsRunning cnt k r
    → chosen r.mode r.curr_server r.server_cnt ≡ k % cnt
chosen-IsRunning cnt k r v =
    ap (λ m. chosen m r.curr_server r.server_cnt) v.turns
    ∙ ap (λ c. r.curr_server % c) v.counted
    ∙ v.turn

next-turn :
    (cnt k : ℕ) (r : Router)
    → IsRunning cnt k r
    → next r.mode r.curr_server r.server_cnt % cnt ≡ (k + 1) % cnt
next-turn cnt k r v =
    ap (λ m. next m r.curr_server r.server_cnt % cnt) v.turns
    ∙ ap (λ c. (1 + r.curr_server) % c % cnt) v.counted
    ∙ mod-mod (1 + r.curr_server) cnt
    ∙ sym (add-mod-mod 1 r.curr_server cnt)
    ∙ ap (λ c. (1 + c) % cnt) v.turn
    ∙ add-mod-mod 1 k cnt
    ∙ ap (λ c. c % cnt) (omega arith)

pub next-IsRunning :
    (cnt k : ℕ) (r : Router)
    → IsRunning cnt k r
    → IsRunning cnt
        (k + 1)
        (record r { curr_server = next r.mode r.curr_server r.server_cnt; mutex = false })
next-IsRunning cnt k r v = record {
  ready = record {
    counted = v.ready.counted;
    small = v.ready.small;
    unlocked = refl;
    tcp_unlocked = v.ready.tcp_unlocked;
  };
  turns = v.turns;
  counted = v.counted;
  numbered = v.numbered;
  turn = next-turn cnt k r v;
}

-- The entry of a request has the server's place, taken modulo 256.
pub entry-place :
    {Time : Type 0} (cnt k : ℕ) (r : Router) {s : DnsServer}
    → IsRunning cnt k r
    → (now zero_time : Time) → (id : ℕ)
    → get_elem? r.servers (chosen r.mode r.curr_server r.server_cnt) ≡ some s
    → fresh zero_time id (s.id % 256) 0 now ≡ fresh zero_time id (k % cnt % 256) 0 now
entry-place cnt k r v now zero_time id e =
    ap (λ n. fresh zero_time id (n % 256) 0 now)
      (omega (
        arith,
        id_at r.servers 0 cnt (chosen r.mode r.curr_server r.server_cnt) v.numbered e,
        chosen-IsRunning cnt k r v,
      ))

-- The state that `create_generator` hands over is that of a running test at its first request.
pub create_generator-IsRunning :
    {Time : Type 0} (cnt : ℕ) (g : Generator Time)
    → IsReady g.router
    → g.router.servers ≡ g.dns_servers
    → g.router.mode ≡ round_robin
    → g.router.curr_server ≡ 0
    → server_ids g.dns_servers ≡ ascending 0 cnt
    → IsRunning cnt 0 g.router
create_generator-IsRunning cnt g v listed mode curr numbered = record {
  ready = v;
  turns = mode;
  counted =
      sym v.counted
      ∙ sym (length-map (λ (s : DnsServer). s.id) g.router.servers)
      ∙ ap length (ap server_ids listed ∙ numbered)
      ∙ length-ascending 0 cnt;
  numbered = ap server_ids listed ∙ numbered;
  turn = ap (λ c. c % cnt) curr;
}
