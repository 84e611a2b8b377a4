-- ===== src/Router/Spread.antt =====
-- How a run of requests is spread over the servers, in each mode.
use dns_server.Common.{
  ℕ, zero, suc, ◌+◌, ◌*◌, ◌%◌, ◌≤◌, ◌<◌, ◌≡◌, refl, sym, ◌∙◌, ap, ℤ, some, List, [], ◌∷◌, ◌++◌,
  length, get_elem?, get_elem?-some, ltb, leb, if◌then◌else◌, Bool-cases, inl, inr, Bytes, Outcome,
  ok, false, ◌>>=◌, arith,
}
use mathlib.Core.Path.{ap₂}
use mathlib.Core.Option.{some-injective}
use native.Mathlib.Nat.{mod-eq_of_lt, mod-add-mod}
use dns_server.DnsServer.{DnsServer}
use dns_server.Server.{Packet}
use dns_server.Router.{Router, RouterMode, overload, round_robin, forward_request}
use dns_server.Router.Remove.{IsReady}
use dns_server.Router.Balance.{packet_to, chosen, next, chosen-lt, forward_request-served}

-- A run of requests: the datagrams sent, and the router afterwards.
pub forward_all : (Packet → ℤ) → List Bytes → Router → Outcome (List Packet × Router)
forward_all sendto [] r = ok ([], r)
forward_all sendto (m ∷ ms) r = do
  (reply, r₁) ← forward_request sendto r m
  (rest, r₂) ← forward_all sendto ms r₁
  ok (reply.sent ++ rest, r₂)

-- The slot that serves position `p` of the cycle: each server in turn, and under overload as many
-- further requests to the first server.
abbrev pub slot : RouterMode → ℕ → ℕ → ℕ
slot round_robin cnt p = p % cnt
slot overload cnt p = if ltb (p % (cnt * 2)) cnt then p % (cnt * 2) else 0

-- Where the cycle's position fits its machine type.
abbrev pub InCycle : RouterMode → ℕ → ℕ → Type 0
InCycle round_robin curr cnt = Unit {0}
InCycle overload curr cnt = (curr < cnt * 2) × (cnt ≤ 128)

next_overload :
    (curr cnt : ℕ) → curr < cnt * 2 → cnt ≤ 128 → next overload curr cnt ≡ (1 + curr) % (cnt * 2)
next_overload curr cnt h small = elim (Bool-cases (leb cnt curr)) [
  | inl past ↦ rw past (mod-eq_of_lt (omega arith))
  | inr before ↦ rw before (small_enough (ground arith))
]
  where
    small_enough : curr < cnt → (curr + 1) % 256 ≡ (1 + curr) % (cnt * 2)
    small_enough p = rw (mod-eq_of_lt {n = 1 + curr} {m = cnt * 2} (omega arith)) (omega arith)

-- Where the cycle goes on by one, the position is the same counted from either end.
mod-shift : (c k n : ℕ) → ((1 + c) % n + k) % n ≡ (c + suc k) % n
mod-shift c k n = rw mod-add-mod (ap (λ x. x % n) (omega arith))

pub chosen-slot :
    (mode : RouterMode) (curr cnt : ℕ)
    → InCycle mode curr cnt
    → chosen mode curr cnt ≡ slot mode cnt curr
chosen-slot round_robin curr cnt h = refl
chosen-slot overload curr cnt h = rw (mod-eq_of_lt h.0) (ground arith)

pub next-slot :
    (mode : RouterMode) (curr cnt k : ℕ)
    → 0 < cnt
    → InCycle mode curr cnt
    → slot mode cnt (next mode curr cnt + k) ≡ slot mode cnt (curr + suc k)
next-slot round_robin curr cnt k pos h = mod-shift curr k cnt
next-slot overload curr cnt k pos h =
    rw (next_overload curr cnt h.0 h.1, mod-shift curr k (cnt * 2))

pub next-InCycle :
    (mode : RouterMode) (curr cnt : ℕ)
    → 0 < cnt
    → InCycle mode curr cnt
    → InCycle mode (next mode curr cnt) cnt
next-InCycle round_robin curr cnt pos h = tt
next-InCycle overload curr cnt pos h = (rw (next_overload curr cnt h.0 h.1) (omega arith), h.1)

-- The `k`-th of a run of requests, where `k` counts from 0.
abbrev pub GoesTo : List Bytes → List DnsServer → (ℕ → ℕ) → List Packet → Type 0
GoesTo ms servers place sent =
    (k : ℕ) (m : Bytes) (s : DnsServer)
    → get_elem? ms k ≡ some m
    → get_elem? servers (place k) ≡ some s
    → get_elem? sent k ≡ some (packet_to m s)

-- A run of requests to a ready router that has servers sends one datagram for each, in order. The
-- `k`-th goes to slot `curr_server + k` of the mode's cycle: round robin takes the servers in turn,
-- and overload gives each of them one request and then the first as many as there are servers. For
-- overload, `curr_server` stands within that cycle and there are at most 128 servers.
pub forward_all-spread :
    (sendto : Packet → ℤ) (ms : List Bytes) (r : Router)
    → IsReady r
    → 0 < r.server_cnt
    → InCycle r.mode r.curr_server r.server_cnt
    → (sent : List Packet) × (r' : Router) × (forward_all sendto ms r ≡ ok (sent, r'))
      × (length sent ≡ length ms)
      × GoesTo ms r.servers (λ k. slot r.mode r.server_cnt (r.curr_server + k)) sent
unfolding forward_all
forward_all-spread sendto [] r v pos c = ([], r, refl, refl, λ k m s em es. absurd (cc))
forward_all-spread sendto (m ∷ ms) r v pos c =
    let (s, e) =
      get_elem?-some r.servers (chosen r.mode r.curr_server r.server_cnt)
        (omega (arith, chosen-lt r.mode r.curr_server r.server_cnt pos, v.counted)) in
    let step = forward_request-served sendto r m v pos e in
    let (sent, r', run, long, goes) =
      forward_all-spread sendto ms r₁ v₁ pos
        (next-InCycle r.mode r.curr_server r.server_cnt pos c) in
    (packet_to m s ∷ sent, r', rw (step, run), ap suc long, places s e sent goes)
  where
    r₁ : Router
    r₁ = record r { curr_server = next r.mode r.curr_server r.server_cnt; mutex = false }

    v₁ : IsReady r₁
    v₁ = record {
      counted = v.counted;
      small = v.small;
      unlocked = refl;
      tcp_unlocked = v.tcp_unlocked;
    }

    places :
        (s : DnsServer)
        → get_elem? r.servers (chosen r.mode r.curr_server r.server_cnt) ≡ some s
        → (sent : List Packet)
        → GoesTo ms r.servers (λ k. slot r.mode r.server_cnt (r₁.curr_server + k)) sent
        → GoesTo
            (m ∷ ms)
            r.servers
            (λ k. slot r.mode r.server_cnt (r.curr_server + k))
            (packet_to m s ∷ sent)
    places s e sent goes zero m' s' em es =
        ap₂ (λ x y. some (packet_to x y)) (some-injective m m' em)
          (some-injective s s' (sym e ∙ first ∙ es))
      where
        first :
            get_elem? r.servers (chosen r.mode r.curr_server r.server_cnt)
            ≡ get_elem? r.servers (slot r.mode r.server_cnt (r.curr_server + 0))
        first = ap (get_elem? r.servers) (
            chosen-slot r.mode r.curr_server r.server_cnt c
            ∙ ap (slot r.mode r.server_cnt) (omega arith))
    places s e sent goes (suc k) m' s' em es =
        goes k m' s' em
          (ap (get_elem? r.servers) (next-slot r.mode r.curr_server r.server_cnt k pos c) ∙ es)
