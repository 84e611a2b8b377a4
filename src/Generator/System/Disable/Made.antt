-- ===== src/Generator/System/Disable/Made.antt =====
-- The servers of a test with -d at its start: their ids are the numbers from 0 on.
use dns_server.Common.{
  ℕ, zero, suc, ◌+◌, ◌-◌, ◌≤◌, ◌<◌, ◌≡◌, ◌≢◌, refl, false, some, List, [], ◌∷◌, All, Distinct,
  get_elem?, arith,
}
use dns_server.DnsServer.{DnsServer}
use dns_server.Generator.Schedule.{ascending}
use dns_server.Generator.System.Disable.Servers.{ids_of, IsSound, IsAlive}

ascending-bounds :
    (low high x n : ℕ) → low ≤ x → x + n ≤ high → All (λ y. (low ≤ y) × (y < high)) (ascending x n)
unfolding ascending
ascending-bounds low high x zero h k = tt
ascending-bounds low high x (suc n) h k =
    ((h, omega arith), ascending-bounds low high (x + 1) n (omega arith) (omega arith))

All-weaken : (P Q : ℕ → Type 0) (xs : List ℕ) → ((x : ℕ) → P x → Q x) → All P xs → All Q xs
All-weaken P Q [] f h = tt
All-weaken P Q (x ∷ xs) f h = (f x h.0, All-weaken P Q xs f h.1)

All-ids_of :
    (P : ℕ → Type 0) (servers : List DnsServer)
    → All P (ids_of servers)
    → All (λ (s : DnsServer). P s.id) servers
All-ids_of P [] h = tt
All-ids_of P (s ∷ rest) h = (h.0, All-ids_of P rest h.1)

ascending-Distinct : (x n : ℕ) → Distinct (ascending x n)
unfolding ascending
ascending-Distinct x zero = tt
ascending-Distinct x (suc n) = (
  All-weaken (λ y. (x + 1 ≤ y) × (y < x + 1 + n)) (λ y. x ≢ y) (ascending (x + 1) n)
      (λ y h e. absurd (omega (arith, h.0, e)))
      (ascending-bounds (x + 1) (x + 1 + n) (x + 1) n (omega arith) (omega arith)),
  ascending-Distinct (x + 1) n,
)

-- The server at a place has the id of that place.
ascending-entry :
    (servers : List DnsServer) (x n i : ℕ)
    → ids_of servers ≡ ascending x n
    → i < n
    → (s : DnsServer) × (get_elem? servers i ≡ some s) × (s.id ≡ x + i)
unfolding ascending
ascending-entry [] x zero i e h = absurd (omega arith)
ascending-entry (s ∷ rest) x zero i e h = absurd (omega arith)
ascending-entry [] x (suc n) i e h = absurd (cc)
ascending-entry (s ∷ rest) x (suc n) zero e h =
    let first : s.id ≡ x = cc in (s, refl, omega (arith, first))
ascending-entry (s ∷ rest) x (suc n) (suc i) e h =
    let others : ids_of rest ≡ ascending (x + 1) n = cc in
    let (t, found, named) = ascending-entry rest (x + 1) n i others (omega arith) in
    (t, found, omega (arith, named))

pub made-HasLast :
    (servers : List DnsServer) (n : ℕ)
    → ids_of servers ≡ ascending 0 n
    → 0 < n
    → (s : DnsServer) × (get_elem? servers (n - 1) ≡ some s) × (s.id ≡ n - 1)
made-HasLast servers n e pos =
    let (s, found, named) = ascending-entry servers 0 n (n - 1) e (omega arith) in
    (s, found, omega (arith, named))

made-IsAlive :
    (servers : List DnsServer) (n : ℕ)
    → ids_of servers ≡ ascending 0 n
    → 1 < n
    → All (λ (s : DnsServer). s.pause ≡ false) servers
    → IsAlive (n - 1) servers
unfolding ascending
made-IsAlive servers zero e two running = absurd (omega arith)
made-IsAlive [] (suc n) e two running = absurd (cc)
made-IsAlive (s ∷ rest) (suc n) e two running =
    let first : s.id ≡ 0 = cc in (running.0, λ same. absurd (omega (arith, first, same)))

pub made-IsSound :
    (servers : List DnsServer) (n : ℕ)
    → ids_of servers ≡ ascending 0 n
    → 1 < n
    → n < 256
    → All (λ (s : DnsServer). s.pause ≡ false) servers
    → IsSound (n - 1) servers
made-IsSound servers n e two small running = record {
  bytes =
      All-ids_of (λ x. x < 256) servers
        (rw e (
          All-weaken (λ y. (0 ≤ y) × (y < 256)) (λ y. y < 256) (ascending 0 n) (λ y h. h.1)
            (ascending-bounds 0 256 0 n (omega arith) (omega arith))));
  distinct = rw e (ascending-Distinct 0 n);
  alive = made-IsAlive servers n e two running;
}
