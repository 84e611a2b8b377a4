-- ===== src/Generator/Failure/Exact.antt =====
-- The verdict of the test is right, but for one choice where there are only two servers.
use dns_server.Common.{
  ℕ, zero, suc, ◌+◌, ◌%◌, ◌<◌, ◌≤◌, ◌≡◌, ◌≢◌, refl, ◌∙◌, ap, ℤ, pos, negsuc, Bool, true, false,
  ◌&&◌, ◌||◌, some, List, [], ◌∷◌, map, All, Bytes, length, Distinct, lists, lists-ne, lt→ltb,
  length-map, ◌==◌, ==_refl, if◌then◌else◌, Bool-cases, inl, inr, ok, arith,
}
use mathlib.Core.Option
use mathlib.Core.Path.{subst}
use dns_server.Coms.{Coms}
use dns_server.Coms.Cluster.{Network, Request, update_hosts}
use dns_server.Coms.Bring.{bring, IsSound, Answers}
use dns_server.Coms.Verdict.{visits, visits-All, update_hosts-visits}
use dns_server.DnsServer.{DnsServer}
use dns_server.Generator.Translations.{change}
use dns_server.Generator.Failure.{choose, to_int8, same_int, Tried, add_hosts_fail_wrapper}
use dns_server.Generator.Failure.Second.{Reached, Current, second_update}
use dns_server.Generator.Failure.{byte_to_int8}
use dns_server.Generator.Failure.Judged.{
  judged, concludes, is_empty, concludes-none, concludes-all, concludes-second, concludes-other,
}
use dns_server.Generator.Failure.Second.{bring-version}
use dns_server.Generator.Translations.Effect.{change-IsSound}

-- The servers, other than the first, that the first update reaches.
abbrev pub reached_by : ℕ → ℤ → List ℕ → List ℕ
reached_by first (negsuc n) others = []
reached_by first (pos n) others = visits first (pos n) 1 others

-- What `choose` gives for a number of servers: an index, or -1.
abbrev pub IsChoice : ℕ → ℤ → Type 0
IsChoice server_cnt (pos n) = n < server_cnt
IsChoice server_cnt (negsuc n) = n ≡ 0

choose-IsChoice : (rand server_cnt : ℕ) → IsChoice server_cnt (choose rand server_cnt)
unfolding choose
choose-IsChoice rand server_cnt =
    elim (Bool-cases ((rand % 256 % (server_cnt + 1)) == server_cnt)) [
      | inl last ↦ rw last refl
      | inr index ↦ rw index (grind arith)
    ]

to_int8-pos : (n : ℕ) → n < 128 → to_int8 (pos n) ≡ pos n
unfolding to_int8 byte_to_int8
to_int8-pos n h = rw (small, lt→ltb n 128 h)
  where
    small : n % 256 ≡ n
    small = omega arith

-- The test concludes what was chosen, unless only the second of two servers was left out.
concludes-exact :
    (choice : ℤ) (first second : ℕ) (others : List ℕ)
    → Distinct (second ∷ others)
    → All (λ p. first ≢ p) (second ∷ others)
    → IsChoice (2 + length others) choice
    → concludes choice (reached_by first choice (second ∷ others)) second others
      ≡ (is_empty others && same_int choice (pos 1))
unfolding same_int
concludes-exact (negsuc zero) first second others distinct apart h =
    concludes-none first second others distinct apart ∙ ground arith
concludes-exact (negsuc (suc n)) first second others distinct apart h = absurd (omega arith)
concludes-exact (pos zero) first second others distinct apart h =
    concludes-all first second others distinct apart ∙ ground arith
concludes-exact (pos (suc zero)) first second others distinct apart h =
    concludes-second first second others distinct apart ∙ ground arith
concludes-exact (pos (suc (suc k))) first second others distinct apart h =
    concludes-other first second others distinct apart k (omega arith) ∙ ground arith

-- A server that answers, and does not stand at version 16.
abbrev pub Stale : Network → ℕ → Type 0
Stale net p = (c : Coms) × (net p ≡ some c) × (c.version_num ≢ 16)

Stale-Answers : (net : Network) (ports : List ℕ) → All (Stale net) ports → All (Answers net) ports
Stale-Answers net [] h = tt
Stale-Answers net (p ∷ ps) ((c, e, _), h) = (λ gone. cc, Stale-Answers net ps h)

none-Reached : (net : Network) (ports : List ℕ) → All (Stale net) ports → All (Reached [] net) ports
none-Reached net [] h = tt
none-Reached net (p ∷ ps) ((c, e, old), h) = ((c, e, ground (arith, old)), none-Reached net ps h)

module _ (q : Request) (at_16 : q.id ≡ 16) (sound : IsSound q) (first : ℕ) where
  update-Reached :
      (reached : List ℕ) (net net' : Network) (ports : List ℕ)
      → ((p : ℕ)
          → net' p
            ≡ (if lists reached p || (first == p) then Option.map (bring q) (net p) else net p))
      → All (λ p. first ≢ p) ports
      → All (Stale net) ports
      → All (Reached reached net') ports
  update-Reached reached net net' [] after apart old = tt
  update-Reached reached net net' (p ∷ ps) after apart ((c, there, old), olds) = (
    elim (Bool-cases (lists reached p)) [
      | inl hit ↦
          (bring q c, after p ∙ rw (hit, there), rw hit (ground (arith, bring-version q c, at_16)))
      | inr miss ↦ (c, after p ∙ rw (miss, other) there, rw miss (ground (arith, old)))
    ],
    update-Reached reached net net' ps after apart.1 olds,
  )
    where
      other : (first == p) ≡ false
      other = ground (arith, apart.0)

  -- The first update reaches the servers behind the first, but for the one chosen.
  first_update :
      (choice : ℤ) (others : List ℕ) (net : Network)
      → IsChoice (1 + length others) choice
      → length others < 128
      → Distinct (first ∷ others)
      → All (Stale net) (first ∷ others)
      → (code : ℕ) × (net' : Network) × (update_hosts net first q first
            (to_int8 choice)
            (some (first ∷ others))
          ≡ ok (code, net'))
        × All (Reached (reached_by first choice others) net') others
  unfolding to_int8 byte_to_int8 update_hosts
  first_update (negsuc zero) others net h few distinct olds =
      (3, net, refl, none-Reached net others olds.1)
  first_update (negsuc (suc n)) others net h few distinct olds = absurd (omega arith)
  first_update (pos n) others net h few distinct ((c, there, old), olds) =
      let (net', ran, after) =
        update_hosts-visits net first q first n (first ∷ others) c sound there distinct
          (Stale-Answers net (first ∷ others) ((c, there, old), olds)) (rw skip unlisted) in
      (
        _,
        net',
        ap (λ f. update_hosts net first q first f (some (first ∷ others)))
              (to_int8-pos n (omega arith))
            ∙ ran,
        update-Reached (visits first (pos n) 1 others) net net' others
            (λ p.
              after p
              ∙ ap
                  (λ vs. if lists vs p || (first == p) then Option.map (bring q) (net p) else net p)
                  skip)
            distinct.0 olds,
      )
    where
      skip : visits first (pos n) 0 (first ∷ others) ≡ visits first (pos n) 1 others
      skip = ground (arith, ==_refl first)

      unlisted : lists (visits first (pos n) 1 others) first ≡ false
      unlisted = lists-ne first _ (visits-All (λ p. first ≢ p) first (pos n) 1 others distinct.0)

abbrev pub ports_of : List DnsServer → List ℕ
ports_of = map (λ (s : DnsServer). s.tcp_port_num)

is_empty-ports_of : (servers : List DnsServer) → is_empty (ports_of servers) ≡ (length servers == 0)
is_empty-ports_of [] = refl
is_empty-ports_of (s ∷ servers) = ground arith

-- The test of a failing update, with 2 to 128 servers on different ports that all answer and do not
-- stand at version 16, buffers of 128 bytes, and connections that are not reset; the router lists all
-- servers first, and all but the first, which is paused, to the second update. The call ends, and it
-- prints FAIL exactly if there are only two servers and the second was chosen: otherwise `answer` is
-- the server that was left out. All servers but the first stand at version 16 then.
pub add_hosts_fail_wrapper-exact :
    (net : Network) (a b : DnsServer) (rest : List DnsServer) (rand : ℕ) (stack stack' : Bytes)
    (resets resets' : ℕ → Bool)
    → length rest ≤ 126
    → length stack ≡ 128
    → length stack' ≡ 128
    → ((p : ℕ) → resets p ≡ false)
    → ((p : ℕ) → resets' p ≡ false)
    → Distinct (ports_of (a ∷ b ∷ rest))
    → All (Stale net) (ports_of (a ∷ b ∷ rest))
    → (t : Tried) × (add_hosts_fail_wrapper net
          (a ∷ b ∷ rest)
          rand
          stack
          resets
          stack'
          resets'
          (some (ports_of (a ∷ b ∷ rest)))
          (some (ports_of (b ∷ rest)))
        ≡ ok t)
      × (t.fails ≡ ((length rest == 0) && same_int (choose rand (length (a ∷ b ∷ rest))) (pos 1)))
      × (t.first ≡ record a { pause = true })
      × All (Current t.net) (ports_of (b ∷ rest))
unfolding add_hosts_fail_wrapper judged
add_hosts_fail_wrapper-exact net a b rest rand stack stack' resets resets' few size size' calm calm'
      distinct olds =
    let choice : ℤ = choose rand (length (a ∷ b ∷ rest)) in
    let chosen : (n : ℕ) → length (a ∷ b ∷ rest) ≡ n → IsChoice n choice =
      λ n e. subst (λ m. IsChoice m choice) e (choose-IsChoice rand (length (a ∷ b ∷ rest))) in
    let (code, net', ran, reached) =
      first_update (change false 16 stack resets) refl
        (change-IsSound false 16 stack resets size calm) a.tcp_port_num choice (ports_of (b ∷ rest))
        net (chosen (1 + length (ports_of (b ∷ rest))) (omega (arith, count)))
        (omega (arith, count)) distinct olds in
    let (net'', ran', current) =
      second_update a.tcp_port_num b.tcp_port_num (ports_of rest)
        (reached_by a.tcp_port_num choice (ports_of (b ∷ rest))) net'
        (change false 16 stack' resets') refl (change-IsSound false 16 stack' resets' size' calm')
        distinct.1 distinct.0 reached in
    (
      record {
        fails =
            concludes choice (reached_by a.tcp_port_num choice (ports_of (b ∷ rest))) b.tcp_port_num
              (ports_of rest);
        first = record a { pause = true };
        net = net'';
      },
      rw (ran, ran'),
      concludes-exact choice a.tcp_port_num b.tcp_port_num (ports_of rest) distinct.1 distinct.0
            (chosen (2 + length (ports_of rest)) (omega (arith, count)))
          ∙ ap (λ e. e && same_int choice (pos 1)) (is_empty-ports_of rest),
      refl,
      current,
    )
  where
    count : length (ports_of rest) ≡ length rest
    count = length-map (λ (s : DnsServer). s.tcp_port_num) rest
