-- ===== src/Generator/Translations/Effect.antt =====
-- What the two changes of a test do to the servers that it lists.
use dns_server.Common.{
  ℕ, ◌+◌, ◌≡◌, ◌≢◌, refl, sym, ◌∙◌, ap, pos, Bool, true, false, ◌||◌, Option, none, some, List, [],
  ◌∷◌, All, Bytes, length, text_eq, ◌==◌, lists, lists-All, if◌then◌else◌, ok, arith,
}
use mathlib.Core.Option
use dns_server.Coms.{Coms, translate_ip, actually_update}
use dns_server.Coms.Table.{DistinctKeys}
use dns_server.Coms.Lookup.{actually_update_lem}
use dns_server.Coms.Cluster.{Network, Request, is_failing, update_hosts}
use dns_server.Coms.Bring.{bring, targets, Harmless, IsSound, Answers, bring_ne}
use dns_server.Coms.Converge.{update_hosts-converges}
use dns_server.Generator.Translations.{
  new_domain, new_ip, change, add_hosts_wrapper, remove_hosts_wrapper, Changed, IsOld, Settled,
}

-- The caller and those that it contacts are the listed servers, where the caller is listed first.
targets-lists :
    (port : ℕ) (ports : List ℕ) (p : ℕ)
    → (targets port ports p || (port == p)) ≡ ((port == p) || lists ports p)
targets-lists port [] p = ground arith
targets-lists port (q ∷ qs) p = ground (arith, targets-lists port qs p)

pub change-IsSound :
    (remove : Bool) (id : ℕ) (stack : Bytes) (resets : ℕ → Bool)
    → length stack ≡ 128
    → ((p : ℕ) → resets p ≡ false)
    → IsSound (change remove id stack resets)
change-IsSound remove id stack resets size calm = record {
  domain_word = (λ e. cc, omega arith, omega arith);
  ip_word = (λ e. cc, omega arith, omega arith);
  fits = omega (arith, size);
  no_resets = calm;
}

-- Behind the first index, which is the caller's own, nothing is made to fail.
later-Harmless : (port i : ℕ) (ports : List ℕ) → Harmless port (pos 0) (i + 1) ports
unfolding is_failing
later-Harmless port i [] = tt
later-Harmless port i (p ∷ ps) = (λ e. ground arith, later-Harmless port (i + 1) ps)

still-Answering :
    (q : Request) (net net' : Network) (hit : ℕ → Bool)
    → ((p : ℕ) → net' p ≡ (if hit p then Option.map (bring q) (net p) else net p))
    → (ports : List ℕ) → All (Answers net) ports
    → All (Answers net') ports
still-Answering q net net' hit e [] h = tt
still-Answering q net net' hit e (p ∷ ps) h = (
  λ gone. bring_ne q (hit p) (net p) h.0 (sym (e p) ∙ gone),
  still-Answering q net net' hit e ps h.1,
)

-- One change: the listed servers are brought to its version, and nobody else is touched.
change-brings :
    (remove : Bool) (id : ℕ) (net : Network) (port : ℕ) (others : List ℕ) (stack : Bytes)
    (resets : ℕ → Bool)
    → length stack ≡ 128
    → ((p : ℕ) → resets p ≡ false)
    → All (Answers net) (port ∷ others)
    → (code : ℕ) × (net' : Network) × (update_hosts net port
          (change remove id stack resets)
          port
          (pos 0)
          (some (port ∷ others))
        ≡ ok (code, net'))
      × ((p : ℕ)
          → net' p ≡ (
              if lists (port ∷ others) p
              then Option.map (bring (change remove id stack resets)) (net p)
              else net p))
      × All (Answers net') (port ∷ others)
change-brings remove id net port others stack resets size calm answers =
    let (code, net', ran, _, _, after) =
      update_hosts-converges net port (change remove id stack resets) 0 (port ∷ others)
        (change-IsSound remove id stack resets size calm) (λ _. refl, later-Harmless port 0 others)
        answers.0 answers in
    let exact : (p : ℕ)
        → net' p ≡ (
            if lists (port ∷ others) p
            then Option.map (bring (change remove id stack resets)) (net p)
            else net p) =
      λ p.
        after p
        ∙ ap (λ b. if b then Option.map (bring (change remove id stack resets)) (net p) else net p)
            (same p) in
    (
      code,
      net',
      ran,
      exact,
      still-Answering (change remove id stack resets) net net' (lists (port ∷ others)) exact
          (port ∷ others) answers,
    )
  where
    same : (p : ℕ) → (targets port (port ∷ others) p || (port == p)) ≡ lists (port ∷ others) p
    same p = ground (arith, targets-lists port others p)

bring-stale :
    (q : Request) (c : Coms)
    → c.version_num ≢ q.id
    → bring q c ≡ (actually_update c q.remove q.domain q.ip q.id).0
bring-stale q c h = ground arith

-- What the first change set is not seen behind the second.
shadowed :
    (b : Bool) (set o : Option Bytes) {o' : Option Bytes}
    → o' ≡ (if b then set else o)
    → (if b then none else o') ≡ (if b then none else o)
shadowed true set o e = refl
shadowed false set o e = e

bring-Changed :
    (c : Coms) (stack stack' : Bytes) (resets resets' : ℕ → Bool)
    → DistinctKeys c.ip_hash
    → c.version_num ≢ 1
    → Changed c
        (some (bring (change false 1 stack resets) c))
        (some (bring (change true 2 stack' resets') (bring (change false 1 stack resets) c)))
bring-Changed c stack stack' resets resets' distinct old =
    let added : Coms = (actually_update c false new_domain new_ip 1).0 in
    let (seen, version, distinct', _, _) =
      actually_update_lem c false new_domain new_ip 1 distinct in
    let (seen', version', _, _, _) = actually_update_lem added true new_domain new_ip 2 distinct' in
    (
      added,
      (actually_update added true new_domain new_ip 2).0,
      ap some (bring-stale (change false 1 stack resets) c old),
      ap some (
          ap (bring (change true 2 stack' resets'))
            (bring-stale (change false 1 stack resets) c old)
          ∙ bring-stale (change true 2 stack' resets') added (omega (arith, version))),
      seen,
      λ x. seen' x ∙ shadowed (text_eq new_domain x) (some new_ip) (translate_ip c x) (seen x),
      version',
    )

settle :
    (q q' : Request) (listed : Bool) (o o' o'' : Option Coms)
    → o' ≡ (if listed then Option.map (bring q) o else o)
    → o'' ≡ (if listed then Option.map (bring q') o' else o')
    → (listed ≡ true → (o ≢ none) × IsOld o)
    → ((c : Coms) → IsOld (some c) → Changed c (some (bring q c)) (some (bring q' (bring q c))))
    → Settled listed o o' o''
settle q q' false o o' o'' e e' h changes = (e, e' ∙ e)
settle q q' true none o' o'' e e' h changes = absurd ((h refl).0 refl)
settle q q' true (some c) o' o'' e e' h changes =
    let (c', c'', first, second, between, behind, version) = changes c (h refl).1 in
    (
      c,
      refl,
      (c', c'', e ∙ first, e' ∙ ap (Option.map (bring q')) e ∙ second, between, behind, version),
    )

-- A test adds a translation and later removes it. The same servers are listed both times, the caller
-- first; all of them answer, receive in buffers of 128 bytes over connections that are not reset, hold
-- each domain once, and do not stand at version 1. Then both calls end; in between every listed
-- server answers the new address for `new_domain`, and afterwards none, at version 2; for every other
-- domain it answers what it did at first, both times. A server that is not listed stays as it was.
pub add_hosts_wrapper-remove_hosts_wrapper :
    (net : Network) (port : ℕ) (others : List ℕ) (stack stack' : Bytes) (resets resets' : ℕ → Bool)
    → length stack ≡ 128
    → length stack' ≡ 128
    → ((p : ℕ) → resets p ≡ false)
    → ((p : ℕ) → resets' p ≡ false)
    → All (Answers net) (port ∷ others)
    → All (λ p. IsOld (net p)) (port ∷ others)
    → (code : ℕ) × (net' : Network) × (code' : ℕ) × (net'' : Network) × (add_hosts_wrapper net port
          stack resets
          (some (port ∷ others))
        ≡ ok (code, net'))
      × (remove_hosts_wrapper net' port stack' resets' (some (port ∷ others)) ≡ ok (code', net''))
      × ((p : ℕ) → Settled (lists (port ∷ others) p) (net p) (net' p) (net'' p))
unfolding add_hosts_wrapper remove_hosts_wrapper
add_hosts_wrapper-remove_hosts_wrapper net port others stack stack' resets resets' size size' calm
      calm' answers old =
    let (code, net', ran, after, answers') =
      change-brings false 1 net port others stack resets size calm answers in
    let (code', net'', ran', after', _) =
      change-brings true 2 net' port others stack' resets' size' calm' answers' in
    (
      code,
      net',
      code',
      net'',
      ran,
      ran',
      λ p.
          settle (change false 1 stack resets) (change true 2 stack' resets')
            (lists (port ∷ others) p) (net p) (net' p) (net'' p) (after p) (after' p)
            (λ e. (
              lists-All (Answers net) (port ∷ others) p e answers,
              lists-All (λ x. IsOld (net x)) (port ∷ others) p e old,
            ))
            (λ c h. bring-Changed c stack stack' resets resets' h.0 h.1),
    )
