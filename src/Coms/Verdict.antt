-- ===== src/Coms/Verdict.antt =====
-- What the code of `update_hosts` tells: the flags of its loop, and its end.
use dns_server.Common.{
  ℕ, ◌+◌, ◌≡◌, ◌≢◌, refl, ◌∙◌, ap, ℤ, pos, Bool, false, not, ◌||◌, some, List, [], ◌∷◌, All,
  Distinct, lists, any, any_ext, ◌==◌, if◌then◌else◌, Bool-cases, inl, inr, ok, arith,
}
use mathlib.Core.Option
use mathlib.Core.Path.{ap₂}
use dns_server.Coms.{Coms, actually_update}
use dns_server.Coms.Cluster.{
  Network, put, Round, Request, is_failing, propagate, verdict, update_hosts,
}
use dns_server.Coms.Bring.{
  bring, at_version, IsSound, Answers, contact-bring, still-Answers, combine,
}
use dns_server.Coms.Converge.{conclude-going, own_update}

-- The ports that the loop contacts: all but the caller's own and the index that is made to fail.
abbrev pub visits : ℕ → ℤ → ℕ → List ℕ → List ℕ
visits own_port fail i [] = []
visits own_port fail i (p ∷ ps) =
    let rest = visits own_port fail (i + 1) ps in
    if (p == own_port) || is_failing i fail then rest else p ∷ rest

-- Whether some of the servers stands at the update's version, and whether some does not.
abbrev pub some_fresh_in : Request → Network → List ℕ → Bool
some_fresh_in q net = any (λ p. at_version q (net p))

abbrev pub some_stale_in : Request → Network → List ℕ → Bool
some_stale_in q net = any (λ p. not (at_version q (net p)))

pub visits-All :
    (P : ℕ → Type 0) (own_port : ℕ) (fail : ℤ) (i : ℕ) (ports : List ℕ)
    → All P ports
    → All P (visits own_port fail i ports)
visits-All P own_port fail i [] h = tt
visits-All P own_port fail i (p ∷ ps) h = elim (Bool-cases ((p == own_port) || is_failing i fail)) [
  | inl skip ↦ rw skip (visits-All P own_port fail (i + 1) ps h.1)
  | inr visit ↦ rw visit (h.0, visits-All P own_port fail (i + 1) ps h.1)
]

-- A contact leaves the others as they were.
others_same :
    (q : Request) (net net' : Network) (port : ℕ)
    → ((p : ℕ) → net' p ≡ (if port == p then Option.map (bring q) (net p) else net p))
    → (f : Bool → Bool) (xs : List ℕ) → All (λ x. port ≢ x) xs
    → All (λ x. f (at_version q (net' x)) ≡ f (at_version q (net x))) xs
others_same q net net' port e f [] h = tt
others_same q net net' port e f (x ∷ xs) h =
    (ap (λ o. f (at_version q o)) (e x ∙ rw other), others_same q net net' port e f xs h.1)
  where
    other : (port == x) ≡ false
    other = ground (arith, h.0)

pub or_assoc : (a b c : Bool) → ((a || b) || c) ≡ (a || (b || c))
or_assoc a b c = ground arith

module _ (q : Request) (own_port : ℕ) (fail : ℤ) (sound : IsSound q) where
  -- The loop brings each server that it contacts to the version, and its flags tell what they held.
  propagate-visits :
      (i : ℕ) (ports : List ℕ) (r : Round)
      → r.aborted ≡ false
      → Distinct ports
      → All (Answers r.net) ports
      → (r' : Round) × (propagate q own_port fail i ports r ≡ ok r')
        × (r'.aborted ≡ false)
        × ((p : ℕ)
            → r'.net p ≡ (
                if lists (visits own_port fail i ports) p
                then Option.map (bring q) (r.net p)
                else r.net p))
        × (r'.some_fresh ≡ (r.some_fresh || some_fresh_in q r.net (visits own_port fail i ports)))
        × (r'.some_stale ≡ (r.some_stale || some_stale_in q r.net (visits own_port fail i ports)))
  unfolding propagate
  propagate-visits i [] r going distinct answers =
      (r, refl, going, λ p. refl, ground arith, ground arith)
  propagate-visits i (port ∷ ports) r going distinct answers =
      elim (Bool-cases ((port == own_port) || is_failing i fail)) [
        | inl skip ↦
            let (r', run, going', net, fresh, stale) =
              propagate-visits (i + 1) ports r going distinct.1 answers.1 in
            (r', rw skip run, going', λ p. rw skip (net p), rw skip fresh, rw skip stale)
        | inr visit ↦
            let (r₁, met, going₁, net₁, fresh₁, stale₁) =
              contact-bring q port r sound going answers.0 in
            let (r', run, going', net, fresh, stale) =
              propagate-visits (i + 1) ports r₁ going₁ distinct.1
                (still-Answers q r.net r₁.net port net₁ ports answers.1) in
            let later : List ℕ = visits own_port fail (i + 1) ports in
            let apart : All (λ x. port ≢ x) later =
              visits-All (λ x. port ≢ x) own_port fail (i + 1) ports distinct.0 in
            (
              r',
              rw (visit, met, going₁) run,
              going',
              λ p.
                  net p
                  ∙ rw visit (combine q (r.net p) (r₁.net p) (port == p) (lists later p) (net₁ p)),
              fresh
                  ∙ rw visit (
                      rw fresh₁ (
                        or_assoc r.some_fresh (at_version q (r.net port))
                          (some_fresh_in q r₁.net later)
                        ∙ ap (λ b. r.some_fresh || (at_version q (r.net port) || b))
                            (any_ext (λ p. at_version q (r₁.net p)) (λ p. at_version q (r.net p))
                              later (others_same q r.net r₁.net port net₁ (λ b. b) later apart)))),
              stale
                  ∙ rw visit (
                      rw stale₁ (
                        or_assoc r.some_stale (not (at_version q (r.net port)))
                          (some_stale_in q r₁.net later)
                        ∙ ap (λ b. r.some_stale || (not (at_version q (r.net port)) || b))
                            (any_ext (λ p. not (at_version q (r₁.net p)))
                              (λ p. not (at_version q (r.net p))) later
                              (others_same q r.net r₁.net port net₁ not later apart)))),
            )
      ]

-- An update through servers that all answer, under a port that it does not contact, ends with the
-- code that tells what the caller and the servers contacted held before, and brings exactly these to
-- the version.
pub update_hosts-visits :
    (net : Network) (self : ℕ) (q : Request) (own_port fail : ℕ) (ports : List ℕ) (c : Coms)
    → IsSound q
    → net self ≡ some c
    → Distinct ports
    → All (Answers net) ports
    → lists (visits own_port (pos fail) 0 ports) self ≡ false
    → (net' : Network) × (update_hosts net self q own_port (pos fail) (some ports)
        ≡ ok (
          verdict
              (not (c.version_num == q.id))
              (some_stale_in q net (visits own_port (pos fail) 0 ports))
              (some_fresh_in q net (visits own_port (pos fail) 0 ports)),
          net',
        ))
      × ((p : ℕ)
          → net' p ≡ (
              if lists (visits own_port (pos fail) 0 ports) p || (self == p)
              then Option.map (bring q) (net p)
              else net p))
unfolding update_hosts
update_hosts-visits net self q own_port fail ports c sound e distinct answers apart =
    let (r, run, going, after, fresh, stale) =
      propagate-visits q own_port (pos fail) sound 0 ports
        (record { aborted = false; some_stale = false; some_fresh = false; net = net }) refl
        distinct answers in
    let own : r.net self ≡ some c = after self ∙ rw apart e in
    let end : Network =
      if not (c.version_num == q.id)
      then put r.net self (actually_update c q.remove q.domain q.ip q.id).0
      else r.net in
    (
      end,
      rw (e, run)
          (conclude-going q self (not (c.version_num == q.id)) r c going own
            ∙ ap₂ (λ a b. ok (verdict (not (c.version_num == q.id)) a b, end)) stale fresh),
      λ p.
          own_update q r.net self c own p
          ∙ combine q (net p) (r.net p) (lists (visits own_port (pos fail) 0 ports) p) (self == p)
              (after p),
    )
