-- ===== src/Generator/Failure/Second.antt =====
-- The second update: what its code tells of the servers that the first one reached.
use dns_server.Common.{
  ℕ, ◌+◌, ◌<◌, ◌≡◌, ◌≢◌, refl, ◌∙◌, ap, pos, Bool, true, not, ◌||◌, some, List, [], ◌∷◌, All,
  Distinct, lists, lists-ne, All-lists, any, any_ext, ◌==◌, if◌then◌else◌, Option-cases, inl, inr,
  ok, arith,
}
use mathlib.Core.Option
use mathlib.Core.Path.{ap₂}
use dns_server.Coms.{Coms, actually_update}
use dns_server.Coms.Cluster.{Network, Request, is_failing, verdict, update_hosts}
use dns_server.Coms.Bring.{bring, at_version, IsSound, Answers}
use dns_server.Coms.Verdict.{visits, some_fresh_in, some_stale_in, update_hosts-visits}

-- A server that answers, at version 16 exactly if it is in the list.
abbrev pub Reached : List ℕ → Network → ℕ → Type 0
Reached reached net p = (c : Coms) × (net p ≡ some c) × ((c.version_num == 16) ≡ lists reached p)

-- A server that answers, and stands at version 16.
abbrev pub Current : Network → ℕ → Type 0
Current net p = (c : Coms) × (net p ≡ some c) × (c.version_num ≡ 16)

-- Beyond the index that is made to fail all foreign ports are contacted.
pub visits-later :
    (own_port fail i : ℕ) (ports : List ℕ)
    → fail < i
    → All (λ p. own_port ≢ p) ports
    → visits own_port (pos fail) i ports ≡ ports
unfolding is_failing
visits-later own_port fail i [] h apart = refl
visits-later own_port fail i (p ∷ ps) h apart =
    ground (arith, visits-later own_port fail (i + 1) ps)

Reached-Answers :
    (reached : List ℕ) (net : Network) (ports : List ℕ)
    → All (Reached reached net) ports
    → All (Answers net) ports
Reached-Answers reached net [] h = tt
Reached-Answers reached net (p ∷ ps) ((c, e, _), h) = (λ gone. cc, Reached-Answers reached net ps h)

-- The flags of the second update's loop are those of the list.
Reached-flags :
    (q : Request) (reached : List ℕ) (net : Network) (f : Bool → Bool) (ports : List ℕ)
    → q.id ≡ 16
    → All (Reached reached net) ports
    → All (λ p. f (at_version q (net p)) ≡ f (lists reached p)) ports
Reached-flags q reached net f [] e h = tt
Reached-flags q reached net f (p ∷ ps) e ((c, there, version), h) =
    (ap f (rw (there, e) version), Reached-flags q reached net f ps e h)

pub bring-version : (q : Request) (c : Coms) → (bring q c).version_num ≡ q.id
unfolding actually_update
bring-version q c = ground arith

bring-Current :
    (q : Request) (net net' : Network) (hit : ℕ → Bool) (ports : List ℕ)
    → q.id ≡ 16
    → ((p : ℕ) → net' p ≡ (if hit p then Option.map (bring q) (net p) else net p))
    → All (λ p. hit p ≡ true) ports
    → All (Answers net) ports
    → All (Current net') ports
bring-Current q net net' hit [] e after hits answers = tt
bring-Current q net net' hit (p ∷ ps) e after hits answers = (
  elim (Option-cases (net p)) [
    | inl gone ↦ absurd (answers.0 gone)
    | inr (c, there) ↦ (bring q c, after p ∙ rw (hits.0, there), bring-version q c ∙ e)
  ],
  bring-Current q net net' hit ps e after hits.1 answers.1,
)

module _ (first second : ℕ) (others : List ℕ) (reached : List ℕ) (net : Network) (q : Request)
    (at_16 : q.id ≡ 16) (sound : IsSound q) where
  -- The second update, by a server that the first update reached or not: its code tells which of the
  -- servers were reached, and it brings all to the version.
  pub second_update :
      Distinct (second ∷ others)
      → All (λ p. first ≢ p) (second ∷ others)
      → All (Reached reached net) (second ∷ others)
      → (net' : Network) × (update_hosts net second q first (pos 0) (some (second ∷ others))
          ≡ ok (
            verdict
                (not (lists reached second))
                (any (λ p. not (lists reached p)) others)
                (any (lists reached) others),
            net',
          ))
        × All (Current net') (second ∷ others)
  unfolding is_failing
  second_update distinct apart ((c, there, version), held) =
      let (net', ran, after) =
        update_hosts-visits net second q first 0 (second ∷ others) c sound there distinct
          (Reached-Answers reached net (second ∷ others) ((c, there, version), held))
          (rw visited (lists-ne second others distinct.0)) in
      (
        net',
        ran ∙ ap (λ k. ok (k, net')) (code c version held),
        bring-Current q net net' (λ p. lists others p || (second == p)) (second ∷ others) at_16
            (λ p.
              after p
              ∙ ap
                  (λ vs.
                    if lists vs p || (second == p) then Option.map (bring q) (net p) else net p)
                  visited)
            hits (Reached-Answers reached net (second ∷ others) ((c, there, version), held)),
      )
    where
      visited : visits first (pos 0) 0 (second ∷ others) ≡ others
      visited = ground (arith, visits-later first 0 1 others)

      hits : All (λ p. (lists others p || (second == p)) ≡ true) (second ∷ others)
      hits =
          All-lists (λ p. lists others p || (second == p)) (second ∷ others) (λ p e. ground arith)

      code :
          (c : Coms)
          → (c.version_num == 16) ≡ lists reached second
          → All (Reached reached net) others
          → verdict
              (not (c.version_num == q.id))
              (some_stale_in q net (visits first (pos 0) 0 (second ∷ others)))
              (some_fresh_in q net (visits first (pos 0) 0 (second ∷ others)))
            ≡ verdict
                (not (lists reached second))
                (any (λ p. not (lists reached p)) others)
                (any (lists reached) others)
      code c version held =
          ap
            (λ vs.
              verdict (not (c.version_num == q.id)) (some_stale_in q net vs)
                (some_fresh_in q net vs))
            visited
          ∙ ap (λ b. verdict (not b) (some_stale_in q net others) (some_fresh_in q net others))
              (ap (λ n. c.version_num == n) at_16 ∙ version)
          ∙ ap₂ (verdict (not (lists reached second)))
              (any_ext (λ p. not (at_version q (net p))) (λ p. not (lists reached p)) others
                (Reached-flags q reached net not others at_16 held))
              (any_ext (λ p. at_version q (net p)) (lists reached) others
                (Reached-flags q reached net (λ b. b) others at_16 held))
