-- ===== src/Coms/Bring.antt =====
-- How `update_hosts` brings one server to an update's version.
use dns_server.Common.{
  ℕ, ◌+◌, ◌≤◌, ◌≡◌, ◌≢◌, refl, sym, ◌∙◌, ap, ℤ, Bool, true, false, not, ◌&&◌, ◌||◌, Option, none,
  some, List, [], ◌∷◌, All, length, ◌==◌, ==_iff, if◌then◌else◌, Bool-cases, inl, inr, Option-cases,
  ok, arith,
}
use mathlib.Core.Option
use dns_server.Coms.{Coms, actually_update}
use dns_server.Coms.Update.{IsWord, recieve_update-update_text}
use dns_server.Coms.Cluster.{Network, put, Round, Request, contact, is_failing}

-- A server brought to the update's version: left alone if it is there already.
abbrev pub bring : Request → Coms → Coms
bring q c = if c.version_num == q.id then c else (actually_update c q.remove q.domain q.ip q.id).0

-- Whether a server that answers stands at the update's version.
abbrev pub at_version : Request → Option Coms → Bool
at_version q none = false
at_version q (some c) = c.version_num == q.id

-- Whether the caller contacts a port.
abbrev pub targets : ℕ → List ℕ → ℕ → Bool
targets own_port [] p = false
targets own_port (q ∷ qs) p = (not (q == own_port) && (q == p)) || targets own_port qs p

-- The index that is made to fail, if any, is the caller's own.
abbrev pub Harmless : ℕ → ℤ → ℕ → List ℕ → Type 0
Harmless own_port fail i [] = Unit {0}
Harmless own_port fail i (p ∷ ps) =
    (is_failing i fail ≡ true → p ≡ own_port) × Harmless own_port fail (i + 1) ps

-- An update whose text is received whole, on connections that are not reset.
pub record IsSound (q : Request) : Type 0 where
  pub domain_word : IsWord q.domain
  pub ip_word : IsWord q.ip
  pub fits : length q.domain + length q.ip + 6 ≤ length q.stack
  pub no_resets : (p : ℕ) → q.resets p ≡ false

abbrev pub Answers : Network → ℕ → Type 0
Answers net p = net p ≢ none

bring-bring : (q : Request) (c : Coms) → bring q (bring q c) ≡ bring q c
unfolding actually_update
bring-bring q c = ground arith

module _ (q : Request) (net : Network) (port : ℕ) (peer : Coms) where
  there : (p : ℕ) → net port ≡ some peer → (port == p) ≡ true → net p ≡ some peer
  there p e hit = ap net (sym ((==_iff port p).0 hit)) ∙ e

  pub at_same :
      net port ≡ some peer
      → bring q peer ≡ peer
      → (p : ℕ) → net p ≡ (if port == p then Option.map (bring q) (net p) else net p)
  at_same e b p = elim (Bool-cases (port == p)) [
    | inl hit ↦ rw (hit, there p e hit) (ap some (sym b))
    | inr miss ↦ rw miss
  ]

  pub at_changed :
      (c : Coms)
      → net port ≡ some peer
      → bring q peer ≡ c
      → (p : ℕ) → put net port c p ≡ (if port == p then Option.map (bring q) (net p) else net p)
  at_changed c e b p = elim (Bool-cases (port == p)) [
    | inl hit ↦ rw (hit, there p e hit) (ap some (sym b))
    | inr miss ↦ rw miss
  ]

-- One contact brings the peer to the version, nothing else changes, and the flags tell what it held.
pub contact-bring :
    (q : Request) (port : ℕ) (r : Round)
    → IsSound q
    → r.aborted ≡ false
    → Answers r.net port
    → (r' : Round) × (contact q port r (r.net port) ≡ ok r')
      × (r'.aborted ≡ false)
      × ((p : ℕ) → r'.net p ≡ (if port == p then Option.map (bring q) (r.net p) else r.net p))
      × (r'.some_fresh ≡ (r.some_fresh || at_version q (r.net port)))
      × (r'.some_stale ≡ (r.some_stale || not (at_version q (r.net port))))
unfolding contact
contact-bring q port r v going answers = elim (Option-cases (r.net port)) [
  | inl e ↦ absurd (answers e)
  | inr (peer, e) ↦ elim (Bool-cases (peer.version_num == q.id)) [
    | inl fresh ↦ (
      record r { some_fresh = true },
      rw (e, contact, fresh),
      going,
      at_same q r.net port peer e (ground arith),
      rw e (ground arith),
      rw e (ground arith),
    )
    | inr stale ↦ (
      record r {
        aborted = q.resets port;
        some_stale = true;
        net = put r.net port (actually_update peer q.remove q.domain q.ip q.id).0;
      },
      rw (
        e,
        contact,
        stale,
        recieve_update-update_text peer q.remove q.domain q.ip q.id q.stack [] v.domain_word
            v.ip_word v.fits,
      ),
      v.no_resets port,
      at_changed q r.net port peer _ e (ground arith),
      rw e (ground arith),
      rw e (ground arith),
    )
  ]
]

pub bring_ne :
    (q : Request) (b : Bool) (o : Option Coms)
    → o ≢ none
    → (if b then Option.map (bring q) o else o) ≢ none
bring_ne q b none h = absurd (h refl)
bring_ne q true (some c) h = λ e. cc
bring_ne q false (some c) h = h

-- A server that answered still answers after another was contacted.
pub still-Answers :
    (q : Request) (net net' : Network) (port : ℕ)
    → ((p : ℕ) → net' p ≡ (if port == p then Option.map (bring q) (net p) else net p))
    → (ports : List ℕ) → All (Answers net) ports
    → All (Answers net') ports
still-Answers q net net' port e [] h = tt
still-Answers q net net' port e (p ∷ ps) h = (
  λ gone. bring_ne q (port == p) (net p) h.0 (sym (e p) ∙ gone),
  still-Answers q net net' port e ps h.1,
)

map-bring-bring :
    (q : Request) (o : Option Coms)
    → Option.map (bring q) (Option.map (bring q) o) ≡ Option.map (bring q) o
map-bring-bring q none = refl
map-bring-bring q (some c) = ap some (bring-bring q c)

-- Bringing a server to the version once or twice is the same.
pub combine :
    (q : Request) (o o' : Option Coms) (hit later : Bool)
    → o' ≡ (if hit then Option.map (bring q) o else o)
    → (if later then Option.map (bring q) o' else o')
      ≡ (if hit || later then Option.map (bring q) o else o)
combine q o o' true true e = ap (Option.map (bring q)) e ∙ map-bring-bring q o
combine q o o' true false e = e
combine q o o' false true e = ap (Option.map (bring q)) e
combine q o o' false false e = e
