-- ===== src/Coms/Converge.antt =====
-- What `update_hosts` does to the servers that it reaches.
use dns_server.Common.{
  ℕ, ◌+◌, ◌≡◌, ◌≢◌, refl, ◌∙◌, ℤ, pos, Bool, true, false, not, ◌||◌, some, List, [], ◌∷◌, All, ◌==◌,
  if◌then◌else◌, Bool-cases, inl, inr, Option-cases, ok, arith,
}
use mathlib.Core.Option
use dns_server.Coms.{Coms, actually_update}
use dns_server.Coms.Cluster.{
  Network, put, Round, Request, is_failing, propagate, verdict, conclude, update_hosts,
}
use dns_server.Coms.Bring.{
  bring, targets, Harmless, IsSound, Answers, contact-bring, still-Answers, combine, at_same,
  at_changed,
}

module _ (q : Request) (own_port : ℕ) (fail : ℤ) (sound : IsSound q) where
  -- The loop contacts every listed server but the caller's own, and brings each to the version.
  propagate-bring :
      (i : ℕ) (ports : List ℕ) (r : Round)
      → r.aborted ≡ false
      → Harmless own_port fail i ports
      → All (Answers r.net) ports
      → (r' : Round) × (propagate q own_port fail i ports r ≡ ok r')
        × (r'.aborted ≡ false)
        × ((p : ℕ)
            → r'.net p
              ≡ (if targets own_port ports p then Option.map (bring q) (r.net p) else r.net p))
  unfolding propagate
  propagate-bring i [] r going harmless answers = (r, refl, going, λ p. refl)
  propagate-bring i (port ∷ ports) r going harmless answers =
      elim (Bool-cases ((port == own_port) || is_failing i fail)) [
        | inl skip ↦
            let own : (port == own_port) ≡ true = ground (arith, harmless.0) in
            let (r', run, going', net) =
              propagate-bring (i + 1) ports r going harmless.1 answers.1 in
            (r', rw skip run, going', λ p. rw own (net p))
        | inr visit ↦
            let other : (port == own_port) ≡ false = ground arith in
            let (r₁, met, going₁, net₁, _, _) = contact-bring q port r sound going answers.0 in
            let (r', run, going', net) =
              propagate-bring (i + 1) ports r₁ going₁ harmless.1
                (still-Answers q r.net r₁.net port net₁ ports answers.1) in
            (
              r',
              rw (visit, met, going₁) run,
              going',
              λ p.
                  net p
                  ∙ rw other (
                      combine q (r.net p) (r₁.net p) (port == p) (targets own_port ports p)
                        (net₁ p)),
            )
      ]

-- The caller's own port is never contacted.
targets-own : (own_port : ℕ) (ports : List ℕ) → targets own_port ports own_port ≡ false
targets-own own_port [] = refl
targets-own own_port (p ∷ ps) = ground (arith, targets-own own_port ps)

verdict_codes : (a b c : Bool) → (verdict a b c ≢ 1) × (verdict a b c ≢ 3)
unfolding verdict
verdict_codes a b c = (ground arith, ground arith)

pub conclude-going :
    (q : Request) (self : ℕ) (stale : Bool) (r : Round) (c : Coms)
    → r.aborted ≡ false
    → r.net self ≡ some c
    → conclude q self stale r
      ≡ ok (
        verdict stale r.some_stale r.some_fresh,
        if stale then put r.net self (actually_update c q.remove q.domain q.ip q.id).0 else r.net,
      )
unfolding conclude
conclude-going q self stale r c going e = rw (e, conclude, going)

-- The caller's own update, made if it was stale.
pub own_update :
    (q : Request) (net : Network) (self : ℕ) (c : Coms)
    → net self ≡ some c
    → (p : ℕ)
    → (if not (c.version_num == q.id)
          then put net self (actually_update c q.remove q.domain q.ip q.id).0
          else net)
        p
      ≡ (if self == p then Option.map (bring q) (net p) else net p)
own_update q net self c e p = elim (Bool-cases (c.version_num == q.id)) [
  | inl fresh ↦ rw fresh (at_same q net self c e (ground arith) p)
  | inr stale ↦ rw stale (at_changed q net self c _ e (ground arith) p)
]

-- A sound update under the caller's own port, with every listed server answering and no foreign one
-- made to fail, ends with a code that is neither 1 nor 3, the codes of its early returns. After it
-- exactly the caller and the listed servers stand at the update's version: each that stood there
-- before is unchanged, each other one has been updated; nobody else is touched.
pub update_hosts-converges :
    (net : Network) (self : ℕ) (q : Request) (fail : ℕ) (ports : List ℕ)
    → IsSound q
    → Harmless self (pos fail) 0 ports
    → Answers net self
    → All (Answers net) ports
    → (code : ℕ) × (net' : Network) × (update_hosts net self q self (pos fail) (some ports)
        ≡ ok (code, net'))
      × (code ≢ 1)
      × (code ≢ 3)
      × ((p : ℕ)
          → net' p
            ≡ (if targets self ports p || (self == p) then Option.map (bring q) (net p) else net p))
unfolding update_hosts
update_hosts-converges net self q fail ports sound harmless here answers =
    elim (Option-cases (net self)) [
      | inl e ↦ absurd (here e)
      | inr (c, e) ↦
          let (r, run, going, after) =
            propagate-bring q self (pos fail) sound 0 ports (start net) refl harmless answers in
          let own : r.net self ≡ some c = after self ∙ rw (targets-own self ports) e in
          (
            verdict (not (c.version_num == q.id)) r.some_stale r.some_fresh,
            _,
            rw (e, run) (conclude-going q self (not (c.version_num == q.id)) r c going own),
            (verdict_codes (not (c.version_num == q.id)) r.some_stale r.some_fresh).0,
            (verdict_codes (not (c.version_num == q.id)) r.some_stale r.some_fresh).1,
            λ p.
                own_update q r.net self c own p
                ∙ combine q (net p) (r.net p) (targets self ports p) (self == p) (after p),
          )
    ]
  where
    start : Network → Round
    start n = record { aborted = false; some_stale = false; some_fresh = false; net = n }
