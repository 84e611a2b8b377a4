-- ===== src/Generator/System/Disable/Servers.antt =====
-- The router's list during a test with -d: what pausing a server and removing the paused ones keep.
use dns_server.Common.{
  ◌&&◌, ◌∙◌, ℕ, ◌<◌, ◌≡◌, ◌≢◌, refl, ap, Bool, true, false, not, ◌||◌, Bool-cases, inl, inr, List,
  [], ◌∷◌, map, All, keep_if, Distinct, length, ◌==◌, arith,
}
use dns_server.DnsServer.{DnsServer}
use dns_server.Generator.System.Disable.{
  Moment, asks, answers, pauses, polls, Poll, pause_id, kept, stands, HasNoPause, reach, reach_may,
}
use dns_server.Router.Replies.{is_mute}
use dns_server.Router.Survivors.{ByteIds}

pub All-keep_if {ℓ κ} :
    {A : Type ℓ} (P : A → Type κ) (p : A → Bool) (xs : List A) → All P xs → All P (keep_if p xs)
All-keep_if P p [] h = tt
All-keep_if P p (x ∷ xs) h = elim (Bool-cases (p x)) [
  | inl kept ↦ rw kept (h.0, All-keep_if P p xs h.1)
  | inr dropped ↦ rw dropped (All-keep_if P p xs h.1)
]

pub All-pause_id {κ} :
    (P Q : DnsServer → Type κ) (id : ℕ) (xs : List DnsServer)
    → ((s : DnsServer) → P s → Q (record s { pause = s.pause || s.id == id }))
    → All P xs
    → All Q (pause_id id xs)
All-pause_id P Q id [] f h = tt
All-pause_id P Q id (x ∷ xs) f h = (f x h.0, All-pause_id P Q id xs f h.1)

abbrev pub ids_of : List DnsServer → List ℕ
ids_of = map (λ (s : DnsServer). s.id)

ids_of-pause_id : (id : ℕ) (xs : List DnsServer) → ids_of (pause_id id xs) ≡ ids_of xs
ids_of-pause_id id [] = refl
ids_of-pause_id id (x ∷ xs) = ap (◌∷◌ x.id) (ids_of-pause_id id xs)

All_ids-keep_if :
    (P : ℕ → Type 0) (p : DnsServer → Bool) (xs : List DnsServer)
    → All P (ids_of xs)
    → All P (ids_of (keep_if p xs))
All_ids-keep_if P p [] h = tt
All_ids-keep_if P p (x ∷ xs) h = elim (Bool-cases (p x)) [
  | inl kept ↦ rw kept (h.0, All_ids-keep_if P p xs h.1)
  | inr dropped ↦ rw dropped (All_ids-keep_if P p xs h.1)
]

Distinct-keep_if :
    (p : DnsServer → Bool) (xs : List DnsServer)
    → Distinct (ids_of xs)
    → Distinct (ids_of (keep_if p xs))
Distinct-keep_if p [] h = tt
Distinct-keep_if p (x ∷ xs) h = elim (Bool-cases (p x)) [
  | inl kept ↦ rw kept (All_ids-keep_if (λ y. x.id ≢ y) p xs h.0, Distinct-keep_if p xs h.1)
  | inr dropped ↦ rw dropped (Distinct-keep_if p xs h.1)
]

-- The first server is not the last one made, and is not paused.
abbrev pub IsAlive : ℕ → List DnsServer → Type 0
IsAlive last [] = ⊥
IsAlive last (s ∷ rest) = (s.pause ≡ false) × (s.id ≢ last)

pub record IsSound (last : ℕ) (servers : List DnsServer) : Type 0 where
  pub bytes : ByteIds servers
  pub distinct : Distinct (ids_of servers)
  pub alive : IsAlive last servers

pub IsSound-nonempty :
    (last : ℕ) (servers : List DnsServer) → IsSound last servers → 0 < length servers
IsSound-nonempty last [] v = absurd v.alive
IsSound-nonempty last (s ∷ rest) v = omega arith

IsAlive-pause_id :
    (last : ℕ) (servers : List DnsServer)
    → IsAlive last servers
    → IsAlive last (pause_id last servers)
IsAlive-pause_id last [] h = h
IsAlive-pause_id last (s ∷ rest) (running, other) = (ground arith, other)

IsAlive-kept :
    (last : ℕ) (may : ℕ → Bool) (p : Poll) (servers : List DnsServer)
    → IsAlive last servers
    → IsAlive last (kept may p servers)
IsAlive-kept last may p [] h = h
IsAlive-kept last may p (s ∷ rest) (running, other) =
    let awake : not (is_mute (stands may p) s) ≡ true =
      ap (λ b. not (b && not (stands may p s))) running in
    rw awake (running, other)

pub pause_id-IsSound :
    (last : ℕ) (servers : List DnsServer)
    → IsSound last servers
    → IsSound last (pause_id last servers)
pause_id-IsSound last servers v = record {
  bytes = All-pause_id (λ s. s.id < 256) (λ s. s.id < 256) last servers (λ s h. h) v.bytes;
  distinct = rw (ids_of-pause_id last servers) v.distinct;
  alive = IsAlive-pause_id last servers v.alive;
}

pub kept-IsSound :
    (last : ℕ) (may : ℕ → Bool) (p : Poll) (servers : List DnsServer)
    → IsSound last servers
    → IsSound last (kept may p servers)
kept-IsSound last may p servers v = record {
  bytes =
      All-keep_if (λ (s : DnsServer). s.id < 256)
        (λ (s : DnsServer). not (is_mute (stands may p) s)) servers v.bytes;
  distinct =
      Distinct-keep_if (λ (s : DnsServer). not (is_mute (stands may p) s)) servers v.distinct;
  alive = IsAlive-kept last may p servers v.alive;
}

-- A server is paused if it has the id.
abbrev IsRetired : ℕ → DnsServer → Type 0
IsRetired last s = s.id ≡ last → s.pause ≡ true

abbrev pub IsNot : ℕ → DnsServer → Type 0
IsNot last s = s.id ≢ last

pause_id-IsRetired :
    (last : ℕ) (servers : List DnsServer) → All (IsRetired last) (pause_id last servers)
pause_id-IsRetired last [] = tt
pause_id-IsRetired last (s ∷ rest) = (λ e. ground (arith, e), pause_id-IsRetired last rest)

-- A round of probing removes the server with the id if it is paused and its thread cannot be inside.
kept-IsNot :
    (last : ℕ) (may : ℕ → Bool) (p : Poll) (servers : List DnsServer)
    → may last ≡ false
    → All (IsRetired last) servers
    → All (IsNot last) (kept may p servers)
kept-IsNot last may p [] out h = tt
kept-IsNot last may p (s ∷ rest) out (retired, h) =
    elim (Bool-cases (not (is_mute (stands may p) s))) [
      | inl awake ↦ rw awake (other awake, kept-IsNot last may p rest out h)
      | inr mute ↦ rw mute (kept-IsNot last may p rest out h)
    ]
  where
    other : not (is_mute (stands may p) s) ≡ true → s.id ≢ last
    other awake e =
        let paused : s.pause ≡ true = retired e in
        let outside : may s.id ≡ false = ap may e ∙ out in ground arith

module _ {Time : Type 0} where
  pub reach-IsSound :
      (last : ℕ) (history : List (Moment Time)) (may : ℕ → Bool) (servers : List DnsServer)
      → IsSound last servers
      → IsSound last (reach last history may servers)
  reach-IsSound last [] may servers v = v
  reach-IsSound last (asks id draw ∷ rest) may servers v = reach-IsSound last rest may servers v
  reach-IsSound last (answers id valid_trans now ∷ rest) may servers v =
      reach-IsSound last rest may servers v
  reach-IsSound last (pauses ∷ rest) may servers v =
      reach-IsSound last rest (λ id. last == id || may id) (pause_id last servers)
        (pause_id-IsSound last servers v)
  reach-IsSound last (polls p ∷ rest) may servers v =
      reach-IsSound last rest (λ _. false) (kept may p servers) (kept-IsSound last may p servers v)

  reach-IsRetired :
      (last : ℕ) (history : List (Moment Time)) (may : ℕ → Bool) (servers : List DnsServer)
      → All (IsRetired last) servers
      → All (IsRetired last) (reach last history may servers)
  reach-IsRetired last [] may servers h = h
  reach-IsRetired last (asks id draw ∷ rest) may servers h = reach-IsRetired last rest may servers h
  reach-IsRetired last (answers id valid_trans now ∷ rest) may servers h =
      reach-IsRetired last rest may servers h
  reach-IsRetired last (pauses ∷ rest) may servers h =
      reach-IsRetired last rest (λ id. last == id || may id) (pause_id last servers)
        (pause_id-IsRetired last servers)
  reach-IsRetired last (polls p ∷ rest) may servers h =
      reach-IsRetired last rest (λ _. false) (kept may p servers)
        (All-keep_if (IsRetired last) (λ (s : DnsServer). not (is_mute (stands may p) s)) servers h)

  reach_may-outside :
      (last : ℕ) (history : List (Moment Time)) (may : ℕ → Bool)
      → HasNoPause history
      → may last ≡ false
      → reach_may last history may last ≡ false
  reach_may-outside last [] may quiet out = out
  reach_may-outside last (asks id draw ∷ rest) may quiet out =
      reach_may-outside last rest may quiet out
  reach_may-outside last (answers id valid_trans now ∷ rest) may quiet out =
      reach_may-outside last rest may quiet out
  reach_may-outside last (pauses ∷ rest) may quiet out = absurd quiet
  reach_may-outside last (polls p ∷ rest) may quiet out =
      reach_may-outside last rest (λ _. false) quiet refl

  -- After the pause and two rounds of probing the last server is not listed: the first brings its
  -- thread back to the test.
  pub reach-IsNot :
      (last : ℕ) (middle between : List (Moment Time)) (p q : Poll) (may : ℕ → Bool)
      (servers : List DnsServer)
      → HasNoPause between
      → let paused = reach last middle (λ id. last == id || may id) (pause_id last servers) in
        let once = kept (reach_may last middle (λ id. last == id || may id)) p paused in
        All
          (IsNot last)
          (kept (reach_may last between (λ _. false)) q (reach last between (λ _. false) once))
  reach-IsNot last middle between p q may servers quiet =
      let may' : ℕ → Bool = λ id. last == id || may id in
      let paused : List DnsServer = reach last middle may' (pause_id last servers) in
      kept-IsNot last (reach_may last between (λ _. false)) q _
        (reach_may-outside last between (λ _. false) quiet refl)
        (reach-IsRetired last between (λ _. false) (kept (reach_may last middle may') p paused)
          (All-keep_if (IsRetired last)
            (λ (s : DnsServer). not (is_mute (stands (reach_may last middle may') p) s)) paused
            (reach-IsRetired last middle may' (pause_id last servers)
              (pause_id-IsRetired last servers))))
