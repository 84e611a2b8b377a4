-- ===== src/Router/Survivors.antt =====
-- Which ids a round of probing strikes, and which servers it then removes.
use dns_server.Common.{
  ℕ, zero, suc, ◌-◌, ◌%◌, ◌<◌, ◌≡◌, ◌≢◌, refl, sym, ◌∙◌, ap, Bool, true, false, not, ◌&&◌, ◌||◌,
  Option, none, some, List, [], ◌∷◌, ◌++◌, append_assoc, map, All, keep_if, keep_if-All, Distinct,
  keep_if-keep_if, keep_if_ext, length, length-append, ◌==◌, Bool-cases, inl, inr, ok, arith,
}
use dns_server.DnsServer.{DnsServer}
use dns_server.Router.{Router, remove_server, first_slots, strike, hear, remove_all}
use dns_server.Router.Search.{remove_first, has_id}
use dns_server.Router.Remove.{IsReady, remove_server_lem}

-- Whether the byte read after some datagram was the id.
abbrev pub answered : ℕ → List (Option ℕ) → ℕ → Bool
answered byte [] id = false
answered byte (none ∷ replies) id = (byte == id) || answered byte replies id
answered byte (some byte' ∷ replies) id = (byte' == id) || answered byte' replies id

keep-All : (P : ℕ → Type 0) (p : ℕ → Bool) (xs : List ℕ) → All P xs → All P (keep_if p xs)
keep-All P p [] h = tt
keep-All P p (x ∷ xs) h = elim (Bool-cases (p x)) [
  | inl kept ↦ rw kept (h.0, keep-All P p xs h.1)
  | inr left ↦ rw left (keep-All P p xs h.1)
]

keep-Distinct : (p : ℕ → Bool) (xs : List ℕ) → Distinct xs → Distinct (keep_if p xs)
keep-Distinct p [] h = tt
keep-Distinct p (x ∷ xs) h = elim (Bool-cases (p x)) [
  | inl kept ↦ rw kept (keep-All (λ y. x ≢ y) p xs h.0, keep-Distinct p xs h.1)
  | inr left ↦ rw left (keep-Distinct p xs h.1)
]

others : (b x : ℕ) (xs : List ℕ) → b ≡ x → All (λ y. x ≢ y) xs → All (λ y. not (b == y) ≡ true) xs
others b x [] e h = tt
others b x (y ∷ ys) e h = (ground arith, others b x ys e h.1)

strike-keep : (b : ℕ) (xs : List ℕ) → Distinct xs → strike b xs ≡ keep_if (λ y. not (b == y)) xs
unfolding strike
strike-keep b [] h = refl
strike-keep b (x ∷ xs) h = elim (Bool-cases (b == x)) [
  | inl hit ↦ rw hit (sym (keep_if-All (λ y. not (b == y)) xs (others b x xs (ground arith) h.0)))
  | inr miss ↦ rw miss (ap (◌∷◌ x) (strike-keep b xs h.1))
]

keep-or :
    (b : ℕ) (f : ℕ → Bool) (xs : List ℕ)
    → keep_if (λ y. not (f y)) (keep_if (λ y. not (b == y)) xs)
      ≡ keep_if (λ y. not ((b == y) || f y)) xs
keep-or b f xs =
    keep_if-keep_if _ _ xs ∙ keep_if_ext (λ y. not (b == y) && not (f y)) _ xs (λ y. ground arith)

-- What is left of distinct ids are those that no datagram carried.
pub hear-keep :
    (byte : ℕ) (replies : List (Option ℕ)) (xs : List ℕ)
    → Distinct xs
    → hear byte replies xs ≡ keep_if (λ y. not (answered byte replies y)) xs
unfolding hear
hear-keep byte [] xs h = sym (keep_if-All _ xs (all_true xs))
  where
    all_true : (ys : List ℕ) → All (λ y. true ≡ true) ys
    all_true [] = tt
    all_true (y ∷ ys) = (refl, all_true ys)
hear-keep byte (none ∷ replies) xs h =
    rw (strike-keep byte xs h)
      (hear-keep byte replies _ (keep-Distinct _ xs h) ∙ keep-or byte (answered byte replies) xs)
hear-keep byte (some byte' ∷ replies) xs h =
    rw (strike-keep byte' xs h)
      (hear-keep byte' replies _ (keep-Distinct _ xs h) ∙ keep-or byte' (answered byte' replies) xs)

pub first_slots-all :
    (servers : List DnsServer) (n : ℕ) → length servers ≡ n → first_slots n servers ≡ ok servers
unfolding first_slots
first_slots-all [] zero h = refl
first_slots-all [] (suc n) h = absurd (omega arith)
first_slots-all (s ∷ servers) zero h = absurd (omega arith)
first_slots-all (s ∷ servers) (suc n) h = rw (first_slots-all servers n (omega arith))

abbrev pub ids : List DnsServer → List ℕ
ids = map (λ (s : DnsServer). s.id % 256)

-- Every id fits the byte in which probes are answered.
abbrev pub ByteIds : List DnsServer → Type 0
ByteIds = All (λ (s : DnsServer). s.id < 256)

told_apart : (f : ℕ → Bool) (a b : ℕ) → f a ≡ true → f b ≡ false → (a == b) ≡ false
told_apart f a b h k = ground arith

All-snoc :
    (P : DnsServer → Type 0) (xs : List DnsServer) (s : DnsServer)
    → All P xs
    → P s
    → All P (xs ++ (s ∷ []))
All-snoc P [] s h p = (p, tt)
All-snoc P (x ∷ xs) s h p = (h.0, All-snoc P xs s h.1 p)

module _ (live : ℕ → Bool) where
  abbrev survivors : List DnsServer → List DnsServer
  survivors = keep_if (λ (s : DnsServer). live s.id)

  abbrev silent_ids : List DnsServer → List ℕ
  silent_ids servers = keep_if (λ y. not (live y)) (ids servers)

  -- Live servers in front of a silent one are not taken for it.
  remove_first-live :
      (pre : List DnsServer) (s : DnsServer) (rest : List DnsServer)
      → All (λ (p : DnsServer). live p.id ≡ true) pre
      → live s.id ≡ false
      → (remove_first s.id (pre ++ (s ∷ rest)) ≡ pre ++ rest)
        × (has_id s.id (pre ++ (s ∷ rest)) ≡ true)
  remove_first-live [] s rest h dead = (ground arith, ground arith)
  remove_first-live (p ∷ pre) s rest h dead =
      let (e, f) = remove_first-live pre s rest h.1 dead in
      let differ : (p.id == s.id) ≡ false = told_apart live p.id s.id h.0 dead in
      (rw differ (ap (◌∷◌ p) e), rw differ f)

  -- Removing the silent servers leaves the live ones, in order.
  pub remove_all-survivors :
      (rest pre : List DnsServer) (r : Router)
      → IsReady r
      → r.servers ≡ pre ++ rest
      → All (λ (p : DnsServer). live p.id ≡ true) pre
      → ByteIds rest
      → (r' : Router) × (remove_all r (silent_ids rest) ≡ ok r')
        × (r'.servers ≡ pre ++ survivors rest)
        × IsReady r'
  unfolding remove_all
  remove_all-survivors [] pre r v e h b = (r, refl, e, v)
  remove_all-survivors (s ∷ rest) pre r v e h b = elim (Bool-cases (live s.id)) [
    | inl alive ↦
        let (r', run, left, v') =
          remove_all-survivors rest (pre ++ (s ∷ [])) r v (e ∙ sym (append_assoc pre (s ∷ []) rest))
            (All-snoc (λ (p : DnsServer). live p.id ≡ true) pre s h alive) b.1 in
        (r', rw (same, alive) run, rw alive (left ∙ append_assoc pre (s ∷ []) (survivors rest)), v')
    | inr dead ↦
        let (gone, found) = remove_first-live pre s rest h dead in
        let (r', run, left, v') =
          remove_all-survivors rest pre (shorter (pre ++ rest)) (shorter-IsReady gone found) refl h
            b.1 in
        (r', rw (same, dead, removed gone found) run, rw dead left, v')
  ]
    where
      same : s.id % 256 ≡ s.id
      same = omega (arith, b.0)

      shorter : List DnsServer → Router
      shorter l = record r {
        servers = l;
        server_cnt = r.server_cnt - 1;
        mutex = false;
        tcp_mutex = false;
      }

      removed :
          remove_first s.id (pre ++ (s ∷ rest)) ≡ pre ++ rest
          → has_id s.id (pre ++ (s ∷ rest)) ≡ true
          → remove_server r s.id ≡ ok (0, shorter (pre ++ rest))
      removed gone found =
          remove_server_lem r s.id v
          ∙ rw (ap (has_id s.id) e ∙ found)
              (ap (λ l. ok (0, shorter l)) (ap (remove_first s.id) e ∙ gone))

      shorter-IsReady :
          remove_first s.id (pre ++ (s ∷ rest)) ≡ pre ++ rest
          → has_id s.id (pre ++ (s ∷ rest)) ≡ true
          → IsReady (shorter (pre ++ rest))
      shorter-IsReady gone found = record {
        counted =
            omega
              (arith, length-append pre rest, ap length e, length-append pre (s ∷ rest), v.counted);
        small = omega (arith, v.small);
        unlocked = refl;
        tcp_unlocked = refl;
      }
