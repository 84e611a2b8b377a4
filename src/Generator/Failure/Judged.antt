-- ===== src/Generator/Failure/Judged.antt =====
-- The verdict of the test: which server the first update left out, read off the second one's code.
use dns_server.Common.{
  ℕ, zero, suc, ◌+◌, ◌<◌, ◌≡◌, ◌≢◌, refl, sym, ◌∙◌, ap, ℤ, pos, negsuc, Bool, true, false, not,
  ◌||◌, List, [], ◌∷◌, All, length, Distinct, lists, lists-ne, All-lists, any, any-none, ◌==◌,
  ==_refl, arith,
}
use mathlib.Core.Path.{ap₂, fun_ext}
use dns_server.Coms.Cluster.{is_failing, verdict}
use dns_server.Coms.Verdict.{visits, visits-All, or_assoc}
use dns_server.Generator.Failure.{same_int, answer_for}
use dns_server.Generator.Failure.Second.{visits-later}

-- What the test prints, by whether the second server was reached, and some of the others were not and
-- some were.
unfoldable pub judged : ℤ → Bool → Bool → Bool → Bool
unfolding verdict answer_for same_int
judged choice reached some_left some_reached =
    not (same_int choice (answer_for choice (verdict (not reached) some_left some_reached)))

judged-none : (b : Bool) → judged (negsuc 0) false b false ≡ false
unfolding judged
judged-none b = refl

judged-all : (b : Bool) → judged (pos 0) true false b ≡ false
unfolding judged
judged-all b = refl

judged-second : (b c : Bool) → judged (pos 1) false b c ≡ not c
unfolding judged
judged-second b true = refl
judged-second b false = refl

judged-other : (k : ℕ) (c : Bool) → judged (pos (suc (suc k))) true true c ≡ false
unfolding judged
judged-other k c = ground arith

abbrev pub concludes : ℤ → List ℕ → ℕ → List ℕ → Bool
concludes choice reached second others =
    judged choice (lists reached second) (any (λ p. not (lists reached p)) others)
      (any (lists reached) others)

still_out :
    (f : ℕ → Bool) (p : ℕ) (ps : List ℕ)
    → All (λ y. p ≢ y) ps
    → All (λ y. f y ≡ false) ps
    → All (λ y. (f y || (p == y)) ≡ false) ps
still_out f p [] apart out = tt
still_out f p (y ∷ ys) apart out = (ground (arith, apart.0, out.0), still_out f p ys apart.1 out.1)

or_true : (a b : Bool) → b ≡ true → (a || b) ≡ true
or_true a b e = ground arith

-- One of the entries is not reached, where its index is made to fail.
any-left_out :
    (f : ℕ → Bool) (own_port k i : ℕ) (ports : List ℕ)
    → k < length ports
    → Distinct ports
    → All (λ p. own_port ≢ p) ports
    → All (λ p. f p ≡ false) ports
    → any (λ p. not (f p || lists (visits own_port (pos (i + k)) i ports) p)) ports ≡ true
unfolding is_failing
any-left_out f own_port k i [] h distinct apart out = absurd (omega arith)
any-left_out f own_port zero i (p ∷ ps) h distinct apart out = rw (skip, unlisted, out.0)
  where
    skip : visits own_port (pos (i + 0)) i (p ∷ ps) ≡ visits own_port (pos (i + 0)) (i + 1) ps
    skip = ground arith

    unlisted : lists (visits own_port (pos (i + 0)) (i + 1) ps) p ≡ false
    unlisted = lists-ne p _ (visits-All (λ x. p ≢ x) own_port (pos (i + 0)) (i + 1) ps distinct.0)
any-left_out f own_port (suc k) i (p ∷ ps) h distinct apart out =
    let later =
      any-left_out (λ y. f y || (p == y)) own_port k (i + 1) ps (omega arith) distinct.1 apart.1
        (still_out f p ps distinct.0 out.1) in
    ap (λ vs. any (λ y. not (f y || lists vs y)) (p ∷ ps)) visit ∙ or_true _ _ (rest later)
  where
    visit :
        visits own_port (pos (i + suc k)) i (p ∷ ps)
        ≡ p ∷ visits own_port (pos (i + suc k)) (i + 1) ps
    visit = ground (arith, apart.0)

    shift : i + suc k ≡ (i + 1) + k
    shift = omega arith

    rest :
        any
            (λ y.
              not ((f y || (p == y)) || lists (visits own_port (pos ((i + 1) + k)) (i + 1) ps) y))
            ps
          ≡ true
        → any
            (λ y. not (f y || ((p == y) || lists (visits own_port (pos (i + suc k)) (i + 1) ps) y)))
            ps
          ≡ true
    rest e =
        ap (λ (g : ℕ → Bool). any g ps)
          (fun_ext (λ y. ap not (
            sym
              (or_assoc (f y) (p == y) (lists (visits own_port (pos (i + suc k)) (i + 1) ps) y)))))
        ∙ ap
            (λ n.
              any (λ y. not ((f y || (p == y)) || lists (visits own_port (pos n) (i + 1) ps) y)) ps)
            shift
        ∙ e

abbrev pub is_empty : List ℕ → Bool
is_empty [] = true
is_empty (p ∷ ps) = false

any-not : (f : ℕ → Bool) (xs : List ℕ) → All (λ x. f x ≡ true) xs → any (λ x. not (f x)) xs ≡ false
any-not f [] h = refl
any-not f (x ∷ xs) h = ground (arith, any-not f xs h.1)

any_self : (xs : List ℕ) → any (lists xs) xs ≡ not (is_empty xs)
any_self [] = refl
any_self (x ∷ xs) = ground (arith, ==_refl x)

not-not : (b : Bool) → not (not b) ≡ b
not-not b = ground arith

none_listed : (xs : List ℕ) → All (λ x. lists [] x ≡ false) xs
none_listed [] = tt
none_listed (x ∷ xs) = (refl, none_listed xs)

module _ (first second : ℕ) (others : List ℕ) (distinct : Distinct (second ∷ others))
    (apart : All (λ p. first ≢ p) (second ∷ others)) where
  -- No server is reached: code 0.
  pub concludes-none : concludes (negsuc 0) [] second others ≡ false
  concludes-none =
      ap (judged (negsuc 0) false (any (λ p. not (lists [] p)) others))
        (any-none (λ p. lists [] p) others (none_listed others))
      ∙ judged-none _

  -- All are: code 6.
  pub concludes-all :
      concludes (pos 0) (visits first (pos 0) 1 (second ∷ others)) second others ≡ false
  concludes-all =
      ap (λ vs. concludes (pos 0) vs second others)
        (visits-later first 0 1 (second ∷ others) (omega arith) apart)
      ∙ ap₂ (λ a b. judged (pos 0) a b (any (lists (second ∷ others)) others)) here_listed
          (any-not (lists (second ∷ others)) others all_listed)
      ∙ judged-all _
    where
      here_listed : lists (second ∷ others) second ≡ true
      here_listed = ground (arith, ==_refl second)

      all_listed : All (λ p. lists (second ∷ others) p ≡ true) others
      all_listed = All-lists (lists (second ∷ others)) others (λ p e. ground arith)

  -- All but the second server: code 8, or 0 if there is no other.
  pub concludes-second :
      concludes (pos 1) (visits first (pos 1) 1 (second ∷ others)) second others ≡ is_empty others
  unfolding is_failing
  concludes-second =
      ap (λ vs. concludes (pos 1) vs second others) left_out
      ∙ ap₂ (λ a b. judged (pos 1) a (any (λ p. not (lists others p)) others) b)
          (lists-ne second others distinct.0) (any_self others)
      ∙ judged-second _ (not (is_empty others))
      ∙ not-not (is_empty others)
    where
      left_out : visits first (pos 1) 1 (second ∷ others) ≡ others
      left_out = ground (arith, visits-later first 1 2 others)

  -- All but another: code 9.
  pub concludes-other :
      (k : ℕ)
      → k < length others
      → concludes
          (pos (suc (suc k)))
          (visits first (pos (suc (suc k))) 1 (second ∷ others))
          second
          others
        ≡ false
  unfolding is_failing
  concludes-other k h =
      ap (λ vs. concludes (pos (suc (suc k))) vs second others) visited
      ∙ ap₂
          (λ a b.
            judged (pos (suc (suc k))) a b
              (any (lists (second ∷ visits first (pos (suc (suc k))) 2 others)) others))
          here_listed left_out
      ∙ judged-other k _
    where
      visited :
          visits first (pos (suc (suc k))) 1 (second ∷ others)
          ≡ second ∷ visits first (pos (suc (suc k))) 2 others
      visited = ground (arith, apart.0)

      here_listed : lists (second ∷ visits first (pos (suc (suc k))) 2 others) second ≡ true
      here_listed = ground (arith, ==_refl second)

      index : suc (suc k) ≡ 2 + k
      index = omega arith

      left_out :
          any (λ p. not (lists (second ∷ visits first (pos (suc (suc k))) 2 others) p)) others
          ≡ true
      left_out =
          ap (λ n. any (λ p. not (lists (second ∷ visits first (pos n) 2 others) p)) others) index
          ∙ any-left_out (λ p. second == p) first k 2 others h distinct.1 apart.1
              (still_out (λ p. false) second others distinct.0 (none_listed others))
