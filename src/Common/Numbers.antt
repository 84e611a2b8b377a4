-- ===== src/Common/Numbers.antt =====
-- Lists of numbers: membership as a test, and lists without repetitions.
use Prim.Native.Nat.{ℕ}
use mathlib.Core.Path.{◌≡◌, refl, subst}
use mathlib.Core.Logic.{◌≢◌, inl, inr}
use mathlib.Core.List.{List, [], ◌∷◌}
use mathlib.Core.Bool.{Bool, true, false, ◌||◌}
use native.Mathlib.Omega.{arith}
use dns_server.Common.Tests.{◌==◌, ==_iff, ==_refl, Bool-cases}
use dns_server.Common.Lists.{All}

abbrev pub lists : List ℕ → ℕ → Bool
lists [] p = false
lists (q ∷ qs) p = (q == p) || lists qs p

pub lists-All : (P : ℕ → Type 0) (xs : List ℕ) (x : ℕ) → lists xs x ≡ true → All P xs → P x
lists-All P [] x e h = absurd (cc)
lists-All P (y ∷ ys) x e h = elim (Bool-cases (y == x)) [
  | inl hit ↦ subst P ((==_iff y x).0 hit) h.0
  | inr miss ↦ lists-All P ys x (ground arith) h.1
]

-- What holds of all that is listed holds of every entry.
pub All-lists :
    (f : ℕ → Bool) (xs : List ℕ)
    → ((x : ℕ) → lists xs x ≡ true → f x ≡ true)
    → All (λ x. f x ≡ true) xs
All-lists f [] h = tt
All-lists f (x ∷ xs) h =
    (h x (ground (arith, ==_refl x)), All-lists f xs (λ y e. h y (ground arith)))

-- What differs from every entry is not listed.
pub lists-ne : (x : ℕ) (ys : List ℕ) → All (λ y. x ≢ y) ys → lists ys x ≡ false
lists-ne x [] h = refl
lists-ne x (y ∷ ys) h = ground (arith, lists-ne x ys h.1)

-- No entry stands in the list twice.
abbrev pub Distinct : List ℕ → Type 0
Distinct [] = Unit {0}
Distinct (x ∷ xs) = All (λ y. x ≢ y) xs × Distinct xs

-- Whether some entry passes a test.
abbrev pub any : (ℕ → Bool) → List ℕ → Bool
any f [] = false
any f (x ∷ xs) = f x || any f xs

pub any_ext : (f g : ℕ → Bool) (xs : List ℕ) → All (λ x. f x ≡ g x) xs → any f xs ≡ any g xs
any_ext f g [] h = refl
any_ext f g (x ∷ xs) h = ground (arith, any_ext f g xs h.1)

pub any-none : (f : ℕ → Bool) (xs : List ℕ) → All (λ x. f x ≡ false) xs → any f xs ≡ false
any-none f [] h = refl
any-none f (x ∷ xs) h = ground (arith, any-none f xs h.1)
