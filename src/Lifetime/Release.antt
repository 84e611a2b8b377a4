-- ===== src/Lifetime/Release.antt =====
-- The calls that take from the system and give back, on what is held without regard to its order.
use dns_server.Common.{
  ℕ, zero, suc, ◌+◌, ◌<◌, ◌≡◌, refl, sym, ap, true, false, Option, none, some, List, [], ◌∷◌, ◌++◌,
  if◌then◌else◌, Bool-cases, inl, inr, ok, arith,
}
use dns_server.Lifetime.{
  Resource, block, descriptor, stream, thread, same, Held, take_out, release, release_all, pointed,
  realloc,
}

-- Whether a thing is that of the list, as a number.
pub one : Resource → Resource → ℕ
one r x = if same r x then 1 else 0

abbrev pub count : Resource → List Resource → ℕ
count r [] = 0
count r (x ∷ xs) = one r x + count r xs

pub count-append :
    (r : Resource) (xs ys : List Resource) → count r (xs ++ ys) ≡ count r xs + count r ys
count-append r [] ys = omega arith
count-append r (x ∷ xs) ys = omega (arith, count-append r xs ys)

-- The same things are held, each as often: they make up a list and a rest.
abbrev pub Holds : Held → List Resource → List Resource → Type 0
Holds h xs rest = (r : Resource) → count r h.live ≡ count r xs + count r rest

same-eq : (r x : Resource) → same r x ≡ true → r ≡ x
unfolding same
same-eq (block a) (block b) h = ground arith
same-eq (descriptor a) (descriptor b) h = ground arith
same-eq (stream a) (stream b) h = ground arith
same-eq (thread a) (thread b) h = ground arith
same-eq (block a) (descriptor b) h = cc
same-eq (block a) (stream b) h = cc
same-eq (block a) (thread b) h = cc
same-eq (descriptor a) (block b) h = cc
same-eq (descriptor a) (stream b) h = cc
same-eq (descriptor a) (thread b) h = cc
same-eq (stream a) (block b) h = cc
same-eq (stream a) (descriptor b) h = cc
same-eq (stream a) (thread b) h = cc
same-eq (thread a) (block b) h = cc
same-eq (thread a) (descriptor b) h = cc
same-eq (thread a) (stream b) h = cc

one_self : (r : Resource) → one r r ≡ 1
unfolding one same
one_self (block a) = ground arith
one_self (descriptor a) = ground arith
one_self (stream a) = ground arith
one_self (thread a) = ground arith

one_other : (r x : Resource) → same r x ≡ false → one r x ≡ 0
unfolding one
one_other r x h = rw h

take_out-count :
    (r : Resource) (l : List Resource)
    → 0 < count r l
    → (l' : List Resource) × (take_out r l ≡ some l')
      × ((x : Resource) → count x l ≡ one x r + count x l')
unfolding take_out
take_out-count r [] h = absurd (omega arith)
take_out-count r (y ∷ ys) h = elim (Bool-cases (same r y)) [
  | inl here ↦
      let e : r ≡ y = same-eq r y here in (ys, rw here, λ x. ap (λ z. one x z + count x ys) (sym e))
  | inr there ↦
      let (l', taken, counted) = take_out-count r ys (omega (arith, one_other r y there)) in
      (y ∷ l', rw (there, taken), λ x. omega (arith, counted x))
]

pub release-Holds :
    (r : Resource) (xs rest : List Resource) (h : Held)
    → Holds h (r ∷ xs) rest
    → (h' : Held) × (release r h ≡ ok h') × Holds h' xs rest
unfolding release
release-Holds r xs rest h held =
    let (l, taken, counted) = take_out-count r h.live (omega (arith, held r, one_self r)) in
    (record h { live = l }, rw (taken, release), λ x. omega (arith, held x, counted x))

-- Calls that give back what is held, in any order, all find it.
pub release_all-Holds :
    (rs rest : List Resource) (h : Held)
    → Holds h rs rest
    → (h' : Held) × (release_all rs h ≡ ok h') × Holds h' [] rest
unfolding release_all
release_all-Holds [] rest h held = (h, refl, held)
release_all-Holds (r ∷ rs) rest h held =
    let (h₁, given, held') = release-Holds r rs rest h held in
    let (h₂, all, held'') = release_all-Holds rs rest h₁ held' in (h₂, rw (given, all), held'')

-- `realloc` of an array that is held leaves an array that is held, and nothing else changes.
pub realloc-Holds :
    (p : Option ℕ) (size : ℕ) (rest : List Resource) (h : Held)
    → Holds h (pointed p) rest
    → (q : Option ℕ) × (h' : Held) × (realloc p size h ≡ ok (q, h')) × Holds h' (pointed q) rest
unfolding realloc
realloc-Holds none size rest h held = (
  some h.next,
  record { next = h.next + 1; live = block h.next ∷ h.live },
  refl,
  λ x. omega (arith, held x),
)
realloc-Holds (some p) zero rest h held =
    let (h₁, given, held') = release-Holds (block p) [] rest h held in (none, h₁, rw given, held')
realloc-Holds (some p) (suc size) rest h held =
    let (h₁, given, held') = release-Holds (block p) [] rest h held in
    (
      some h₁.next,
      record { next = h₁.next + 1; live = block h₁.next ∷ h₁.live },
      rw given,
      λ x. omega (arith, held' x),
    )
