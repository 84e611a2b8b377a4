-- ===== src/Coms/Table.antt =====
-- The unordered_map of domains to addresses, as src/coms.cc uses it.
use dns_server.Common.{
  ◌≡◌, refl, Option, none, some, List, [], ◌∷◌, ◌++◌, Bytes, if◌then◌else◌, text_eq, text_eq_iff,
  arith,
}

abbrev pub Translations : Type 0
Translations = List (Bytes × Bytes)

abbrev pub or_else {ℓ} : {A : Type ℓ} → Option A → Option A → Option A
or_else none o = o
or_else (some a) o = some a

pub or_else-none {ℓ} : {A : Type ℓ} (o : Option A) → or_else o none ≡ o
or_else-none none = refl
or_else-none (some a) = refl

-- `count(domain) != 0 ? &map[domain] : NULL`
unfoldable pub find : Bytes → Translations → Option Bytes
find d [] = none
find d ((e, ip) ∷ t) = if text_eq e d then some ip else find d t

-- `map[domain] = ip`
unfoldable pub assign : Bytes → Bytes → Translations → Translations
assign d ip [] = (d, ip) ∷ []
assign d ip ((e, old) ∷ t) = if text_eq e d then (d, ip) ∷ t else (e, old) ∷ assign d ip t

-- `map.erase(domain)`
unfoldable pub erase : Bytes → Translations → Translations
erase d [] = []
erase d ((e, ip) ∷ t) = let rest = erase d t in if text_eq e d then rest else (e, ip) ∷ rest

pub find-assign :
    (d x ip : Bytes) (t : Translations)
    → find x (assign d ip t) ≡ (if text_eq d x then some ip else find x t)
unfolding find assign
find-assign d x ip [] = refl
find-assign d x ip ((e, old) ∷ t) =
    ground (arith, text_eq_iff e d, text_eq_iff d x, text_eq_iff e x, find-assign d x ip t)

pub find-erase :
    (d x : Bytes) (t : Translations) → find x (erase d t) ≡ (if text_eq d x then none else find x t)
unfolding find erase
find-erase d x [] = ground arith
find-erase d x ((e, ip) ∷ t) =
    ground (arith, text_eq_iff e d, text_eq_iff d x, text_eq_iff e x, find-erase d x t)

-- A key stands at most once.
abbrev pub DistinctKeys : Translations → Type 0
DistinctKeys [] = Unit {0}
DistinctKeys ((d, ip) ∷ t) = (find d t ≡ none) × DistinctKeys t

pub assign-DistinctKeys :
    (d ip : Bytes) (t : Translations) → DistinctKeys t → DistinctKeys (assign d ip t)
unfolding find assign
assign-DistinctKeys d ip [] h = (refl, tt)
assign-DistinctKeys d ip ((e, old) ∷ t) h =
    ground (
      arith,
      text_eq_iff e d,
      text_eq_iff d e,
      find-assign d e ip t,
      assign-DistinctKeys d ip t h.1,
    )

pub erase-DistinctKeys : (d : Bytes) (t : Translations) → DistinctKeys t → DistinctKeys (erase d t)
unfolding find erase
erase-DistinctKeys d [] h = tt
erase-DistinctKeys d ((e, ip) ∷ t) h =
    ground (arith, text_eq_iff d e, find-erase d e t, erase-DistinctKeys d t h.1)

-- A new key is put behind the others.
pub assign-append :
    (d ip : Bytes) (t : Translations) → find d t ≡ none → assign d ip t ≡ t ++ ((d, ip) ∷ [])
unfolding find assign
assign-append d ip [] h = refl
assign-append d ip ((e, old) ∷ t) h = ground (arith, assign-append d ip t)

-- `map[domain] = ip` for each pair in turn
unfoldable pub assign_all : Translations → Translations → Translations
assign_all t [] = t
assign_all t ((d, ip) ∷ more) = assign_all (assign d ip t) more

-- In a table that was loaded pair by pair, a domain has its address in the pairs, or else its old one.
pub find-assign_all :
    (x : Bytes) (t more : Translations)
    → DistinctKeys more
    → find x (assign_all t more) ≡ or_else (find x more) (find x t)
unfolding find assign_all
find-assign_all x t [] h = refl
find-assign_all x t ((d, ip) ∷ more) h =
    ground
      (arith, text_eq_iff d x, find-assign d x ip t, find-assign_all x (assign d ip t) more h.1)

pub assign_all-append :
    (t l r : Translations) → assign_all t (l ++ r) ≡ assign_all (assign_all t l) r
unfolding assign_all
assign_all-append t [] r = refl
assign_all-append t ((d, ip) ∷ l) r = assign_all-append (assign d ip t) l r
