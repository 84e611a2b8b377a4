-- ===== src/Server/Interfaces.antt =====
-- src/server.c: `get_ip`, on the list of interfaces that getifaddrs gives.
use dns_server.Common.{
  ℕ, ◌≡◌, refl, sym, ap, ◌∙◌, Bool-cases, inl, inr, ◌⊎◌, Option, none, some, List, [], ◌∷◌, ◌++◌,
  All, Bytes, codes, text_eq, text_eq_iff, ◌==◌, ◌&&◌, if◌then◌else◌, arith,
}
use mathlib.Core.Option.{some-injective}

-- What `get_ip` reads of `struct ifaddrs`: the name, and the family and the bytes of the address.
pub record Interface : Type 0 where
  pub ifa_name : Bytes
  pub ifa_addr : Option (ℕ × Bytes)

-- AF_INET
abbrev pub af_inet : ℕ
af_inet = 2

-- Whether the loop returns at this interface, and the bytes of its address.
unfoldable pub en0_addr : Interface → Option Bytes
en0_addr i = elim i.ifa_addr [
  | none ↦ none
  | some (sa_family, address) ↦
      if sa_family == af_inet && text_eq i.ifa_name (codes "en0") then some address else none
]

-- `get_ip`: a copy of the text that inet_ntop makes, or NULL.
unfoldable pub get_ip : (Bytes → Bytes) → List Interface → Option Bytes
get_ip inet_ntop [] = none
get_ip inet_ntop (i ∷ rest) = elim (en0_addr i) [
  | some address ↦ some (inet_ntop address)
  | none ↦ get_ip inet_ntop rest
]

-- An interface by the name en0 that has this IPv4 address.
abbrev pub IsEn0 : Interface → Bytes → Type 0
IsEn0 i address = (i.ifa_name ≡ codes "en0") × (i.ifa_addr ≡ some (af_inet, address))

abbrev pub IsOther : Interface → Type 0
IsOther i = (address : Bytes) → ¬ IsEn0 i address

en0_addr-cases :
    (i : Interface)
    → ((address : Bytes) × (en0_addr i ≡ some address) × IsEn0 i address)
      ⊎ ((en0_addr i ≡ none) × IsOther i)
unfolding en0_addr
en0_addr-cases i = by_addr i.ifa_addr refl
  where
    by_addr :
        (a : Option (ℕ × Bytes))
        → i.ifa_addr ≡ a
        → ((address : Bytes) × (en0_addr i ≡ some address) × IsEn0 i address)
          ⊎ ((en0_addr i ≡ none) × IsOther i)
    by_addr none e = inr (rw (e, en0_addr), λ address (_, here). absurd (cc))
    by_addr (some (family, address)) e =
        elim (Bool-cases (family == af_inet && text_eq i.ifa_name (codes "en0"))) [
          | inl taken ↦
              let named : i.ifa_name ≡ codes "en0" =
                ground (arith, text_eq_iff i.ifa_name (codes "en0")) in
              let family_eq : family ≡ af_inet = ground arith in
              inl (
                address,
                rw (e, en0_addr, taken),
                (named, e ∙ ap (λ f. some (f, address)) family_eq),
              )
          | inr passed ↦ inr (
            rw (e, en0_addr, passed),
            λ address' (named, here).
                let family_eq : family ≡ af_inet =
                  ap (λ (f : ℕ × Bytes). f.0)
                    (some-injective (family, address) (af_inet, address') (sym e ∙ here)) in
                ground (arith, text_eq_iff i.ifa_name (codes "en0")),
          )
        ]

-- `get_ip` finds the address of the first interface named en0 that has an IPv4 address, as inet_ntop
-- writes it. It returns NULL exactly where no interface is such a one.
pub get_ip_lem :
    (inet_ntop : Bytes → Bytes) (interfaces : List Interface)
    → ((before : List Interface) × (i : Interface) × (address : Bytes) × (after : List Interface)
        × (interfaces ≡ before ++ (i ∷ after))
        × All IsOther before
        × IsEn0 i address
        × (get_ip inet_ntop interfaces ≡ some (inet_ntop address)))
      ⊎ (All IsOther interfaces × (get_ip inet_ntop interfaces ≡ none))
unfolding get_ip
get_ip_lem inet_ntop [] = inr (tt, refl)
get_ip_lem inet_ntop (i ∷ rest) = elim (en0_addr-cases i) [
  | inl (address, here, v) ↦ inl ([], i, address, rest, refl, tt, v, rw (here, get_ip))
  | inr (missing, other) ↦ elim (get_ip_lem inet_ntop rest) [
    | inl (before, j, address, after, e, others, v, found) ↦ inl (
      i ∷ before,
      j,
      address,
      after,
      ap (◌∷◌ i) e,
      (other, others),
      v,
      rw (missing, get_ip) found,
    )
    | inr (others, none_found) ↦ inr ((other, others), rw (missing, get_ip) none_found)
  ]
]
