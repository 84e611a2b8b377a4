-- ===== src/Router/Search.antt =====
-- The loop of `remove_server`: its search, and its shift of what follows.
use dns_server.Common.{
  ℕ, zero, suc, ◌+◌, ◌-◌, ◌≤◌, ◌<◌, ◌≡◌, sym, ◌∙◌, ap, Bool, true, false, some, List, [], ◌∷◌, ◌++◌,
  append_assoc, length, length-append, get_elem?, get_elem?-append, set, set-append, lt→ltb, le→ltb,
  ◌==◌, if◌then◌else◌, Bool-cases, inl, inr, ok, arith,
}
use dns_server.DnsServer.{DnsServer}
use dns_server.Router.{remove_loop}

-- The list of servers without the first one that has the id.
abbrev pub remove_first : ℕ → List DnsServer → List DnsServer
remove_first dns_id [] = []
remove_first dns_id (s ∷ rest) = if s.id == dns_id then rest else s ∷ remove_first dns_id rest

abbrev pub has_id : ℕ → List DnsServer → Bool
has_id dns_id [] = false
has_id dns_id (s ∷ rest) = if s.id == dns_id then true else has_id dns_id rest

last_of : DnsServer → List DnsServer → DnsServer
last_of x [] = x
last_of x (y ∷ rest) = last_of y rest

-- One round of the loop, by what it finds.
round_end :
    (fuel dns_id i cnt : ℕ) (servers : List DnsServer) (deleted : Bool)
    → cnt ≤ i
    → remove_loop fuel dns_id i servers cnt deleted ≡ ok (servers, cnt, deleted)
unfolding remove_loop
round_end zero dns_id i cnt servers deleted h = rw (le→ltb i cnt h, remove_loop)
round_end (suc fuel) dns_id i cnt servers true h = rw (le→ltb i cnt h, remove_loop)
round_end (suc fuel) dns_id i cnt servers false h = rw (le→ltb i cnt h, remove_loop)

round_shift :
    (fuel dns_id i cnt : ℕ) (servers : List DnsServer) (s : DnsServer)
    → i < cnt
    → get_elem? servers (i + 1) ≡ some s
    → remove_loop (suc fuel) dns_id i servers cnt true
      ≡ remove_loop fuel dns_id (i + 1) (set servers i s) cnt true
unfolding remove_loop
round_shift fuel dns_id i cnt servers s h e = rw (lt→ltb i cnt h, e, remove_loop)

round_search :
    (fuel dns_id i cnt : ℕ) (servers : List DnsServer) (s : DnsServer)
    → i < cnt
    → get_elem? servers i ≡ some s
    → remove_loop (suc fuel) dns_id i servers cnt false ≡ (
        if s.id == dns_id
        then remove_loop fuel dns_id i servers (cnt - 1) true
        else remove_loop fuel dns_id (i + 1) servers cnt false)
unfolding remove_loop
round_search fuel dns_id i cnt servers s h e = rw (lt→ltb i cnt h, e, remove_loop) (ground arith)

-- With `deleted` set the loop moves every later server one slot down.
shift_lem :
    (post pre : List DnsServer) (x : DnsServer) (dns_id fuel i cnt : ℕ)
    → length pre ≡ i
    → i + length post ≡ cnt
    → length post ≤ fuel
    → remove_loop fuel dns_id i (pre ++ (x ∷ post)) cnt true
      ≡ ok (pre ++ (post ++ (last_of x post ∷ [])), cnt, true)
unfolding last_of
shift_lem [] pre x dns_id fuel i cnt hi hc hf =
    round_end fuel dns_id i cnt (pre ++ (x ∷ [])) true (omega arith)
shift_lem (y ∷ post) pre x dns_id zero i cnt hi hc hf = absurd (omega arith)
shift_lem (y ∷ post) pre x dns_id (suc fuel) i cnt hi hc hf =
    round_shift fuel dns_id i cnt (pre ++ (x ∷ y ∷ post)) y (omega arith) next
    ∙ ap (λ l. remove_loop fuel dns_id (i + 1) l cnt true) moved
    ∙ shift_lem post (pre ++ (y ∷ [])) y dns_id fuel (i + 1) cnt
        (omega (arith, length-append pre (y ∷ []))) (omega arith) (omega arith)
    ∙ ap (λ l. ok (l, cnt, true)) (append_assoc pre (y ∷ []) (post ++ (last_of y post ∷ [])))
  where
    next : get_elem? (pre ++ (x ∷ y ∷ post)) (i + 1) ≡ some y
    next = rw (← append_assoc pre (x ∷ []) (y ∷ post)) (
        get_elem?-append (i + 1) (pre ++ (x ∷ [])) y post
          (omega (arith, length-append pre (x ∷ []))))

    moved : set (pre ++ (x ∷ y ∷ post)) i y ≡ (pre ++ (y ∷ [])) ++ (y ∷ post)
    moved = set-append i pre x y (y ∷ post) hi ∙ sym (append_assoc pre (y ∷ []) (y ∷ post))

-- What the search leaves: nothing changed where no server has the id, and otherwise the shorter
-- list with a slot to spare.
pub search_lem :
    (rest pre : List DnsServer) (dns_id fuel i cnt : ℕ)
    → length pre ≡ i
    → i + length rest ≡ cnt
    → length rest ≤ fuel
    → (spare : List DnsServer) × (remove_loop fuel dns_id i (pre ++ rest) cnt false ≡ (
        if has_id dns_id rest
        then ok (pre ++ (remove_first dns_id rest ++ spare), cnt - 1, true)
        else ok (pre ++ rest, cnt, false)))
search_lem [] pre dns_id fuel i cnt hi hc hf =
    ([], round_end fuel dns_id i cnt (pre ++ []) false (omega arith))
search_lem (s ∷ rest) pre dns_id zero i cnt hi hc hf = absurd (omega arith)
search_lem (s ∷ rest) pre dns_id (suc fuel) i cnt hi hc hf = elim (Bool-cases (s.id == dns_id)) [
  | inl hit ↦ (
    last_of s rest ∷ [],
    found ∙ rw hit (shift_lem rest pre s dns_id fuel i (cnt - 1) hi (omega arith) (omega arith)),
  )
  | inr miss ↦
      let (spare, e) =
        search_lem rest (pre ++ (s ∷ [])) dns_id fuel (i + 1) cnt
          (omega (arith, length-append pre (s ∷ []))) (omega arith) (omega arith) in
      (
        spare,
        found
            ∙ rw
                (
                  miss,
                  ← append_assoc pre (s ∷ []) (remove_first dns_id rest ++ spare),
                  ← append_assoc pre (s ∷ []) rest,
                )
                e,
      )
]
  where
    found : remove_loop (suc fuel) dns_id i (pre ++ (s ∷ rest)) cnt false ≡ (
        if s.id == dns_id
        then remove_loop fuel dns_id i (pre ++ (s ∷ rest)) (cnt - 1) true
        else remove_loop fuel dns_id (i + 1) (pre ++ (s ∷ rest)) cnt false)
    found =
        round_search fuel dns_id i cnt (pre ++ (s ∷ rest)) s (omega arith)
          (get_elem?-append i pre s rest hi)
