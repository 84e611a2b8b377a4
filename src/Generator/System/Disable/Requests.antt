-- ===== src/Generator/System/Disable/Requests.antt =====
-- What the results file of a test with -d says of the servers to which the requests went.
use dns_server.Common.{
  Bool, false, ◌||◌, ◌==◌, ℕ, ◌%◌, ◌<◌, ◌≡◌, ◌≢◌, refl, ap, ◌∙◌, not, List, [], ◌∷◌, ◌++◌, All,
  All-get_elem?,
}
use native.Mathlib.Nat.{mod-eq_of_lt}
use dns_server.DnsServer.{DnsServer}
use dns_server.Generator.System.Disable.{
  Moment, asks, answers, pauses, polls, pause_id, kept, stands, asked, request_ids, reach,
  reach_may, Goes,
}
use dns_server.Generator.System.Disable.Servers.{IsNot, All-keep_if, All-pause_id}
use dns_server.Router.Replies.{is_mute}
use dns_server.Router.Survivors.{ByteIds}
use dns_server.Scoreboard.Order.{Request}

module _ {Time : Type 0} (last : ℕ) where
  pub Goes-append :
      (before after : List (Moment Time)) (may : ℕ → Bool) (servers : List DnsServer)
      (requests : List (Request Time))
      → Goes last may servers (before ++ after) requests
      → (earlier : List (Request Time)) × (later : List (Request Time)) × (requests
          ≡ earlier ++ later)
        × (request_ids earlier ≡ asked before)
        × Goes last (reach_may last before may) (reach last before may servers) after later
  Goes-append [] after may servers requests goes = ([], requests, refl, refl, goes)
  Goes-append (asks id draw ∷ rest) after may servers requests (i, s, more, listed, e, goes) =
      let (earlier, later, split, named, goes') = Goes-append rest after may servers more goes in
      (
        (id, s.id % 256, draw.now) ∷ earlier,
        later,
        e ∙ ap (◌∷◌ (id, s.id % 256, draw.now)) split,
        ap (◌∷◌ id) named,
        goes',
      )
  Goes-append (answers id valid_trans now ∷ rest) after may servers requests goes =
      Goes-append rest after may servers requests goes
  Goes-append (pauses ∷ rest) after may servers requests goes =
      Goes-append rest after (λ id. last == id || may id) (pause_id last servers) requests goes
  Goes-append (polls p ∷ rest) after may servers requests goes =
      Goes-append rest after (λ _. false) (kept may p servers) requests goes

  -- Where the last server is not listed, no request goes to it.
  pub Goes-avoids :
      (history : List (Moment Time)) (may : ℕ → Bool) (servers : List DnsServer)
      (requests : List (Request Time))
      → ByteIds servers
      → All (IsNot last) servers
      → Goes last may servers history requests
      → All (λ (r : Request Time). r.1 ≢ last) requests × (request_ids requests ≡ asked history)
  Goes-avoids [] may servers requests bytes others goes = rw goes (tt, refl)
  Goes-avoids (asks id draw ∷ rest) may servers requests bytes others
        (i, s, more, listed, e, goes) =
      let (avoided, named) = Goes-avoids rest may servers more bytes others goes in
      let small : s.id < 256 =
        All-get_elem? (λ (t : DnsServer). t.id < 256) servers i bytes listed in
      let other : s.id ≢ last = All-get_elem? (IsNot last) servers i others listed in
      rw (e, mod-eq_of_lt small) ((other, avoided), ap (◌∷◌ id) named)
  Goes-avoids (answers id valid_trans now ∷ rest) may servers requests bytes others goes =
      Goes-avoids rest may servers requests bytes others goes
  Goes-avoids (pauses ∷ rest) may servers requests bytes others goes =
      Goes-avoids rest (λ id. last == id || may id) (pause_id last servers) requests
        (All-pause_id (λ s. s.id < 256) (λ s. s.id < 256) last servers (λ s h. h) bytes)
        (All-pause_id (IsNot last) (IsNot last) last servers (λ s h. h) others) goes
  Goes-avoids (polls p ∷ rest) may servers requests bytes others goes =
      Goes-avoids rest (λ _. false) (kept may p servers) requests
        (All-keep_if (λ (s : DnsServer). s.id < 256)
          (λ (s : DnsServer). not (is_mute (stands may p) s)) servers bytes)
        (All-keep_if (IsNot last) (λ (s : DnsServer). not (is_mute (stands may p) s)) servers
          others)
        goes
