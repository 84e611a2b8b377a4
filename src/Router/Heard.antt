-- ===== src/Router/Heard.antt =====
-- A round of probing at the router: the bytes that come in are those of the servers that answer.
use dns_server.Common.{
  ℕ, ◌%◌, ◌<◌, ◌≡◌, ◌≢◌, refl, sym, ◌∙◌, ap, Bool, true, false, not, ◌&&◌, ◌||◌, List, [], ◌∷◌, map,
  All, Distinct, ◌==◌, ==_refl, arith,
}
use mathlib.Core.Path.{ap₂}
use native.Mathlib.Nat.{mod-eq_of_lt}
use dns_server.DnsServer.{DnsServer}
use dns_server.Router.Survivors.{answered, ByteIds}
use dns_server.Server.{Packet}
use dns_server.Router.Replies.{heard, first_byte, is_mute, answer_if, answer_from, answers_of}

-- What comes in of a server that answers or not, for an id.
heard-answer_if :
    (byte id : ℕ) (pause : Bool) (s : DnsServer) (more : List Packet)
    → s.id < 256
    → ((b : ℕ) → answered b (heard more) id ≡ answered byte (heard more) id)
    → answered byte (heard (answer_if pause (answer_from s) more)) id
      ≡ ((not pause && (s.id == id)) || answered byte (heard more) id)
unfolding heard first_byte
heard-answer_if byte id true s more small same = refl
heard-answer_if byte id false s more small same =
    ap₂ (λ (a : ℕ) b. (a == id) || b) (mod-eq_of_lt small) (same (s.id % 256))

module _ (inside : DnsServer → Bool) where
  -- The byte that the buffer held before does not matter.
  byte_same :
      (b byte id : ℕ) (servers : List DnsServer)
      → ByteIds servers
      → answered b (heard (answers_of inside servers)) id
        ≡ answered byte (heard (answers_of inside servers)) id
  unfolding heard
  byte_same b byte id [] bytes = refl
  byte_same b byte id (s ∷ servers) bytes =
      heard-answer_if b id (is_mute inside s) s (answers_of inside servers) bytes.0
        (λ c. byte_same c b id servers bytes.1)
      ∙ ap (λ more. (not (is_mute inside s) && (s.id == id)) || more)
          (byte_same b byte id servers bytes.1)
      ∙ sym (
          heard-answer_if byte id (is_mute inside s) s (answers_of inside servers) bytes.0
            (λ c. byte_same c byte id servers bytes.1))

  answered-cons :
      (byte id : ℕ) (s : DnsServer) (servers : List DnsServer)
      → ByteIds (s ∷ servers)
      → answered byte (heard (answers_of inside (s ∷ servers))) id ≡ (
          (not (is_mute inside s) && (s.id == id))
          || answered byte (heard (answers_of inside servers)) id)
  answered-cons byte id s servers bytes =
      heard-answer_if byte id (is_mute inside s) s (answers_of inside servers) bytes.0
        (λ c. byte_same c byte id servers bytes.1)

  -- The byte of a server that is not among these does not come in.
  unheard :
      (byte id : ℕ) (servers : List DnsServer)
      → ByteIds servers
      → All (λ i. id ≢ i) (map (λ (s : DnsServer). s.id) servers)
      → answered byte (heard (answers_of inside servers)) id ≡ false
  unfolding heard
  unheard byte id [] bytes apart = refl
  unheard byte id (s ∷ servers) bytes apart =
      answered-cons byte id s servers bytes
      ∙ ground (arith, apart.0, unheard byte id servers bytes.1 apart.1)

  still_answered :
      (byte : ℕ) (s : DnsServer) (servers : List DnsServer)
      → ByteIds (s ∷ servers)
      → (xs : List DnsServer) → All (λ i. s.id ≢ i) (map (λ (t : DnsServer). t.id) xs)
      → All
          (λ (t : DnsServer).
            answered byte (heard (answers_of inside servers)) t.id ≡ not (is_mute inside t))
          xs
      → All
          (λ (t : DnsServer).
            answered byte (heard (answers_of inside (s ∷ servers))) t.id ≡ not (is_mute inside t))
          xs
  still_answered byte s servers bytes [] apart h = tt
  still_answered byte s servers bytes (t ∷ ts) apart h = (
    answered-cons byte t.id s servers bytes ∙ ground (arith, apart.0, h.0),
    still_answered byte s servers bytes ts apart.1 h.1,
  )

  -- The bytes that come in are those of the servers that are not paused.
  pub answered-unpaused :
      (byte : ℕ) (servers : List DnsServer)
      → ByteIds servers
      → Distinct (map (λ (s : DnsServer). s.id) servers)
      → All
          (λ (t : DnsServer).
            answered byte (heard (answers_of inside servers)) t.id ≡ not (is_mute inside t))
          servers
  answered-unpaused byte [] bytes distinct = tt
  answered-unpaused byte (s ∷ servers) bytes distinct = (
    answered-cons byte s.id s servers bytes
        ∙ ground (arith, ==_refl s.id, unheard byte s.id servers bytes.1 distinct.0),
    still_answered byte s servers bytes servers distinct.0
        (answered-unpaused byte servers bytes.1 distinct.1),
  )
