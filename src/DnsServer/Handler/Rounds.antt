-- ===== src/DnsServer/Handler/Rounds.antt =====
-- What a server's thread does in its rounds: while paused, with an empty inbox, and on a query.
use dns_server.Common.{
  ◌+◌, ◌≤◌, append-nil, le→ltb, ℕ, zero, suc, ◌^◌, ◌%◌, uint8, ◌≡◌, refl, ◌∙◌, ap, pos, Bool, true,
  false, not, ◌&&◌, none, List, [], ◌∷◌, ◌++◌, Bytes, length, drop, take-short, min, ok, ◌>>=◌,
  arith,
}
use mathlib.Core.Path.{ap₂}
use dns_server.Dns.{Message}
use dns_server.Dns.Craft.{wire}
use dns_server.Dns.Transit.{length-wire}
use dns_server.DnsServer.{DnsServer, recieve_request}
use dns_server.DnsServer.Answer.{recieve_request-probe}
use dns_server.Server.{Packet, recieve_message}
use dns_server.DnsServer.Handler.{Handler, store, handle, handler_round, query_handler, waiting}

module _ (s : DnsServer) (stack : Message) (answer buffer : Bytes) where
  -- A paused server whose thread is at the test sends nothing, and leaves its inbox as it is.
  pub query_handler-paused :
      (rounds : ℕ) (inbox : List Bytes)
      → s.pause ≡ true
      → query_handler rounds (waiting s false stack answer buffer inbox)
        ≡ ok ([], waiting s false stack answer buffer inbox)
  unfolding query_handler handler_round
  query_handler-paused zero inbox e = refl
  query_handler-paused (suc rounds) inbox e =
      ap
        (λ b.
          ok ([], waiting s (not b) stack answer buffer inbox) >>= (λ (r : List Packet × Handler).
            query_handler rounds r.1 >>= (λ q. ok (r.0 ++ q.0, q.1))))
        e
      ∙ ap (λ r. r >>= (λ (q : List Packet × Handler). ok (q.0, q.1)))
          (query_handler-paused rounds inbox e)

  -- With an empty inbox nothing is sent; a paused server's thread stays at the test.
  query_handler-idle :
      (rounds : ℕ) (inside : Bool)
      → (inside' : Bool) × (query_handler rounds (waiting s inside stack answer buffer [])
          ≡ ok ([], waiting s inside' stack answer buffer []))
        × (s.pause ≡ true → inside ≡ false → inside' ≡ false)
  unfolding query_handler handler_round handle
  query_handler-idle zero inside = (inside, refl, λ p e. e)
  query_handler-idle (suc rounds) true =
      let (inside', ran, stays) = query_handler-idle rounds true in
      (inside', rw ran, λ p e. absurd (cc))
  query_handler-idle (suc rounds) false =
      let (inside', ran, stays) = query_handler-idle rounds (not s.pause) in
      (inside', rw ran, λ p e. stays p (ap not p))

-- What has room in the buffer is received whole.
recieve_message-whole : (n : ℕ) (b : Bytes) → n ≤ 64 → recieve_message (pos (min n 64)) b ≡ (n, b)
unfolding recieve_message uint8
recieve_message-whole n b h = rw (whole, small) (rw (le→ltb n 0 (omega arith)))
  where
    whole : min n 64 ≡ n
    whole = omega arith

    small : n % 256 ≡ n
    small = omega arith

module _ (s : DnsServer) (stack : Message) (answer buffer : Bytes) (id : ℕ) (domain : Bytes)
    (q0 q2 : ℕ) where
  -- A query of the program, and the thread's buffer once it lies there.
  abbrev query : Bytes
  query = wire true id domain none q0 q2 []

  abbrev held : Bytes
  held = query ++ drop (17 + length domain) buffer

  received :
      length buffer ≡ 64
      → 17 + length domain ≤ 64
      → recieve_message (pos (min (length query) (length buffer))) (store query buffer)
        ≡ (17 + length domain, held)
  unfolding store
  received size fits =
      ap (λ b. recieve_message (pos (min (length query) (length buffer))) b) stored
      ∙ ap₂ (λ l m. recieve_message (pos (min l m)) held) query_length size
      ∙ recieve_message-whole (17 + length domain) held fits
    where
      query_length : length query ≡ 17 + length domain
      query_length = omega (arith, length-wire true id domain none q0 q2 [])

      stored : store query buffer ≡ held
      stored =
          ap₂ (λ a n. a ++ drop n buffer)
            (take-short (length buffer) query (omega (arith, query_length, size))) query_length

  -- Inside `recvfrom` the query is taken, whether the server is paused or not.
  round :
      {code : ℕ} {sent : List Packet}
      → length buffer ≡ 64
      → 17 + length domain ≤ 64
      → recieve_request s stack answer held (17 + length domain) ≡ ok (code, sent)
      → handler_round (waiting s true stack answer buffer (query ∷ []))
        ≡ ok (sent, waiting s false stack answer held [])
  unfolding handler_round handle
  round size fits e =
      ap
        (λ (m : ℕ × Bytes).
          recieve_request s stack answer m.1 m.0
          >>= (λ r. ok (r.1, waiting s false stack answer m.1 [])))
        (received size fits)
      ∙ ap (λ r. r >>= (λ o. ok (o.1, waiting s false stack answer held []))) e

  -- A server that is not paused, or whose thread waits in `recvfrom`, does with a query that comes in
  -- what `recieve_request` does, and nothing else. If it is paused its thread ends at the test.
  pub query_handler-recieve_request :
      (inside : Bool) (rounds code : ℕ) (sent : List Packet)
      → (s.pause && not inside) ≡ false
      → length buffer ≡ 64
      → 17 + length domain ≤ 64
      → recieve_request s stack answer held (17 + length domain) ≡ ok (code, sent)
      → (inside' : Bool) × (query_handler
            (suc (suc rounds))
            (waiting s inside stack answer buffer (query ∷ []))
          ≡ ok (sent, waiting s inside' stack answer held []))
        × (s.pause ≡ true → inside' ≡ false)
  unfolding query_handler
  query_handler-recieve_request true rounds code sent awake size fits e =
      let (inside', ran, stays) = query_handler-idle s stack answer held (suc rounds) false in
      (
        inside',
        rw (round size fits e) (
            ap (λ r. r >>= (λ (q : List Packet × Handler). ok (sent ++ q.0, q.1))) ran
            ∙ ap (λ l. ok (l, waiting s inside' stack answer held [])) (append-nil sent)),
        λ p. stays p refl,
      )
  query_handler-recieve_request false rounds code sent awake size fits e =
      let (inside', ran, stays) = query_handler-idle s stack answer held rounds false in
      let running : s.pause ≡ false = ground arith in
      (
        inside',
        ap
              (λ r. r >>= (λ (q : List Packet × Handler).
                query_handler (suc rounds) q.1 >>= (λ t. ok (q.0 ++ t.0, t.1))))
              (enters running)
            ∙ rw (query_handler, round size fits e, ran)
                (ap (λ l. ok (l, waiting s inside' stack answer held [])) (append-nil sent)),
        λ p. stays p refl,
      )
    where
      enters :
          s.pause ≡ false
          → handler_round (waiting s false stack answer buffer (query ∷ []))
            ≡ ok ([], waiting s true stack answer buffer (query ∷ []))
      enters e' =
          unfold handler_round in
          ap (λ b. ok ([], waiting s (not b) stack answer buffer (query ∷ []))) e'

-- Such a server answers a probe to the router, with its id modulo 256, and sends nothing else.
pub query_handler-probe :
    (s : DnsServer) (inside : Bool) (stack : Message) (answer buffer : Bytes) (q0 q2 rounds : ℕ)
    → (s.pause && not inside) ≡ false
    → length buffer ≡ 64
    → (h : Handler) × (query_handler
          (suc (suc rounds))
          (waiting s inside stack answer buffer (wire true (2 ^ 15) [] none q0 q2 [] ∷ []))
        ≡ ok (record { port = s.router_port; ip = s.router_ip; payload = s.id % 256 ∷ [] } ∷ [], h))
      × (h.server ≡ s)
      × (s.pause ≡ true → h.inside ≡ false)
query_handler-probe s inside stack answer buffer q0 q2 rounds awake size =
    let (inside', ran, stays) =
      query_handler-recieve_request s stack answer buffer (2 ^ 15) [] q0 q2 inside rounds 0 _ awake
        size (omega arith)
        (recieve_request-probe s stack answer (2 ^ 15) [] q0 q2 (drop 17 buffer) (omega arith) tt
          refl) in
    (_, ran, refl, stays)
