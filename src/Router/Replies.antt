-- ===== src/Router/Replies.antt =====
-- A round of probing at the servers: what the threads of `query_handler` send when the router's probe
-- has come in, and where they stand then.
use dns_server.Common.{
  ℕ, suc, ◌%◌, ◌^◌, ◌≡◌, refl, sym, ◌∙◌, ap, Bool, true, false, not, ◌&&◌, Option, none, some, List,
  [], ◌∷◌, ◌++◌, map, All, Bytes, length, Bool-cases, inl, inr, Outcome, ok, ◌>>=◌, arith,
}
use dns_server.Dns.{Message}
use dns_server.Dns.Craft.{wire}
use dns_server.DnsServer.{DnsServer}
use dns_server.DnsServer.Handler.{Handler, query_handler, waiting}
use dns_server.DnsServer.Handler.Rounds.{query_handler-paused, query_handler-probe}
use dns_server.Server.{Packet}

-- What the threads send in so many steps each, and where they stand then.
unfoldable pub poll : ℕ → List Handler → Outcome (List Packet × List Handler)
poll rounds [] = ok ([], [])
poll rounds (h ∷ handlers) = do
  (sent, h') ← query_handler rounds h
  (more, rest) ← poll rounds handlers
  ok (sent ++ more, h' ∷ rest)

-- What `recvfrom` stores of a datagram in the router's buffer of one byte.
unfoldable pub first_byte : Bytes → Option ℕ
first_byte [] = none
first_byte (b ∷ rest) = some b

unfoldable pub heard : List Packet → List (Option ℕ)
heard = map (λ (p : Packet). first_byte p.payload)

-- The answer to the router, of a server that is not paused.
abbrev pub answer_if : Bool → Packet → List Packet → List Packet
answer_if true p more = more
answer_if false p more = p ∷ more

abbrev pub answer_from : DnsServer → Packet
answer_from s = record { port = s.router_port; ip = s.router_ip; payload = s.id % 256 ∷ [] }

answer_if-append :
    (mute : Bool) (p : Packet) (more : List Packet)
    → answer_if mute p [] ++ more ≡ answer_if mute p more
answer_if-append true p more = refl
answer_if-append false p more = refl

-- A paused server whose thread does not wait in `recvfrom` takes nothing.
abbrev pub is_mute : (DnsServer → Bool) → DnsServer → Bool
is_mute inside s = s.pause && not (inside s)

-- The thread of a paused server stands at the test.
abbrev pub IsSettled : Handler → Type 0
IsSettled h = h.server.pause ≡ true → h.inside ≡ false

module _ (inside : DnsServer → Bool) where
  abbrev pub answers_of : List DnsServer → List Packet
  answers_of [] = []
  answers_of (s ∷ servers) = answer_if (is_mute inside s) (answer_from s) (answers_of servers)

module _ (inside : DnsServer → Bool) (stack : DnsServer → Message)
    (answer buffer : DnsServer → Bytes) (sizes : (s : DnsServer) → length (buffer s) ≡ 64) where
  -- The thread of a server, with the router's probe in its inbox.
  abbrev pub thread_of : Bytes → DnsServer → Handler
  thread_of payload s = waiting s (inside s) (stack s) (answer s) (buffer s) (payload ∷ [])

  -- One thread: it answers unless it is mute, and if its server is paused it ends at the test.
  query_handler-answer_if :
      (q0 q2 rounds : ℕ) (s : DnsServer)
      → (h : Handler) × (query_handler
            (suc (suc rounds))
            (thread_of (wire true (2 ^ 15) [] none q0 q2 []) s)
          ≡ ok (answer_if (is_mute inside s) (answer_from s) [], h))
        × IsSettled h
  query_handler-answer_if q0 q2 rounds s = elim (Bool-cases (is_mute inside s)) [
    | inl mute ↦
        let paused : s.pause ≡ true = ground arith in
        let outside : inside s ≡ false = ground arith in
        let probe : Bytes = wire true (2 ^ 15) [] none q0 q2 [] in
        let rest : Handler = waiting s false (stack s) (answer s) (buffer s) (probe ∷ []) in
        (
          rest,
          ap
                (λ b.
                  query_handler (suc (suc rounds))
                    (waiting s b (stack s) (answer s) (buffer s) (probe ∷ [])))
                outside
              ∙ query_handler-paused s (stack s) (answer s) (buffer s) (suc (suc rounds))
                  (probe ∷ []) paused
              ∙ sym (ap (λ b. ok (answer_if b (answer_from s) [], rest)) mute),
          λ _. refl,
        )
    | inr awake ↦
        let (h, ran, same, settled) =
          query_handler-probe s (inside s) (stack s) (answer s) (buffer s) q0 q2 rounds awake
            (sizes s) in
        (
          h,
          ran ∙ sym (ap (λ b. ok (answer_if b (answer_from s) [], h)) awake),
          λ p. settled (sym (ap (λ (t : DnsServer). t.pause) same) ∙ p),
        )
  ]

  pub poll-answers_of :
      (q0 q2 rounds : ℕ) (servers : List DnsServer)
      → (handlers : List Handler) × (poll
            (suc (suc rounds))
            (map (thread_of (wire true (2 ^ 15) [] none q0 q2 [])) servers)
          ≡ ok (answers_of inside servers, handlers))
        × All IsSettled handlers
  unfolding poll
  poll-answers_of q0 q2 rounds [] = ([], refl, tt)
  poll-answers_of q0 q2 rounds (s ∷ servers) =
      let (h, ran, settled) = query_handler-answer_if q0 q2 rounds s in
      let (handlers, polled, all) = poll-answers_of q0 q2 rounds servers in
      (
        h ∷ handlers,
        rw (ran, polled)
            (ap (λ l. ok (l, h ∷ handlers))
              (answer_if-append (is_mute inside s) (answer_from s) (answers_of inside servers))),
        (settled, all),
      )
