-- ===== src/Router/Polling.antt =====
-- A round of probing with the servers' own threads: the probes of `query_response_time` are what
-- `query_handler` receives, and what it sends is what the router hears.
use dns_server.Common.{
  ℕ, suc, ◌^◌, ◌≤◌, ◌≡◌, ◌∙◌, Bool, true, not, none, List, [], map, All, keep_if, keep_if-eq,
  Distinct, Bytes, length, ok,
}
use dns_server.Dns.{Message}
use dns_server.Dns.Craft.{wire}
use dns_server.DnsServer.{DnsServer}
use dns_server.DnsServer.Handler.{Handler}
use dns_server.Router.{Router, probe_message, query_response_time}
use dns_server.Router.Balance.{packet_to}
use dns_server.Router.Probe.{probe_message-wire, query_response_time-heard}
use dns_server.Router.Remove.{IsReady}
use dns_server.Router.Survivors.{answered, ByteIds}
use dns_server.Server.{Packet}
use dns_server.Router.Replies.{
  poll, heard, is_mute, IsSettled, thread_of, answers_of, poll-answers_of,
}
use dns_server.Router.Heard.{answered-unpaused}

-- Such a round, with the payload that the router crafts.
pub query_response_time-polled :
    (r : Router) (packet_buffer : Bytes) (byte rounds : ℕ) (inside : DnsServer → Bool)
    (stack : DnsServer → Message) (answer buffer : DnsServer → Bytes)
    (sizes : (s : DnsServer) → length (buffer s) ≡ 64)
    → IsReady r
    → 17 ≤ length packet_buffer
    → ByteIds r.servers
    → Distinct (map (λ (s : DnsServer). s.id) r.servers)
    → (payload : Bytes) × (answers : List Packet) × (handlers : List Handler) × (r' : Router)
      × (probe_message packet_buffer ≡ ok payload)
      × (poll
            (suc (suc rounds))
            (map (thread_of inside stack answer buffer sizes payload) r.servers)
          ≡ ok (answers, handlers))
      × All IsSettled handlers
      × (query_response_time r packet_buffer (λ q. q) byte (heard answers)
          ≡ ok (map (packet_to payload) r.servers, 0, r'))
      × (r'.servers ≡ keep_if (λ (s : DnsServer). not (is_mute inside s)) r.servers)
      × IsReady r'
query_response_time-polled r packet_buffer byte rounds inside stack answer buffer sizes v room bytes
      distinct =
    let (q0, q2, crafted) = probe_message-wire packet_buffer room in
    let payload : Bytes = wire true (2 ^ 15) [] none q0 q2 [] in
    let (r', run, left, v') =
      query_response_time-heard r packet_buffer payload byte (heard (answers_of inside r.servers)) v
        crafted bytes distinct in
    let (handlers, polled, settled) =
      poll-answers_of inside stack answer buffer sizes q0 q2 rounds r.servers in
    (
      payload,
      answers_of inside r.servers,
      handlers,
      r',
      crafted,
      polled,
      settled,
      run,
      left
          ∙ keep_if-eq (λ (s : DnsServer). answered byte (heard (answers_of inside r.servers)) s.id)
              (λ (s : DnsServer). not (is_mute inside s)) r.servers
              (answered-unpaused inside byte r.servers bytes distinct),
      v',
    )

-- A round of probing whose probes the servers' own threads take, on a ready router whose ids are
-- distinct bytes, undisturbed: each server is sent one probe, and has nothing else in its inbox. Its
-- thread stands at the test of `pause` or waits in `recvfrom`, where it takes the probe even if its
-- server has been paused since. When the threads have made two steps or more and the router has heard
-- all answers, it has removed exactly the paused servers whose thread did not wait in `recvfrom`,
-- keeps all others in their order, and is ready again. The threads of all paused servers then stand at
-- the test.
pub query_response_time-query_handler :
    (r : Router) (packet_buffer : Bytes) (byte rounds : ℕ) (inside : DnsServer → Bool)
    (stack : DnsServer → Message) (answer buffer : DnsServer → Bytes)
    (sizes : (s : DnsServer) → length (buffer s) ≡ 64)
    → IsReady r
    → 17 ≤ length packet_buffer
    → ByteIds r.servers
    → Distinct (map (λ (s : DnsServer). s.id) r.servers)
    → (payload : Bytes) × (answers : List Packet) × (handlers : List Handler) × (r' : Router)
      × (poll
            (suc (suc rounds))
            (map (thread_of inside stack answer buffer sizes payload) r.servers)
          ≡ ok (answers, handlers))
      × All IsSettled handlers
      × (query_response_time r packet_buffer (λ q. q) byte (heard answers)
          ≡ ok (map (packet_to payload) r.servers, 0, r'))
      × (r'.servers ≡ keep_if (λ (s : DnsServer). not (is_mute inside s)) r.servers)
      × IsReady r'
query_response_time-query_handler r packet_buffer byte rounds inside stack answer buffer sizes v
      room bytes distinct =
    let (payload, sent, handlers, r', crafted, polled, settled, run, left, v') =
      query_response_time-polled r packet_buffer byte rounds inside stack answer buffer sizes v room
        bytes distinct in
    (payload, sent, handlers, r', polled, settled, run, left, v')
