-- ===== src/Coms/Cluster.antt =====
-- src/coms.cc: `update_hosts`, the propagation of an update to the other servers.
-- A network gives, for each TCP port, the state of the server whose `check_hosts_requests` thread
-- accepts connections there; `none` is a port where the first `recv` fails. `self` is the port of the
-- calling server, so an update through its own port is the same state. A peer handles its connection
-- (`process_next_request`, request code 2) before the caller goes on. The hosts files are left out.
use dns_server.Common.{
  ℕ, zero, ◌+◌, ℤ, pos, negsuc, Bool, true, false, not, ◌&&◌, ◌||◌, Option, none, some, List, [],
  ◌∷◌, Bytes, ◌==◌, if◌then◌else◌, Outcome, ok, ◌>>=◌, or_crash,
}
use dns_server.Coms.{Coms, actually_update}
use dns_server.Coms.Update.{update_text, recieve_update}

abbrev pub Network : Type 0
Network = ℕ → Option Coms

abbrev pub put : Network → ℕ → Coms → Network
put net port c q = if port == q then some c else net q

-- The variables of the loop of `update_hosts`; `aborted` is its early return.
pub record Round : Type 0 where
  pub aborted : Bool
  pub some_stale : Bool
  pub some_fresh : Bool
  pub net : Network

-- What a call passes on to every peer, and what the system adds: `stack` is the peer's receive
-- buffer before the call, and `resets` says where the second `recv` fails.
pub record Request : Type 0 where
  pub remove : Bool
  pub domain : Bytes
  pub ip : Bytes
  pub id : ℕ
  pub stack : Bytes
  pub resets : ℕ → Bool

-- The body of the loop behind its two `continue`s, for a peer in the given state.
unfoldable pub contact : Request → ℕ → Round → Option Coms → Outcome Round
contact q port r none = ok (record r { aborted = true })
contact q port r (some peer) =
    if peer.version_num == q.id
    then ok (record r { some_fresh = true })
    else (recieve_update peer true q.stack (some (update_text q.remove q.domain q.ip q.id) ∷ [])
        >>= (λ u.
            ok (record r {
              aborted = q.resets port;
              some_stale = true;
              net = put r.net port u.coms;
            })))

-- `i == fail`, where `fail` is an int8_t
unfoldable pub is_failing : ℕ → ℤ → Bool
is_failing i (pos n) = i == n
is_failing i (negsuc n) = false

-- The loop over the ports from index `i` on.
unfoldable pub propagate : Request → ℕ → ℤ → ℕ → List ℕ → Round → Outcome Round
propagate q own_port fail i [] r = ok r
propagate q own_port fail i (port ∷ ports) r =
    let skipped = propagate q own_port fail (i + 1) ports r in
    if (port == own_port) || is_failing i fail
    then skipped
    else (contact q port r (r.net port)
        >>= (λ r'. if r'.aborted then ok r' else propagate q own_port fail (i + 1) ports r'))

-- The code that `update_hosts` ends with.
unfoldable pub verdict : Bool → Bool → Bool → ℕ
verdict this_stale some_stale some_fresh =
    if this_stale && not some_fresh
    then 0
    else (if not this_stale && some_stale
        then 9
        else (if this_stale && some_fresh
            then 8
            else (if not this_stale && not some_stale then 6 else 10)))

-- The end of `update_hosts`, behind the loop.
unfoldable pub conclude : Request → ℕ → Bool → Round → Outcome (ℕ × Network)
unfolding verdict
conclude q self this_stale r = do
  coms ← or_crash (r.net self)
  let updated = put r.net self (actually_update coms q.remove q.domain q.ip q.id).0
  if r.aborted
      then ok (1, r.net)
      else ok (verdict this_stale r.some_stale r.some_fresh, if this_stale then updated else r.net)

-- `update_hosts`: the code and the network afterwards. `listed` is the list of ports that the router
-- sent, `none` where a `send` to the router fails.
unfoldable pub update_hosts :
    Network → ℕ → Request → ℕ → ℤ → Option (List ℕ) → Outcome (ℕ × Network)
update_hosts net self q own_port (negsuc zero) listed = ok (3, net)
update_hosts net self q own_port fail none = ok (1, net)
update_hosts net self q own_port fail (some ports) = do
  coms ← or_crash (net self)
  let this_stale = not (coms.version_num == q.id)
  r ←
      propagate q own_port fail 0 ports
        (record { aborted = false; some_stale = false; some_fresh = false; net = net })
  conclude q self this_stale r
