-- ===== src/Router/Threads.antt =====
-- src/router.c: the two mutexes, and the threads that take them. `remove_server`, in the thread that
-- probes the servers, locks `mutex` and then `tcp_mutex`. `check_tcp_connections`, in the TCP thread,
-- locks `tcp_mutex` and then, in `add_dns_server`, `mutex`. The generator's thread runs
-- `forward_request`, which locks `mutex` alone. A return that keeps its locks, and a read from the
-- network that never ends, leave a thread with its locks for good: `remove_server` returns 1 with both
-- where the id is not listed, and `check_tcp_connections` has `tcp_mutex` alone at its early returns
-- and while it reads. The next call of the same thread then waits for a lock that it has itself.
use dns_server.Common.{◌≡◌, Bool, true, false}

-- Where the probing thread stands in `remove_server`.
pub data Remover : Type 0 where
  outside : Remover
  has_mutex : Remover
  has_both : Remover
  leaving : Remover
  keeps_both : Remover

-- Where the TCP thread stands in `check_tcp_connections`.
pub data Joiner : Type 0 where
  away : Joiner
  has_tcp : Joiner
  waiting : Joiner
  adding : Joiner
  added : Joiner
  keeps_tcp : Joiner

pub record Threads : Type 0 where
  pub remover : Remover
  pub joiner : Joiner
  pub forwarding : Bool
  pub mutex : Bool
  pub tcp_mutex : Bool

-- `remove_server` goes on. A lock is taken only where it is free.
pub data RemoveStep : Threads → Threads → Type 0 where
  remove_locks_mutex :
      (s : Threads)
      → s.remover ≡ outside
      → s.mutex ≡ false
      → RemoveStep s (record s { remover = has_mutex; mutex = true })
  remove_locks_tcp :
      (s : Threads)
      → s.remover ≡ has_mutex
      → s.tcp_mutex ≡ false
      → RemoveStep s (record s { remover = has_both; tcp_mutex = true })
  remove_misses :
      (s : Threads) → s.remover ≡ has_both → RemoveStep s (record s { remover = keeps_both })
  remove_unlocks_mutex :
      (s : Threads)
      → s.remover ≡ has_both
      → RemoveStep s (record s { remover = leaving; mutex = false })
  remove_unlocks_tcp :
      (s : Threads)
      → s.remover ≡ leaving
      → RemoveStep s (record s { remover = outside; tcp_mutex = false })

-- `check_tcp_connections` goes on.
pub data JoinStep : Threads → Threads → Type 0 where
  join_locks_tcp :
      (s : Threads)
      → s.joiner ≡ away
      → s.tcp_mutex ≡ false
      → JoinStep s (record s { joiner = has_tcp; tcp_mutex = true })
  join_fails : (s : Threads) → s.joiner ≡ has_tcp → JoinStep s (record s { joiner = keeps_tcp })
  join_hangs : (s : Threads) → s.joiner ≡ has_tcp → JoinStep s (record s { joiner = keeps_tcp })
  join_reads_null :
      (s : Threads)
      → s.joiner ≡ has_tcp
      → JoinStep s (record s { joiner = away; tcp_mutex = false })
  join_reads_address :
      (s : Threads) → s.joiner ≡ has_tcp → JoinStep s (record s { joiner = waiting })
  join_locks_mutex :
      (s : Threads)
      → s.joiner ≡ waiting
      → s.mutex ≡ false
      → JoinStep s (record s { joiner = adding; mutex = true })
  join_unlocks_mutex :
      (s : Threads) → s.joiner ≡ adding → JoinStep s (record s { joiner = added; mutex = false })
  join_unlocks_tcp :
      (s : Threads) → s.joiner ≡ added → JoinStep s (record s { joiner = away; tcp_mutex = false })

-- `forward_request` goes on.
pub data ForwardStep : Threads → Threads → Type 0 where
  forward_locks :
      (s : Threads)
      → s.forwarding ≡ false
      → s.mutex ≡ false
      → ForwardStep s (record s { forwarding = true; mutex = true })
  forward_unlocks :
      (s : Threads)
      → s.forwarding ≡ true
      → ForwardStep s (record s { forwarding = false; mutex = false })

-- One thread goes on.
pub data Step (s t : Threads) : Type 0 where
  remover_goes : RemoveStep s t → Step s t
  joiner_goes : JoinStep s t → Step s t
  forwarder_goes : ForwardStep s t → Step s t

pub data Reach (s : Threads) : Threads → Type 0 where
  here : Reach s s
  next : {t u : Threads} → Reach s t → Step t u → Reach s u

abbrev pub idle : Threads
idle = record {
  remover = outside;
  joiner = away;
  forwarding = false;
  mutex = false;
  tcp_mutex = false;
}
