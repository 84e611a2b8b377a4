-- ===== src/Router/Exclusive.antt =====
-- The two mutexes of the router: at most one thread holds each.
use dns_server.Common.{ℕ, ◌+◌, ◌≡◌, Bool, true, false, arith}
use dns_server.Router.Threads.{
  Remover, Joiner, Threads, Step, Reach, outside, has_mutex, has_both, leaving, away, has_tcp,
  waiting, adding, added, keeps_both, keeps_tcp, remove_misses, join_fails, join_hangs,
  remove_locks_mutex, remove_locks_tcp, remove_unlocks_mutex, remove_unlocks_tcp, join_locks_tcp,
  join_reads_null, join_reads_address, join_locks_mutex, join_unlocks_mutex, join_unlocks_tcp,
  forward_locks, forward_unlocks, remover_goes, joiner_goes, forwarder_goes, here, next,
}

-- How many of the threads stand where they hold a lock.
abbrev pub bit : Bool → ℕ
bit false = 0
bit true = 1

abbrev pub remover_holds : Remover → ℕ
remover_holds outside = 0
remover_holds has_mutex = 1
remover_holds has_both = 1
remover_holds leaving = 0
remover_holds keeps_both = 1

abbrev pub joiner_holds : Joiner → ℕ
joiner_holds adding = 1
joiner_holds away = 0
joiner_holds has_tcp = 0
joiner_holds waiting = 0
joiner_holds added = 0
joiner_holds keeps_tcp = 0

abbrev pub remover_holds_tcp : Remover → ℕ
remover_holds_tcp has_both = 1
remover_holds_tcp leaving = 1
remover_holds_tcp keeps_both = 1
remover_holds_tcp outside = 0
remover_holds_tcp has_mutex = 0

abbrev pub joiner_holds_tcp : Joiner → ℕ
joiner_holds_tcp away = 0
joiner_holds_tcp has_tcp = 1
joiner_holds_tcp waiting = 1
joiner_holds_tcp adding = 1
joiner_holds_tcp added = 1
joiner_holds_tcp keeps_tcp = 1

-- Each lock is held by one thread if it is held, and else by none.
pub record IsExclusive (s : Threads) : Type 0 where
  pub mutex_held : remover_holds s.remover + joiner_holds s.joiner + bit s.forwarding ≡ bit s.mutex
  pub tcp_held : remover_holds_tcp s.remover + joiner_holds_tcp s.joiner ≡ bit s.tcp_mutex

Step-IsExclusive : {s t : Threads} → Step s t → IsExclusive s → IsExclusive t
Step-IsExclusive (remover_goes (remove_locks_mutex s a b)) v = ground arith
Step-IsExclusive (remover_goes (remove_locks_tcp s a b)) v = ground arith
Step-IsExclusive (remover_goes (remove_misses s a)) v = ground arith
Step-IsExclusive (remover_goes (remove_unlocks_mutex s a)) v = ground arith
Step-IsExclusive (remover_goes (remove_unlocks_tcp s a)) v = ground arith
Step-IsExclusive (joiner_goes (join_locks_tcp s a b)) v = ground arith
Step-IsExclusive (joiner_goes (join_fails s a)) v = ground arith
Step-IsExclusive (joiner_goes (join_hangs s a)) v = ground arith
Step-IsExclusive (joiner_goes (join_reads_null s a)) v = ground arith
Step-IsExclusive (joiner_goes (join_reads_address s a)) v = ground arith
Step-IsExclusive (joiner_goes (join_locks_mutex s a b)) v = ground arith
Step-IsExclusive (joiner_goes (join_unlocks_mutex s a)) v = ground arith
Step-IsExclusive (joiner_goes (join_unlocks_tcp s a)) v = ground arith
Step-IsExclusive (forwarder_goes (forward_locks s a b)) v = ground arith
Step-IsExclusive (forwarder_goes (forward_unlocks s a)) v = ground arith

pub Reach-IsExclusive : {s t : Threads} → IsExclusive s → Reach s t → IsExclusive t
Reach-IsExclusive v here = v
Reach-IsExclusive v (next r st) = Step-IsExclusive st (Reach-IsExclusive v r)
