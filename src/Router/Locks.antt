-- ===== src/Router/Locks.antt =====
-- The two mutexes of the router: who holds them, and where its threads come to a standstill.
use dns_server.Common.{◌≡◌, refl, Bool, true, false, ◌↔◌, ◌⊎◌, inl, inr, arith}
use dns_server.Router.Threads.{
  Remover, Joiner, Threads, Step, Reach, idle, outside, has_mutex, has_both, leaving, away, has_tcp,
  waiting, adding, added, keeps_both, keeps_tcp, remove_misses, join_fails, join_hangs,
  remove_locks_mutex, remove_locks_tcp, remove_unlocks_mutex, remove_unlocks_tcp, join_locks_tcp,
  join_reads_null, join_reads_address, join_locks_mutex, join_unlocks_mutex, join_unlocks_tcp,
  forward_locks, forward_unlocks, remover_goes, joiner_goes, forwarder_goes, here, next,
}
use dns_server.Router.Exclusive.{IsExclusive, Reach-IsExclusive}

-- The probing thread removes a server while the TCP thread adds one: each has the lock that the
-- other waits for.
abbrev pub Crossed : Threads → Type 0
Crossed s = (s.remover ≡ has_mutex) × (s.joiner ≡ waiting)

-- `remove_server` has returned 1, and both locks stay locked.
abbrev pub Missed : Threads → Type 0
Missed s = s.remover ≡ keeps_both

-- `check_tcp_connections` has returned early or waits for a byte that never comes, and the probing
-- thread has `mutex` and waits for `tcp_mutex`.
abbrev pub Starved : Threads → Type 0
Starved s = (s.remover ≡ has_mutex) × (s.joiner ≡ keeps_tcp)

Crossed-stuck : {s t : Threads} → Step s t → IsExclusive s → Crossed s → ⊥
Crossed-stuck (remover_goes (remove_locks_mutex s a b)) v c = ground arith
Crossed-stuck (remover_goes (remove_locks_tcp s a b)) v c = ground arith
Crossed-stuck (remover_goes (remove_misses s a)) v c = ground arith
Crossed-stuck (remover_goes (remove_unlocks_mutex s a)) v c = ground arith
Crossed-stuck (remover_goes (remove_unlocks_tcp s a)) v c = ground arith
Crossed-stuck (joiner_goes (join_locks_tcp s a b)) v c = ground arith
Crossed-stuck (joiner_goes (join_fails s a)) v c = ground arith
Crossed-stuck (joiner_goes (join_hangs s a)) v c = ground arith
Crossed-stuck (joiner_goes (join_reads_null s a)) v c = ground arith
Crossed-stuck (joiner_goes (join_reads_address s a)) v c = ground arith
Crossed-stuck (joiner_goes (join_locks_mutex s a b)) v c = ground arith
Crossed-stuck (joiner_goes (join_unlocks_mutex s a)) v c = ground arith
Crossed-stuck (joiner_goes (join_unlocks_tcp s a)) v c = ground arith
Crossed-stuck (forwarder_goes (forward_locks s a b)) v c = ground arith
Crossed-stuck (forwarder_goes (forward_unlocks s a)) v c = ground arith

Missed-stuck : {s t : Threads} → Step s t → IsExclusive s → Missed s → ⊥
Missed-stuck (remover_goes (remove_locks_mutex s a b)) v c = ground arith
Missed-stuck (remover_goes (remove_locks_tcp s a b)) v c = ground arith
Missed-stuck (remover_goes (remove_misses s a)) v c = ground arith
Missed-stuck (remover_goes (remove_unlocks_mutex s a)) v c = ground arith
Missed-stuck (remover_goes (remove_unlocks_tcp s a)) v c = ground arith
Missed-stuck (joiner_goes (join_locks_tcp s a b)) v c = ground arith
Missed-stuck (joiner_goes (join_fails s a)) v c = ground arith
Missed-stuck (joiner_goes (join_hangs s a)) v c = ground arith
Missed-stuck (joiner_goes (join_reads_null s a)) v c = ground arith
Missed-stuck (joiner_goes (join_reads_address s a)) v c = ground arith
Missed-stuck (joiner_goes (join_locks_mutex s a b)) v c = ground arith
Missed-stuck (joiner_goes (join_unlocks_mutex s a)) v c = ground arith
Missed-stuck (joiner_goes (join_unlocks_tcp s a)) v c = ground arith
Missed-stuck (forwarder_goes (forward_locks s a b)) v c = ground arith
Missed-stuck (forwarder_goes (forward_unlocks s a)) v c = ground arith

Starved-stuck : {s t : Threads} → Step s t → IsExclusive s → Starved s → ⊥
Starved-stuck (remover_goes (remove_locks_mutex s a b)) v c = ground arith
Starved-stuck (remover_goes (remove_locks_tcp s a b)) v c = ground arith
Starved-stuck (remover_goes (remove_misses s a)) v c = ground arith
Starved-stuck (remover_goes (remove_unlocks_mutex s a)) v c = ground arith
Starved-stuck (remover_goes (remove_unlocks_tcp s a)) v c = ground arith
Starved-stuck (joiner_goes (join_locks_tcp s a b)) v c = ground arith
Starved-stuck (joiner_goes (join_fails s a)) v c = ground arith
Starved-stuck (joiner_goes (join_hangs s a)) v c = ground arith
Starved-stuck (joiner_goes (join_reads_null s a)) v c = ground arith
Starved-stuck (joiner_goes (join_reads_address s a)) v c = ground arith
Starved-stuck (joiner_goes (join_locks_mutex s a b)) v c = ground arith
Starved-stuck (joiner_goes (join_unlocks_mutex s a)) v c = ground arith
Starved-stuck (joiner_goes (join_unlocks_tcp s a)) v c = ground arith
Starved-stuck (forwarder_goes (forward_locks s a b)) v c = ground arith
Starved-stuck (forwarder_goes (forward_unlocks s a)) v c = ground arith

-- The three ways in which the router's threads come to a standstill.
abbrev pub IsStuck : Threads → Type 0
IsStuck s = Crossed s ⊎ (Missed s ⊎ Starved s)

IsStuck-stuck : {s t : Threads} → Step s t → IsExclusive s → IsStuck s → ⊥
IsStuck-stuck st v (inl c) = Crossed-stuck st v c
IsStuck-stuck st v (inr (inl c)) = Missed-stuck st v c
IsStuck-stuck st v (inr (inr c)) = Starved-stuck st v c

-- Elsewhere some thread can go on.
progress_at :
    (s : Threads) (r : Remover) (j : Joiner) (f : Bool)
    → s.remover ≡ r
    → s.joiner ≡ j
    → s.forwarding ≡ f
    → IsExclusive s
    → IsStuck s ⊎ ((t : Threads) × Step s t)
progress_at s has_both j f er ej ef v = inr (_, remover_goes (remove_unlocks_mutex s er))
progress_at s leaving j f er ej ef v = inr (_, remover_goes (remove_unlocks_tcp s er))
progress_at s outside has_tcp f er ej ef v = inr (_, joiner_goes (join_reads_address s ej))
progress_at s has_mutex has_tcp f er ej ef v = inr (_, joiner_goes (join_reads_address s ej))
progress_at s outside adding f er ej ef v = inr (_, joiner_goes (join_unlocks_mutex s ej))
progress_at s has_mutex adding f er ej ef v = inr (_, joiner_goes (join_unlocks_mutex s ej))
progress_at s outside added f er ej ef v = inr (_, joiner_goes (join_unlocks_tcp s ej))
progress_at s has_mutex added f er ej ef v = inr (_, joiner_goes (join_unlocks_tcp s ej))
progress_at s outside away true er ej ef v = inr (_, forwarder_goes (forward_unlocks s ef))
progress_at s outside waiting true er ej ef v = inr (_, forwarder_goes (forward_unlocks s ef))
progress_at s has_mutex away true er ej ef v = inr (_, forwarder_goes (forward_unlocks s ef))
progress_at s has_mutex waiting f er ej ef v = inl (inl (er, ej))
progress_at s keeps_both j f er ej ef v = inl (inr (inl er))
progress_at s has_mutex keeps_tcp f er ej ef v = inl (inr (inr (er, ej)))
progress_at s outside keeps_tcp true er ej ef v = inr (_, forwarder_goes (forward_unlocks s ef))
progress_at s outside keeps_tcp false er ej ef v =
    inr (_, remover_goes (remove_locks_mutex s er (ground arith)))
progress_at s outside away false er ej ef v =
    inr (_, remover_goes (remove_locks_mutex s er (ground arith)))
progress_at s outside waiting false er ej ef v =
    inr (_, joiner_goes (join_locks_mutex s ej (ground arith)))
progress_at s has_mutex away false er ej ef v =
    inr (_, remover_goes (remove_locks_tcp s er (ground arith)))

idle-IsExclusive : IsExclusive idle
idle-IsExclusive = record { mutex_held = omega arith; tcp_held = omega arith }

-- The states of standstill that the proof below gives.
abbrev stuck_at : Remover → Joiner → Threads
stuck_at r j = record {
  remover = r;
  joiner = j;
  forwarding = false;
  mutex = true;
  tcp_mutex = true;
}

Crossed-reached : Reach idle (stuck_at has_mutex waiting)
Crossed-reached =
    next
      (next (next here (joiner_goes (join_locks_tcp idle refl refl)))
        (joiner_goes (join_reads_address _ refl)))
      (remover_goes (remove_locks_mutex _ refl refl))

Missed-reached : Reach idle (stuck_at keeps_both away)
Missed-reached =
    next
      (next (next here (remover_goes (remove_locks_mutex idle refl refl)))
        (remover_goes (remove_locks_tcp _ refl refl)))
      (remover_goes (remove_misses _ refl))

Starved-reached : Reach idle (stuck_at has_mutex keeps_tcp)
Starved-reached =
    next
      (next (next here (joiner_goes (join_locks_tcp idle refl refl)))
        (joiner_goes (join_fails _ refl)))
      (remover_goes (remove_locks_mutex _ refl refl))

-- From the idle state the router's threads can come to a standstill in three ways, and in no other: a
-- state that is reached allows no step of any thread exactly if it is one of these, and each of them
-- is reached. In the first, `remove_server` has `mutex`, `check_tcp_connections` has `tcp_mutex`, and
-- each waits for the other's lock. In the second, `remove_server` has returned 1 with both locks. In
-- the third, `check_tcp_connections` keeps `tcp_mutex` by an early return or a read that never
-- ends, and `remove_server` has `mutex` and waits for it. A reply over TCP may come or not, and a
-- call may fail or not: both are steps here.
pub Reach-deadlock :
    ((s : Threads) × Reach idle s × Crossed s)
    × ((s : Threads) × Reach idle s × Missed s)
    × ((s : Threads) × Reach idle s × Starved s)
    × ((s : Threads) → Reach idle s → (((t : Threads) → ¬ Step s t) ↔ IsStuck s))
Reach-deadlock = (
  (stuck_at has_mutex waiting, Crossed-reached, (refl, refl)),
  (stuck_at keeps_both away, Missed-reached, refl),
  (stuck_at has_mutex keeps_tcp, Starved-reached, (refl, refl)),
  λ s r. (
    λ stuck.
        elim (progress_at s s.remover s.joiner s.forwarding refl refl refl
          (Reach-IsExclusive idle-IsExclusive r)) [ inl c ↦ c | inr (t, st) ↦ absurd (stuck t st) ],
    λ c t st. IsStuck-stuck st (Reach-IsExclusive idle-IsExclusive r) c,
  ),
)
