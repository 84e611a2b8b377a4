-- ===== src/Generator/Schedule.antt =====
-- The ids of the requests that a test sends.
use dns_server.Common.{
  ℕ, zero, suc, ◌+◌, ◌%◌, ◌≤◌, ◌<◌, ◌≡◌, refl, ap, List, [], ◌∷◌, ◌++◌, lt→ltb, le→ltb,
  if◌then◌else◌, ok, ◌||◌, arith, Bool-cases, inl, inr,
}
use dns_server.CliParser.{Arguments}
use dns_server.Generator.{
  Action, send, pause_last, start_server, add_hosts, remove_hosts, add_hosts_fail, sends, rounds,
  after_disable, after_add, after_change, after_fail, run_test,
}

-- The ids sent, in order.
unfoldable pub ids : List Action → List ℕ
ids [] = []
ids (send id ∷ rest) = id ∷ ids rest
ids (pause_last ∷ rest) = ids rest
ids (start_server ∷ rest) = ids rest
ids (add_hosts ∷ rest) = ids rest
ids (remove_hosts ∷ rest) = ids rest
ids (add_hosts_fail ∷ rest) = ids rest

-- `n` numbers from `x` on.
unfoldable pub ascending : ℕ → ℕ → List ℕ
ascending x zero = []
ascending x (suc n) = x ∷ ascending (x + 1) n

ascending-add : (x m n : ℕ) → ascending x (m + n) ≡ ascending x m ++ ascending (x + m) n
unfolding ascending
ascending-add x zero n = rw (zero_left, zero_right)
  where
    zero_left : 0 + n ≡ n
    zero_left = omega arith

    zero_right : x + 0 ≡ x
    zero_right = omega arith
ascending-add x (suc m) n = rw (suc_left, suc_right, ascending-add (x + 1) m n)
  where
    suc_left : suc m + n ≡ suc (m + n)
    suc_left = omega arith

    suc_right : x + suc m ≡ (x + 1) + m
    suc_right = omega arith

ids-append : (l r : List Action) → ids (l ++ r) ≡ ids l ++ ids r
unfolding ids
ids-append [] r = refl
ids-append (send id ∷ l) r = ap (◌∷◌ id) (ids-append l r)
ids-append (pause_last ∷ l) r = ids-append l r
ids-append (start_server ∷ l) r = ids-append l r
ids-append (add_hosts ∷ l) r = ids-append l r
ids-append (remove_hosts ∷ l) r = ids-append l r
ids-append (add_hosts_fail ∷ l) r = ids-append l r

-- As long as no id wraps around, a batch sends consecutive ids.
ids-sends : (n x : ℕ) → x + n ≤ 65536 → ids (sends n x) ≡ ascending x n
unfolding ids sends ascending
ids-sends zero x h = refl
ids-sends (suc n) x h = rw (no_wrap, ids-sends n (x + 1) (omega arith))
  where
    no_wrap : x % 65536 ≡ x
    no_wrap = omega arith

-- The ids of `k` batches of `step`.
abbrev total : ℕ → ℕ → ℕ
total step zero = 0
total step (suc k) = step + total step k

-- The outer loop runs `k` rounds if the `k`-th is the last that starts below the bound.
rounds-ids :
    (step : ℕ) (after : ℕ → List Action) (k i : ℕ)
    → ((j : ℕ) → ids (after j) ≡ [])
    → 0x8FF ≤ i + total step k
    → i + total step k < 0x8FF + step
    → step ≤ 0x100
    → (acts : List Action) × (rounds step after (suc k) i ≡ ok acts)
      × (ids acts ≡ ascending i (total step k))
unfolding rounds ids ascending
rounds-ids step after zero i quiet low high small = ([], rw (le→ltb i 0x8FF (omega arith)), refl)
rounds-ids step after (suc k) i quiet low high small =
    let (acts, e, same) =
      rounds-ids step after k (i + step) quiet (omega arith) (omega arith) small in
    (
      sends step i ++ (after i ++ acts),
      rw (lt→ltb i 0x8FF (omega arith), e),
      rw (
        ids-append (sends step i) (after i ++ acts),
        ids-append (after i) acts,
        quiet i,
        same,
        ids-sends step i (omega arith),
        ascending-add i step (total step k),
      ),
    )

-- The actions between the batches send nothing.
after_disable-quiet : (j : ℕ) → ids (after_disable j) ≡ []
unfolding ids after_disable
after_disable-quiet j = ground arith

after_add-quiet : (j : ℕ) → ids (after_add j) ≡ []
unfolding ids after_add
after_add-quiet j = ground arith

after_change-quiet : (j : ℕ) → ids (after_change j) ≡ []
unfolding ids after_change
after_change-quiet j = ground arith

after_fail-quiet : (j : ℕ) → ids (after_fail j) ≡ []
unfolding ids after_fail
after_fail-quiet j = ground arith

ids-nothing : ids [] ≡ ascending 0 0
unfolding ids ascending
ids-nothing = refl

-- How many requests a test of each kind sends.
abbrev pub request_count : Arguments → ℕ
request_count a =
    if a.randomly_disable || a.add_midway
    then 2550
    else (if a.make_translation_changes || a.fail_translation_changes then 2304 else 0)

-- `run_test` ends, and it sends each id below the number of requests of the test exactly once, in
-- ascending order: 2550 where a server is disabled or added, else 2304 where translations change,
-- else none.
pub run_test-ids :
    (a : Arguments)
    → (acts : List Action) × (run_test a ≡ ok acts) × (ids acts ≡ ascending 0 (request_count a))
unfolding run_test
run_test-ids a = elim (Bool-cases a.randomly_disable) [
  | inl e ↦
      let (acts, run, same) =
        rounds-ids 0xFF after_disable 10 0 after_disable-quiet (omega arith) (omega arith)
          (omega arith) in
      (acts, rw e run, rw e same)
  | inr e ↦ elim (Bool-cases a.add_midway) [
    | inl e' ↦
        let (acts, run, same) =
          rounds-ids 0xFF after_add 10 0 after_add-quiet (omega arith) (omega arith)
            (omega arith) in
        (acts, rw (e, e') run, rw (e, e') same)
    | inr e' ↦ elim (Bool-cases a.make_translation_changes) [
      | inl f ↦
          let (acts, run, same) =
            rounds-ids 0x100 after_change 9 0 after_change-quiet (omega arith) (omega arith)
              (omega arith) in
          (acts, rw (e, e', f) run, rw (e, e', f) same)
      | inr f ↦ elim (Bool-cases a.fail_translation_changes) [
        | inl f' ↦
            let (acts, run, same) =
              rounds-ids 0x100 after_fail 9 0 after_fail-quiet (omega arith) (omega arith)
                (omega arith) in
            (acts, rw (e, e', f, f') run, rw (e, e', f, f') same)
        | inr f' ↦ ([], rw (e, e', f, f'), rw (e, e', f, f') ids-nothing)
      ]
    ]
  ]
]
