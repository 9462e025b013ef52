-- ===== src/Cache/Tests.antt =====
-- Runs of a function that `ttl_cache` decorates: 30 ticks to live, 2 entries at most.
use node_debug_dashboard.Prelude.{
  ℕ, ◌+◌, ◌≤◌, ◌<◌, ◌≡◌, refl, true, arith, none, some, List, [], ◌∷◌, length, nat_eq, ltb, lookup,
  put, remove, All,
}
use node_debug_dashboard.Cache.{
  Policy, State, Event, arrives, wakes, leaves, leave, queue_without, returns, value, raised, waits,
  computes, init, run, step, arrive, wake, finish, finish_head, fail, fail_head, cancel,
  cache_clear, fresh, shared_failure, release, enter, lock_for, acquire, resume, evict,
  evict_failure, store, settle, set_lock, oldest, oldest_from, ttl_of,
}
use node_debug_dashboard.Cache.Bounds.{run-IsBounded, fail-grows}
use node_debug_dashboard.Cache.Freshness.{fresh-stored, history, In}
use node_debug_dashboard.Cache.Queue.{replies, fail-shared, finish-shared}

program : Unit {0}
unfolding run step arrive wake finish finish_head fail fail_head cancel cache_clear fresh
    shared_failure release enter lock_for acquire resume evict evict_failure store settle set_lock
    oldest oldest_from ttl_of lookup put remove history replies leave queue_without
program = tt

abbrev policy : Policy ℕ
policy = record { seconds = 30; maxsize = 2; retry_after = 5; cache_if = λ v. ltb 0 v }

abbrev Table : Type 0
Table = State ℕ ℕ ℕ

abbrev after : List (Event ℕ ℕ ℕ) → Table
after evs = run policy evs init

-- Two callers for the key 7: the first one computes and the second one waits.
abbrev two_callers : List (Event ℕ ℕ ℕ)
two_callers = arrives 1 7 10 ∷ arrives 2 7 11 ∷ []

first_computes :
    ((step policy (arrives 1 7 10) (after [])).1 ≡ computes)
    × ((step policy (arrives 2 7 11) (after (arrives 1 7 10 ∷ []))).1 ≡ waits)
unfolding program
first_computes = (refl, refl)

-- The oldest of three entries has to go.
abbrev three_results : List (Event ℕ ℕ ℕ)
three_results =
    arrives 1 7 0
    ∷ returns 0 70 1
    ∷ arrives 2 8 2
    ∷ returns 1 80 3
    ∷ arrives 3 9 4
    ∷ returns 2 90 5
    ∷ []

oldest_goes :
    (fresh (after three_results) 7 6 ≡ none)
    × (fresh (after three_results) 8 6 ≡ some 80)
    × (fresh (after three_results) 9 6 ≡ some 90)
unfolding program
oldest_goes = (refl, refl, refl)

-- A rejected result lives for 5 ticks only.
short_retry :
    (fresh (after (arrives 1 7 0 ∷ returns 0 0 1 ∷ [])) 7 5 ≡ some 0)
    × (fresh (after (arrives 1 7 0 ∷ returns 0 0 1 ∷ [])) 7 6 ≡ none)
unfolding program
short_retry = (refl, refl)

run-IsBounded_example : length (after three_results).cache ≤ 2
unfolding program
run-IsBounded_example = run-IsBounded policy three_results

fail-grows_example : length (fail 0 404 12 (after two_callers)).0.failures ≡ 1
unfolding program
fail-grows_example =
    fail-grows 0 404 12 (after two_callers) (record { id = 1; key = 7; arrived = 10 })
      (record { id = 2; key = 7; arrived = 11 } ∷ []) refl refl refl

fresh-stored_example :
    (t : ℕ) × In (record { key = 8; result = 80; at = t }) (history policy three_results init [])
    × (6 < t + ttl_of policy 80)
    × (t + ttl_of policy 80 ≤ t + 30)
unfolding program
fresh-stored_example = fresh-stored policy three_results 8 6 80 refl

-- A caller for another key computes before the second caller for 7 is woken.
abbrev meanwhile : List (Event ℕ ℕ ℕ)
meanwhile = arrives 3 8 12 ∷ wakes 0 13 ∷ []

fail-shared_example :
    All (λ r. r ≡ raised 404) (replies policy 0 meanwhile (fail 0 404 12 (after two_callers)).0)
unfolding program
fail-shared_example =
    fail-shared policy 0 404 12 (after two_callers) (record { id = 1; key = 7; arrived = 10 })
      (record { id = 2; key = 7; arrived = 11 } ∷ []) meanwhile refl refl
      (record { same_key = refl; came = omega arith }, tt) (tt, (λ h. refl, tt)) (omega arith)

finish-shared_example :
    All
      (λ r. r ≡ value 70)
      (replies policy 0 meanwhile (finish policy 0 70 12 (after two_callers)).0)
unfolding program
finish-shared_example =
    finish-shared policy 0 70 12 (after two_callers) (record { id = 1; key = 7; arrived = 10 })
      (record { id = 2; key = 7; arrived = 11 } ∷ []) meanwhile refl refl (omega arith)
      (record { same_key = refl; came = omega arith }, tt) (tt, (λ h. omega arith, tt))
      (omega arith)

-- The second caller is cancelled while it waits, and the first one while it computes.
both_leave :
    ((step policy (leaves 0 2) (after two_callers)).0.heap
      ≡ (0, record { queue = record { id = 1; key = 7; arrived = 10 } ∷ []; computing = true })
        ∷ [])
    × ((step policy (leaves 0 1) (after two_callers)).0.heap ≡ (after two_callers).heap)
unfolding program
both_leave = (refl, refl)

abbrev expired : Table
expired = after (arrives 1 7 10 ∷ returns 0 70 12 ∷ [])
