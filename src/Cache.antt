-- ===== src/Cache.antt =====
-- `ttl_cache` of app/collectors/base.py: one decorated function with its three tables and the locks
-- that they name. The event loop runs one task at a time, so the wrapper is cut at its awaits into
-- steps: a caller arrives, the task at the head of a lock's queue is woken, a computation ends, a caller
-- is cancelled.
-- The clock readings of one step are taken as one reading, in ticks of any unit.
pub mod Bounds
pub mod Freshness
pub mod Queue
pub mod Quiet
mod Tests
use node_debug_dashboard.Prelude.{
  ℕ, ◌+◌, Bool, true, false, Option, none, some, List, [], ◌∷◌, ◌++◌, ltb, leb, if◌then◌else◌,
  length, keep, not, ◌==◌, Eq, nat_eq, Dict, lookup, put, remove, or_else,
}
use Prim.Native.Nat.{min}

-- The decorator's arguments; without a `cache_if` every result counts.
pub record Policy (V : Type 0) : Type 0 where
  pub seconds : ℕ
  pub maxsize : ℕ
  pub retry_after : ℕ
  pub cache_if : V → Bool

pub record Caller (K : Type 0) : Type 0 where
  pub id : ℕ
  pub key : K
  pub arrived : ℕ

-- An `asyncio.Lock`: the callers that hold it or queue for it, first come first served. The flag says
-- that the first one is inside the awaited function.
pub record Lock (K : Type 0) : Type 0 where
  pub queue : List (Caller K)
  pub computing : Bool

-- The closure's `cache`, `locks` and `failures`, and the lock objects by number. A lock object lives
-- on for its queue when the table `locks` forgets it.
pub record State (K V E : Type 0) : Type 0 where
  pub cache : Dict K (V × ℕ)
  pub locks : Dict K ℕ
  pub failures : Dict K (E × ℕ)
  pub heap : Dict ℕ (Lock K)
  pub next_lock : ℕ

-- What a step means for the caller it moves: an answer, or a wait.
pub data Reply (V E : Type 0) : Type 0 where
  value : V → Reply V E
  raised : E → Reply V E
  waits : Reply V E
  computes : Reply V E
  nothing : Reply V E

abbrev pub free : {K : Type 0} → Lock K
free = record { queue = []; computing = false }

abbrev pub without_head : {A : Type 0} → List A → List A
without_head [] = []
without_head (x ∷ xs) = xs

abbrev others : {K : Type 0} → ℕ → List (Caller K) → List (Caller K)
others id = keep (λ c. not (c.id == id))

-- The queue without a caller; the one inside the awaited function, if there is one, stays.
unfoldable pub queue_without : {K : Type 0} → ℕ → Bool → List (Caller K) → List (Caller K)
queue_without id true (c ∷ rest) = c ∷ others id rest
queue_without id _ q = others id q

-- Results that `cache_if` rejects are kept for a shorter time.
unfoldable pub ttl_of : {V : Type 0} → Policy V → V → ℕ
ttl_of p v = if p.cache_if v then p.seconds else min p.seconds p.retry_after

module _ {K A : Type 0} where
  -- `min(table, key=lambda k: table[k][1])`: the first key of least time.
  unfoldable pub oldest_from : K × ℕ → Dict K (A × ℕ) → K
  oldest_from best [] = best.0
  oldest_from best ((k, (a, t)) ∷ rest) = oldest_from (if ltb t best.1 then (k, t) else best) rest

  unfoldable pub oldest : Dict K (A × ℕ) → Option K
  unfolding oldest_from
  oldest [] = none
  oldest ((k, (a, t)) ∷ rest) = some (oldest_from (k, t) rest)

module _ {K V E : Type 0} ⦃e : Eq K⦄ where
  abbrev pub init : State K V E
  init = record { cache = []; locks = []; failures = []; heap = []; next_lock = 0 }

  abbrev pub lock_at : State K V E → ℕ → Lock K
  lock_at s l = or_else (lookup l s.heap) free

  unfoldable pub set_lock : ℕ → Lock K → State K V E → State K V E
  set_lock l lock s = record s { heap = put l lock s.heap }

  -- `_fresh`
  unfoldable pub fresh : State K V E → K → ℕ → Option V
  fresh s key now = elim (lookup key s.cache) [
    | none ↦ none
    | some (v, expires) ↦ if ltb now expires then some v else none
  ]

  -- The failure that a caller shares: one raised since it arrived.
  unfoldable pub shared_failure : State K V E → Caller K → Option E
  shared_failure s c = elim (lookup c.key s.failures) [
    | none ↦ none
    | some (x, at) ↦ if leb c.arrived at then some x else none
  ]

  -- The end of `async with lock`.
  unfoldable pub release : ℕ → State K V E → State K V E
  unfolding set_lock
  release l s =
      set_lock l (record { queue = without_head (lock_at s l).queue; computing = false }) s

  -- The caller at the head of the queue has the lock: it looks again, then computes.
  unfoldable pub enter : ℕ → Caller K → ℕ → State K V E → State K V E × Reply V E
  unfolding fresh shared_failure release
  enter l c now s = elim (fresh s c.key now) [
    | some v ↦ (release l s, value v)
    | none ↦ elim (shared_failure s c) [
      | some x ↦ (release l s, raised x)
      | none ↦ (set_lock l (record { queue = (lock_at s l).queue; computing = true }) s, computes)
    ]
  ]

  -- `locks.setdefault(key, asyncio.Lock())`
  unfoldable pub lock_for : K → State K V E → ℕ × State K V E
  lock_for key s = elim (lookup key s.locks) [
    | some l ↦ (l, s)
    | none ↦
        (s.next_lock, record s { locks = put key s.next_lock s.locks; next_lock = s.next_lock + 1 })
  ]

  -- Joining a lock's queue; an empty queue means that the lock is free.
  unfoldable pub acquire :
      ℕ → Caller K → ℕ → List (Caller K) → Bool → State K V E → State K V E × Reply V E
  unfolding enter set_lock
  acquire l c now [] busy s =
      enter l c now (set_lock l (record { queue = c ∷ []; computing = busy }) s)
  acquire l c now (d ∷ ds) busy s =
      (set_lock l (record { queue = (d ∷ ds) ++ c ∷ []; computing = busy }) s, waits)

  -- The wrapper up to its first wait.
  unfoldable pub arrive : ℕ → K → ℕ → State K V E → State K V E × Reply V E
  unfolding fresh acquire lock_for
  arrive id key now s = elim (fresh s key now) [
    | some v ↦ (s, value v)
    | none ↦
        let (l, s') = lock_for key s in
        let lock = lock_at s' l in
        acquire l (record { id = id; key = key; arrived = now }) now lock.queue lock.computing s'
  ]

  unfoldable pub resume : ℕ → ℕ → List (Caller K) → State K V E → State K V E × Reply V E
  unfolding enter
  resume l now [] s = (s, nothing)
  resume l now (c ∷ rest) s = enter l c now s

  -- The task at the head of a released lock runs on.
  unfoldable pub wake : ℕ → ℕ → State K V E → State K V E × Reply V E
  unfolding resume
  wake l now s =
      if (lock_at s l).computing then (s, nothing) else resume l now (lock_at s l).queue s

  -- `cache.pop(oldest)` and `locks.pop(oldest)`, when the table is over its size.
  unfoldable pub evict : Policy V → State K V E → State K V E
  unfolding oldest
  evict p s =
      if ltb p.maxsize (length s.cache)
      then elim (oldest s.cache) [
        | none ↦ s
        | some k ↦ record s { cache = remove k s.cache; locks = remove k s.locks }
      ]
      else s

  unfoldable pub evict_failure : Policy V → State K V E → State K V E
  unfolding oldest
  evict_failure p s =
      if ltb p.maxsize (length s.failures)
      then elim (oldest s.failures) [
        | none ↦ s
        | some k ↦ record s { failures = remove k s.failures }
      ]
      else s

  -- `failures.pop(key, None)` and `cache[key] = (result, time.monotonic() + ttl)`
  unfoldable pub store : Policy V → K → V → ℕ → State K V E → State K V E
  unfolding ttl_of
  store p key v now s = record s {
    failures = remove key s.failures;
    cache = put key (v, now + ttl_of p v) s.cache;
  }

  unfoldable pub settle : Policy V → ℕ → K → V → ℕ → State K V E → State K V E
  unfolding store evict evict_failure release
  settle p l key v now s = release l (evict_failure p (evict p (store p key v now s)))

  unfoldable pub finish_head :
      Policy V → ℕ → V → ℕ → List (Caller K) → State K V E → State K V E × Reply V E
  unfolding settle
  finish_head p l v now [] s = (s, nothing)
  finish_head p l v now (c ∷ rest) s = (settle p l c.key v now s, value v)

  -- The awaited function returned.
  unfoldable pub finish : Policy V → ℕ → V → ℕ → State K V E → State K V E × Reply V E
  unfolding finish_head
  finish p l v now s =
      if (lock_at s l).computing then finish_head p l v now (lock_at s l).queue s else (s, nothing)

  unfoldable pub fail_head : ℕ → E → ℕ → List (Caller K) → State K V E → State K V E × Reply V E
  unfolding release
  fail_head l x now [] s = (s, nothing)
  fail_head l x now (c ∷ rest) s =
      (release l (record s { failures = put c.key (x, now) s.failures }), raised x)

  -- The awaited function raised an `Exception`.
  unfoldable pub fail : ℕ → E → ℕ → State K V E → State K V E × Reply V E
  unfolding fail_head
  fail l x now s =
      if (lock_at s l).computing then fail_head l x now (lock_at s l).queue s else (s, nothing)

  -- The task in the awaited function was cancelled: nothing is stored.
  unfoldable pub cancel : ℕ → State K V E → State K V E × Reply V E
  unfolding release
  cancel l s = if (lock_at s l).computing then (release l s, nothing) else (s, nothing)

  -- A caller that queues for the lock was cancelled.
  unfoldable pub leave : ℕ → ℕ → State K V E → State K V E × Reply V E
  unfolding set_lock queue_without
  leave l id s =
      let lock = lock_at s l in
      (
        set_lock l
            (record {
              queue = queue_without id lock.computing lock.queue;
              computing = lock.computing;
            })
            s,
        nothing,
      )

  -- `cache_clear`: the tables are emptied, and the lock objects live on for their queues.
  unfoldable pub cache_clear : State K V E → State K V E
  cache_clear s = record s { cache = []; locks = []; failures = [] }

-- What the event loop lets happen next.
pub data Event (K V E : Type 0) : Type 0 where
  arrives : ℕ → K → ℕ → Event K V E
  wakes : ℕ → ℕ → Event K V E
  returns : ℕ → V → ℕ → Event K V E
  raises : ℕ → E → ℕ → Event K V E
  cancels : ℕ → Event K V E
  leaves : ℕ → ℕ → Event K V E
  clears : Event K V E

module _ {K V E : Type 0} ⦃e : Eq K⦄ (p : Policy V) where
  unfoldable pub step : Event K V E → State K V E → State K V E × Reply V E
  unfolding arrive wake finish fail cancel leave cache_clear
  step (arrives id key now) s = arrive id key now s
  step (wakes l now) s = wake l now s
  step (returns l v now) s = finish p l v now s
  step (raises l x now) s = fail l x now s
  step (cancels l) s = cancel l s
  step (leaves l id) s = leave l id s
  step clears s = (cache_clear s, nothing)

  unfoldable pub run : List (Event K V E) → State K V E → State K V E
  run [] s = s
  run (ev ∷ evs) s = run evs (step ev s).0
