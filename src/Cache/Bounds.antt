-- ===== src/Cache/Bounds.antt =====
-- The size of the tables. A result that is stored never takes the cache over its maximum; a failure
-- that is stored is not counted until some computation succeeds.
use node_debug_dashboard.Prelude.{
  ℕ, ◌+◌, ◌≤◌, ◌<◌, ◌≡◌, ◌≢◌, inl, inr, refl, arith, Bool, true, none, some, List, [], ◌∷◌, ltb,
  length, Eq, Dict, lookup, length-put-le, length-put_new, length-remove-lt, Bool-cases,
  Option-cases, ◌∙◌, All, ltb→lt,
}
use mathlib.Core.Path.{subst}
use mathlib.Core.Option.{some-injective}
use node_debug_dashboard.Cache.{
  Policy, State, ttl_of, lock_at, fresh, init, Caller, Event, arrives, wakes, returns, raises,
  cancels, leaves, leave, clears, oldest, oldest_from, step, run, evict, evict_failure, store,
  settle, arrive, acquire, enter, release, set_lock, lock_for, wake, resume, finish, finish_head,
  fail, cancel,
}

module _ {K A : Type 0} where
  oldest_from-among :
      (Q : K → Type 0) (best : K × ℕ) (d : Dict K (A × ℕ))
      → Q best.0
      → All (λ x. Q x.0) d
      → Q (oldest_from best d)
  unfolding oldest_from
  oldest_from-among Q best [] q h = q
  oldest_from-among Q best ((j, (a, u)) ∷ d) q h = elim (Bool-cases (ltb u best.1)) [
    | inl lt ↦ rw lt (oldest_from-among Q (j, u) d h.0 h.1)
    | inr ge ↦ rw ge (oldest_from-among Q best d q h.1)
  ]

module _ {K A : Type 0} ⦃e : Eq K⦄ where
  present-there :
      (k j : K) (a : A) (d : Dict K A) → lookup k d ≢ none → lookup k ((j, a) ∷ d) ≢ none
  unfolding lookup
  present-there k j a d h q = ground arith

  All-present :
      (d r : Dict K A)
      → ((k : K) → lookup k r ≢ none → lookup k d ≢ none)
      → All (λ x. lookup x.0 d ≢ none) r
  unfolding lookup
  All-present d [] up = tt
  All-present d ((j, a) ∷ r) up = (
    up j (λ q. ground (arith, e.beq_iff j j)),
    All-present d r (λ k h. up k (present-there k j a r h)),
  )

module _ {K A : Type 0} ⦃e : Eq K⦄ where
  -- The key that `min` picks is in the table.
  pub oldest-present : (d : Dict K (A × ℕ)) (k : K) → oldest d ≡ some k → lookup k d ≢ none
  unfolding oldest
  oldest-present [] k h = cc
  oldest-present ((j, (a, t)) ∷ d) k h =
      let all = All-present ((j, (a, t)) ∷ d) ((j, (a, t)) ∷ d) (λ k h. h) in
      let found = oldest_from-among (λ k. lookup k ((j, (a, t)) ∷ d) ≢ none) (j, t) d all.0 all.1 in
      subst (λ k. lookup k ((j, (a, t)) ∷ d) ≢ none) (some-injective _ _ h) found

  oldest-some : (d : Dict K (A × ℕ)) (n : ℕ) → n < length d → (k : K) × (oldest d ≡ some k)
  unfolding oldest
  oldest-some [] n h = absurd (omega arith)
  oldest-some ((j, (a, t)) ∷ d) n h = (oldest_from (j, t) d, refl)

-- The sizes that the decorator promises.
pub record IsBounded {K V E : Type 0} (p : Policy V) (s : State K V E) : Type 0 where
  pub cache_fits : length s.cache ≤ p.maxsize

module _ {K V E : Type 0} ⦃e : Eq K⦄ (p : Policy V) where
  evict-fits :
      (s : State K V E) → length s.cache ≤ p.maxsize + 1 → length (evict p s).cache ≤ p.maxsize
  unfolding evict
  evict-fits s h = elim (Bool-cases (ltb p.maxsize (length s.cache))) [
    | inl over ↦
        let (k, found) = oldest-some s.cache p.maxsize (ltb→lt p.maxsize (length s.cache) over) in
        rw over
          (rw found (omega (arith, length-remove-lt k s.cache (oldest-present s.cache k found))))
    | inr fits ↦ rw fits (ground arith)
  ]

  settle-fits :
      (l : ℕ) (k : K) (v : V) (now : ℕ) (s : State K V E)
      → length s.cache ≤ p.maxsize
      → length (settle p l k v now s).cache ≤ p.maxsize
  unfolding settle evict_failure release store
  settle-fits l k v now s h = ground (
    arith,
    evict-fits (store p k v now s) (omega (arith, length-put-le k (v, now + ttl_of p v) s.cache)),
  )

-- Nothing but a stored result and `cache_clear` touches the cache.
module _ {K V E : Type 0} ⦃e : Eq K⦄ where
  enter-cache :
      (l : ℕ) (c : Caller K) (now : ℕ) (s : State K V E) → (enter l c now s).0.cache ≡ s.cache
  unfolding enter set_lock
  enter-cache l c now s = ground arith

  acquire-cache :
      (l : ℕ) (c : Caller K) (now : ℕ) (q : List (Caller K)) (b : Bool) (s : State K V E)
      → (acquire l c now q b s).0.cache ≡ s.cache
  unfolding acquire
  acquire-cache l c now [] b s = enter-cache l c now _
  acquire-cache l c now (d ∷ ds) b s = refl

  lock_for-cache : (k : K) (s : State K V E) → (lock_for k s).1.cache ≡ s.cache
  unfolding lock_for
  lock_for-cache k s = ground arith

  pub arrive-cache :
      (id : ℕ) (k : K) (now : ℕ) (s : State K V E) → (arrive id k now s).0.cache ≡ s.cache
  unfolding arrive
  arrive-cache id k now s = elim (Option-cases (fresh s k now)) [
    | inl miss ↦ rw (miss, arrive) (acquire-cache _ _ now _ _ _ ∙ lock_for-cache k s)
    | inr (v, hit) ↦ rw (hit, arrive) refl
  ]

  resume-cache :
      (l now : ℕ) (q : List (Caller K)) (s : State K V E) → (resume l now q s).0.cache ≡ s.cache
  unfolding resume
  resume-cache l now [] s = refl
  resume-cache l now (c ∷ q) s = enter-cache l c now s

  pub wake-cache : (l now : ℕ) (s : State K V E) → (wake l now s).0.cache ≡ s.cache
  unfolding wake
  wake-cache l now s = ground (arith, resume-cache l now (lock_at s l).queue s)

  pub fail-cache : (l : ℕ) (x : E) (now : ℕ) (s : State K V E) → (fail l x now s).0.cache ≡ s.cache
  unfolding fail release
  fail-cache l x now s = ground arith

  pub cancel-cache : (l : ℕ) (s : State K V E) → (cancel l s).0.cache ≡ s.cache
  unfolding cancel
  cancel-cache l s = ground arith

  pub leave-cache : (l id : ℕ) (s : State K V E) → (leave l id s).0.cache ≡ s.cache
  unfolding leave set_lock
  leave-cache l id s = refl

module _ {K V E : Type 0} ⦃e : Eq K⦄ (p : Policy V) where
  finish-fits :
      (l : ℕ) (v : V) (now : ℕ) (q : List (Caller K)) (s : State K V E)
      → length s.cache ≤ p.maxsize
      → length (finish_head p l v now q s).0.cache ≤ p.maxsize
  unfolding finish_head
  finish-fits l v now [] s h = h
  finish-fits l v now (c ∷ q) s h = settle-fits p l c.key v now s h

  -- Every step keeps the cache within `maxsize`.
  pub step-IsBounded :
      (ev : Event K V E) {s : State K V E} → IsBounded p s → IsBounded p (step p ev s).0
  unfolding step
  step-IsBounded (arrives id k now) {s} h = record {
    cache_fits = rw (arrive-cache id k now s) h.cache_fits;
  }
  step-IsBounded (wakes l now) {s} h = record { cache_fits = rw (wake-cache l now s) h.cache_fits }
  step-IsBounded (returns l v now) {s} h = record {
    cache_fits =
        unfold finish in ground (arith, finish-fits l v now (lock_at s l).queue s h.cache_fits);
  }
  step-IsBounded (raises l x now) {s} h = record {
    cache_fits = rw (fail-cache l x now s) h.cache_fits;
  }
  step-IsBounded (cancels l) {s} h = record { cache_fits = rw (cancel-cache l s) h.cache_fits }
  step-IsBounded (leaves l id) {s} h = record { cache_fits = rw (leave-cache l id s) h.cache_fits }
  step-IsBounded clears h = record { cache_fits = omega arith }

  run-fits :
      (evs : List (Event K V E)) {s : State K V E} → IsBounded p s → IsBounded p (run p evs s)
  unfolding run
  run-fits [] h = h
  run-fits (ev ∷ evs) h = run-fits evs (step-IsBounded ev h)

  -- After any sequence of events, from the start, the cache holds at most `maxsize` entries.
  pub run-IsBounded :
      (evs : List (Event K V E)) → length (run p evs (init {V = V} {E = E})).cache ≤ p.maxsize
  run-IsBounded evs = (run-fits evs (record { cache_fits = omega arith })).cache_fits

module _ {K V E : Type 0} ⦃e : Eq K⦄ where
  -- When a computation fails whose key has no failure on record, the table of failures gets one entry
  -- longer, however long it is.
  pub fail-grows :
      (l : ℕ) (x : E) (now : ℕ) (s : State K V E) (c : Caller K) (rest : List (Caller K))
      → (lock_at s l).computing ≡ true
      → (lock_at s l).queue ≡ c ∷ rest
      → lookup c.key s.failures ≡ none
      → length (fail l x now s).0.failures ≡ length s.failures + 1
  unfolding fail release
  fail-grows l x now s c rest busy head absent =
      rw busy (rw head (length-put_new c.key (x, now) s.failures absent))
