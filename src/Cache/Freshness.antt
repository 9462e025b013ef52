-- ===== src/Cache/Freshness.antt =====
-- How old an answer can be. Next to the run goes a log of every result that was stored, with its key
-- and the time; an answer from the cache is always one of these, younger than its time to live.
use node_debug_dashboard.Prelude.{
  ℕ, ◌+◌, ◌≤◌, ◌<◌, ◌≡◌, ◌⊎◌, inl, inr, refl, sym, ap, ◌∙◌, arith, Option, none, some, List, [],
  ◌∷◌, ltb, length, Eq, lookup, lookup-put, lookup-remove, Bool-cases, if◌then◌else◌, Option-cases,
}
use node_debug_dashboard.Cache.{
  Policy, ttl_of, State, lock_at, Caller, Event, arrives, wakes, returns, raises, cancels, leaves,
  leave, clears, oldest, step, run, init, evict, evict_failure, store, settle, release, arrive,
  wake, fresh, finish, finish_head, fail, cancel, cache_clear,
}
use node_debug_dashboard.Cache.Bounds.{
  arrive-cache, wake-cache, fail-cache, cancel-cache, leave-cache,
}

-- A result that a computation stored.
pub record Stored (K V : Type 0) : Type 0 where
  pub key : K
  pub result : V
  pub at : ℕ

abbrev pub In : {A : Type 0} → A → List A → Type 0
In x [] = ⊥
In x (y ∷ ys) = (x ≡ y) ⊎ In x ys

abbrev stored_by_head :
    {K V : Type 0} → V → ℕ → List (Caller K) → List (Stored K V) → List (Stored K V)
stored_by_head v now [] log = log
stored_by_head v now (c ∷ q) log = record { key = c.key; result = v; at = now } ∷ log

module _ {K V E : Type 0} ⦃e : Eq K⦄ where
  -- The log after an event: one more entry for a result that came back to a computing caller.
  abbrev pub note : Event K V E → State K V E → List (Stored K V) → List (Stored K V)
  note (returns l v now) s log =
      if (lock_at s l).computing then stored_by_head v now (lock_at s l).queue log else log
  note _ s log = log

ttl_of-le : {V : Type 0} (p : Policy V) (v : V) → ttl_of p v ≤ p.seconds
unfolding ttl_of
ttl_of-le p v = ground arith

entry_of :
    {V : Type 0} (o : Option (V × ℕ)) (now : ℕ) (v : V)
    → (elim o [ none ↦ none | some (w, expires) ↦ if ltb now expires then some w else none ])
      ≡ some v
    → (x : ℕ) × (o ≡ some (v, x)) × (now < x)
entry_of none now v h = cc
entry_of (some (w, x)) now v h = (x, ground arith, ground arith)

-- An answer is the value of an entry that has not expired.
module _ {K V E : Type 0} ⦃e : Eq K⦄ where
  pub fresh-entry :
      (s : State K V E) (k : K) (now : ℕ) (v : V)
      → fresh s k now ≡ some v
      → (x : ℕ) × (lookup k s.cache ≡ some (v, x)) × (now < x)
  unfolding fresh
  fresh-entry s k now v h = entry_of (lookup k s.cache) now v h

module _ {K V E : Type 0} ⦃e : Eq K⦄ (p : Policy V) where
  -- The log of a whole run, the latest entry first.
  unfoldable pub history : List (Event K V E) → State K V E → List (Stored K V) → List (Stored K V)
  history [] s log = log
  history (ev ∷ evs) s log = history evs (step p ev s).0 (note ev s log)

  -- Every entry of the cache was stored, and expires when its time to live is over.
  abbrev Justified : State K V E → List (Stored K V) → Type 0
  Justified s log =
      (k : K) (v : V) (expires : ℕ)
      → lookup k s.cache ≡ some (v, expires)
      → (t : ℕ) × In (record { key = k; result = v; at = t }) log × (expires ≡ t + ttl_of p v)

  Justified-nil : (s : State K V E) (log : List (Stored K V)) → s.cache ≡ [] → Justified s log
  unfolding lookup
  Justified-nil s log empty k v x found = cc (ap (lookup k) empty)

  lookup-evict :
      (k : K) (x : V × ℕ) (s : State K V E)
      → lookup k (evict p s).cache ≡ some x
      → lookup k s.cache ≡ some x
  unfolding evict
  lookup-evict k x s h = elim (Bool-cases (ltb p.maxsize (length s.cache))) [
    | inr fits ↦ ground arith
    | inl over ↦ elim (Option-cases (oldest s.cache)) [
      | inl miss ↦ ground arith
      | inr (j, found) ↦ ground (arith, lookup-remove j k s.cache)
    ]
  ]

  cache-settle :
      (l : ℕ) (k : K) (v : V) (now : ℕ) (s : State K V E)
      → (settle p l k v now s).cache ≡ (evict p (store p k v now s)).cache
  unfolding settle evict_failure release
  cache-settle l k v now s = ground arith

  lookup-store :
      (k j : K) (v : V) (now : ℕ) (s : State K V E)
      → lookup j (store p k v now s).cache
        ≡ (if e.beq k j then some (v, now + ttl_of p v) else lookup j s.cache)
  unfolding store
  lookup-store k j v now s = lookup-put k j (v, now + ttl_of p v) s.cache

  settle-Justified :
      (l : ℕ) (k : K) (v : V) (now : ℕ) (s : State K V E) (log : List (Stored K V))
      → Justified s log
      → Justified (settle p l k v now s) (record { key = k; result = v; at = now } ∷ log)
  settle-Justified l k v now s log h j w x found =
      let kept =
        lookup-evict j (w, x) (store p k v now s)
          (ap (lookup j) (sym (cache-settle l k v now s)) ∙ found) in
      elim (Bool-cases (e.beq k j)) [
        | inl same ↦
            let here : ◌≡◌ {A = V × ℕ} (v, now + ttl_of p v) (w, x) =
              ground (arith, lookup-store k j v now s) in
            let key : k ≡ j = (e.beq_iff k j).0 same in (now, inl (cc (key, here)), cc here)
        | inr other ↦
            let (t, old, age) = h j w x (ground (arith, lookup-store k j v now s)) in
            (t, inr old, age)
      ]

  finish-Justified :
      (l : ℕ) (v : V) (now : ℕ) (q : List (Caller K)) (s : State K V E) (log : List (Stored K V))
      → Justified s log
      → Justified (finish_head p l v now q s).0 (stored_by_head v now q log)
  unfolding finish_head
  finish-Justified l v now [] s log h = h
  finish-Justified l v now (c ∷ q) s log h = settle-Justified l c.key v now s log h

  same_cache :
      (s s' : State K V E) (log : List (Stored K V))
      → s'.cache ≡ s.cache
      → Justified s log
      → Justified s' log
  same_cache s s' log same h k v x found = h k v x (ap (lookup k) (sym same) ∙ found)

  step-Justified :
      (ev : Event K V E) (s : State K V E) (log : List (Stored K V))
      → Justified s log
      → Justified (step p ev s).0 (note ev s log)
  unfolding step cache_clear
  step-Justified (arrives id k now) s log h =
      same_cache s (arrive id k now s).0 log (arrive-cache id k now s) h
  step-Justified (wakes l now) s log h = same_cache s (wake l now s).0 log (wake-cache l now s) h
  step-Justified (returns l v now) s log h = elim (Bool-cases (lock_at s l).computing) [
    | inl busy ↦ rw (busy, finish) (finish-Justified l v now (lock_at s l).queue s log h)
    | inr still ↦ rw (still, finish) h
  ]
  step-Justified (raises l x now) s log h =
      same_cache s (fail l x now s).0 log (fail-cache l x now s) h
  step-Justified (cancels l) s log h = same_cache s (cancel l s).0 log (cancel-cache l s) h
  step-Justified (leaves l id) s log h = same_cache s (leave l id s).0 log (leave-cache l id s) h
  step-Justified clears s log h = Justified-nil (cache_clear s) log refl

  run-Justified :
      (evs : List (Event K V E)) (s : State K V E) (log : List (Stored K V))
      → Justified s log
      → Justified (run p evs s) (history evs s log)
  unfolding run history
  run-Justified [] s log h = h
  run-Justified (ev ∷ evs) s log h =
      run-Justified evs (step p ev s).0 (note ev s log) (step-Justified ev s log h)

  -- Whatever happened before, an answer that the cache gives was computed for the same key, less
  -- than its time to live ago, and that is at most `seconds`.
  pub fresh-stored :
      (evs : List (Event K V E)) (k : K) (now : ℕ) (v : V)
      → fresh (run p evs init) k now ≡ some v
      → (t : ℕ) × In (record { key = k; result = v; at = t }) (history evs init [])
        × (now < t + ttl_of p v)
        × (t + ttl_of p v ≤ t + p.seconds)
  fresh-stored evs k now v h =
      let (x, hit, early) = fresh-entry (run p evs init) k now v h in
      let (t, stored, age) = run-Justified evs init [] (Justified-nil init [] refl) k v x hit in
      (t, stored, omega arith, omega (arith, ttl_of-le p v))
