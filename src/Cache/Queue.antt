-- ===== src/Cache/Queue.antt =====
-- What the callers queued behind a computation get, as the lock is handed on to one after the other.
use node_debug_dashboard.Prelude.{
  ℕ, ◌+◌, ◌≤◌, ◌<◌, ◌≡◌, inl, inr, refl, sym, ap, ◌∙◌, arith, true, false, none, some, List, [],
  ◌∷◌, leb, length, Eq, nat_eq, lookup, put, lookup-put, length-put-le, or_else, All, keep, ◌++◌,
  if◌then◌else◌, Bool-cases, ==_iff,
}
use mathlib.Core.List.{append-nil}
use node_debug_dashboard.Cache.Quiet.{
  IsQuiet, is_wake, Ahead, SameTables, SameTables-release, step-Undisturbed, lock_at-set_lock,
}
use node_debug_dashboard.Cache.{
  Event, arrives, wakes, returns, raises, cancels, leaves, clears, step, Policy, ttl_of, State,
  Lock, lock_at, without_head, free, Caller, evict, evict_failure, store, release, wake, resume,
  enter, fresh, finish, finish_head, fail, fail_head, value, raised, Reply,
}

-- A caller that waits for `k`, and came no later than `now`.
pub record IsWaiting {K : Type 0} (k : K) (now : ℕ) (c : Caller K) : Type 0 where
  pub same_key : c.key ≡ k
  pub came : c.arrived ≤ now

module _ {K V E : Type 0} ⦃e : Eq K⦄ where
  -- The answers of those that are woken from the queue of a lock, as the events happen.
  unfoldable pub replies : Policy V → ℕ → List (Event K V E) → State K V E → List (Reply V E)
  replies p l [] s = []
  replies p l (ev ∷ evs) s =
      let rest = replies p l evs (step p ev s).0 in
      if is_wake l ev then (step p ev s).1 ∷ rest else rest

  wake-enter :
      (l : ℕ) (c : Caller K) (q : List (Caller K)) (t : ℕ) (s : State K V E)
      → Ahead l (c ∷ q) s
      → wake l t s ≡ enter l c t s
  unfolding wake
  wake-enter l c q t s a = rw a.idle (ap (λ z. resume l t z s) a.queue_eq)

  Ahead-release :
      (l : ℕ) (c : Caller K) (q b : List (Caller K)) (s : State K V E)
      → (lock_at s l).queue ≡ (c ∷ q) ++ b
      → Ahead l q (release l s)
  unfolding release
  Ahead-release l c q b s h =
      let back =
        lock_at-set_lock l (record { queue = without_head (lock_at s l).queue; computing = false })
          s in
      record {
        behind = b;
        queue_eq = ap (λ (x : Lock K). x.queue) back ∙ ap without_head h;
        idle = ap (λ (x : Lock K). x.computing) back;
      }

  replies-none :
      (p : Policy V) (l : ℕ) (evs : List (Event K V E)) (s : State K V E)
      → length (keep (is_wake l) evs) ≤ 0
      → replies p l evs s ≡ []
  unfolding replies
  replies-none p l [] s h = refl
  replies-none p l (ev ∷ evs) s h = elim (Bool-cases (is_wake l ev)) [
    | inl b ↦ absurd (ground (arith, h, b))
    | inr b ↦ rw b (replies-none p l evs (step p ev s).0 (ground (arith, h, b)))
  ]

  module _ (p : Policy V) (l : ℕ) (r : Reply V E) (P : State K V E → Type 0) (W : Caller K → Type 0)
      (T : ℕ → Type 0) (kept : (s s' : State K V E) → SameTables s s' → P s → P s')
      (answers : (c : Caller K) (t : ℕ) (s : State K V E)
        → P s
        → W c
        → T t
        → enter l c t s ≡ (release l s, r)) where
    step-answers :
        (ev : Event K V E) (c : Caller K) (q : List (Caller K)) (s : State K V E)
        → is_wake l ev ≡ true
        → IsQuiet l T ev
        → Ahead l (c ∷ q) s
        → P s
        → W c
        → step p ev s ≡ (release l s, r)
    unfolding step
    step-answers (wakes m t) c q s b quiet a h w =
        let same = (==_iff m l).0 b in
        ap (λ n. wake n t s) same ∙ wake-enter l c q t s a ∙ answers c t s h w (quiet same)
    step-answers (arrives id k t) c q s b quiet a h w = cc
    step-answers (cancels m) c q s b quiet a h w = cc
    step-answers (leaves m id) c q s b quiet a h w = cc
    step-answers (returns m v t) c q s b quiet a h w = cc
    step-answers (raises m x t) c q s b quiet a h w = cc
    step-answers clears c q s b quiet a h w = cc

    -- If every waiting caller would be given the answer `r` and go, then all of them are.
    replies-All :
        (evs : List (Event K V E)) (q : List (Caller K)) (s : State K V E)
        → Ahead l q s
        → P s
        → All W q
        → All (IsQuiet l T) evs
        → length (keep (is_wake l) evs) ≤ length q
        → All (λ x. x ≡ r) (replies p l evs s)
    unfolding replies
    replies-All evs [] s a h w quiet fits = rw (replies-none p l evs s fits) tt
    replies-All [] (c ∷ q) s a h w quiet fits = tt
    replies-All (ev ∷ evs) (c ∷ q) s a h w quiet fits = elim (Bool-cases (is_wake l ev)) [
      | inl b ↦
          let woken = step-answers ev c q s b quiet.0 a h w.0 in
          rw b (
            rw woken (
              refl,
              replies-All evs q (release l s) (Ahead-release l c q a.behind s a.queue_eq)
                  (kept s (release l s) (SameTables-release l s) h) w.1 quiet.1
                  (ground (arith, fits, b)),
            ))
      | inr b ↦
          let u = step-Undisturbed p l T ev c q s quiet.0 b a in
          rw b (
            replies-All evs (c ∷ q) (step p ev s).0 u.ahead (kept s (step p ev s).0 u.tables h) w
              quiet.1 (ground (arith, fits, b)))
    ]

  enter-fails :
      (l : ℕ) (k : K) (x : E) (now : ℕ) (c : Caller K) (t : ℕ) (s : State K V E)
      → IsWaiting k now c
      → lookup k s.failures ≡ some (x, now)
      → fresh s k t ≡ none
      → enter l c t s ≡ (release l s, raised x)
  unfolding enter
  enter-fails l k x now c t s w failed stale =
      let key : c.key ≡ k = w.same_key in
      let found : lookup c.key s.failures ≡ some (x, now) = rw key failed in
      let early : leb c.arrived now ≡ true = ground (arith, w.came) in
      let miss : fresh s c.key t ≡ none = rw key stale in rw (miss, enter) (rw found (rw early))

  enter-returns :
      (l : ℕ) (k : K) (v : V) (now : ℕ) (c : Caller K) (t : ℕ) (s : State K V E)
      → IsWaiting k now c
      → fresh s k t ≡ some v
      → enter l c t s ≡ (release l s, value v)
  unfolding enter
  enter-returns l k v now c t s w hit =
      let found : fresh s c.key t ≡ some v = rw (w.same_key) hit in rw (found, enter)

  fresh-same_cache :
      (s s' : State K V E) (k : K) (t : ℕ) → s'.cache ≡ s.cache → fresh s' k t ≡ fresh s k t
  unfolding fresh
  fresh-same_cache s s' k t same = rw same refl

  -- When a computation raises, each caller queued behind it is given that exception as it is woken,
  -- and none computes again. In between, other callers may arrive, other queues may be woken,
  -- computations may be cancelled and callers may leave other queues, in any order, but no computation
  -- returns or raises, the tables are not cleared, and nobody leaves this queue. The queue is
  -- woken at most once for each of its callers, which wait for the same key and came no later than the
  -- failure, and only at times at which the cache, as it was before the failure, has no fresh result
  -- for the key.
  pub fail-shared :
      (p : Policy V) (l : ℕ) (x : E) (now : ℕ) (s : State K V E) (c : Caller K)
      (q : List (Caller K)) (evs : List (Event K V E))
      → (lock_at s l).computing ≡ true
      → (lock_at s l).queue ≡ c ∷ q
      → All (IsWaiting c.key now) q
      → All (IsQuiet l (λ t. fresh s c.key t ≡ none)) evs
      → length (keep (is_wake l) evs) ≤ length q
      → All (λ r. r ≡ raised x) (replies p l evs (fail l x now s).0)
  unfolding fail
  fail-shared p l x now s c q evs busy head waiting quiet fits =
      let stored : State K V E = record s { failures = put c.key (x, now) s.failures } in
      let failed : fail l x now s ≡ (release l stored, raised x) =
        rw busy (ap (λ z. fail_head l x now z s) head) in
      let now_failed : lookup c.key stored.failures ≡ some (x, now) =
        ground (arith, lookup-put c.key c.key (x, now) s.failures, e.beq_iff c.key c.key) in
      let still = SameTables-release l stored in
      rw failed (
        replies-All p l (raised x)
          (λ u. (lookup c.key u.failures ≡ some (x, now)) × (u.cache ≡ s.cache))
          (IsWaiting c.key now) (λ t. fresh s c.key t ≡ none)
          (λ u u' same h. (ap (lookup c.key) same.failures_same ∙ h.0, same.cache_same ∙ h.1))
          (λ d t u h w stale.
            enter-fails l c.key x now d t u w h.0 (fresh-same_cache s u c.key t h.1 ∙ stale))
          evs q (release l stored) (Ahead-release l c q [] stored (head ∙ sym (append-nil (c ∷ q))))
          (ap (lookup c.key) still.failures_same ∙ now_failed, still.cache_same) waiting quiet fits)

  evict-room : (p : Policy V) (s : State K V E) → length s.cache ≤ p.maxsize → evict p s ≡ s
  unfolding evict
  evict-room p s h = ground arith

  evict_failure-keeps :
      (p : Policy V) (s : State K V E)
      → ((evict_failure p s).cache ≡ s.cache) × ((evict_failure p s).heap ≡ s.heap)
  unfolding evict_failure
  evict_failure-keeps p s = ground arith

  fresh-put :
      (s u : State K V E) (k : K) (v : V) (x t : ℕ)
      → u.cache ≡ put k (v, x) s.cache
      → t < x
      → fresh u k t ≡ some v
  unfolding fresh
  fresh-put s u k v x t same early =
      let found : lookup k u.cache ≡ some (v, x) =
        ap (lookup k) same ∙ ground (arith, lookup-put k k (v, x) s.cache, e.beq_iff k k) in
      rw (found, fresh) (ground arith)

  -- When a computation returns and the cache has room for one more entry, each caller queued behind
  -- it is given that result as it is woken, and none computes again. In between, other callers may
  -- arrive, other queues may be woken, computations may be cancelled and callers may leave other
  -- queues, in any order, but no computation returns or raises, the tables are not cleared, and nobody
  -- leaves this queue. The queue is woken only within the time to live, at most once for each of its
  -- callers, which wait for the same key and came no later than the result.
  pub finish-shared :
      (p : Policy V) (l : ℕ) (v : V) (now : ℕ) (s : State K V E) (c : Caller K)
      (q : List (Caller K)) (evs : List (Event K V E))
      → (lock_at s l).computing ≡ true
      → (lock_at s l).queue ≡ c ∷ q
      → length s.cache + 1 ≤ p.maxsize
      → All (IsWaiting c.key now) q
      → All (IsQuiet l (λ t. t < now + ttl_of p v)) evs
      → length (keep (is_wake l) evs) ≤ length q
      → All (λ r. r ≡ value v) (replies p l evs (finish p l v now s).0)
  unfolding finish store
  finish-shared p l v now s c q evs busy head room waiting quiet fits =
      let x = now + ttl_of p v in
      let kept : State K V E = store p c.key v now s in
      let cur : State K V E = evict_failure p (evict p kept) in
      let all_in : evict p kept ≡ kept =
        evict-room p kept (omega (arith, length-put-le c.key (v, x) s.cache)) in
      let same : cur.cache ≡ put c.key (v, x) s.cache =
        (evict_failure-keeps p (evict p kept)).0 ∙ ap (λ (u : State K V E). u.cache) all_in in
      let locks : cur.heap ≡ s.heap =
        (evict_failure-keeps p (evict p kept)).1 ∙ ap (λ (u : State K V E). u.heap) all_in in
      let done : finish p l v now s ≡ (release l cur, value v) =
        rw busy (ap (λ z. finish_head p l v now z s) head) in
      rw done (
        replies-All p l (value v) (λ u. u.cache ≡ cur.cache) (IsWaiting c.key now) (λ t. t < x)
          (λ u u' still h. still.cache_same ∙ h)
          (λ d t u h w early.
            enter-returns l c.key v now d t u w (fresh-put s u c.key v x t (h ∙ same) early))
          evs q (release l cur)
          (Ahead-release l c q [] cur
            (ap (λ h. (or_else (lookup l h) free).queue) locks ∙ head ∙ sym (append-nil (c ∷ q))))
          (SameTables-release l cur).cache_same waiting quiet fits)
