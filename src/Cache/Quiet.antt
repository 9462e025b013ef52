-- ===== src/Cache/Quiet.antt =====
-- The events between a computation and the moment at which a caller queued behind it is woken: those
-- that leave the results, the failures and the front of the queue as they are.
use mathlib.Core.List.{append_assoc}
use mathlib.Core.Path.{subst}
use node_debug_dashboard.Prelude.{
  ℕ, ◌≡◌, inl, inr, refl, sym, ap, ◌∙◌, arith, Bool, true, false, Bool-cases, List, [], ◌∷◌, ◌++◌,
  ◌==◌, ==_iff, Eq, nat_eq, lookup, lookup-put, Option-cases,
}
use node_debug_dashboard.Cache.{
  Policy, State, Lock, lock_at, set_lock, Caller, Event, arrives, wakes, cancels, leaves, step,
  release, arrive, acquire, lock_for, wake, resume, enter, fresh, shared_failure, cancel, leave,
}

-- A caller arrives, a queue is woken, a computation is cancelled, or a caller leaves another queue. The
-- times at which this lock's own queue is woken are those that `T` allows.
abbrev pub IsQuiet : {K V E : Type 0} → ℕ → (ℕ → Type 0) → Event K V E → Type 0
IsQuiet l T (arrives id k now) = Unit
IsQuiet l T (wakes m t) = m ≡ l → T t
IsQuiet l T (cancels m) = Unit
IsQuiet l T (leaves m id) = ¬ (m ≡ l)
IsQuiet l T _ = ⊥

distinct : (m l : ℕ) → (m == l) ≡ false → ¬ (m ≡ l)
distinct m l b same = cc (b, (==_iff m l).1 same)

module _ {K V E : Type 0} ⦃e : Eq K⦄ where
  pub lock_at-set_lock :
      (l : ℕ) (lock : Lock K) (s : State K V E) → lock_at (set_lock l lock s) l ≡ lock
  unfolding set_lock
  lock_at-set_lock l lock s = ground (arith, lookup-put l l lock s.heap)

  -- Nothing has happened to the two tables.
  pub record SameTables (s s' : State K V E) : Type 0 where
    pub cache_same : s'.cache ≡ s.cache
    pub failures_same : s'.failures ≡ s.failures

  -- Nor to the lock.
  record Same (l : ℕ) (s s' : State K V E) : Type 0 where
    tables : SameTables s s'
    lock_same : lock_at s' l ≡ lock_at s l

  SameTables-refl : (s : State K V E) → SameTables s s
  SameTables-refl s = record { cache_same = refl; failures_same = refl }

  Same-refl : (l : ℕ) (s : State K V E) → Same l s s
  Same-refl l s = record { tables = SameTables-refl s; lock_same = refl }

  Same-trans : (l : ℕ) {s t u : State K V E} → Same l s t → Same l t u → Same l s u
  Same-trans l a b = record {
    tables = record {
      cache_same = b.tables.cache_same ∙ a.tables.cache_same;
      failures_same = b.tables.failures_same ∙ a.tables.failures_same;
    };
    lock_same = b.lock_same ∙ a.lock_same;
  }

  pub SameTables-set_lock :
      (m : ℕ) (lock : Lock K) (s : State K V E) → SameTables s (set_lock m lock s)
  unfolding set_lock
  SameTables-set_lock m lock s = record { cache_same = refl; failures_same = refl }

  pub SameTables-release : (m : ℕ) (s : State K V E) → SameTables s (release m s)
  unfolding release
  SameTables-release m s = SameTables-set_lock m _ s

  Same-set_lock :
      (l m : ℕ) (lock : Lock K) (s : State K V E) → ¬ (m ≡ l) → Same l s (set_lock m lock s)
  Same-set_lock l m lock s other = record {
    tables = SameTables-set_lock m lock s;
    lock_same = elsewhere;
  }
    where
      elsewhere : lock_at (set_lock m lock s) l ≡ lock_at s l
      elsewhere = unfold set_lock in ground (arith, lookup-put m l lock s.heap)

  Same-enter :
      (l m : ℕ) (c : Caller K) (t : ℕ) (s : State K V E) → ¬ (m ≡ l) → Same l s (enter m c t s).0
  unfolding enter release
  Same-enter l m c t s other = elim (Option-cases (fresh s c.key t)) [
    | inr (v, hit) ↦ rw (hit, enter) (Same-set_lock l m _ s other)
    | inl miss ↦ elim (Option-cases (shared_failure s c)) [
      | inr (x, failed) ↦ rw (miss, enter) (rw failed (Same-set_lock l m _ s other))
      | inl new ↦ rw (miss, enter) (rw new (Same-set_lock l m _ s other))
    ]
  ]

  Same-resume :
      (l m t : ℕ) (q : List (Caller K)) (s : State K V E) → ¬ (m ≡ l) → Same l s (resume m t q s).0
  unfolding resume
  Same-resume l m t [] s other = Same-refl l s
  Same-resume l m t (c ∷ q) s other = Same-enter l m c t s other

  Same-wake : (l m t : ℕ) (s : State K V E) → ¬ (m ≡ l) → Same l s (wake m t s).0
  unfolding wake
  Same-wake l m t s other = elim (Bool-cases (lock_at s m).computing) [
    | inl b ↦ rw b (Same-refl l s)
    | inr b ↦ rw b (Same-resume l m t (lock_at s m).queue s other)
  ]

  -- The callers at the front of a free lock's queue.
  pub record Ahead (l : ℕ) (q : List (Caller K)) (s : State K V E) : Type 0 where
    pub behind : List (Caller K)
    pub queue_eq : (lock_at s l).queue ≡ q ++ behind
    pub idle : (lock_at s l).computing ≡ false

  -- The tables are as before, and so is the front of the queue.
  pub record Undisturbed (l : ℕ) (q : List (Caller K)) (s s' : State K V E) : Type 0 where
    pub tables : SameTables s s'
    pub ahead : Ahead l q s'

  Undisturbed-Same :
      (l : ℕ) (q : List (Caller K)) {s s' : State K V E}
      → Ahead l q s
      → Same l s s'
      → Undisturbed l q s s'
  Undisturbed-Same l q a same = record {
    tables = same.tables;
    ahead = record {
      behind = a.behind;
      queue_eq = ap (λ (x : Lock K). x.queue) same.lock_same ∙ a.queue_eq;
      idle = ap (λ (x : Lock K). x.computing) same.lock_same ∙ a.idle;
    };
  }

  Undisturbed-cancel :
      (l m : ℕ) (q : List (Caller K)) (s : State K V E)
      → Ahead l q s
      → Undisturbed l q s (cancel m s).0
  unfolding cancel release
  Undisturbed-cancel l m q s a = elim (Bool-cases (lock_at s m).computing) [
    | inr b ↦ rw b (Undisturbed-Same l q a (Same-refl l s))
    | inl b ↦ rw b (Undisturbed-Same l q a (Same-set_lock l m _ s (busy b)))
  ]
    where
      busy : (lock_at s m).computing ≡ true → ¬ (m ≡ l)
      busy b same = cc (b, a.idle, ap (λ n. (lock_at s n).computing) same)

  Same-lock_for : (l : ℕ) (k : K) (s : State K V E) → Same l s (lock_for k s).1
  unfolding lock_for
  Same-lock_for l k s = elim (Option-cases (lookup k s.locks)) [
    | inr (m, known) ↦ rw (known, lock_for) (Same-refl l s)
    | inl new ↦
        rw (new, lock_for)
          (record { tables = record { cache_same = refl; failures_same = refl }; lock_same = refl })
  ]

  -- A caller that joins another lock's queue.
  Same-acquire :
      (l m : ℕ) (c : Caller K) (t : ℕ) (q : List (Caller K)) (b : Bool) (s : State K V E)
      → ¬ (m ≡ l)
      → Same l s (acquire m c t q b s).0
  unfolding acquire
  Same-acquire l m c t [] b s other =
      Same-trans l (Same-set_lock l m _ s other) (Same-enter l m c t _ other)
  Same-acquire l m c t (d ∷ ds) b s other = Same-set_lock l m _ s other

  -- A caller that joins the end of this one, where somebody waits already.
  Undisturbed-joins :
      (l : ℕ) (c d : Caller K) (t : ℕ) (q w : List (Caller K)) (b : Bool) (s : State K V E)
      → Ahead l (d ∷ q) s
      → w ≡ (lock_at s l).queue
      → b ≡ (lock_at s l).computing
      → Undisturbed l (d ∷ q) s (acquire l c t w b s).0
  unfolding acquire
  Undisturbed-joins l c d t q [] b s a same quiet = absurd (cc (same, a.queue_eq))
  Undisturbed-joins l c d t q (x ∷ xs) b s a same quiet =
      let lock : Lock K = record { queue = (x ∷ xs) ++ c ∷ []; computing = b } in
      let back = lock_at-set_lock l lock s in
      record {
        tables = SameTables-set_lock l lock s;
        ahead = record {
          behind = a.behind ++ c ∷ [];
          queue_eq =
              ap (λ (y : Lock K). y.queue) back
              ∙ ap (λ y. y ++ c ∷ []) (same ∙ a.queue_eq)
              ∙ append_assoc (d ∷ q) a.behind (c ∷ []);
          idle = ap (λ (y : Lock K). y.computing) back ∙ quiet ∙ a.idle;
        };
      }

  Undisturbed-acquire :
      (l m : ℕ) (c d : Caller K) (t : ℕ) (q : List (Caller K)) (s : State K V E)
      → Ahead l (d ∷ q) s
      → Undisturbed l (d ∷ q) s (acquire m c t (lock_at s m).queue (lock_at s m).computing s).0
  Undisturbed-acquire l m c d t q s a = elim (Bool-cases (m == l)) [
    | inl b ↦
        let same : l ≡ m = sym ((==_iff m l).0 b) in
        subst
          (λ n.
            Undisturbed l (d ∷ q) s (acquire n c t (lock_at s n).queue (lock_at s n).computing s).0)
          same (Undisturbed-joins l c d t q _ _ s a refl refl)
    | inr b ↦ Undisturbed-Same l (d ∷ q) a (Same-acquire l m c t _ _ s (distinct m l b))
  ]

  Undisturbed-trans :
      (l : ℕ) (q : List (Caller K)) {s t u : State K V E}
      → SameTables s t
      → Undisturbed l q t u
      → Undisturbed l q s u
  Undisturbed-trans l q a b = record {
    tables = record {
      cache_same = b.tables.cache_same ∙ a.cache_same;
      failures_same = b.tables.failures_same ∙ a.failures_same;
    };
    ahead = b.ahead;
  }

  Undisturbed-arrive :
      (l id : ℕ) (k : K) (t : ℕ) (d : Caller K) (q : List (Caller K)) (s : State K V E)
      → Ahead l (d ∷ q) s
      → Undisturbed l (d ∷ q) s (arrive id k t s).0
  unfolding arrive
  Undisturbed-arrive l id k t d q s a = elim (Option-cases (fresh s k t)) [
    | inr (v, hit) ↦ rw (hit, arrive) (Undisturbed-Same l (d ∷ q) a (Same-refl l s))
    | inl miss ↦
        let named = Same-lock_for l k s in
        let there = Undisturbed-Same l (d ∷ q) a named in
        rw (miss, arrive)
          (Undisturbed-trans l (d ∷ q) named.tables (
            Undisturbed-acquire l (lock_for k s).0 (record { id = id; key = k; arrived = t }) d t q
              (lock_for k s).1 there.ahead))
  ]

-- Such an event, other than the waking of the lock itself, leaves the tables and the front of the
-- lock's queue as they are.
module _ {K V E : Type 0} ⦃e : Eq K⦄ where
  abbrev pub is_wake : ℕ → Event K V E → Bool
  is_wake l (wakes m t) = m == l
  is_wake l _ = false

  pub step-Undisturbed :
      (p : Policy V) (l : ℕ) (T : ℕ → Type 0) (ev : Event K V E) (d : Caller K)
      (q : List (Caller K)) (s : State K V E)
      → IsQuiet l T ev
      → is_wake l ev ≡ false
      → Ahead l (d ∷ q) s
      → Undisturbed l (d ∷ q) s (step p ev s).0
  unfolding step
  step-Undisturbed p l T (arrives id k t) d q s h n a = Undisturbed-arrive l id k t d q s a
  step-Undisturbed p l T (wakes m t) d q s h n a =
      Undisturbed-Same l (d ∷ q) a (Same-wake l m t s (distinct m l n))
  step-Undisturbed p l T (cancels m) d q s h n a = Undisturbed-cancel l m (d ∷ q) s a
  step-Undisturbed p l T (leaves m id) d q s h n a =
      Undisturbed-Same l (d ∷ q) a (unfold leave in Same-set_lock l m _ s h)
  step-Undisturbed p l T (Event.returns m v t) d q s h n a = absurd h
  step-Undisturbed p l T (Event.raises m x t) d q s h n a = absurd h
  step-Undisturbed p l T Event.clears d q s h n a = absurd h
