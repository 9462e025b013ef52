-- ===== src/Http/Lifetime.antt =====
-- No client is lost while it is open: it stands under its key or among the retired ones until all of
-- them are closed. A rotated certificate is picked up.
use node_debug_dashboard.Prelude.{
  ℕ, ◌+◌, ◌<◌, ◌≡◌, ◌⊎◌, inl, inr, refl, sym, ap, ◌∙◌, arith, true, false, Option, none, some, List,
  [], ◌∷◌, ◌++◌, any, ◌==◌, ==_iff, In, In-append_left, In-append_right, Text, lit, Dict, str_eq,
  lookup, put, lookup-put, lookup-put_self, text_eq, text_eq_iff, text_eq_refl, Bool-cases,
  Option-cases,
}
use node_debug_dashboard.Http.{
  Verify, unverified, defaults, trusted, Client, Pool, start, is_closed, fresh_client, install,
  shared_client, open_client, retire, replace, rebuild, reuse, cert_client, close_clients, ids,
  values, Call, kubernetes_client, local_apiserver_client, etcd_client, insecure_client,
  public_client, close, call, run_calls, has_stamp,
}

In-any : (i : ℕ) (xs : List ℕ) → any (λ x. x == i) xs ≡ true → In i xs
In-any i [] h = cc
In-any i (x ∷ xs) h = elim (Bool-cases (x == i)) [
  | inl same ↦ inl (sym ((==_iff x i).0 same))
  | inr other ↦ inr (In-any i xs (ground arith))
]

module _ {C : Type 0} where
  -- A client with this number stands under a key, is retired or is closed.
  abbrev pub IsHeld : Pool C → ℕ → Type 0
  IsHeld s i =
      ((key : Text) × (c : Client C) × (lookup key s.clients ≡ some c) × (c.id ≡ i))
      ⊎ (In i (ids s.retired) ⊎ In i s.closed)

  abbrev pub NoneLost : Pool C → Type 0
  NoneLost s = (i : ℕ) → i < s.next_id → IsHeld s i

  -- An old client is under its key still, or it is the one that is replaced.
  held-put :
      (key : Text) (new : Client C) (d : Dict Text (Client C)) (k : Text) (c : Client C)
      → lookup k d ≡ some c
      → (lookup k (put key new d) ≡ some c) ⊎ (lookup key d ≡ some c)
  held-put key new d k c found = elim (Bool-cases (text_eq key k)) [
    | inl same ↦ let e : key ≡ k = (text_eq_iff key k).0 same in inr (rw e found)
    | inr other ↦ inl (ground (arith, lookup-put key k new d))
  ]

  In-ids_append :
      (i : ℕ) (xs : List (Client C)) (c : Client C) → In i (ids xs) → In i (ids (xs ++ c ∷ []))
  In-ids_append i (x ∷ xs) c (inl e) = inl e
  In-ids_append i (x ∷ xs) c (inr h) = inr (In-ids_append i xs c h)
  In-ids_append i [] c h = absurd h

  In-ids_last : (xs : List (Client C)) (c : Client C) → In c.id (ids (xs ++ c ∷ []))
  In-ids_last [] c = inl refl
  In-ids_last (x ∷ xs) c = inr (In-ids_last xs c)

  In-retire :
      (i : ℕ) (o : Option (Client C)) (xs : List (Client C))
      → In i (ids xs)
      → In i (ids (retire o xs))
  In-retire i none xs h = h
  In-retire i (some c) xs h = In-ids_append i xs c h

  open_client-open :
      (key : Text) (s : Pool C) (c : Client C)
      → lookup key s.clients ≡ some c
      → is_closed s c ≡ false
      → open_client key s ≡ some c
  unfolding open_client
  open_client-open key s c found usable = rw (found, open_client) (rw usable refl)

  -- A client that is replaced is closed, or goes to the retired ones.
  replaced :
      (key : Text) (s : Pool C) (c : Client C)
      → lookup key s.clients ≡ some c
      → In c.id (ids (retire (open_client key s) s.retired)) ⊎ In c.id s.closed
  unfolding is_closed
  replaced key s c found = elim (Bool-cases (is_closed s c)) [
    | inl shut ↦ inr (In-any c.id s.closed shut)
    | inr usable ↦ inl (rw (open_client-open key s c found usable) (In-ids_last s.retired c))
  ]

  -- A step that puts a new client under a key and retires the old one, if that is open.
  put-NoneLost :
      (key : Text) (v : Verify C) (s t : Pool C)
      → NoneLost s
      → t.clients ≡ put key (fresh_client v s) s.clients
      → t.retired ≡ retire (open_client key s) s.retired
      → t.closed ≡ s.closed
      → t.next_id ≡ s.next_id + 1
      → NoneLost t
  put-NoneLost key v s t h clients retired closed next i less = elim (Bool-cases (i == s.next_id)) [
    | inl new ↦ inl (
      key,
      fresh_client v s,
      rw clients (lookup-put_self key (fresh_client v s) s.clients),
      sym ((==_iff i s.next_id).0 new),
    )
    | inr old ↦ elim (h i (ground (arith, less, next))) [
      | inl (k, c, found, id) ↦ elim (held-put key (fresh_client v s) s.clients k c found) [
        | inl still ↦ inl (k, c, rw clients still, id)
        | inr gone ↦ elim (replaced key s c gone) [
          | inl kept ↦ inr (inl (rw (retired, sym id) kept))
          | inr shut ↦ inr (inr (rw (closed, sym id) shut))
        ]
      ]
      | inr (inl kept) ↦ inr (inl (rw retired (In-retire i (open_client key s) s.retired kept)))
      | inr (inr shut) ↦ inr (inr (rw closed shut))
    ]
  ]

  replace-NoneLost :
      (key : Text) (stamp : List ℕ) (context : C) (s : Pool C)
      → NoneLost s
      → NoneLost (replace key stamp context s)
  unfolding replace open_client
  replace-NoneLost key stamp context s h =
      put-NoneLost key (trusted context) s (replace key stamp context s) h refl refl refl refl

  cert_client-NoneLost :
      (key : Text) (stat : Option (List ℕ)) (build : Option C) (s : Pool C)
      → NoneLost s
      → NoneLost (cert_client key stat build s).0
  unfolding cert_client
  cert_client-NoneLost key none build s h = h
  cert_client-NoneLost key (some stamp) build s h = reuse-NoneLost build (open_client key s)
    where
      rebuild-NoneLost : (b : Option C) → NoneLost (rebuild key stamp b s).0
      rebuild-NoneLost none = h
      rebuild-NoneLost (some context) = replace-NoneLost key stamp context s h

      reuse-NoneLost : (b : Option C) (o : Option (Client C)) → NoneLost (reuse key stamp b o s).0
      reuse-NoneLost b none = rebuild-NoneLost b
      reuse-NoneLost b (some c) = elim (Bool-cases (has_stamp (lookup key s.stamps) stamp)) [
        | inl same ↦ rw same h
        | inr other ↦ rw other (rebuild-NoneLost b)
      ]

  install-NoneLost :
      (key : Text) (v : Verify C) (s : Pool C)
      → open_client key s ≡ none
      → NoneLost s
      → NoneLost (install key v s).0
  unfolding install
  install-NoneLost key v s idle h =
      put-NoneLost key v s (install key v s).0 h refl (ap (λ o. retire o s.retired) (sym idle)) refl
        refl

  shared_client-NoneLost :
      (key : Text) (v : Verify C) (s : Pool C) → NoneLost s → NoneLost (shared_client key v s).0
  unfolding shared_client open_client
  shared_client-NoneLost key v s h = elim (Option-cases (lookup key s.clients)) [
    | inl miss ↦ rw (miss, shared_client) (install-NoneLost key v s (rw (miss, open_client) refl) h)
    | inr (c, found) ↦ elim (Bool-cases (is_closed s c)) [
      | inl shut ↦
          rw (found, shared_client)
            (rw shut (install-NoneLost key v s (rw (found, open_client) (rw shut refl)) h))
      | inr usable ↦ rw (found, shared_client) (rw usable h)
    ]
  ]

  lookup-values :
      (key : Text) (c : Client C) (d : Dict Text (Client C))
      → lookup key d ≡ some c
      → In c.id (ids (values d))
  unfolding lookup
  lookup-values key c [] h = cc
  lookup-values key c ((k, x) ∷ d) h = elim (Bool-cases (text_eq k key)) [
    | inl same ↦ inl (ground arith)
    | inr other ↦ inr (lookup-values key c d (ground arith))
  ]

  close-held : (s : Pool C) (i : ℕ) → IsHeld s i → In i (close_clients s).closed
  unfolding close_clients
  close-held s i (inl (key, c, found, id)) =
      In-append_left i (ids (values s.clients) ++ ids s.retired) s.closed (
        In-append_left i (ids (values s.clients)) (ids s.retired)
          (rw (sym id) (lookup-values key c s.clients found)))
  close-held s i (inr (inl kept)) =
      In-append_left i (ids (values s.clients) ++ ids s.retired) s.closed
        (In-append_right i (ids (values s.clients)) (ids s.retired) kept)
  close-held s i (inr (inr shut)) =
      In-append_right i (ids (values s.clients) ++ ids s.retired) s.closed shut

  call-NoneLost : (x : Call C) (s : Pool C) → NoneLost s → NoneLost (call x s).0
  unfolding call
  call-NoneLost (kubernetes_client stat build) s h =
      cert_client-NoneLost (lit "kubernetes") stat build s h
  call-NoneLost (local_apiserver_client stat build) s h =
      cert_client-NoneLost (lit "apiserver-local") stat build s h
  call-NoneLost (etcd_client stat build) s h = cert_client-NoneLost (lit "etcd") stat build s h
  call-NoneLost insecure_client s h = shared_client-NoneLost (lit "insecure") unverified s h
  call-NoneLost public_client s h = shared_client-NoneLost (lit "public") defaults s h
  call-NoneLost close s h = λ i less. inr (inr (close-held s i (h i less)))

  run-NoneLost : (xs : List (Call C)) (s : Pool C) → NoneLost s → NoneLost (run_calls xs s)
  unfolding run_calls
  run-NoneLost [] s h = h
  run-NoneLost (x ∷ xs) s h = run-NoneLost xs (call x s).0 (call-NoneLost x s h)

  -- Whatever was called before, closing the clients closes every one that was ever made, the replaced
  -- ones included.
  pub close_clients-all :
      (xs : List (Call C)) (i : ℕ)
      → i < (run_calls xs (start {C = C})).next_id
      → In i (close_clients (run_calls xs start)).closed
  close_clients-all xs i less =
      close-held (run_calls xs start) i (run-NoneLost xs start (λ j l. absurd (omega arith)) i less)

  reuse-changed :
      (key : Text) (stamp : List ℕ) (b : Option C) (o : Option (Client C)) (s : Pool C)
      → has_stamp (lookup key s.stamps) stamp ≡ false
      → reuse key stamp b o s ≡ rebuild key stamp b s
  reuse-changed key stamp b none s changed = refl
  reuse-changed key stamp b (some c) s changed = rw changed refl

  cert_client-changed :
      (key : Text) (stamp : List ℕ) (b : Option C) (s : Pool C)
      → has_stamp (lookup key s.stamps) stamp ≡ false
      → cert_client key (some stamp) b s ≡ rebuild key stamp b s
  unfolding cert_client
  cert_client-changed key stamp b s changed =
      reuse-changed key stamp b (open_client key s) s changed

  reuse-same :
      (key : Text) (stamp : List ℕ) (b : Option C) (o : Option (Client C)) (c : Client C)
      (s : Pool C)
      → o ≡ some c
      → has_stamp (lookup key s.stamps) stamp ≡ true
      → (reuse key stamp b o s).1 ≡ some c
  reuse-same key stamp b none c s there same = cc
  reuse-same key stamp b (some d) c s there same = rw same there

  cert_client-replaced :
      (key : Text) (stamp : List ℕ) (context : C) (b : Option C) (s : Pool C)
      → is_closed s (fresh_client (trusted context) s) ≡ false
      → (cert_client key (some stamp) b (replace key stamp context s)).1
        ≡ some (fresh_client (trusted context) s)
  unfolding cert_client replace is_closed
  cert_client-replaced key stamp context b s usable =
      let t : Pool C = replace key stamp context s in
      reuse-same key stamp b (open_client key t) (fresh_client (trusted context) s) t
        (open_client-open key t (fresh_client (trusted context) s)
          (lookup-put_self key (fresh_client (trusted context) s) s.clients) usable)
        (rw (lookup-put_self key stamp s.stamps) (text_eq_refl stamp))

  -- When the times of the certificate files differ from those on record and a context can be
  -- built, the client that is given checks with that context; while it is open, the next call with
  -- the same times gives it again.
  pub cert_client-rotates :
      (key : Text) (stamp : List ℕ) (context : C) (build : Option C) (s : Pool C)
      → has_stamp (lookup key s.stamps) stamp ≡ false
      → (c : Client C) × ((cert_client key (some stamp) (some context) s).1 ≡ some c)
        × (c.verify ≡ trusted context)
        × (is_closed s c ≡ false
            → (cert_client key
                (some stamp)
                build
                (cert_client key (some stamp) (some context) s).0).1
              ≡ some c)
  cert_client-rotates key stamp context build s changed =
      let rebuilt = cert_client-changed key stamp (some context) s changed in
      (
        fresh_client (trusted context) s,
        ap (λ r. r.1) rebuilt,
        refl,
        λ usable.
            ap (λ r. (cert_client key (some stamp) build r.0).1) rebuilt
            ∙ cert_client-replaced key stamp context build s usable,
      )
