-- ===== src/Http/Trust.antt =====
-- The clients that carry the service account token check their peer.
use node_debug_dashboard.Prelude.{
  ℕ, ◌≡◌, ◌≢◌, ◌⊎◌, inl, inr, refl, sym, ap, ◌∙◌, arith, Option, none, some, List, [], ◌∷◌, Text,
  lit, str_eq, lookup, lookup-put, lookup-put_ne, text_eq, Bool-cases, Option-cases,
}
use mathlib.Core.Option.{some-injective}
use node_debug_dashboard.Http.{
  Verify, unverified, defaults, trusted, Client, Pool, start, is_closed, install, shared_client,
  open_client, replace, rebuild, reuse, cert_client, close_clients, Call, kubernetes_client,
  local_apiserver_client, etcd_client, insecure_client, public_client, close, call, run_calls,
  has_stamp,
}

abbrev pub IsTrusted : {C : Type 0} → Client C → Type 0
IsTrusted {C} c = (context : C) × (c.verify ≡ trusted context)

abbrev pub IsCertKey : Text → Type 0
IsCertKey key = (lit "insecure" ≢ key) × (lit "public" ≢ key)

kubernetes-IsCertKey : IsCertKey (lit "kubernetes")
unfolding lit
kubernetes-IsCertKey = (λ e. cc, λ e. cc)

apiserver-IsCertKey : IsCertKey (lit "apiserver-local")
unfolding lit
apiserver-IsCertKey = (λ e. cc, λ e. cc)

etcd-IsCertKey : IsCertKey (lit "etcd")
unfolding lit
etcd-IsCertKey = (λ e. cc, λ e. cc)

module _ {C : Type 0} where
  -- The clients under every other key were built from certificates.
  pub record IsSafe (s : Pool C) : Type 0 where
    pub safe :
        (key : Text) (c : Client C) → IsCertKey key → lookup key s.clients ≡ some c → IsTrusted c

  open_client-lookup :
      (key : Text) (s : Pool C) (c : Client C)
      → open_client key s ≡ some c
      → lookup key s.clients ≡ some c
  unfolding open_client
  open_client-lookup key s c h = elim (Option-cases (lookup key s.clients)) [
    | inl miss ↦ ground arith
    | inr (d, found) ↦ ground arith
  ]

  replace-IsSafe :
      (key : Text) (stamp : List ℕ) (context : C) (s : Pool C)
      → IsSafe s
      → IsSafe (replace key stamp context s)
  unfolding replace
  replace-IsSafe key stamp context s h = record {
    safe = λ k c cert found. elim (Bool-cases (text_eq key k)) [
      | inl same ↦ (
        context,
        ground (
          arith,
          lookup-put key k (record { id = s.next_id; verify = trusted context }) s.clients,
        ),
      )
      | inr other ↦ h.safe k c cert (
          ground (
            arith,
            lookup-put key k (record { id = s.next_id; verify = trusted context }) s.clients,
          ))
    ];
  }

  -- After the step the pool is safe, and so is the client that it gave.
  record IsGood (r : Pool C × Option (Client C)) : Type 0 where
    pool : IsSafe r.0
    given : (c : Client C) → r.1 ≡ some c → IsTrusted c

  rebuild-IsGood :
      (key : Text) (stamp : List ℕ) (build : Option C) (s : Pool C)
      → IsSafe s
      → IsGood (rebuild key stamp build s)
  rebuild-IsGood key stamp none s h = record { pool = h; given = λ c e. cc }
  rebuild-IsGood key stamp (some context) s h = record {
    pool = replace-IsSafe key stamp context s h;
    given = λ c e. (context, ap (λ (d : Client C). d.verify) (sym (some-injective _ _ e)));
  }

  reuse-IsGood :
      (key : Text) (stamp : List ℕ) (build : Option C) (o : Option (Client C)) (s : Pool C)
      → IsSafe s
      → ((c : Client C) → o ≡ some c → IsTrusted c)
      → IsGood (reuse key stamp build o s)
  reuse-IsGood key stamp build none s h k = rebuild-IsGood key stamp build s h
  reuse-IsGood key stamp build (some c) s h k =
      elim (Bool-cases (has_stamp (lookup key s.stamps) stamp)) [
        | inl same ↦ rw same (record { pool = h; given = k })
        | inr other ↦ rw other (rebuild-IsGood key stamp build s h)
      ]

  cert_client-IsGood :
      (key : Text) (stat : Option (List ℕ)) (build : Option C) (s : Pool C)
      → IsCertKey key
      → IsSafe s
      → IsGood (cert_client key stat build s)
  unfolding cert_client
  cert_client-IsGood key none build s cert h = record { pool = h; given = λ c e. cc }
  cert_client-IsGood key (some stamp) build s cert h =
      reuse-IsGood key stamp build (open_client key s) s h
        (λ c e. h.safe key c cert (open_client-lookup key s c e))

  install-IsSafe :
      (key : Text) (v : Verify C) (s : Pool C)
      → ¬ (IsCertKey key)
      → IsSafe s
      → IsSafe (install key v s).0
  unfolding install
  install-IsSafe key v s plain h = record {
    safe = λ k c cert found.
        let other : key ≢ k = λ e. plain (rw e cert) in
        h.safe k c cert (
          sym (lookup-put_ne key k (record { id = s.next_id; verify = v }) s.clients other)
          ∙ found);
  }

  shared_client-IsSafe :
      (key : Text) (v : Verify C) (s : Pool C)
      → ¬ (IsCertKey key)
      → IsSafe s
      → IsSafe (shared_client key v s).0
  unfolding shared_client
  shared_client-IsSafe key v s plain h = elim (Option-cases (lookup key s.clients)) [
    | inl miss ↦ rw (miss, shared_client) (install-IsSafe key v s plain h)
    | inr (c, found) ↦ elim (Bool-cases (is_closed s c)) [
      | inl shut ↦ rw (found, shared_client) (rw shut (install-IsSafe key v s plain h))
      | inr usable ↦ rw (found, shared_client) (rw usable h)
    ]
  ]

  call-IsSafe : (x : Call C) (s : Pool C) → IsSafe s → IsSafe (call x s).0
  unfolding call close_clients lookup
  call-IsSafe (kubernetes_client stat build) s h =
      (cert_client-IsGood (lit "kubernetes") stat build s kubernetes-IsCertKey h).pool
  call-IsSafe (local_apiserver_client stat build) s h =
      (cert_client-IsGood (lit "apiserver-local") stat build s apiserver-IsCertKey h).pool
  call-IsSafe (etcd_client stat build) s h =
      (cert_client-IsGood (lit "etcd") stat build s etcd-IsCertKey h).pool
  call-IsSafe insecure_client s h =
      shared_client-IsSafe (lit "insecure") unverified s (λ k. k.0 refl) h
  call-IsSafe public_client s h = shared_client-IsSafe (lit "public") defaults s (λ k. k.1 refl) h
  call-IsSafe close s h = record { safe = λ k c cert found. cc }

  run-IsSafe : (xs : List (Call C)) (s : Pool C) → IsSafe s → IsSafe (run_calls xs s)
  unfolding run_calls
  run-IsSafe [] s h = h
  run-IsSafe (x ∷ xs) s h = run-IsSafe xs (call x s).0 (call-IsSafe x s h)

  start-IsSafe : IsSafe (start {C = C})
  unfolding lookup
  start-IsSafe = record { safe = λ k c cert found. cc }

  -- Whatever was called before, each of the three clients that may carry a token or a client
  -- certificate, if one is given at all, checks its peer with a context built from the files.
  pub cert_clients-trusted :
      (xs : List (Call C)) (stat : Option (List ℕ)) (build : Option C) (c : Client C)
      → (call (kubernetes_client stat build) (run_calls xs start)).1 ≡ some c
        ⊎ (call (local_apiserver_client stat build) (run_calls xs start)).1 ≡ some c
        ⊎ (call (etcd_client stat build) (run_calls xs start)).1 ≡ some c
      → (context : C) × (c.verify ≡ trusted context)
  unfolding call
  cert_clients-trusted xs stat build c given =
      let s : Pool C = run_calls xs start in
      let h : IsSafe s = run-IsSafe xs start start-IsSafe in
      elim given [
        | inl k ↦
            (cert_client-IsGood (lit "kubernetes") stat build s kubernetes-IsCertKey h).given c k
        | inr (inl k) ↦
            (cert_client-IsGood (lit "apiserver-local") stat build s apiserver-IsCertKey h).given c
              k
        | inr (inr k) ↦ (cert_client-IsGood (lit "etcd") stat build s etcd-IsCertKey h).given c k
      ]
