-- ===== src/Kubernetes/Secrecy.antt =====
-- The token of the service account goes to verified peers only.
use node_debug_dashboard.Prelude.{
  ◌≡◌, ◌≢◌, ◌⊎◌, inl, inr, refl, Bool-cases, Option, none, some, List, [], ◌++◌, is_empty, Text,
  lit, text_eq,
}
use mathlib.Core.Path.{subst}
use node_debug_dashboard.Http.{Client, Call, trusted}
use node_debug_dashboard.Http.Trust.{cert_clients-trusted}
use node_debug_dashboard.Kubernetes.Requests.{
  Request, Clients, Files, clients_after, bearer, request_to, or_anonymous, k8s_request,
  probe_request, endpoint_request,
}

module _ {C : Type 0} where
  -- A request that carries a header goes through a client that checks its peer with a context.
  abbrev pub IsVerified : Request C → Type 0
  IsVerified r = r.headers ≢ [] → (context : C) × (r.client.verify ≡ trusted context)

  abbrev IsSecret : Option (Request C) → Type 0
  IsSecret none = Unit
  IsSecret (some r) = IsVerified r

  abbrev IsTrusted : Option (Client C) → Type 0
  IsTrusted none = Unit
  IsTrusted (some c) = (context : C) × (c.verify ≡ trusted context)

  given-IsTrusted :
      (o : Option (Client C))
      → ((c : Client C) → o ≡ some c → (context : C) × (c.verify ≡ trusted context))
      → IsTrusted o
  given-IsTrusted none h = tt
  given-IsTrusted (some c) h = h c refl

  anonymous-IsSecret : (o : Option (Client C)) (url : Text) → IsSecret (request_to o url [])
  anonymous-IsSecret none url = tt
  anonymous-IsSecret (some c) url = λ full. absurd (full refl)

  request_to-IsSecret :
      (o : Option (Client C)) (url : Text) (headers : List (Text × Text))
      → IsTrusted o
      → IsSecret (request_to o url headers)
  request_to-IsSecret none url headers t = tt
  request_to-IsSecret (some c) url headers t = λ full. t

  or_anonymous-IsSecret :
      (o other : Option (Client C)) (url : Text) (headers : List (Text × Text))
      → IsTrusted o
      → IsSecret (or_anonymous o other url headers)
  or_anonymous-IsSecret none other url headers t = anonymous-IsSecret other url
  or_anonymous-IsSecret (some c) other url headers t = λ full. t

  -- The clients that may carry the token.
  abbrev IsGuarded : Clients C → Type 0
  IsGuarded clients = IsTrusted clients.kubernetes × IsTrusted clients.local_apiserver

  clients_after-IsGuarded :
      (before : Text → List (Call C)) (files : Files C) → IsGuarded (clients_after before files)
  unfolding clients_after
  clients_after-IsGuarded before files = (
    given-IsTrusted (clients_after before files).kubernetes
        (λ c e. cert_clients-trusted (before (lit "kubernetes")) files.ca files.context c (inl e)),
    given-IsTrusted (clients_after before files).local_apiserver (λ c e.
        cert_clients-trusted (before (lit "apiserver-local")) files.ca files.local_context c
          (inr (inl e))),
  )

  k8s_request-IsSecret :
      (clients : Clients C) (base token path : Text)
      → IsGuarded clients
      → IsSecret (k8s_request clients base token path)
  unfolding k8s_request
  k8s_request-IsSecret clients base token path g = elim (Bool-cases (is_empty token)) [
    | inl e ↦ rw (e, IsSecret) tt
    | inr e ↦
        rw (e, IsSecret) (request_to-IsSecret clients.kubernetes (base ++ path) (bearer token) g.0)
  ]

  probe_request-IsSecret :
      (clients : Clients C) (token name url : Text)
      → IsGuarded clients
      → IsSecret (probe_request clients token name url)
  unfolding probe_request
  probe_request-IsSecret clients token name url g = elim (Bool-cases (text_eq name (lit "etcd"))) [
    | inl e ↦ rw (e, IsSecret) (anonymous-IsSecret clients.etcd url)
    | inr e ↦ elim (Bool-cases (text_eq name (lit "kube-apiserver"))) [
      | inl a ↦
          rw (e, a, IsSecret)
            (or_anonymous-IsSecret clients.local_apiserver clients.insecure url (bearer token) g.1)
      | inr a ↦ rw (e, a, IsSecret) (anonymous-IsSecret clients.insecure url)
    ]
  ]

  endpoint_request-IsSecret :
      (clients : Clients C) (base token : Text)
      → IsGuarded clients
      → IsSecret (endpoint_request clients base token)
  unfolding endpoint_request
  endpoint_request-IsSecret clients base token g = elim (Bool-cases (is_empty token)) [
    | inl e ↦ rw (e, IsSecret) (anonymous-IsSecret clients.insecure (base ++ lit "/healthz"))
    | inr e ↦
        rw (e, IsSecret)
          (or_anonymous-IsSecret clients.kubernetes clients.insecure (base ++ lit "/healthz")
            (bearer token) g.0)
  ]

  -- Whatever was asked of the shared clients before and whatever the certificate files are: a request
  -- to the API server, a probe of a component and the check of the API endpoint carry a header only
  -- through a client that checks its peer with a context built from the files.
  pub token-verified :
      (before : Text → List (Call C)) (files : Files C) (base token path name url : Text)
      (r : Request C)
      → k8s_request (clients_after before files) base token path ≡ some r
        ⊎ probe_request (clients_after before files) token name url ≡ some r
        ⊎ endpoint_request (clients_after before files) base token ≡ some r
      → r.headers ≢ []
      → (context : C) × (r.client.verify ≡ trusted context)
  token-verified before files base token path name url r given =
      let clients : Clients C = clients_after before files in
      let g : IsGuarded clients = clients_after-IsGuarded before files in
      elim given [
        | inl e ↦ subst IsSecret e (k8s_request-IsSecret clients base token path g)
        | inr (inl e) ↦ subst IsSecret e (probe_request-IsSecret clients token name url g)
        | inr (inr e) ↦ subst IsSecret e (endpoint_request-IsSecret clients base token g)
      ]
