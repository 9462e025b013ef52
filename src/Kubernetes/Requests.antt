-- ===== src/Kubernetes/Requests.antt =====
-- The requests of app/collectors/kubernetes.py: each with the client that it goes through and the
-- headers that it carries.
use node_debug_dashboard.Prelude.{
  ℕ, not, ◌&&◌, Option, none, some, List, [], ◌∷◌, ◌++◌, ◌==◌, if◌then◌else◌, any, is_empty, Text,
  lit, text_eq, starts_with,
}
use node_debug_dashboard.Http.{
  Client, Call, start, call, run_calls, kubernetes_client, local_apiserver_client, etcd_client,
  insecure_client,
}

-- `bearer` of app/httpclient.py
unfoldable pub bearer : Text → List (Text × Text)
unfolding lit
bearer token = if is_empty token then [] else (lit "Authorization", lit "Bearer " ++ token) ∷ []

-- `kubernetes_api_base` of app/httpclient.py, from the two settings of the environment, empty where
-- there is none.
unfoldable pub kubernetes_api_base : Text → Text → Text
unfolding lit starts_with
kubernetes_api_base host port =
    if is_empty host
    then lit "https://kubernetes.default.svc"
    else lit "https://"
      ++ ((if any (λ c. c == b':') host && not (starts_with (lit "[") host)
            then b'[' ∷ host ++ b']' ∷ []
            else host)
          ++ (b':' ∷ (if is_empty port then lit "443" else port)))

-- What the collector gets of each of its clients.
pub record Clients (C : Type 0) : Type 0 where
  pub kubernetes : Option (Client C)
  pub local_apiserver : Option (Client C)
  pub etcd : Option (Client C)
  pub insecure : Option (Client C)

pub record Request (C : Type 0) : Type 0 where
  pub client : Client C
  pub url : Text
  pub headers : List (Text × Text)

-- The times of the certificate files and the contexts that they give, when each client is asked for.
pub record Files (C : Type 0) : Type 0 where
  pub ca : Option (List ℕ)
  pub context : Option C
  pub local_context : Option C
  pub etcd_certs : Option (List ℕ)
  pub etcd_context : Option C

module _ {C : Type 0} where
  -- The clients, each after any calls of its own.
  unfoldable pub clients_after : (Text → List (Call C)) → Files C → Clients C
  unfolding call run_calls lit
  clients_after before files = record {
    kubernetes =
        (call (kubernetes_client files.ca files.context)
          (run_calls (before (lit "kubernetes")) start)).1;
    local_apiserver =
        (call (local_apiserver_client files.ca files.local_context)
          (run_calls (before (lit "apiserver-local")) start)).1;
    etcd =
        (call (etcd_client files.etcd_certs files.etcd_context)
          (run_calls (before (lit "etcd")) start)).1;
    insecure = (call insecure_client (run_calls (before (lit "insecure")) start)).1;
  }

  abbrev pub request_to : Option (Client C) → Text → List (Text × Text) → Option (Request C)
  request_to none url headers = none
  request_to (some c) url headers = some (record { client = c; url = url; headers = headers })

  -- The request of `_k8s_get`: none without a token.
  unfoldable pub k8s_request : Clients C → Text → Text → Text → Option (Request C)
  k8s_request clients base token path =
      if is_empty token then none else request_to clients.kubernetes (base ++ path) (bearer token)

  -- The first of two clients that there is, with what its request carries.
  abbrev pub or_anonymous :
      Option (Client C) → Option (Client C) → Text → List (Text × Text) → Option (Request C)
  or_anonymous (some c) other url headers = request_to (some c) url headers
  or_anonymous none other url headers = request_to other url []

  -- The request of a probe.
  unfoldable pub probe_request : Clients C → Text → Text → Text → Option (Request C)
  unfolding lit text_eq
  probe_request clients token name url =
      if text_eq name (lit "etcd")
      then request_to clients.etcd url []
      else if text_eq name (lit "kube-apiserver")
      then or_anonymous clients.local_apiserver clients.insecure url (bearer token)
      else request_to clients.insecure url []

  -- The request of `collect_k8s_api_endpoint`.
  unfoldable pub endpoint_request : Clients C → Text → Text → Option (Request C)
  unfolding lit
  endpoint_request clients base token =
      if is_empty token
      then request_to clients.insecure (base ++ lit "/healthz") []
      else or_anonymous clients.kubernetes clients.insecure (base ++ lit "/healthz") (bearer token)
