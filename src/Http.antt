-- ===== src/Http.antt =====
-- app/httpclient.py: the HTTP clients that the process shares, as a state machine. What the file
-- system says of the certificate files, and what building an SSL context gives, are arguments of a
-- call; a context is of any type.
pub mod Trust
pub mod Lifetime
mod Tests
use node_debug_dashboard.Prelude.{
  ℕ, ◌+◌, Bool, true, false, not, ◌&&◌, Option, none, some, List, [], ◌∷◌, ◌++◌, map, any, ◌==◌,
  if◌then◌else◌, Text, lit, text_eq, Dict, str_eq, lookup, put,
}

-- How a client checks its peer: not at all, by default, or by a context.
pub data Verify (C : Type 0) : Type 0 where
  unverified : Verify C
  defaults : Verify C
  trusted : C → Verify C

pub record Client (C : Type 0) : Type 0 where
  pub id : ℕ
  pub verify : Verify C

-- `_clients`, `_stamps` and `_retired`, and the clients that are closed.
pub record Pool (C : Type 0) : Type 0 where
  pub clients : Dict Text (Client C)
  pub stamps : Dict Text (List ℕ)
  pub retired : List (Client C)
  pub closed : List ℕ
  pub next_id : ℕ

abbrev pub start : {C : Type 0} → Pool C
start = record { clients = []; stamps = []; retired = []; closed = []; next_id = 0 }

-- `_stamps.get(key) == stamp`
abbrev pub has_stamp : Option (List ℕ) → List ℕ → Bool
has_stamp none stamp = false
has_stamp (some old) stamp = text_eq old stamp

module _ {C : Type 0} where
  unfoldable pub is_closed : Pool C → Client C → Bool
  is_closed s c = any (λ i. i == c.id) s.closed

  abbrev pub fresh_client : Verify C → Pool C → Client C
  fresh_client verify s = record { id = s.next_id; verify = verify }

  -- A new client under a key.
  unfoldable pub install : Text → Verify C → Pool C → Pool C × Client C
  install key verify s = (
    record s { clients = put key (fresh_client verify s) s.clients; next_id = s.next_id + 1 },
    fresh_client verify s,
  )

  -- `_client`
  unfoldable pub shared_client : Text → Verify C → Pool C → Pool C × Client C
  unfolding is_closed install
  shared_client key verify s = elim (lookup key s.clients) [
    | none ↦ install key verify s
    | some c ↦ if is_closed s c then install key verify s else (s, c)
  ]

  -- The client of the key, if it is there and open.
  unfoldable pub open_client : Text → Pool C → Option (Client C)
  unfolding is_closed
  open_client key s = elim (lookup key s.clients) [
    | none ↦ none
    | some c ↦ if is_closed s c then none else some c
  ]

  abbrev pub retire : Option (Client C) → List (Client C) → List (Client C)
  retire none retired = retired
  retire (some c) retired = retired ++ c ∷ []

  -- A client for new certificates; the old one may still be in use.
  unfoldable pub replace : Text → List ℕ → C → Pool C → Pool C
  unfolding open_client
  replace key stamp context s = record s {
    clients = put key (fresh_client (trusted context) s) s.clients;
    stamps = put key stamp s.stamps;
    retired = retire (open_client key s) s.retired;
    next_id = s.next_id + 1;
  }

  abbrev pub rebuild : Text → List ℕ → Option C → Pool C → Pool C × Option (Client C)
  rebuild key stamp none s = (s, none)
  rebuild key stamp (some context) s =
      (replace key stamp context s, some (fresh_client (trusted context) s))

  abbrev pub reuse :
      Text → List ℕ → Option C → Option (Client C) → Pool C → Pool C × Option (Client C)
  reuse key stamp build none s = rebuild key stamp build s
  reuse key stamp build (some c) s =
      if has_stamp (lookup key s.stamps) stamp then (s, some c) else rebuild key stamp build s

  -- `_cert_client`: the files' times, or nothing if one cannot be read, and the context, or nothing if
  -- it cannot be built.
  unfoldable pub cert_client :
      Text → Option (List ℕ) → Option C → Pool C → Pool C × Option (Client C)
  unfolding open_client replace
  cert_client key none build s = (s, none)
  cert_client key (some stamp) build s = reuse key stamp build (open_client key s) s

  abbrev pub ids : List (Client C) → List ℕ
  ids = map (λ c. c.id)

  abbrev pub values : Dict Text (Client C) → List (Client C)
  values = map (λ x. x.1)

  -- `close_clients`
  unfoldable pub close_clients : Pool C → Pool C
  close_clients s = record s {
    clients = [];
    stamps = [];
    retired = [];
    closed = ids (values s.clients) ++ ids s.retired ++ s.closed;
  }

-- The calls of the module.
pub data Call (C : Type 0) : Type 0 where
  kubernetes_client : Option (List ℕ) → Option C → Call C
  local_apiserver_client : Option (List ℕ) → Option C → Call C
  etcd_client : Option (List ℕ) → Option C → Call C
  insecure_client : Call C
  public_client : Call C
  close : Call C

module _ {C : Type 0} where
  abbrev pub some_client : Pool C × Client C → Pool C × Option (Client C)
  some_client (s, c) = (s, some c)

  unfoldable pub call : Call C → Pool C → Pool C × Option (Client C)
  unfolding cert_client shared_client close_clients
  call (kubernetes_client stat build) s = cert_client (lit "kubernetes") stat build s
  call (local_apiserver_client stat build) s = cert_client (lit "apiserver-local") stat build s
  call (etcd_client stat build) s = cert_client (lit "etcd") stat build s
  call insecure_client s = some_client (shared_client (lit "insecure") unverified s)
  call public_client s = some_client (shared_client (lit "public") defaults s)
  call close s = (close_clients s, none)

  unfoldable pub run_calls : List (Call C) → Pool C → Pool C
  unfolding call
  run_calls [] s = s
  run_calls (c ∷ cs) s = run_calls cs (call c s).0
