-- ===== src/Http/Tests.antt =====
-- Calls of the clients; a context is a number here.
use node_debug_dashboard.Prelude.{
  ℕ, ◌≡◌, inl, refl, arith, none, some, List, [], ◌∷◌, In, lit, text_eq, lookup, put, str_eq, false,
}
use node_debug_dashboard.Http.{
  trusted, Client, start, is_closed, install, shared_client, open_client, replace, cert_client,
  close_clients, Call, kubernetes_client, insecure_client, call, run_calls,
}
use node_debug_dashboard.Http.Trust.{cert_clients-trusted}
use node_debug_dashboard.Http.Lifetime.{close_clients-all, cert_client-rotates}

program : Unit {0}
unfolding is_closed install shared_client open_client replace cert_client close_clients call
    run_calls lookup put lit text_eq
program = tt

-- The certificates are rotated between the second and the third call.
abbrev calls : List (Call ℕ)
calls =
    insecure_client
    ∷ kubernetes_client (some (5 ∷ [])) (some 50)
    ∷ kubernetes_client (some (6 ∷ [])) (some 60)
    ∷ []

rotated :
    ((run_calls calls start).retired ≡ record { id = 1; verify = trusted 50 } ∷ [])
    × ((call (kubernetes_client (some (6 ∷ [])) none) (run_calls calls start)).1
        ≡ some (record { id = 2; verify = trusted 60 }))
    × ((call (kubernetes_client none (some 70)) (run_calls calls start)).1 ≡ none)
unfolding program
rotated = (refl, refl, refl)

cert_clients-trusted_example : (context : ℕ) × (trusted 60 ≡ trusted context)
unfolding program
cert_clients-trusted_example =
    cert_clients-trusted calls (some (6 ∷ [])) none (record { id = 2; verify = trusted 60 })
      (inl refl)

close_clients-all_example : In 1 (close_clients (run_calls calls start)).closed
unfolding program
close_clients-all_example = close_clients-all calls 1 (omega arith)

cert_client-rotates_example :
    (c : Client ℕ) × ((cert_client
        (lit "kubernetes")
        (some (7 ∷ []))
        (some 70)
        (run_calls calls start)).1
      ≡ some c)
    × (c.verify ≡ trusted 70)
    × (is_closed (run_calls calls start) c ≡ false
        → (cert_client
            (lit "kubernetes")
            (some (7 ∷ []))
            none
            (cert_client (lit "kubernetes") (some (7 ∷ [])) (some 70) (run_calls calls start)).0).1
          ≡ some c)
unfolding program
cert_client-rotates_example =
    cert_client-rotates (lit "kubernetes") (7 ∷ []) 70 none (run_calls calls start) refl
