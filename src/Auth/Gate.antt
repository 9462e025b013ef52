-- ===== src/Auth/Gate.antt =====
-- No request reaches the application without credentials, whatever its kind.
use node_debug_dashboard.Prelude.{◌≡◌, ◌⊎◌, true, false, arith, lit}
use node_debug_dashboard.Config.{AuthConfig}
use node_debug_dashboard.Auth.{
  auth_configured, check_bearer, check_basic, is_authorized, header, Scope, is_request, is_exempt,
  forward, middleware,
}

-- With credentials configured, a request for anything but the health probe is handed on only if its
-- Authorization header passes as a token or as a login; HTTP and WebSocket requests are alike.
pub middleware-guards :
    (cfg : AuthConfig) (scope : Scope)
    → auth_configured cfg ≡ true
    → is_request scope.type ≡ true
    → is_exempt scope.path ≡ false
    → middleware cfg scope ≡ forward
    → (check_bearer cfg (header scope.headers (lit "authorization")) ≡ true)
      ⊎ (check_basic cfg (header scope.headers (lit "authorization")) ≡ true)
unfolding middleware is_authorized
middleware-guards cfg scope on request path h = ground arith
