-- ===== src/Auth/Tests.antt =====
-- Requests to a dashboard with a token and a password, as app/auth.py handles them.
use node_debug_dashboard.Prelude.{
  ◌≡◌, ◌⊎◌, ◌↔◌, ◌≢◌, refl, arith, true, false, some, List, [], ◌∷◌, lit, strip, rstrip, lstrip,
  span_word, cut, is_space, lower_char, text_eq,
}
use node_debug_dashboard.Config.{AuthConfig}
use node_debug_dashboard.Encoding.{Bytes, utf8, utf8_char, utf8_from, latin1, b64decode}
use node_debug_dashboard.Encoding.Base64.{b64encode}
use node_debug_dashboard.Auth.{
  auth_configured, same, split_scheme, scheme_parts, raw_bytes, check_bearer, check_login,
  decode_login, check_basic, is_authorized, header, http, websocket, Scope, forward,
  close_websocket, unauthorized, middleware,
}
use node_debug_dashboard.Auth.Bearer.{check_bearer_iff, bearer_locked_out}
use node_debug_dashboard.Auth.Basic.{check_basic_iff, basic_header}
use node_debug_dashboard.Auth.Gate.{middleware-guards}

program : Unit {0}
unfolding lit auth_configured same split_scheme scheme_parts raw_bytes check_bearer check_login
    decode_login check_basic is_authorized header middleware text_eq strip rstrip lstrip span_word
    cut is_space lower_char utf8 utf8_char utf8_from latin1 b64decode b64encode
    mathlib.Core.Option.bind
program = tt

abbrev config : AuthConfig
config = record { auth_token = lit "s3"; auth_username = lit "debug"; auth_password = lit "pw" }

abbrev token_headers : List (Bytes × Bytes)
token_headers = (lit "Host", lit "node") ∷ (lit "Authorization", lit "bearer  s3 ") ∷ []

abbrev socket : Scope
socket = record { type = websocket; path = some (lit "/ws/logs"); headers = token_headers }

-- The token opens a WebSocket, a wrong one closes it, and the health probe needs none.
gate :
    (middleware config socket ≡ forward)
    × (middleware config (record socket { headers = (lit "authorization", lit "Bearer s4") ∷ [] })
        ≡ close_websocket 1008)
    × (middleware config
          (record socket { type = http; path = some (lit "/api/health"); headers = [] })
        ≡ forward)
    × (middleware config (record socket { type = http; headers = [] }) ≡ unauthorized true)
unfolding program
gate = (refl, refl, refl, refl)

-- `debug:pw` in base64
password_login : check_basic config (lit "Basic ZGVidWc6cHc=") ≡ true
unfolding program
password_login = refl

middleware-guards_example :
    (check_bearer config (header token_headers (lit "authorization")) ≡ true)
    ⊎ (check_basic config (header token_headers (lit "authorization")) ≡ true)
unfolding program
middleware-guards_example = middleware-guards config socket refl refl refl refl

-- A request without a login is refused in its own protocol.
refusals :
    (middleware config (record { type = websocket; path = some (lit "/api/pods"); headers = [] })
      ≡ close_websocket 1008)
    × (middleware config (record { type = http; path = some (lit "/api/pods"); headers = [] })
        ≡ unauthorized true)
unfolding program
refusals = (refl, refl)

check_bearer_iff_example :
    (check_bearer config (lit "Bearer s3") ≡ true)
    ↔ ((config.auth_token ≢ []) × (lit "s3" ≡ utf8 config.auth_token))
unfolding program
check_bearer_iff_example = check_bearer_iff config b's' (b'3' ∷ []) (omega arith) refl

check_basic_iff_example : (check_basic config (basic_header (lit "debug") (lit "pw")) ≡ true) ↔ (
    (config.auth_password ≢ [])
    × (lit "debug" ≡ config.auth_username)
    × (lit "pw" ≡ config.auth_password))
unfolding program
check_basic_iff_example =
    check_basic_iff config (lit "debug") (lit "pw") (omega arith) (omega arith) (omega arith)
      (omega arith) (refl, (refl, (refl, (refl, (refl, tt)))))

-- The token `à` is the bytes 195 160.
bearer_locked_out_example :
    check_bearer
      (record config { auth_token = 224 ∷ [] })
      (b'B' ∷ b'e' ∷ b'a' ∷ b'r' ∷ b'e' ∷ b'r' ∷ b' ' ∷ 195 ∷ 160 ∷ [])
    ≡ false
unfolding program
bearer_locked_out_example =
    bearer_locked_out (record config { auth_token = 224 ∷ [] }) (195 ∷ []) 160
      (b'B' ∷ b'e' ∷ b'a' ∷ b'r' ∷ b'e' ∷ b'r' ∷ b' ' ∷ 195 ∷ 160 ∷ []) refl refl (omega arith)
