-- ===== src/Auth.antt =====
-- app/auth.py: optional credentials in front of the whole dashboard. The settings of config.py that
-- the module reads are a record, and a request is an ASGI scope.
mod Scheme
pub mod Bearer
pub mod Basic
pub mod Gate
mod Tests
use mathlib.Core.Option
use node_debug_dashboard.Prelude.{
  ℕ, Bool, true, false, not, ◌&&◌, ◌||◌, Option, none, some, List, [], ◌∷◌, map, leb, if◌then◌else◌,
  is_empty, or_else, ◌+◌, Text, lit, text_eq, strip, lstrip, span_word, lower, cut,
}
use node_debug_dashboard.Config.{AuthConfig}
use node_debug_dashboard.Encoding.{Bytes, utf8, utf8_decode, latin1, b64decode}

-- EXEMPT_PATHS
abbrev pub exempt_path : Text
exempt_path = lit "/api/health"

unfoldable pub auth_configured : AuthConfig → Bool
auth_configured cfg = not (is_empty cfg.auth_token) || not (is_empty cfg.auth_password)

-- `_same`; `compare_digest` is equality of the bytes.
unfoldable pub same : Text → Text → Bool
same a b = text_eq (utf8 a) (utf8 b)

-- The two parts of `s.split(None, 1)`, if there are two: what follows the first word is the second
-- part unless it is all white space.
unfoldable pub scheme_parts : Text × Text → Text × Text
scheme_parts (word, rest) =
    let payload = lstrip rest in if is_empty payload then ([], []) else (lower word, strip payload)

-- `_split_scheme`
unfoldable pub split_scheme : Text → Text × Text
unfolding scheme_parts
split_scheme header = scheme_parts (span_word (lstrip (strip header)))

-- The bytes that the client sent, since the header was decoded as Latin-1.
unfoldable pub raw_bytes : Text → Bytes
raw_bytes token = or_else (latin1 token) (utf8 token)

-- `_check_bearer`
unfoldable pub check_bearer : AuthConfig → Text → Bool
unfolding raw_bytes
check_bearer cfg header =
    let (scheme, token) = split_scheme header in
    if is_empty cfg.auth_token || not (text_eq scheme (lit "bearer"))
    then false
    else text_eq (raw_bytes token) (utf8 cfg.auth_token)

-- `decoded.partition(":")` and the two comparisons.
unfoldable pub check_login : AuthConfig → Text → Bool
unfolding same
check_login cfg decoded =
    let (username, password) = cut b':' decoded in
    same username cfg.auth_username && same (or_else password []) cfg.auth_password

unfoldable pub decode_login : Text → Option Text
decode_login payload = Option.bind (b64decode payload) utf8_decode

-- `_check_basic`
unfoldable pub check_basic : AuthConfig → Text → Bool
unfolding check_login decode_login
check_basic cfg header =
    let (scheme, payload) = split_scheme header in
    if is_empty cfg.auth_password || not (text_eq scheme (lit "basic"))
    then false
    else elim (decode_login payload) [ none ↦ false | some decoded ↦ check_login cfg decoded ]

unfoldable pub is_authorized : AuthConfig → Text → Bool
is_authorized cfg header =
    if not (auth_configured cfg)
    then true
    else if is_empty header
    then false
    else check_bearer cfg header || check_basic cfg header

-- `bytes.lower` of one byte: ASCII letters only.
abbrev pub lower_byte : ℕ → ℕ
lower_byte c = if leb 65 c && leb c 90 then c + 32 else c

-- `_header`: the first header of that name, decoded as Latin-1, and the empty text if there is none.
unfoldable pub header : List (Bytes × Bytes) → Bytes → Text
header [] name = []
header ((key, value) ∷ rest) name =
    if text_eq (map lower_byte key) name then value else header rest name

-- The scope types of ASGI.
pub data ScopeType : Type 0 where
  http websocket lifespan : ScopeType

abbrev pub is_request : ScopeType → Bool
is_request http = true
is_request websocket = true
is_request lifespan = false

pub record Scope : Type 0 where
  pub type : ScopeType
  pub path : Option Text
  pub headers : List (Bytes × Bytes)

-- What the middleware does with a connection: hand it to the application, close the WebSocket with a
-- code, or answer 401; the flag says whether the answer asks for a login by HTTP Basic.
pub data Action : Type 0 where
  forward : Action
  close_websocket : ℕ → Action
  unauthorized : Bool → Action

abbrev pub is_exempt : Option Text → Bool
is_exempt none = false
is_exempt (some p) = text_eq p exempt_path

abbrev pub refuse : AuthConfig → ScopeType → Action
refuse cfg websocket = close_websocket 1008
refuse cfg _ = unauthorized (not (is_empty cfg.auth_password))

-- `AuthMiddleware.__call__`
unfoldable pub middleware : AuthConfig → Scope → Action
middleware cfg scope =
    if not (is_request scope.type) || not (auth_configured cfg)
    then forward
    else if is_exempt scope.path || is_authorized cfg (header scope.headers (lit "authorization"))
    then forward
    else refuse cfg scope.type
