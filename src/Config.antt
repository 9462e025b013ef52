-- ===== src/Config.antt =====
-- app/config.py: the settings read from the environment, which is a table of texts.
use node_debug_dashboard.Prelude.{
  ℕ, Text, lit, text_eq, strip, lower, Bool, ◌||◌, ◌&&◌, not, Dict, str_eq, lookup, or_else,
  is_empty, [],
}

abbrev pub Environ : Type 0
Environ = Dict Text Text

-- `os.environ.get(name, default)`
unfoldable pub get_env : Environ → Text → Text → Text
get_env env name default = or_else (lookup name env) default

unfoldable pub is_truthy : Text → Bool
is_truthy s =
    text_eq s (lit "1") || text_eq s (lit "true") || text_eq s (lit "yes") || text_eq s (lit "on")

unfoldable pub env_bool : Environ → Text → Bool
unfolding get_env is_truthy
env_bool env name = is_truthy (lower (strip (get_env env name (lit "false"))))

-- The password setting counts only if a password is set as well.
unfoldable pub ssh_password_auth : Environ → Bool
unfolding env_bool
ssh_password_auth env =
    env_bool env (lit "SSH_PASSWORD_AUTH")
    && not (is_empty (strip (get_env env (lit "SSH_PASSWORD") [])))

pub record AuthConfig : Type 0 where
  pub auth_token : Text
  pub auth_username : Text
  pub auth_password : Text

-- The three credentials, stripped.
unfoldable pub auth_config : Environ → AuthConfig
unfolding get_env strip
auth_config env = record {
  auth_token = strip (get_env env (lit "AUTH_TOKEN") []);
  auth_username = strip (get_env env (lit "AUTH_USERNAME") (lit "debug"));
  auth_password = strip (get_env env (lit "AUTH_PASSWORD") []);
}

-- CACHE_TTL, DMESG_WINDOW_HOURS and COUNTER_WINDOW_HOURS at their defaults; the environment is not
-- read for them.
abbrev pub cache_ttl : ℕ
cache_ttl = 10

abbrev pub dmesg_window_hours : ℕ
dmesg_window_hours = 168

abbrev pub counter_window_hours : ℕ
counter_window_hours = 24
