-- ===== src/Containers/Logs.antt =====
-- app/routers/containers.py: the log stream of a container. First the checks of the handshake, of the
-- id and of the path; then the life of the `tail` that feeds the stream. A symbolic link is resolved by
-- `realpath`, a parameter, as are what `crictl inspect` answers and what `json.loads` makes of it. Of
-- `urlsplit`, the checks of the characters and of the addresses in brackets are left out.
pub mod Guards
pub mod Stream
use node_debug_dashboard.Prelude.{
  ℕ, ◌≡◌, ◌⊎◌, inl, inr, refl, sym, ap, ◌∙◌, arith, Bool, true, false, not, ◌&&◌, ◌||◌, Bool-cases,
  &&_true, Option, none, some, Option-cases, List, [], ◌∷◌, ◌++◌, leb, ◌==◌, ==_iff, if◌then◌else◌,
  any, all, length, is_empty, Text, lit, text_eq, text_eq_iff, strip, starts_with, lower,
  lower_char, is_ascii_digit, ℤ, is_zero_ℤ, ◌>>=◌,
}
use node_debug_dashboard.Json.{Json, text, dict, end, get_or, fields_of, truthy, str_of, repr}
use node_debug_dashboard.Kubernetes.{dict_field}

abbrev is_letter : ℕ → Bool
is_letter c = leb b'a' (lower_char c) && leb (lower_char c) b'z' && leb c 127

abbrev is_scheme_char : ℕ → Bool
is_scheme_char c = is_letter c || is_ascii_digit c || c == b'+' || c == b'-' || c == b'.'

-- What follows the scheme and its colon, if the text starts with a scheme; the text itself if not.
unfoldable pub after_colon : Text → Option Text
unfolding lower_char
after_colon [] = none
after_colon (c ∷ s) =
    let rest = after_colon s in
    if c == b':' then some s else if is_scheme_char c then rest else none

unfoldable pub after_scheme : Text → Text
unfolding after_colon lower_char
after_scheme [] = []
after_scheme (c ∷ s) =
    if is_letter c then (elim (after_colon s) [ none ↦ c ∷ s | some rest ↦ rest ]) else c ∷ s

unfoldable pub until_slash : Text → Text
until_slash [] = []
until_slash (c ∷ s) =
    let rest = until_slash s in if c == b'/' || c == b'?' || c == b'#' then [] else c ∷ rest

abbrev authority : Text → Text
authority (c ∷ d ∷ s) = if c == b'/' && d == b'/' then until_slash s else []
authority _ = []

-- `urlsplit(origin).netloc`; a bracket without its other half raises.
unfoldable pub netloc : Text → Option Text
unfolding after_scheme until_slash
netloc origin =
    let host = authority (after_scheme origin) in
    let opened = any (λ c. c == b'[') host in
    let closed = any (λ c. c == b']') host in
    if opened && closed || not opened && not closed then some host else none

-- `_CONTAINER_ID.fullmatch`
abbrev pub is_hex : ℕ → Bool
is_hex c = is_ascii_digit c || (leb b'a' c && leb c b'f')

unfoldable pub is_container_id : Text → Bool
is_container_id id = length id == 64 && all is_hex id

-- `_get_container_log_path`: the status and the output of `crictl inspect`, with the value of its JSON.
-- An exception is `none`.
unfoldable pub container_log_path : Text → ℤ → Text → Option Json → Option (Option Text)
unfolding get_or dict_field lit truthy repr strip
container_log_path host_root rc stdout loaded =
    if not (is_zero_ℤ rc) || is_empty (strip stdout) then some none else elim loaded [
      | none ↦ some none
      | some data_ ↦ do
        fs ← fields_of data_
        status ← dict_field (lit "status") fs
        let log_path = get_or (text []) (lit "logPath") status
        some (if truthy log_path then some (host_root ++ str_of log_path) else none)
    ]

-- How the handler goes on: it closes with 1008, accepts and closes with a text, streams what `tail`
-- prints of a file, or raises.
pub data Course : Type 0 where
  refused : Text → Course
  reported : Text → Course
  streaming : Text → Course
  crashed : Course

-- What the handler finds on the node: where the host is mounted, the status and the output of
-- `crictl inspect` for an id, `json.loads`, and `os.path.realpath`, which can raise.
pub record Node : Type 0 where
  pub host_root : Text
  pub inspect_status : Text → ℤ
  pub inspect_output : Text → Text
  pub loads : Text → Option Json
  pub realpath : Text → Option Text

-- `_get_container_log_path` on this node.
unfoldable pub log_path_of : Node → Text → Option (Option Text)
unfolding container_log_path
log_path_of node container_id =
    container_log_path node.host_root (node.inspect_status container_id)
      (node.inspect_output container_id) (node.loads (node.inspect_output container_id))

-- The tree of the pods' logs, before links are resolved.
unfoldable pub pod_logs : Node → Text
unfolding lit
pod_logs node = node.host_root ++ lit "/var/log/pods"

unfoldable pub is_allowed : Text → Text → Bool
unfolding starts_with
is_allowed root path = starts_with (root ++ b'/' ∷ []) path

abbrev pub real_path : Option Text → Text
real_path none = []
real_path (some path) = path

-- The path that `crictl` reports, resolved and checked against the resolved tree of the pods' logs.
unfoldable pub stream_of : Node → Option (Option Text) → Course
unfolding is_allowed pod_logs lit
stream_of node none = crashed
stream_of node (some none) = reported (lit "[Error: could not find log path for container]\n")
stream_of node (some (some log_path)) = elim (node.realpath (pod_logs node)) [
  | none ↦ crashed
  | some allowed_root ↦
      if is_allowed allowed_root (real_path (node.realpath log_path))
      then streaming (real_path (node.realpath log_path))
      else reported (lit "[Error: log path outside allowed pod log tree]\n")
]

unfoldable pub open_stream : Node → Text → Course
unfolding is_container_id stream_of log_path_of lit
open_stream node container_id =
    if is_container_id container_id
    then stream_of node (log_path_of node container_id)
    else refused (lit "Invalid container ID")

-- `container_logs`, up to the stream.
unfoldable pub container_logs : Node → Option Text → Text → Text → Course
unfolding netloc open_stream lit text_eq lower_char
container_logs node none host container_id = open_stream node container_id
container_logs node (some origin) host container_id = elim (netloc origin) [
  | none ↦ crashed
  | some site ↦
      if text_eq (lower site) (lower host)
      then open_stream node container_id
      else refused (lit "Cross-origin request refused")
]
