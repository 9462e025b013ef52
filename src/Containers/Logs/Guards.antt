-- ===== src/Containers/Logs/Guards.antt =====
-- Which handshakes get to the log of a container, and what they can read.
use node_debug_dashboard.Prelude.{
  ◌≡◌, inl, inr, refl, sym, ap, ◌∙◌, arith, true, false, Bool-cases, &&_true, Option, none, some,
  Option-cases, [], ◌∷◌, ◌++◌, ◌==◌, ==_iff, all, length, Text, lit, text_eq, text_eq_iff,
  starts_with, lower,
}
use node_debug_dashboard.Containers.Logs.{
  Node, streaming, pod_logs, log_path_of, netloc, is_hex, is_container_id, is_allowed, stream_of,
  open_stream, container_logs,
}

-- The origin of the request, where it has one, is the host that it goes to.
abbrev pub IsSameOrigin : Option Text → Text → Type 0
IsSameOrigin none host = Unit
IsSameOrigin (some origin) host =
    (site : Text) × (netloc origin ≡ some site) × (lower site ≡ lower host)

-- The file is where the path that `crictl` reports for the container leads to once links are resolved,
-- and it is below the directory that `host_root` and "/var/log/pods" lead to.
abbrev pub IsPodLog : Node → Text → Text → Type 0
IsPodLog node container_id path =
    (log_path : Text) × (root : Text) × (rest : Text) × (log_path_of node container_id
      ≡ some (some log_path))
    × (node.realpath log_path ≡ some path)
    × (node.realpath (node.host_root ++ lit "/var/log/pods") ≡ some root)
    × (path ≡ root ++ b'/' ∷ rest)

starts_with-append : (p s : Text) → starts_with p s ≡ true → (rest : Text) × (s ≡ p ++ rest)
unfolding starts_with
starts_with-append [] s h = (s, refl)
starts_with-append (c ∷ p) [] h = cc
starts_with-append (c ∷ p) (d ∷ s) h =
    let (a, b) = &&_true (c == d) (starts_with p s) h in
    let (rest, e) = starts_with-append p s b in (rest, ground (arith, e, (==_iff c d).0 a))

append_slash : (root rest : Text) → (root ++ b'/' ∷ []) ++ rest ≡ root ++ b'/' ∷ rest
append_slash [] rest = refl
append_slash (c ∷ root) rest = ap (λ t. c ∷ t) (append_slash root rest)

is_allowed_empty : (root : Text) → is_allowed root [] ≡ false
unfolding is_allowed starts_with
is_allowed_empty [] = refl
is_allowed_empty (c ∷ root) = refl

stream_of-streaming :
    (node : Node) (found : Option (Option Text)) (path : Text)
    → stream_of node found ≡ streaming path
    → (log_path : Text) × (root : Text) × (rest : Text) × (found ≡ some (some log_path))
      × (node.realpath log_path ≡ some path)
      × (node.realpath (pod_logs node) ≡ some root)
      × (path ≡ root ++ b'/' ∷ rest)
unfolding stream_of is_allowed
stream_of-streaming node none path h = cc
stream_of-streaming node (some none) path h = cc
stream_of-streaming node (some (some log_path)) path h =
    elim (Option-cases (node.realpath (pod_logs node))) [
      | inl u ↦ absurd (ground (arith, h, u))
      | inr (root, u) ↦ elim (Option-cases (node.realpath log_path)) [
        | inl a ↦ absurd (ground (arith, h, u, a, is_allowed_empty root))
        | inr (p, a) ↦ elim (Bool-cases (is_allowed root p)) [
          | inr b ↦ absurd (ground (arith, h, u, a, b))
          | inl b ↦
              let (rest, e) = starts_with-append (root ++ b'/' ∷ []) p b in
              let same : p ≡ path = ground (arith, h, u, a, b) in
              (
                log_path,
                root,
                rest,
                refl,
                a ∙ ap some same,
                u,
                sym same ∙ e ∙ append_slash root rest,
              )
        ]
      ]
    ]

open_stream-streaming :
    (node : Node) (container_id path : Text)
    → open_stream node container_id ≡ streaming path
    → (length container_id ≡ 64)
      × (all is_hex container_id ≡ true)
      × IsPodLog node container_id path
unfolding open_stream is_container_id pod_logs
open_stream-streaming node container_id path h = elim (Bool-cases (is_container_id container_id)) [
  | inr b ↦ absurd (ground (arith, h, b))
  | inl b ↦
      let (n, x) = &&_true (length container_id == 64) (all is_hex container_id) b in
      (
        (==_iff (length container_id) 64).0 n,
        x,
        stream_of-streaming node (log_path_of node container_id) path (ground (arith, h, b)),
      )
]

-- A handshake whose handler goes on to stream a file: it has no origin, or that of the host that it
-- goes to; the id is 64 hexadecimal digits; and the file is where the path that `crictl` reports for
-- this id leads to once links are resolved, below the directory that /var/log/pods under the host's
-- root leads to.
pub container_logs-guards :
    (node : Node) (origin : Option Text) (host container_id path : Text)
    → container_logs node origin host container_id ≡ streaming path
    → IsSameOrigin origin host
      × (length container_id ≡ 64)
      × (all is_hex container_id ≡ true)
      × IsPodLog node container_id path
unfolding container_logs
container_logs-guards node none host container_id path h =
    let (n, x, p) = open_stream-streaming node container_id path h in (tt, n, x, p)
container_logs-guards node (some origin) host container_id path h =
    elim (Option-cases (netloc origin)) [
      | inl a ↦ absurd (ground (arith, h, a))
      | inr (site, a) ↦ elim (Bool-cases (text_eq (lower site) (lower host))) [
        | inr b ↦ absurd (ground (arith, h, a, b))
        | inl b ↦
            let (n, x, p) =
              open_stream-streaming node container_id path (ground (arith, h, a, b)) in
            ((site, a, (text_eq_iff (lower site) (lower host)).0 b), n, x, p)
      ]
    ]
