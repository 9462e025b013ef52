-- ===== src/Kubernetes.antt =====
-- app/collectors/kubernetes.py: the node's own object, the certificates, etcd, the health of the
-- components and the nodes of the cluster. What the API server, etcd and the commands answered is an
-- argument. Here: the values of a response's JSON, where a wrong type raises.
pub mod Etcd
pub mod Cluster
pub mod Requests
pub mod Probes
pub mod Secrecy
pub mod Certificates
pub mod Defrag
pub mod Members
mod Tests
use node_debug_dashboard.Prelude.{
  Bool, true, false, Option, none, some, List, [], ◌∷◌, if◌then◌else◌, Text, text_eq, ℤ, pos,
  parse_int, ◌>>=◌,
}
use node_debug_dashboard.Json.{
  Json, Fields, Items, null, boolean, int, real, text, list, dict, end, field, get_or, fields_of,
  required_text, iterate, nil,
}

-- `data.get(key, "")`, where the model wants a text.
unfoldable pub text_field : Text → Fields → Option Text
unfolding get_or
text_field key fs = required_text (get_or (text []) key fs)

-- `data.get(key, {})`, of which `.get` is called.
unfoldable pub dict_field : Text → Fields → Option Fields
unfolding get_or
dict_field key fs = fields_of (get_or (dict end) key fs)

-- `for x in data.get(key, [])`
unfoldable pub list_field : Text → Fields → Option (List Json)
unfolding get_or iterate
list_field key fs = iterate (get_or (list nil) key fs)

-- The value of a key that is there.
unfoldable pub find : Text → Fields → Option Json
unfolding text_eq
find key end = none
find key (field k v fs) = let rest = find key fs in if text_eq k key then some v else rest

-- `int(v)`, where a TypeError and a ValueError are nothing.
unfoldable pub int_of : Json → Option ℤ
unfolding parse_int
int_of (boolean true) = some (pos 1)
int_of (boolean false) = some (pos 0)
int_of (int n) = some n
int_of (real t n) = some n
int_of (text t) = parse_int t
int_of _ = none

abbrev int_or : Option Json → ℤ → ℤ
int_or none later = later
int_or (some v) later = elim (int_of v) [ none ↦ later | some n ↦ n ]

-- The loop of `_first_int`.
unfoldable pub first_key : Fields → List Text → ℤ
unfolding find int_of
first_key fs [] = pos 0
first_key fs (key ∷ keys) = int_or (find key fs) (first_key fs keys)

-- `_first_int`. Of a text or a list, `in` is a search, and the value of a key is a TypeError.
unfoldable pub first_int : Json → List Text → Option ℤ
unfolding first_key
first_int (dict fs) keys = some (first_key fs keys)
first_int (text t) keys = some (pos 0)
first_int (list xs) keys = some (pos 0)
first_int _ keys = none
