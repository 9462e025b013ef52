-- ===== src/Json.antt =====
-- The values that `json.loads` returns, and what the collectors do with them: `dict.get`, truth, `str`
-- and iteration. A call that raises on a value of the wrong type gives nothing here.
use node_debug_dashboard.Prelude.{
  ℕ, ◌+◌, ◌/◌, ◌%◌, Bool, true, false, not, ◌&&◌, ◌||◌, Option, none, some, List, [], ◌∷◌, ◌++◌,
  leb, ltb, ◌==◌, if◌then◌else◌, any, is_empty, Text, lit, text_eq, ℤ, is_zero_ℤ, show_int,
}

-- A float is the text that Python prints for it, with its integral part; NaN and the infinities are left
-- out. A dictionary is its fields in order.
mutual
  pub data Json : Type 0 where
    null : Json
    boolean : Bool → Json
    int : ℤ → Json
    real : Text → ℤ → Json
    text : Text → Json
    list : Items → Json
    dict : Fields → Json

  pub data Items : Type 0 where
    nil : Items
    cons : Json → Items → Items

  pub data Fields : Type 0 where
    end : Fields
    field : Text → Json → Fields → Fields

abbrev pub items : Items → List Json
items nil = []
items (cons x xs) = x ∷ items xs

abbrev pub keys : Fields → List Json
keys end = []
keys (field k v fs) = text k ∷ keys fs

-- `d.get(key, default)`
unfoldable pub get_or : Json → Text → Fields → Json
get_or default key end = default
get_or default key (field k v fs) =
    let rest = get_or default key fs in if text_eq k key then v else rest

-- `d.get(key)`
abbrev pub get : Text → Fields → Json
get = get_or null

-- `bool(v)`
unfoldable pub truthy : Json → Bool
truthy null = false
truthy (boolean b) = b
truthy (int n) = not (is_zero_ℤ n)
truthy (real t n) = not (text_eq t (lit "0.0") || text_eq t (lit "-0.0"))
truthy (text t) = not (is_empty t)
truthy (list nil) = false
truthy (list (cons x xs)) = true
truthy (dict end) = false
truthy (dict (field k v fs)) = true

-- `a or b`
abbrev pub or_value : Json → Json → Json
or_value a b = if truthy a then a else b

abbrev pub chars : Text → List Json
chars [] = []
chars (c ∷ s) = text (c ∷ []) ∷ chars s

-- `for x in v`
unfoldable pub iterate : Json → Option (List Json)
iterate (list xs) = some (items xs)
iterate (dict fs) = some (keys fs)
iterate (text t) = some (chars t)
iterate _ = none

-- `v.get` is there for a dictionary only.
abbrev pub fields_of : Json → Option Fields
fields_of (dict fs) = some fs
fields_of _ = none

abbrev pub is_text : Text → Json → Bool
is_text t (text s) = text_eq s t
is_text t _ = false

-- What a field `str | None` of a model takes; it refuses any other value.
abbrev pub optional_text : Json → Option (Option Text)
optional_text null = some none
optional_text (text t) = some (some t)
optional_text _ = none

-- What a field `str` takes.
abbrev pub required_text : Json → Option Text
required_text (text t) = some t
required_text _ = none

abbrev hex_digit : ℕ → ℕ
hex_digit n = if ltb n 10 then 48 + n else 87 + n

abbrev hex_escape : ℕ → Text
hex_escape c = b'\\' ∷ b'x' ∷ hex_digit (c / 16) ∷ hex_digit (c % 16) ∷ []

-- One code point inside a text that `repr` prints. Those past Latin-1 count as printable.
unfoldable pub repr_char : ℕ → ℕ → Text
repr_char quote c =
    if c == quote || c == b'\\'
    then b'\\' ∷ c ∷ []
    else if c == 9
    then b'\\' ∷ b't' ∷ []
    else if c == 10
    then b'\\' ∷ b'n' ∷ []
    else if c == 13
    then b'\\' ∷ b'r' ∷ []
    else if ltb c 32 || (leb 127 c && leb c 160) || c == 173
    then hex_escape c
    else c ∷ []

abbrev repr_chars : ℕ → Text → Text
repr_chars quote [] = quote ∷ []
repr_chars quote (c ∷ s) = repr_char quote c ++ repr_chars quote s

abbrev quote_of : Text → ℕ
quote_of s = if any (λ c. c == 39) s && not (any (λ c. c == 34) s) then 34 else 39

unfoldable pub repr_text : Text → Text
unfolding repr_char
repr_text s = quote_of s ∷ repr_chars (quote_of s) s

-- `repr(v)`
unfoldable mutual
  pub repr : Json → Text
  repr null = lit "None"
  repr (boolean true) = lit "True"
  repr (boolean false) = lit "False"
  repr (int n) = show_int n
  repr (real t n) = t
  repr (text t) = repr_text t
  repr (list xs) = b'[' ∷ repr_items xs ++ b']' ∷ []
  repr (dict fs) = b'{' ∷ repr_fields fs ++ b'}' ∷ []

  pub repr_items : Items → Text
  repr_items nil = []
  repr_items (cons x nil) = repr x
  repr_items (cons x (cons y ys)) = repr x ++ (lit ", " ++ repr_items (cons y ys))

  pub repr_fields : Fields → Text
  repr_fields end = []
  repr_fields (field k v end) = repr_text k ++ (lit ": " ++ repr v)
  repr_fields (field k v (field j w fs)) =
      repr_text k ++ (lit ": " ++ (repr v ++ (lit ", " ++ repr_fields (field j w fs))))

-- `str(v)`
abbrev pub str_of : Json → Text
str_of (text t) = t
str_of v = repr v
