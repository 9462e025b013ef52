-- ===== src/Storage/Smart/Table.antt =====
-- The attributes of a report of `smartctl`, and the wear that they and the device statistics tell.
use node_debug_dashboard.Prelude.{
  ◌+◌, ◌-◌, Option, none, some, List, [], ◌∷◌, ◌++◌, if◌then◌else◌, any, or_else, lit, text_eq,
  concat_map, ℤ, pos, negsuc, eq_ℤ, int_eq, Dict, lookup, put, ◌>>=◌, traverse,
}
use node_debug_dashboard.Json.{
  Json, Fields, get, get_or, text, list, dict, nil, items, truthy, or_value, iterate, is_text,
  str_of, repr,
}
use node_debug_dashboard.Models.Storage.{SmartAttribute}
use node_debug_dashboard.Storage.{wear_attrs, as_int, as_dict, raw_count}

abbrev pub number : Json → ℤ
number v = or_else (as_int v) (pos 0)

unfoldable pub attribute_of : Fields → SmartAttribute
unfolding get_or lit repr
attribute_of attr = record {
  id = number (get (lit "id") attr);
  name = str_of (get_or (text []) (lit "name") attr);
  value = number (get (lit "value") attr);
  worst = number (get (lit "worst") attr);
  threshold = number (get (lit "thresh") attr);
  raw_value = str_of (get_or (text []) (lit "string") (as_dict (get (lit "raw") attr)));
}

-- What the loop over the attributes keeps.
pub record Counts : Type 0 where
  pub realloc : Option ℤ
  pub pending : Option ℤ
  pub uncorrectable : Option ℤ
  pub wear_by_id : Dict ℤ ℤ
  pub attributes : List SmartAttribute

abbrev pub no_counts : Counts
no_counts = record {
  realloc = none;
  pending = none;
  uncorrectable = none;
  wear_by_id = [];
  attributes = [];
}

unfoldable pub add_attribute : SmartAttribute → Counts → Counts
unfolding raw_count put
add_attribute sa t =
    let kept = record t { attributes = t.attributes ++ sa ∷ [] } in
    if eq_ℤ sa.id (pos 5)
    then record kept { realloc = raw_count sa.raw_value }
    else if eq_ℤ sa.id (pos 197)
    then record kept { pending = raw_count sa.raw_value }
    else if eq_ℤ sa.id (pos 198)
    then record kept { uncorrectable = raw_count sa.raw_value }
    else if any (eq_ℤ sa.id) wear_attrs
    then record kept { wear_by_id = put sa.id sa.value t.wear_by_id }
    else kept

unfoldable pub read_rows : List Json → Counts → Counts
unfolding attribute_of add_attribute
read_rows [] t = t
read_rows (dict attr ∷ rows) t = read_rows rows (add_attribute (attribute_of attr) t)
read_rows (_ ∷ rows) t = read_rows rows t

abbrev pub rows_of : Json → List Json
rows_of (list xs) = items xs
rows_of _ = []

unfoldable pub read_table : Fields → Counts
unfolding get_or lit read_rows
read_table data_ =
    read_rows
      (rows_of (get_or (list nil) (lit "table") (as_dict (get (lit "ata_smart_attributes") data_))))
      no_counts

-- `a`, or else `b`
abbrev pub first_known : Option ℤ → Option ℤ → Option ℤ
first_known none b = b
first_known (some a) b = some a

-- The value of the preferred of the attributes that are there.
unfoldable pub first_wear : List ℤ → Dict ℤ ℤ → Option ℤ
unfolding lookup
first_wear [] wear_by_id = none
first_wear (i ∷ ids) wear_by_id = first_known (lookup i wear_by_id) (first_wear ids wear_by_id)

-- `max(0, 100 - used)`
abbrev pub life_left : ℤ → ℤ
life_left (pos n) = pos (100 - n)
life_left (negsuc n) = pos (101 + n)

-- The entries of the device statistics, page by page.
abbrev pub entries_of : Json → Option (List Json)
entries_of page = iterate (or_value (get_or (list nil) (lit "table") (as_dict page)) (list nil))

abbrev pub joined : List (List Json) → List Json
joined = concat_map (λ xs. xs)

unfoldable pub statistics : Fields → Option (List Json)
unfolding get_or lit truthy iterate
statistics data_ = do
  pages ← iterate (
      or_value (get_or (list nil) (lit "pages") (as_dict (get (lit "ata_device_statistics") data_)))
        (list nil))
  tables ← traverse entries_of pages
  some (joined tables)

abbrev pub endurance_used : Fields → Option ℤ
endurance_used entry =
    if is_text (lit "Percentage Used Endurance Indicator") (get (lit "name") entry)
    then as_int (get (lit "value") entry)
    else none

-- The last entry for the endurance used counts.
unfoldable pub last_endurance : Option ℤ → List Json → Option ℤ
unfolding get_or lit text_eq
last_endurance wear [] = wear
last_endurance wear (entry ∷ entries) =
    last_endurance
      (elim (endurance_used (as_dict entry)) [ none ↦ wear | some used ↦ some (life_left used) ])
      entries

unfoldable pub ata_wear : Fields → Dict ℤ ℤ → Option (Option ℤ)
unfolding first_wear statistics last_endurance
ata_wear data_ wear_by_id = elim (first_wear wear_attrs wear_by_id) [
  | some wear ↦ some (some wear)
  | none ↦ do entries ← statistics data_; some (last_endurance none entries)
]

abbrev pub left_of : Option ℤ → Option ℤ
left_of none = none
left_of (some used) = some (life_left used)
