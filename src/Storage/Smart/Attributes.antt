-- ===== src/Storage/Smart/Attributes.antt =====
-- The counts of a report are those of the last attribute with their id.
use node_debug_dashboard.Prelude.{
  ◌≡◌, inl, inr, refl, sym, ap, ◌∙◌, arith, if◌then◌else◌, Bool, true, false, any, all, &&_true,
  Bool-cases, Option-cases, Option, none, some, List, [], ◌∷◌, ◌++◌, Text, lit, ℤ, pos, negsuc,
  eq_ℤ, eq_ℤ_iff, int_eq, lookup, lookup-put,
}
use mathlib.Core.Path.{subst}
use node_debug_dashboard.Json.{
  Json, Fields, dict, null, boolean, int, real, text, list, nil, get, get_or,
}
use node_debug_dashboard.Models.Storage.{SmartHealth, SmartAttribute}
use node_debug_dashboard.Storage.{as_int, as_dict, raw_count, wear_attrs}
use node_debug_dashboard.Storage.Smart.{
  Counts, no_counts, add_attribute, read_rows, read_table, attribute_of, first_known, smart_report,
  parse_smart, parse_smart-report, first_wear, ata_wear, left_of, rows_of,
}

abbrev later_or : Option SmartAttribute → SmartAttribute → ℤ → Option SmartAttribute
later_or none sa i = if eq_ℤ sa.id i then some sa else none
later_or (some later) sa i = some later

-- The last attribute with this id.
unfoldable pub last_of : ℤ → List SmartAttribute → Option SmartAttribute
last_of i [] = none
last_of i (sa ∷ rest) = later_or (last_of i rest) sa i

abbrev pub count_of : Option SmartAttribute → Option ℤ
count_of none = none
count_of (some sa) = raw_count sa.raw_value

abbrev pub value_of : Option SmartAttribute → Option ℤ
value_of none = none
value_of (some sa) = some sa.value

-- The value of the last attribute with the first of these ids that there is.
unfoldable pub first_value : List ℤ → List SmartAttribute → Option ℤ
unfolding last_of
first_value [] sas = none
first_value (i ∷ ids) sas = first_known (value_of (last_of i sas)) (first_value ids sas)

abbrev pub percentage_used : Json → Option ℤ
percentage_used loaded = as_int (
    get (lit "percentage_used")
      (as_dict (get (lit "nvme_smart_health_information_log") (as_dict loaded))))

last_of-append :
    (i : ℤ) (sas : List SmartAttribute) (sa : SmartAttribute)
    → last_of i (sas ++ sa ∷ []) ≡ (if eq_ℤ sa.id i then some sa else last_of i sas)
unfolding last_of
last_of-append i [] sa = refl
last_of-append i (x ∷ sas) sa = rw (last_of-append i sas sa) (split (eq_ℤ sa.id i))
  where
    split :
        (b : Bool)
        → later_or (if b then some sa else last_of i sas) x i
          ≡ (if b then some sa else later_or (last_of i sas) x i)
    split true = refl
    split false = refl

-- The counts of the loop so far, by its attributes so far.
abbrev IsCounted : Counts → Type 0
IsCounted t =
    (t.realloc ≡ count_of (last_of (pos 5) t.attributes))
    × (t.pending ≡ count_of (last_of (pos 197) t.attributes))
    × (t.uncorrectable ≡ count_of (last_of (pos 198) t.attributes))
    × ((i : ℤ)
        → any (eq_ℤ i) wear_attrs ≡ true
        → lookup i t.wear_by_id ≡ value_of (last_of i t.attributes))

abbrev is_wear : ℤ → Bool
is_wear i = any (eq_ℤ i) wear_attrs

-- An attribute has one of the ids at most.
other_id : (id i j : ℤ) → eq_ℤ i j ≡ false → eq_ℤ id i ≡ true → eq_ℤ id j ≡ false
other_id id i j h e = rw ((eq_ℤ_iff id i).0 e) h

not_wear :
    (i : ℤ)
    → is_wear i ≡ true
    → (eq_ℤ i (pos 5) ≡ false) × (eq_ℤ i (pos 197) ≡ false) × (eq_ℤ i (pos 198) ≡ false)
not_wear (pos n) h = ground arith
not_wear (negsuc n) h = cc

add_attributes_lem :
    (sa : SmartAttribute) (t : Counts) → (add_attribute sa t).attributes ≡ t.attributes ++ sa ∷ []
unfolding add_attribute
add_attributes_lem sa t = ground arith

add_realloc_lem :
    (sa : SmartAttribute) (t : Counts)
    → (add_attribute sa t).realloc
      ≡ (if eq_ℤ sa.id (pos 5) then raw_count sa.raw_value else t.realloc)
unfolding add_attribute
add_realloc_lem sa t = ground arith

add_pending_lem :
    (sa : SmartAttribute) (t : Counts)
    → (add_attribute sa t).pending
      ≡ (if eq_ℤ sa.id (pos 197) then raw_count sa.raw_value else t.pending)
unfolding add_attribute
add_pending_lem sa t = ground (arith, other_id sa.id (pos 197) (pos 5) refl)

add_uncorrectable_lem :
    (sa : SmartAttribute) (t : Counts)
    → (add_attribute sa t).uncorrectable
      ≡ (if eq_ℤ sa.id (pos 198) then raw_count sa.raw_value else t.uncorrectable)
unfolding add_attribute
add_uncorrectable_lem sa t =
    ground (arith, other_id sa.id (pos 198) (pos 5) refl, other_id sa.id (pos 198) (pos 197) refl)

add_wear_lem :
    (sa : SmartAttribute) (t : Counts) (i : ℤ)
    → is_wear i ≡ true
    → lookup i (add_attribute sa t).wear_by_id
      ≡ (if eq_ℤ sa.id i then some sa.value else lookup i t.wear_by_id)
unfolding add_attribute
add_wear_lem sa t i h = elim (Bool-cases (eq_ℤ sa.id i)) [
  | inl e ↦
      let same = (eq_ℤ_iff sa.id i).0 e in
      let (a, b, c) = rw (← same) at (not_wear i h) in
      let d = rw (← same) at h in
      ground (arith, a, b, c, d, e, lookup-put sa.id i sa.value t.wear_by_id)
  | inr e ↦ ground (arith, e, lookup-put sa.id i sa.value t.wear_by_id)
]

count_if :
    (b : Bool) (sa : SmartAttribute) (o : Option SmartAttribute)
    → (if b then raw_count sa.raw_value else count_of o) ≡ count_of (if b then some sa else o)
count_if true sa o = refl
count_if false sa o = refl

value_if :
    (b : Bool) (sa : SmartAttribute) (o : Option SmartAttribute)
    → (if b then some sa.value else value_of o) ≡ value_of (if b then some sa else o)
value_if true sa o = refl
value_if false sa o = refl

count-append :
    (i : ℤ) (sa : SmartAttribute) (t : Counts) (count : Option ℤ)
    → count ≡ count_of (last_of i t.attributes)
    → (if eq_ℤ sa.id i then raw_count sa.raw_value else count)
      ≡ count_of (last_of i (add_attribute sa t).attributes)
count-append i sa t count h = rw h (
    rw (add_attributes_lem sa t)
      (rw (last_of-append i t.attributes sa) (count_if (eq_ℤ sa.id i) sa (last_of i t.attributes))))

add_attribute-IsCounted :
    (sa : SmartAttribute) (t : Counts) → IsCounted t → IsCounted (add_attribute sa t)
add_attribute-IsCounted sa t (r, p, u, w) = (
  add_realloc_lem sa t ∙ count-append (pos 5) sa t t.realloc r,
  add_pending_lem sa t ∙ count-append (pos 197) sa t t.pending p,
  add_uncorrectable_lem sa t ∙ count-append (pos 198) sa t t.uncorrectable u,
  λ i h.
      add_wear_lem sa t i h
      ∙ rw (w i h) (
          rw (add_attributes_lem sa t) (
            rw (last_of-append i t.attributes sa)
              (value_if (eq_ℤ sa.id i) sa (last_of i t.attributes)))),
)

read_rows-IsCounted : (rows : List Json) (t : Counts) → IsCounted t → IsCounted (read_rows rows t)
unfolding read_rows
read_rows-IsCounted [] t h = h
read_rows-IsCounted (dict attr ∷ rows) t h =
    read_rows-IsCounted rows (add_attribute (attribute_of attr) t)
      (add_attribute-IsCounted (attribute_of attr) t h)
read_rows-IsCounted (null ∷ rows) t h = read_rows-IsCounted rows t h
read_rows-IsCounted (boolean b ∷ rows) t h = read_rows-IsCounted rows t h
read_rows-IsCounted (int n ∷ rows) t h = read_rows-IsCounted rows t h
read_rows-IsCounted (real x n ∷ rows) t h = read_rows-IsCounted rows t h
read_rows-IsCounted (text x ∷ rows) t h = read_rows-IsCounted rows t h
read_rows-IsCounted (list xs ∷ rows) t h = read_rows-IsCounted rows t h

read_table-IsCounted : (data_ : Fields) → IsCounted (read_table data_)
unfolding read_table last_of lookup
read_table-IsCounted data_ =
    read_rows-IsCounted
      (rows_of (get_or (list nil) (lit "table") (as_dict (get (lit "ata_smart_attributes") data_))))
      no_counts (refl, refl, refl, λ i h. refl)

first_wear-last :
    (ids : List ℤ) (t : Counts)
    → IsCounted t
    → all is_wear ids ≡ true
    → first_wear ids t.wear_by_id ≡ first_value ids t.attributes
unfolding first_wear first_value
first_wear-last [] t h a = refl
first_wear-last (i ∷ ids) t h a =
    let (b, c) = &&_true (is_wear i) (all is_wear ids) a in
    rw (h.3 i b) (ap (first_known (value_of (last_of i t.attributes))) (first_wear-last ids t h c))

ata_wear-first :
    (data_ : Fields) (t : Counts) (wear : Option ℤ)
    → IsCounted t
    → ata_wear data_ t.wear_by_id ≡ some wear
    → (rest : Option ℤ) × (wear ≡ first_known (first_value wear_attrs t.attributes) rest)
unfolding ata_wear
ata_wear-first data_ t wear h e =
    let same = first_wear-last wear_attrs t h refl in
    elim (Option-cases (first_wear wear_attrs t.wear_by_id)) [
      | inl n ↦ (wear, rw (sym same ∙ n) refl)
      | inr (v, n) ↦ (none, ground (arith, e, n, sym same ∙ n))
    ]

-- What the counts of a report have to do with its attributes and with the rest of what was read.
abbrev pub IsCountedBy : Json → SmartHealth → Type 0
IsCountedBy loaded h =
    (h.pending_sectors ≡ count_of (last_of (pos 197) h.attributes))
    × (h.offline_uncorrectable ≡ count_of (last_of (pos 198) h.attributes))
    × (h.reallocated_sectors
        ≡ first_known (count_of (last_of (pos 5) h.attributes))
            (as_int (get (lit "scsi_grown_defect_list") (as_dict loaded))))
    × ((statistics : Option ℤ) × (h.wear_leveling_percent
          ≡ first_known (left_of (percentage_used loaded))
              (first_known (first_value wear_attrs h.attributes) statistics)))

-- Without an exception, whatever the attributes and their order: the pending and the uncorrectable
-- sectors of the report are those of its last attribute 197 and 198; the reallocated sectors are
-- those of its last attribute 5, or else the grown defect list; and the wear is what NVMe's
-- percentage used leaves, or else the value of the last attribute with the first of the ids 177, 231,
-- 233, 202 and 169 that an attribute has, or else comes from elsewhere.
pub parse_smart-attributes :
    (loaded : Json) (path : Text) (rc : Option ℤ) (h : SmartHealth)
    → parse_smart loaded path rc ≡ some h
    → IsCountedBy loaded h
unfolding smart_report
parse_smart-attributes loaded path rc h e =
    let (ms, w, m, s, a, b, same) = parse_smart-report loaded path rc h e in
    let data_ = as_dict loaded in
    let (r, p, u, v) = read_table-IsCounted data_ in
    let (rest, wear) = ata_wear-first data_ (read_table data_) w (r, p, u, v) b in
    subst (IsCountedBy loaded) same (
      p,
      u,
      ap (λ o. first_known o (as_int (get (lit "scsi_grown_defect_list") data_))) r,
      (rest, ap (first_known (left_of (percentage_used loaded))) wear),
    )
