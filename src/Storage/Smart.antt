-- ===== src/Storage/Smart.antt =====
-- `parse_smart`: what a report of `smartctl -a --json` says of a drive, step by step as the function
-- takes them. An exception, of an odd value or of the model's validation, is `none`.
pub mod Verdict
pub mod Attributes
mod Table
unfoldable pub use Table.*
use node_debug_dashboard.Prelude.{
  ℕ, ◌+◌, ◌-◌, Bool, true, false, not, ◌&&◌, ◌||◌, Option, none, some, List, [], ◌∷◌, ◌++◌, ◌==◌,
  if◌then◌else◌, any, is_some, or_else, Text, lit, text_eq, strip, show_int, concat_map, ℤ, pos,
  negsuc, eq_ℤ, int_eq, Dict, lookup, put, ◌>>=◌, traverse, filter_map, ◌≡◌, inl, inr, Option-cases,
  arith,
}
use node_debug_dashboard.Json.{
  Json, Fields, Items, get, get_or, null, boolean, text, list, dict, nil, end, items, truthy,
  or_value, iterate, is_text, optional_text, str_of, repr, repr_text,
}
use node_debug_dashboard.Regex.{search_text}
use node_debug_dashboard.Models.Storage.{SmartAttribute, SmartHealth}
use node_debug_dashboard.Storage.{
  smartctl_issues, wear_attrs, standby_re, has_bit, as_int, as_dict, raw_count,
}

-- The exit status of the report, or that of the process unless a signal ended it.
unfoldable pub status_of : Json → Option ℤ → ℤ
status_of reported none = or_else (as_int reported) (pos 0)
status_of reported (some (pos rc)) = or_else (as_int reported) (pos rc)
status_of reported (some (negsuc rc)) = or_else (as_int reported) (pos 0)

-- `smart_status["passed"]`, where there is such a Boolean.
abbrev pub passed_value : Json → Option Bool
passed_value (boolean b) = some b
passed_value _ = none

unfoldable pub reported_health : Json → Option Bool
unfolding get_or lit
reported_health (dict fs) = passed_value (get (lit "passed") fs)
reported_health _ = none

abbrev pub is_false : Json → Bool
is_false (boolean false) = true
is_false _ = false

-- SMART is switched off on the drive, or not there.
unfoldable pub is_disabled : Json → Bool
unfolding get_or lit
is_disabled (dict fs) = is_false (get_or (get (lit "available") fs) (lit "enabled") fs)
is_disabled _ = false

-- The verdict: bit 3 overrides what the drive says, and support that is off overrides both.
unfoldable pub verdict : Fields → ℤ → Option Bool
unfolding get_or lit reported_health is_disabled
verdict data_ status =
    if is_disabled (get (lit "smart_support") data_)
    then none
    else if has_bit 8 status
    then some false
    else reported_health (get (lit "smart_status") data_)

-- The findings of the bits 4 to 7.
unfoldable pub issues_from : List (ℕ × Text) → ℤ → List Text
issues_from [] status = []
issues_from ((power, message) ∷ rest) status =
    let later = issues_from rest status in if has_bit power status then message ∷ later else later

-- A message of the report, if it is a dictionary with a text.
abbrev message_of : Json → Option Fields
message_of (dict fs) = if truthy (get (lit "string") fs) then some fs else none
message_of _ = none

unfoldable pub messages_of : Fields → Option (List Fields)
unfolding get_or lit truthy iterate
messages_of meta = do
  values ← iterate (or_value (get_or (list nil) (lit "messages") meta) (list nil))
  some (filter_map message_of values)

abbrev message_text : Fields → Text
message_text m = str_of (get (lit "string") m)

unfoldable pub is_standby : List Fields → Bool
unfolding get_or lit search_text standby_re repr
is_standby messages = any (λ m. search_text standby_re (message_text m)) messages

abbrev error_text : Fields → List Text
error_text m =
    if is_text (lit "error") (get (lit "severity") m) then strip (message_text m) ∷ [] else []

abbrev first_or : List Text → Text → Text
first_or [] d = d
first_or (t ∷ ts) d = t

-- The reason, if the device could not be opened (bit 1) and is not asleep.
unfoldable pub open_error : ℤ → List Fields → Option Text
unfolding get_or lit is_standby strip show_int repr text_eq
open_error status messages =
    if has_bit 2 status && not (is_standby messages)
    then some (
        first_or (concat_map error_text messages)
          (lit "smartctl could not open the device (exit " ++ (show_int status ++ lit ")")))
    else none

unfoldable pub model_of : Fields → Option (Option Text)
unfolding get_or lit truthy
model_of data_ = optional_text (
    or_value (or_value (get (lit "model_name") data_) (get (lit "model_family") data_))
      (get (lit "scsi_model_name") data_))

-- The report of a drive, with the pieces that may raise already taken from it.
unfoldable pub smart_report :
    Fields → Text → ℤ → List Fields → Option ℤ → Option Text → Option Text → SmartHealth
unfolding get_or lit verdict issues_from smartctl_issues is_standby open_error read_table
smart_report data_ dev_path status messages wear model serial =
    let table = read_table data_ in
    let nvme = as_dict (get (lit "nvme_smart_health_information_log") data_) in
    record {
      device = dev_path;
      model = model;
      serial = serial;
      smart_available = is_some (verdict data_ status);
      health_passed = verdict data_ status;
      temperature_celsius =
          first_known (as_int (get (lit "current") (as_dict (get (lit "temperature") data_))))
            (as_int (get (lit "temperature") nvme));
      power_on_hours =
          first_known (as_int (get (lit "hours") (as_dict (get (lit "power_on_time") data_))))
            (as_int (get (lit "power_on_hours") nvme));
      wear_leveling_percent =
          first_known (left_of (as_int (get (lit "percentage_used") nvme))) wear;
      reallocated_sectors =
          first_known table.realloc (as_int (get (lit "scsi_grown_defect_list") data_));
      pending_sectors = table.pending;
      offline_uncorrectable = table.uncorrectable;
      smart_issues = issues_from smartctl_issues status;
      standby = is_standby messages;
      error = open_error status messages;
      attributes = table.attributes;
    }

abbrev pub meta_of : Json → Fields
meta_of loaded = as_dict (get (lit "smartctl") (as_dict loaded))

-- The exit status that counts.
abbrev pub exit_status : Json → Option ℤ → ℤ
exit_status loaded rc = status_of (get (lit "exit_status") (meta_of loaded)) rc

-- `parse_smart`
unfoldable pub parse_smart : Json → Text → Option ℤ → Option SmartHealth
unfolding get_or lit status_of messages_of ata_wear read_table model_of smart_report
parse_smart loaded dev_path rc =
    let data_ = as_dict loaded in
    do
      messages ← messages_of (meta_of loaded)
      wear ← ata_wear data_ (read_table data_).wear_by_id
      model ← model_of data_
      serial ← optional_text (get (lit "serial_number") data_)
      some (smart_report data_ dev_path (exit_status loaded rc) messages wear model serial)

-- What `parse_smart` returns, when it does: the report of the pieces.
pub parse_smart-report :
    (loaded : Json) (path : Text) (rc : Option ℤ) (h : SmartHealth)
    → parse_smart loaded path rc ≡ some h
    → (messages : List Fields) × (wear : Option ℤ) × (model : Option Text) × (serial : Option Text)
      × (messages_of (meta_of loaded) ≡ some messages)
      × (ata_wear (as_dict loaded) (read_table (as_dict loaded)).wear_by_id ≡ some wear)
      × (smart_report (as_dict loaded) path (exit_status loaded rc) messages wear model serial ≡ h)
unfolding parse_smart
parse_smart-report loaded path rc h e =
    let data_ = as_dict loaded in
    elim (Option-cases (messages_of (meta_of loaded))) [
      | inl a ↦ cc
      | inr (ms, a) ↦ elim (Option-cases (ata_wear data_ (read_table data_).wear_by_id)) [
        | inl b ↦ cc
        | inr (w, b) ↦ elim (Option-cases (model_of data_)) [
          | inl c ↦ cc
          | inr (m, c) ↦ elim (Option-cases (optional_text (get (lit "serial_number") data_))) [
            | inl d ↦ cc
            | inr (s, d) ↦ (ms, w, m, s, a, b, cc)
          ]
        ]
      ]
    ]
