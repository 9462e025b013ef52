-- ===== src/Warnings/Making.antt =====
-- What the parts of the warnings endpoint share: one warning, and optional numbers.
use node_debug_dashboard.Prelude.{
  ℕ, Bool, false, Option, none, some, List, [], ◌∷◌, if◌then◌else◌, Text, lit, str_eq, ℤ, pos,
  ltb_ℤ, show_int,
}
use node_debug_dashboard.Models.Warnings.{Severity, Source, NodeWarning}

abbrev pub plain : Severity → Source → Text → NodeWarning
plain severity source message = record {
  severity = severity;
  source = source;
  message = message;
  device = none;
}

abbrev pub on_device : Severity → Source → Text → Text → NodeWarning
on_device severity source message device = record {
  severity = severity;
  source = source;
  message = message;
  device = some device;
}

-- `[w] if test else []`
abbrev pub warn_if : Bool → NodeWarning → List NodeWarning
warn_if test w = if test then w ∷ [] else []

-- Truthiness of an optional number, and `x > 0` with it.
abbrev pub above : ℕ → Option ℤ → Bool
above n none = false
above n (some v) = ltb_ℤ (pos n) v

abbrev pub show_some : Option ℤ → Text
show_some none = lit "None"
show_some (some v) = show_int v
