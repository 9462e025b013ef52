-- ===== src/Warnings/Increases.antt =====
-- The counters of errors: when one alerts, for how long, and which of them are kept.
use node_debug_dashboard.Prelude.{
  ℕ, ◌+◌, ◌<◌, ◌≡◌, ◌≢◌, ◌⊎◌, inl, inr, refl, ap, ◌∙◌, Bool, not, ◌||◌, Option, none, some, List,
  [], ◌∷◌, map, ltb, if◌then◌else◌, keep, All, arith, lit, text_eq, lookup, lookup-put_self,
  or_else,
}
use mathlib.Core.Path.{ap₂}
use node_debug_dashboard.Models.Warnings.{Severity}
use node_debug_dashboard.Models.Hardware.{NicInfo}
use node_debug_dashboard.Warnings.{
  CounterKey, counter_eq, counter_key_eq_iff, Counters, counter_window, counter_severity,
  last_increase, forget_gone, stays, is_present, Gathered, get_warnings, network_warnings,
  memory_warnings,
}

-- The severities of one counter read again and again, with its value and the time of each reading.
unfoldable pub observe : CounterKey → Severity → List (ℕ × ℕ) → Counters → List (Option Severity)
observe key severity [] counters = []
observe key severity ((value, now) ∷ rest) counters =
    (counter_severity key value severity now counters).1
    ∷ observe key severity rest (counter_severity key value severity now counters).0

lookup-counter_severity :
    (key : CounterKey) (value : ℕ) (severity : Severity) (now : ℕ) (counters : Counters)
    → lookup key (counter_severity key value severity now counters).0
      ≡ some (value, last_increase (lookup key counters) value now)
unfolding counter_severity
lookup-counter_severity key value severity now counters =
    lookup-put_self key (value, last_increase (lookup key counters) value now) counters

abbrev reading_at : ℕ → List ℕ → List (ℕ × ℕ)
reading_at value = map (λ t. (value, t))

module _ (key : CounterKey) (severity : Severity) where
  steady :
      (value : ℕ) (times : List ℕ) (counters : Counters)
      → 0 < value
      → (lookup key counters ≡ none) ⊎ (lookup key counters ≡ some (value, none))
      → All (λ s. s ≡ some Severity.info) (observe key severity (reading_at value times) counters)
  unfolding observe
  steady value [] counters h known = tt
  steady value (t ∷ times) counters h known =
      let unmoved : last_increase (lookup key counters) value t ≡ none =
        unfold last_increase in ground arith in
      (
        unfold counter_severity in ground arith,
        steady value times (counter_severity key value severity t counters).0 h (
            inr (
              lookup-counter_severity key value severity t counters
              ∙ ap (λ o. some (value, o)) unmoved)),
      )

  -- A counter that was never seen before, and then stays at the value of its first reading, is
  -- reported as info at every reading, however high it is.
  pub observe-steady :
      (value : ℕ) (times : List ℕ) (counters : Counters)
      → 0 < value
      → lookup key counters ≡ none
      → All (λ s. s ≡ some Severity.info) (observe key severity (reading_at value times) counters)
  observe-steady value times counters h new = steady value times counters h (inl new)

  abbrev pub alert_until : ℕ → ℕ → Option Severity
  alert_until end t = if ltb t end then some severity else some Severity.info

  since :
      (value start : ℕ) (times : List ℕ) (counters : Counters)
      → 0 < value
      → lookup key counters ≡ some (value, some start)
      → observe key severity (reading_at value times) counters
        ≡ map (alert_until (start + counter_window)) times
  unfolding observe
  since value start [] counters h known = refl
  since value start (t ∷ times) counters h known =
      let same : last_increase (lookup key counters) value t ≡ some start =
        unfold last_increase in ground arith in
      let rest =
        since value start times (counter_severity key value severity t counters).0 h (
          lookup-counter_severity key value severity t counters ∙ ap (λ o. some (value, o)) same) in
      let first : (counter_severity key value severity t counters).1
          ≡ alert_until (start + counter_window) t =
        unfold counter_severity in ground arith in
      ap₂ (λ x xs. x ∷ xs) first rest

  -- A counter above zero whose value differs from the last one has its full severity at that
  -- reading, and at each later one of the same value until the window has passed; from then on it
  -- is reported as info.
  pub observe-increase :
      (prev value start : ℕ) (last : Option ℕ) (times : List ℕ) (counters : Counters)
      → 0 < value
      → prev ≢ value
      → lookup key counters ≡ some (prev, last)
      → observe key severity ((value, start) ∷ reading_at value times) counters
        ≡ some severity ∷ map (alert_until (start + counter_window)) times
  unfolding observe
  observe-increase prev value start last times counters h moved known =
      let up : last_increase (lookup key counters) value start ≡ some start =
        unfold last_increase in ground arith in
      let rest = since value start times (counter_severity key value severity start counters).0 h (
        lookup-counter_severity key value severity start counters ∙ ap (λ o. some (value, o)) up) in
      let first : (counter_severity key value severity start counters).1 ≡ some severity =
        unfold counter_severity in ground arith in
      ap₂ (λ x xs. x ∷ xs) first rest

-- The table after the interfaces that are gone were dropped.
lookup-keep :
    (nics : List NicInfo) (key : CounterKey) (d : Counters)
    → lookup key (keep (stays nics) d) ≡ (
        if not (text_eq key.kind (lit "network")) || is_present nics key.name
        then lookup key d
        else none)
unfolding lookup
lookup-keep nics key [] = ground arith
lookup-keep nics key ((k, v) ∷ d) = ground (arith, lookup-keep nics key d, counter_key_eq_iff k key)

-- The table when all counters have been read.
abbrev pub all_read : ℕ → Gathered → Counters → Counters
all_read now r counters =
    (network_warnings (or_else r.nics []) now (memory_warnings r.memory now counters).0).0

-- When the interfaces were collected, the table that a call leaves has the counters that the call
-- read, less exactly those of network interfaces that are gone.
pub get_warnings-forgets :
    (hostnet : Bool) (now : ℕ) (r : Gathered) (nics : List NicInfo) (counters : Counters)
    (key : CounterKey)
    → r.nics ≡ some nics
    → lookup key (get_warnings hostnet now r counters).0 ≡ (
        if not (text_eq key.kind (lit "network")) || is_present nics key.name
        then lookup key (all_read now r counters)
        else none)
unfolding get_warnings forget_gone
get_warnings-forgets hostnet now r nics counters key ok =
    ap (λ o. lookup key (forget_gone o (all_read now r counters))) ok
    ∙ lookup-keep nics key (all_read now r counters)

-- When the collector of the interfaces failed, no counter is read from it and none is dropped.
pub get_warnings-keeps :
    (hostnet : Bool) (now : ℕ) (r : Gathered) (counters : Counters)
    → r.nics ≡ none
    → (get_warnings hostnet now r counters).0 ≡ (memory_warnings r.memory now counters).0
unfolding get_warnings forget_gone network_warnings
get_warnings-keeps hostnet now r counters failed = rw failed refl
