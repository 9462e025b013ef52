-- ===== src/Dmesg.antt =====
-- app/collectors/dmesg.py: the rules for the kernel log, and the summary of what they match. A
-- pattern of the source is its syntax tree here; times are numbers of microseconds. `scan_with` is
-- `scan` for any way to split a line into its time and message and for any rules; Dmesg/Scan has the
-- source's own, with what calls it.
pub mod Rules
pub mod Stamps
pub mod Scan
pub mod Lines
pub mod Matching
pub mod Summary
pub mod Report
mod Tests
use node_debug_dashboard.Prelude.{
  ℕ, zero, suc, ◌+◌, ◌-◌, Bool, true, false, not, ◌&&◌, Option, none, some, List, [], ◌∷◌, ◌++◌,
  map, ltb, ◌==◌, if◌then◌else◌, any, take, length, is_empty, concat_map, Text, lit, strip, Dict,
  nat_eq, lookup, put, or_else, show_nat,
}
use node_debug_dashboard.Models.Warnings.{Severity, Source, NodeWarning}
use node_debug_dashboard.Regex.{Re, search_text}

pub record Rule : Type 0 where
  pub source : Source
  pub severity : Severity
  pub label : Text
  pub patterns : List Re
  pub excludes : List Re

-- `Rule.matches`
unfoldable pub matches : Rule → Text → Bool
unfolding search_text
matches rule message =
    if any (λ p. search_text p message) rule.excludes
    then false
    else any (λ p. search_text p message) rule.patterns

-- The first rule that matches, by its place in the list.
unfoldable pub first_match : ℕ → List Rule → Text → Option ℕ
first_match i [] message = none
first_match i (rule ∷ rules) message =
    let later = first_match (suc i) rules message in if matches rule message then some i else later

abbrev pub is_before : Option ℕ → Option ℕ → Bool
is_before (some cutoff) (some stamp) = ltb stamp cutoff
is_before _ _ = false

-- `hits.setdefault(rule, []).append(message)`
abbrev pub add_hit : ℕ → Text → Dict ℕ (List Text) → Dict ℕ (List Text)
add_hit i message hits = put i (or_else (lookup i hits) [] ++ message ∷ []) hits

abbrev pub record_hit : Option ℕ → Text → Dict ℕ (List Text) → Dict ℕ (List Text)
record_hit none message hits = hits
record_hit (some i) message hits = add_hit i (strip message) hits

-- `messages[-2:]`
unfoldable pub last_two : {A : Type 0} → List A → List A
last_two [] = []
last_two (x ∷ []) = x ∷ []
last_two (x ∷ y ∷ []) = x ∷ y ∷ []
last_two (x ∷ y ∷ z ∷ xs) = last_two (y ∷ z ∷ xs)

-- `sep.join(parts)`
unfoldable pub join : Text → List Text → Text
join sep [] = []
join sep (x ∷ []) = x
join sep (x ∷ y ∷ xs) = x ++ sep ++ join sep (y ∷ xs)

unfoldable pub hit_warning : ℕ → Rule → List Text → NodeWarning
unfolding last_two join
hit_warning window_hours rule messages = record {
  severity = rule.severity;
  source = rule.source;
  message =
      rule.label
      ++ lit ": "
      ++ show_nat (length messages)
      ++ lit " in the last "
      ++ show_nat window_hours
      ++ lit "h — "
      ++ join (lit "; ") (map (take 120) (last_two messages));
  device = none;
}

-- Nothing for a rule without hits.
abbrev pub summary_of : ℕ → Rule → List Text → List NodeWarning
summary_of window_hours rule [] = []
summary_of window_hours rule (m ∷ ms) = hit_warning window_hours rule (m ∷ ms) ∷ []

unfoldable pub summarize : ℕ → ℕ → List Rule → Dict ℕ (List Text) → List NodeWarning
summarize window_hours i [] hits = []
summarize window_hours i (rule ∷ rules) hits =
    summary_of window_hours rule (or_else (lookup i hits) [])
    ++ summarize window_hours (suc i) rules hits

module _ (parse_line : Text → Option ℕ × Text) (cutoff : Option ℕ) (rules : List Rule) where
  -- The rule under which a line is filed: none for a blank line, for one that is too old, and for
  -- one that no rule matches.
  unfoldable pub rule_of : Text → Option ℕ
  rule_of raw =
      let (stamp, message) = parse_line raw in
      if is_empty (strip raw)
      then none
      else if is_before cutoff stamp
      then none
      else first_match 0 rules message

  -- The first loop of `scan`.
  unfoldable pub collect_hits : List Text → Dict ℕ (List Text) → Dict ℕ (List Text)
  unfolding rule_of
  collect_hits [] hits = hits
  collect_hits (raw ∷ lines) hits =
      collect_hits lines (record_hit (rule_of raw) (parse_line raw).1 hits)

  unfoldable pub scan_with : ℕ → List Text → List NodeWarning
  unfolding collect_hits summarize
  scan_with window_hours lines = summarize window_hours 0 rules (collect_hits lines [])
