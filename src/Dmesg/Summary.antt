-- ===== src/Dmesg/Summary.antt =====
-- What the scan of the kernel log reports: every line goes to the first rule that matches it, and each
-- rule speaks for its own lines alone.
use mathlib.Core.List.{append_assoc, append-nil}
use node_debug_dashboard.Prelude.{
  ℕ, zero, suc, ◌+◌, ◌≤◌, ◌≡◌, ◌↔◌, ◌⊎◌, inl, inr, refl, sym, ap, ◌∙◌, arith, Bool, true, false,
  Option, none, some, List, [], ◌∷◌, ◌++◌, map, keep, is_empty, ◌==◌, ==_iff, All, All-append,
  Bool-cases, Option-cases, if◌then◌else◌, Text, strip, Dict, nat_eq, lookup, lookup-put, or_else,
}
use node_debug_dashboard.Models.Warnings.{NodeWarning}
use node_debug_dashboard.Warnings.Origins.{IsKernelSource}
use node_debug_dashboard.Dmesg.{
  Rule, matches, first_match, is_before, add_hit, summary_of, hit_warning, summarize, rule_of,
  collect_hits, scan_with,
}
use node_debug_dashboard.Dmesg.Rules.{rules}

-- The rule at a place of the list matches, and none before it does.
abbrev pub IsFirst : ℕ → List Rule → Text → Type 0
IsFirst i [] message = ⊥
IsFirst zero (rule ∷ rs) message = matches rule message ≡ true
IsFirst (suc i) (rule ∷ rs) message = (matches rule message ≡ false) × IsFirst i rs message

first_match_le :
    (rs : List Rule) (start i : ℕ) (message : Text)
    → first_match start rs message ≡ some i
    → start ≤ i
unfolding first_match
first_match_le [] start i message h = cc
first_match_le (rule ∷ rs) start i message h =
    ground (arith, first_match_le rs (suc start) i message)

first_match-from :
    (rs : List Rule) (start i : ℕ) (message : Text)
    → (first_match start rs message ≡ some (start + i)) ↔ IsFirst i rs message
unfolding first_match
first_match-from [] start i message = (λ h. cc, λ h. absurd h)
first_match-from (rule ∷ rs) start zero message =
    ground (arith, first_match_le rs (suc start) start message)
first_match-from (rule ∷ rs) start (suc i) message =
    ground (arith, first_match-from rs (suc start) i message)

module _ (parse_line : Text → Option ℕ × Text) (cutoff : Option ℕ) where
  abbrev is_filed : List Rule → ℕ → Text → Bool
  is_filed rs i raw = elim (rule_of parse_line cutoff rs raw) [ none ↦ false | some j ↦ j == i ]

  -- The messages filed under a rule, by its place, stripped and in the order of the log.
  abbrev pub filed : List Rule → ℕ → List Text → List Text
  filed rs i lines = map (λ raw. strip (parse_line raw).1) (keep (is_filed rs i) lines)

  -- What the scan should report: for each rule in order, the summary of the messages filed under it.
  unfoldable pub reports : ℕ → List Rule → ℕ → List Rule → List Text → List NodeWarning
  reports window all i [] lines = []
  reports window all i (rule ∷ rs) lines =
      summary_of window rule (filed all i lines) ++ reports window all (suc i) rs lines

  hits_of :
      (rs : List Rule) (i : ℕ) (lines : List Text) (hits : Dict ℕ (List Text))
      → or_else (lookup i (collect_hits parse_line cutoff rs lines hits)) []
        ≡ or_else (lookup i hits) [] ++ filed rs i lines
  unfolding collect_hits
  hits_of rs i [] hits = sym (append-nil (or_else (lookup i hits) []))
  hits_of rs i (raw ∷ lines) hits = elim (Option-cases (rule_of parse_line cutoff rs raw)) [
    | inl blank ↦ rw (blank, is_filed) (hits_of rs i lines hits)
    | inr (j, found) ↦
        rw (found, is_filed)
          (hits_of rs i lines (add_hit j (strip (parse_line raw).1) hits)
            ∙ rw (lookup-put j i (or_else (lookup j hits) [] ++ strip (parse_line raw).1 ∷ []) hits)
                (added j (Bool-cases (j == i))))
  ]
    where
      added :
          (j : ℕ)
          → ((j == i) ≡ true) ⊎ ((j == i) ≡ false)
          → or_else
                (if j == i
                  then some (or_else (lookup j hits) [] ++ strip (parse_line raw).1 ∷ [])
                  else lookup i hits)
                []
              ++ filed rs i lines
            ≡ or_else (lookup i hits) []
              ++ map
                  (λ r. strip (parse_line r).1)
                  (if j == i then raw ∷ keep (is_filed rs i) lines else keep (is_filed rs i) lines)
      added j (inl same) =
          let eq : j ≡ i = (==_iff j i).0 same in
          rw same (
            rw eq (
              append_assoc (or_else (lookup i hits) []) (strip (parse_line raw).1 ∷ [])
                (filed rs i lines)))
      added j (inr other) = rw other refl

  summarize-reports :
      (window : ℕ) (all : List Rule) (i : ℕ) (rs : List Rule) (lines : List Text)
      → summarize window i rs (collect_hits parse_line cutoff all lines [])
        ≡ reports window all i rs lines
  unfolding summarize reports lookup
  summarize-reports window all i [] lines = refl
  summarize-reports window all i (rule ∷ rs) lines = rw (hits_of all i lines []) (
      ap (λ ws. summary_of window rule (filed all i lines) ++ ws)
        (summarize-reports window all (suc i) rs lines))

  -- The scan reports, in the order of the rules, one summary for each rule that some line was filed
  -- under, made of exactly those lines. A line is filed under a rule exactly if it is not blank, is
  -- not older than the cutoff, and the rule is the first that matches its message.
  pub scan_with-reports :
      (window : ℕ) (rs : List Rule) (lines : List Text)
      → (scan_with parse_line cutoff rs window lines ≡ reports window rs 0 rs lines)
        × ((raw : Text) (i : ℕ)
            → (rule_of parse_line cutoff rs raw ≡ some i) ↔ (
                (is_empty (strip raw) ≡ false)
                × (is_before cutoff (parse_line raw).0 ≡ false)
                × IsFirst i rs (parse_line raw).1))
  unfolding scan_with rule_of
  scan_with-reports window rs lines = (
    summarize-reports window rs 0 rs lines,
    λ raw i. ground (arith, first_match-from rs 0 i (parse_line raw).1),
  )

  from_kernel :
      (w : ℕ) (rule : Rule) (ms : List Text)
      → IsKernelSource rule.source
      → All (λ x. IsKernelSource x.source) (summary_of w rule ms)
  unfolding hit_warning
  from_kernel w rule [] h = tt
  from_kernel w rule (m ∷ ms) h = (h, tt)

  reports-IsKernelSource :
      (window : ℕ) (all : List Rule) (i : ℕ) (rs : List Rule) (lines : List Text)
      → All (λ r. IsKernelSource r.source) rs
      → All (λ x. IsKernelSource x.source) (reports window all i rs lines)
  unfolding reports
  reports-IsKernelSource window all i [] lines h = tt
  reports-IsKernelSource window all i (rule ∷ rs) lines h =
      All-append (λ x. IsKernelSource x.source) (summary_of window rule (filed all i lines)) _
        (from_kernel window rule (filed all i lines) h.0)
        (reports-IsKernelSource window all (suc i) rs lines h.1)

  -- The warnings from the kernel log name only memory, CPU, disks and PCIe.
  pub scan_with-IsKernelSource :
      (window : ℕ) (lines : List Text)
      → All (λ x. IsKernelSource x.source) (scan_with parse_line cutoff rules window lines)
  unfolding rules
  scan_with-IsKernelSource window lines =
      rw ((scan_with-reports window rules lines).0)
        (reports-IsKernelSource window rules 0 rules lines (omega arith))
