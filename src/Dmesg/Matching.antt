-- ===== src/Dmesg/Matching.antt =====
-- `Rule.matches`, against the meaning of its patterns.
use node_debug_dashboard.Prelude.{none, ◌≡◌, ◌↔◌, ◌⊎◌, true, List, [], ◌∷◌, any, arith, Text}
use node_debug_dashboard.Regex.{Re, search_text}
use node_debug_dashboard.Regex.Semantics.{Occurs, search_text_iff}
use node_debug_dashboard.Dmesg.{Rule, matches}

-- One of the patterns occurs in the text.
abbrev pub SomeOccurs : List Re → Text → Type 0
SomeOccurs [] s = ⊥
SomeOccurs (r ∷ rs) s = Occurs r none s ⊎ SomeOccurs rs s

any-search : (rs : List Re) (s : Text) → (any (λ r. search_text r s) rs ≡ true) ↔ SomeOccurs rs s
any-search [] s = (λ h. cc, λ h. absurd h)
any-search (r ∷ rs) s = ground (arith, any-search rs s, search_text_iff r s)

-- A rule matches a message exactly if one of its patterns occurs in it, in the sense of regular
-- expressions, and none of its excludes does. What a word character, a digit, a space and the case of a
-- letter are is read off Latin-1.
pub matches_iff :
    (rule : Rule) (message : Text)
    → (matches rule message ≡ true)
      ↔ (SomeOccurs rule.patterns message × ¬ (SomeOccurs rule.excludes message))
unfolding matches
matches_iff rule message =
    ground (arith, any-search rule.patterns message, any-search rule.excludes message)
