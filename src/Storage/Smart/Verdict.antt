-- ===== src/Storage/Smart/Verdict.antt =====
-- When a report says that a drive passed, that it failed, and that it could not be read.
use node_debug_dashboard.Prelude.{
  ◌≡◌, ◌≢◌, ◌↔◌, ◌⊎◌, inl, inr, refl, if◌then◌else◌, Bool, true, false, Bool-cases, Option, none,
  some, is_some, List, Text, lit, ℤ,
}
use mathlib.Core.Path.{subst}
use node_debug_dashboard.Json.{Json, Fields, get}
use node_debug_dashboard.Models.Storage.{SmartHealth}
use node_debug_dashboard.Storage.{has_bit, as_dict}
use node_debug_dashboard.Storage.Smart.{
  is_disabled, reported_health, verdict, is_standby, open_error, exit_status, smart_report,
  parse_smart, parse_smart-report,
}

-- What the drive itself says, and whether its support is off.
abbrev pub says : Json → Option Bool
says loaded = reported_health (get (lit "smart_status") (as_dict loaded))

abbrev pub is_off : Json → Bool
is_off loaded = is_disabled (get (lit "smart_support") (as_dict loaded))

verdict-passed :
    (data_ : Fields) (status : ℤ)
    → (verdict data_ status ≡ some true) ↔ (
        (is_disabled (get (lit "smart_support") data_) ≡ false)
        × (has_bit 8 status ≡ false)
        × (reported_health (get (lit "smart_status") data_) ≡ some true))
unfolding verdict
verdict-passed data_ status =
    split (is_disabled (get (lit "smart_support") data_)) (has_bit 8 status)
      (reported_health (get (lit "smart_status") data_))
  where
    split :
        (off bad : Bool) (o : Option Bool)
        → ((if off then none else if bad then some false else o) ≡ some true)
          ↔ ((off ≡ false) × (bad ≡ false) × (o ≡ some true))
    split true bad o = (λ e. cc, λ (a, b, c). cc)
    split false true o = (λ e. cc, λ (a, b, c). cc)
    split false false o = (λ e. (refl, refl, e), λ (a, b, c). c)

verdict-failed :
    (data_ : Fields) (status : ℤ)
    → (verdict data_ status ≡ some false) ↔ (
        (is_disabled (get (lit "smart_support") data_) ≡ false)
        × ((has_bit 8 status ≡ true)
            ⊎ (reported_health (get (lit "smart_status") data_) ≡ some false)))
unfolding verdict
verdict-failed data_ status =
    split (is_disabled (get (lit "smart_support") data_)) (has_bit 8 status)
      (reported_health (get (lit "smart_status") data_))
  where
    split :
        (off bad : Bool) (o : Option Bool)
        → ((if off then none else if bad then some false else o) ≡ some false)
          ↔ ((off ≡ false) × ((bad ≡ true) ⊎ (o ≡ some false)))
    split true bad o = (λ e. cc, λ (a, b). cc)
    split false true o = (λ e. (refl, inl refl), λ (a, b). refl)
    split false false o = (λ e. (refl, inr e), λ (a, b). elim b [ inl c ↦ cc | inr c ↦ c ])

open_error_iff :
    (status : ℤ) (messages : List Fields)
    → (open_error status messages ≢ none)
      ↔ ((has_bit 2 status ≡ true) × (is_standby messages ≡ false))
unfolding open_error
open_error_iff status messages = elim (Bool-cases (has_bit 2 status)) [
  | inr b ↦ rw b (λ n. absurd (n refl), λ (c, d). cc)
  | inl b ↦ elim (Bool-cases (is_standby messages)) [
    | inl s ↦ rw (b, s) (λ n. absurd (n refl), λ (c, d). cc)
    | inr s ↦ rw (b, s) (λ n. (refl, refl), λ d x. cc)
  ]
]

-- What a report has to do with the drive's own words and the exit status: it passed, it failed, there
-- is a verdict, and there is an error.
abbrev pub IsFaithful : Json → Option ℤ → SmartHealth → Type 0
IsFaithful loaded rc h =
    ((h.health_passed ≡ some true) ↔ (
      (is_off loaded ≡ false)
      × (has_bit 8 (exit_status loaded rc) ≡ false)
      × (says loaded ≡ some true)))
    × ((h.health_passed ≡ some false) ↔ (
        (is_off loaded ≡ false)
        × ((has_bit 8 (exit_status loaded rc) ≡ true) ⊎ (says loaded ≡ some false))))
    × (h.smart_available ≡ is_some h.health_passed)
    × ((h.error ≢ none) ↔ ((has_bit 2 (exit_status loaded rc) ≡ true) × (h.standby ≡ false)))

-- Without an exception: the drive passed exactly if its support is not off, bit 3 of the exit status
-- is clear and it says that it passed; it failed exactly if its support is not off, and bit 3 is set
-- or it says that it failed. SMART counts as available exactly if there is a verdict. There is an
-- error exactly if bit 1 of the exit status is set and the drive is not asleep.
pub parse_smart-verdict :
    (loaded : Json) (path : Text) (rc : Option ℤ) (h : SmartHealth)
    → parse_smart loaded path rc ≡ some h
    → IsFaithful loaded rc h
unfolding smart_report
parse_smart-verdict loaded path rc h e =
    let (ms, w, m, s, a, b, same) = parse_smart-report loaded path rc h e in
    let data_ = as_dict loaded in
    let status = exit_status loaded rc in
    subst (IsFaithful loaded rc) same
      (verdict-passed data_ status, verdict-failed data_ status, refl, open_error_iff status ms)
