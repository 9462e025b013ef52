-- ===== src/Degrade/Sections.antt =====
-- What the sections hold after some collectors failed.
use mathlib.Core.List.{append_assoc}
use node_debug_dashboard.Prelude.{
  ◌⊎◌, inl, inr, true, false, Bool-cases, or_else, not, ◌||◌, is_some, ◌≡◌, refl, ap, sym, ◌∙◌,
  Option, none, some, List, [], ◌∷◌, ◌++◌, concat_map, Text, lit, Dict, str_eq, put, lookup,
  lookup-put, if◌then◌else◌, text_eq,
}
use mathlib.Core.List.{append-nil}
use node_debug_dashboard.Degrade.{
  Section, listed, Response, HardwareResults, hardware_sections, filled, Outcome, returned, raised,
  cancelled, collect, gather_sections, get_hardware, http_error, body,
}
use node_debug_dashboard.Dmesg.{join}

abbrev pub value_of : {A : Type 0} → Outcome A → Option A
value_of (returned a) = some a
value_of _ = none

abbrev pub name_if_raised : {A : Type 0} → Text × Outcome A → List Text
name_if_raised (name, raised) = name ∷ []
name_if_raised _ = []

abbrev pub IsCancelled : {A : Type 0} → List (Text × Outcome A) → Type 0
IsCancelled [] = ⊥
IsCancelled ((name, cancelled) ∷ rest) = Unit
IsCancelled ((name, _) ∷ rest) = IsCancelled rest

abbrev pub NoneCancelled : {A : Type 0} → List (Text × Outcome A) → Type 0
NoneCancelled rs = ¬ (IsCancelled rs)

-- The last result under a name.
unfoldable pub result_at :
    {A : Type 0} → Text → List (Text × Outcome A) → Option (Option A) → Option (Option A)
result_at name [] old = old
result_at name ((n, o) ∷ rest) old =
    result_at name rest (if text_eq n name then some (value_of o) else old)

module _ {A : Type 0} where
  -- The state after the loop.
  unfoldable out_of : List (Text × Outcome A) → Dict Text (Option A) → Dict Text (Option A)
  out_of [] out = out
  out_of ((n, o) ∷ rest) out = out_of rest (put n (value_of o) out)

  collect-done :
      (rs : List (Text × Outcome A)) (out : Dict Text (Option A)) (failed : List Text)
      → NoneCancelled rs
      → collect rs out failed ≡ some (out_of rs out, failed ++ concat_map name_if_raised rs)
  unfolding collect out_of
  collect-done [] out failed h = ap (λ l. some (out, l)) (sym (append-nil failed))
  collect-done ((n, returned a) ∷ rs) out failed h = collect-done rs (put n (some a) out) failed h
  collect-done ((n, raised) ∷ rs) out failed h =
      collect-done rs (put n none out) (failed ++ n ∷ []) h
      ∙ ap (λ l. some (out_of rs (put n none out), l))
          (append_assoc failed (n ∷ []) (concat_map name_if_raised rs))
  collect-done ((n, cancelled) ∷ rs) out failed h = absurd (h tt)

  collect-cancelled :
      (rs : List (Text × Outcome A)) (out : Dict Text (Option A)) (failed : List Text)
      → IsCancelled rs
      → collect rs out failed ≡ none
  unfolding collect
  collect-cancelled [] out failed h = absurd h
  collect-cancelled ((n, returned a) ∷ rs) out failed h = collect-cancelled rs _ failed h
  collect-cancelled ((n, raised) ∷ rs) out failed h = collect-cancelled rs _ _ h
  collect-cancelled ((n, cancelled) ∷ rs) out failed h = refl

  lookup-out_of :
      (name : Text) (rs : List (Text × Outcome A)) (out : Dict Text (Option A))
      → lookup name (out_of rs out) ≡ result_at name rs (lookup name out)
  unfolding out_of result_at
  lookup-out_of name [] out = refl
  lookup-out_of name ((n, o) ∷ rs) out =
      lookup-out_of name rs (put n (value_of o) out)
      ∙ ap (result_at name rs) (lookup-put n name (value_of o) out)

  -- If no collector was cancelled, then each name has the value of its own collector, or none if that
  -- one raised, whatever the others did, and the failed names are exactly those that raised, in
  -- order. If one was cancelled, the whole call raises.
  pub gather_sections-isolates :
      (rs : List (Text × Outcome A))
      → (NoneCancelled rs
          → (out : Dict Text (Option A)) × (gather_sections rs
              ≡ some (out, concat_map name_if_raised rs))
            × ((name : Text) → lookup name out ≡ result_at name rs none))
        × (IsCancelled rs → gather_sections rs ≡ none)
  unfolding gather_sections lookup
  gather_sections-isolates rs = (
    λ h. (out_of rs [], collect-done rs [] [] h, λ name. lookup-out_of name rs []),
    λ h. collect-cancelled rs [] [] h,
  )

-- What the page has of a list: what its collector returned, or the empty list if it raised.
abbrev pub list_of : {A : Type 0} → Outcome (Section A) → Section A
list_of (returned x) = x
list_of _ = listed []

-- The arguments of the page's model: these two sections, and the five lists.
abbrev pub page : {A : Type 0} → Section A → Section A → HardwareResults A → Dict Text (Section A)
page c m h =
    (lit "cpu", c)
    ∷ (lit "memory", m)
    ∷ (lit "pci_devices", list_of h.pci_devices)
    ∷ (lit "usb_devices", list_of h.usb_devices)
    ∷ (lit "nics", list_of h.nics)
    ∷ (lit "sensors", list_of h.sensors)
    ∷ (lit "gpus", list_of h.gpus)
    ∷ []

-- The error that names the collectors that failed.
abbrev pub not_collected : {A : Type 0} → HardwareResults A → Response (Section A)
not_collected h =
    http_error 503 (
      lit "Could not collect: "
      ++ join (lit ", ") (concat_map name_if_raised (hardware_sections h)))

module _ {A : Type 0} where
  list_of-value_of : (o : Outcome (Section A)) → or_else (value_of o) (listed []) ≡ list_of o
  list_of-value_of (returned x) = refl
  list_of-value_of raised = refl
  list_of-value_of cancelled = refl

  filled-out_of :
      (h : HardwareResults A)
      → filled (out_of (hardware_sections h) []) ≡ page (list_of h.cpu) (list_of h.memory) h
  unfolding filled out_of hardware_sections put lit text_eq
  filled-out_of h = simp list_of-value_of

  result_at-needed :
      (h : HardwareResults A)
      → (result_at (lit "cpu") (hardware_sections h) none ≡ some (value_of h.cpu))
        × (result_at (lit "memory") (hardware_sections h) none ≡ some (value_of h.memory))
  unfolding result_at hardware_sections lit text_eq
  result_at-needed h = (refl, refl)

  -- What the page does once the sections are gathered.
  get_hardware-gathered :
      (h : HardwareResults A)
      → NoneCancelled (hardware_sections h)
      → get_hardware h ≡ (
          if not (is_some (value_of h.cpu)) || not (is_some (value_of h.memory))
          then not_collected h
          else body (filled (out_of (hardware_sections h) [])))
  unfolding get_hardware gather_sections lookup
  get_hardware-gathered h ran =
      let rs = hardware_sections h in
      rw (collect-done rs [] [] ran, get_hardware)
        (rw (lookup-out_of (lit "cpu") rs []) (
          rw (lookup-out_of (lit "memory") rs [])
            (rw (result_at-needed h).0 (rw (result_at-needed h).1 refl))))

  -- No collector is cancelled. If those of the CPU and of the memory return, the page has what they
  -- returned and, under the name of each of the five lists, what its own collector returned, or the
  -- empty list if that one raised, whatever the others did. If one of these two raises, the answer is
  -- the status 503 with the names of all the collectors that raised, in the order of the call.
  pub get_hardware-degrades :
      (h : HardwareResults A)
      → NoneCancelled (hardware_sections h)
      → ((c m : Section A)
          → h.cpu ≡ returned c
          → h.memory ≡ returned m
          → get_hardware h ≡ body (page c m h))
        × (((h.cpu ≡ raised) ⊎ (h.memory ≡ raised)) → get_hardware h ≡ not_collected h)
  get_hardware-degrades h ran = (complete, missing)
    where
      present :
          (c m : Section A)
          → h.cpu ≡ returned c
          → h.memory ≡ returned m
          → (not (is_some (value_of h.cpu)) || not (is_some (value_of h.memory))) ≡ false
      present c m a b = rw a (rw b refl)

      complete :
          (c m : Section A)
          → h.cpu ≡ returned c
          → h.memory ≡ returned m
          → get_hardware h ≡ body (page c m h)
      complete c m a b =
          get_hardware-gathered h ran
          ∙ ap (λ z. if z then not_collected h else body (filled (out_of (hardware_sections h) [])))
              (present c m a b)
          ∙ ap body (
              filled-out_of h
              ∙ ap (λ x. page x (list_of h.memory) h) (ap list_of a)
              ∙ ap (λ y. page c y h) (ap list_of b))

      absent :
          ((h.cpu ≡ raised) ⊎ (h.memory ≡ raised))
          → (not (is_some (value_of h.cpu)) || not (is_some (value_of h.memory))) ≡ true
      absent (inl a) = rw a refl
      absent (inr b) = elim (Bool-cases (is_some (value_of h.cpu))) [
        | inl t ↦ rw t (rw b refl)
        | inr t ↦ rw t refl
      ]

      missing : (h.cpu ≡ raised) ⊎ (h.memory ≡ raised) → get_hardware h ≡ not_collected h
      missing either =
          get_hardware-gathered h ran
          ∙ ap (λ z. if z then not_collected h else body (filled (out_of (hardware_sections h) [])))
              (absent either)
