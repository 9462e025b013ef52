-- ===== src/Degrade.antt =====
-- app/routers/degrade.py: collectors run side by side, and one that fails costs its own section only.
-- The values of the sections are of one type here, and a result is what the event loop gathered.
pub mod Sections
mod Tests
use node_debug_dashboard.Prelude.{
  ℕ, Bool, true, false, Option, none, some, List, [], ◌∷◌, ◌++◌, Text, Dict, str_eq, put, lookup,
  or_else, lit, if◌then◌else◌, ◌||◌, is_some, not,
}
use node_debug_dashboard.Dmesg.{join}

-- A collector returned, raised an `Exception`, or was cancelled and the like.
pub data Outcome (A : Type 0) : Type 0 where
  returned : A → Outcome A
  raised : Outcome A
  cancelled : Outcome A

-- The results by name and the names that failed; nothing if the call itself raises.
abbrev pub Sections : Type 0 → Type 0
Sections A = Option (Dict Text (Option A) × List Text)

-- The loop of `gather_sections`.
unfoldable pub collect :
    {A : Type 0} → List (Text × Outcome A) → Dict Text (Option A) → List Text → Sections A
collect [] out failed = some (out, failed)
collect ((name, returned a) ∷ rest) out failed = collect rest (put name (some a) out) failed
collect ((name, raised) ∷ rest) out failed = collect rest (put name none out) (failed ++ name ∷ [])
collect ((name, cancelled) ∷ rest) out failed = none

-- `gather_sections`
unfoldable pub gather_sections : {A : Type 0} → List (Text × Outcome A) → Sections A
unfolding collect
gather_sections results = collect results [] []

-- The value of a section: a model, or a list of them.
pub data Section (A : Type 0) : Type 0 where
  model : A → Section A
  listed : List A → Section A

-- The outcomes of the seven collectors of the hardware page.
pub record HardwareResults (A : Type 0) : Type 0 where
  pub cpu : Outcome (Section A)
  pub memory : Outcome (Section A)
  pub pci_devices : Outcome (Section A)
  pub usb_devices : Outcome (Section A)
  pub nics : Outcome (Section A)
  pub sensors : Outcome (Section A)
  pub gpus : Outcome (Section A)

-- The keyword arguments of the call of `gather_sections`.
unfoldable pub hardware_sections :
    {A : Type 0} → HardwareResults A → List (Text × Outcome (Section A))
unfolding lit
hardware_sections h =
    (lit "cpu", h.cpu)
    ∷ (lit "memory", h.memory)
    ∷ (lit "pci_devices", h.pci_devices)
    ∷ (lit "usb_devices", h.usb_devices)
    ∷ (lit "nics", h.nics)
    ∷ (lit "sensors", h.sensors)
    ∷ (lit "gpus", h.gpus)
    ∷ []

-- The answer of a router: the arguments of its model by name, an error with its status and detail, or
-- an exception that is not one of HTTP.
pub data Response (A : Type 0) : Type 0 where
  body : Dict Text A → Response A
  http_error : ℕ → Text → Response A
  interrupted : Response A

abbrev pub at : {A : Type 0} → Dict Text (Option A) → Text → Option A
at r name = or_else (lookup name r) none

-- `{k: v if v is not None else [] for k, v in r.items()}`
unfoldable pub filled : {A : Type 0} → Dict Text (Option (Section A)) → Dict Text (Section A)
filled [] = []
filled ((k, v) ∷ rest) = (k, or_else v (listed [])) ∷ filled rest

-- `get_hardware` of app/routers/hardware.py.
unfoldable pub get_hardware : {A : Type 0} → HardwareResults A → Response (Section A)
unfolding gather_sections hardware_sections filled join lit
get_hardware h = elim (gather_sections (hardware_sections h)) [
  | none ↦ interrupted
  | some (r, failed) ↦
      if not (is_some (at r (lit "cpu"))) || not (is_some (at r (lit "memory")))
      then http_error 503 (lit "Could not collect: " ++ join (lit ", ") failed)
      else body (filled r)
]
