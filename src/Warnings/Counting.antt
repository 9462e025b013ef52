-- ===== src/Warnings/Counting.antt =====
-- The counters of app/routers/warnings.py, and the warnings of the memory and the interfaces. The table
-- of counters is kept by the process; its clock is in nanoseconds.
use node_debug_dashboard.Prelude.{
  ℕ, ◌+◌, ◌*◌, Bool, true, false, not, ◌&&◌, ◌||◌, Option, none, some, List, [], ◌∷◌, ◌++◌, ltb,
  ◌==◌, if◌then◌else◌, any, keep, Text, lit, text_eq, Eq, str_eq, Dict, lookup, put, ◌≡◌, ◌↔◌,
  arith, text_eq_iff, show_nat,
}
use node_debug_dashboard.Config.{counter_window_hours}
use node_debug_dashboard.Models.Warnings.{Severity, Source, NodeWarning}
use node_debug_dashboard.Models.Hardware.{MemoryInfo, NicInfo}
use node_debug_dashboard.Warnings.Making.{plain, on_device}

-- The counters: the kind of device, its name and the counter's name.
pub record CounterKey : Type 0 where
  pub kind : Text
  pub name : Text
  pub counter : Text

abbrev pub counter_key_eq : CounterKey → CounterKey → Bool
counter_key_eq a b = text_eq a.kind b.kind && text_eq a.name b.name && text_eq a.counter b.counter

pub counter_key_eq_iff : (a b : CounterKey) → (counter_key_eq a b ≡ true) ↔ (a ≡ b)
counter_key_eq_iff a b =
    ground
      (arith, text_eq_iff a.kind b.kind, text_eq_iff a.name b.name, text_eq_iff a.counter b.counter)

instance abbrev pub counter_eq : Eq CounterKey
counter_eq = record { beq = counter_key_eq; beq_iff = counter_key_eq_iff }

-- The last value seen, and when it last went up.
abbrev pub Sample : Type 0
Sample = ℕ × Option ℕ

abbrev pub Counters : Type 0
Counters = Dict CounterKey Sample

-- COUNTER_WINDOW_HOURS in nanoseconds.
abbrev pub counter_window : ℕ
counter_window = counter_window_hours * 3600 * 1_000_000_000

-- The new `last_increase`: up, or reset and already non-zero again.
unfoldable pub last_increase : Option Sample → ℕ → ℕ → Option ℕ
last_increase none value now = none
last_increase (some (prev, last)) value now =
    if ltb prev value || (ltb value prev && ltb 0 value) then some now else last

unfoldable pub is_recent : Option ℕ → ℕ → Bool
is_recent none now = false
is_recent (some t) now = ltb now (t + counter_window)

-- `_counter_severity`
unfoldable pub counter_severity :
    CounterKey → ℕ → Severity → ℕ → Counters → Counters × Option Severity
unfolding last_increase is_recent
counter_severity key value severity now counters =
    let last = last_increase (lookup key counters) value now in
    (
      put key (value, last) counters,
      if value == 0 then none else if is_recent last now then some severity else some Severity.info,
    )

-- One counter of the endpoint: the warning carries the severity.
unfoldable pub counter_warning :
    CounterKey
    → ℕ
    → Severity
    → (Severity → NodeWarning)
    → ℕ
    → Counters
    → Counters × List NodeWarning
unfolding counter_severity
counter_warning key value severity warning now counters =
    let (counters', sev) = counter_severity key value severity now counters in
    (counters', elim sev [ none ↦ [] | some s ↦ warning s ∷ [] ])

abbrev pub memory_key : Text → CounterKey
memory_key counter = record { kind = lit "memory"; name = []; counter = counter }

abbrev pub network_key : Text → Text → CounterKey
network_key name counter = record { kind = lit "network"; name = name; counter = counter }

abbrev pub ecc_warning : Text → ℕ → Severity → NodeWarning
ecc_warning what count sev = plain sev Source.memory (what ++ show_nat count)

-- The two EDAC counters.
unfoldable pub memory_warnings : Option MemoryInfo → ℕ → Counters → Counters × List NodeWarning
memory_warnings none now counters = (counters, [])
memory_warnings (some mem) now counters =
    let ue = mem.ecc_uncorrectable_errors in
    let ce = mem.ecc_correctable_errors in
    let (counters', first) =
      counter_warning (memory_key (lit "ecc_ue")) ue Severity.critical
        (ecc_warning (lit "ECC uncorrectable errors: ") ue) now counters in
    let (counters'', second) =
      counter_warning (memory_key (lit "ecc_ce")) ce Severity.warning
        (ecc_warning (lit "ECC correctable errors: ") ce) now counters' in
    (counters'', first ++ second)

abbrev pub nic_warning : Text → Text → ℕ → Severity → NodeWarning
nic_warning what nic count sev = on_device sev Source.network (what ++ show_nat count) nic

-- The two counters of one interface.
unfoldable pub nic_warnings : NicInfo → ℕ → Counters → Counters × List NodeWarning
nic_warnings nic now counters =
    let (counters', first) =
      counter_warning (network_key nic.name (lit "crc")) nic.rx_crc_errors Severity.critical
        (nic_warning (lit "CRC errors: ") nic.name nic.rx_crc_errors) now counters in
    let (counters'', second) =
      counter_warning (network_key nic.name (lit "carrier")) nic.tx_carrier_errors Severity.critical
        (nic_warning (lit "Carrier errors: ") nic.name nic.tx_carrier_errors) now counters' in
    (counters'', first ++ second)

-- The loop over the interfaces.
unfoldable pub network_warnings : List NicInfo → ℕ → Counters → Counters × List NodeWarning
network_warnings [] now counters = (counters, [])
network_warnings (nic ∷ nics) now counters =
    let (counters', first) = nic_warnings nic now counters in
    let (counters'', rest) = network_warnings nics now counters' in (counters'', first ++ rest)

abbrev pub is_present : List NicInfo → Text → Bool
is_present nics name = any (λ (nic : NicInfo). text_eq nic.name name) nics

abbrev pub stays : List NicInfo → CounterKey × Sample → Bool
stays nics (key, _) = not (text_eq key.kind (lit "network")) || is_present nics key.name

-- Interfaces that are gone are forgotten, unless the collector of the interfaces failed.
unfoldable pub forget_gone : Option (List NicInfo) → Counters → Counters
forget_gone none counters = counters
forget_gone (some nics) counters = keep (stays nics) counters
