-- ===== src/Storage/Device.antt =====
-- One drive's report, whatever its `smartctl` does, and the reports of all the drives.
pub mod Reports
use node_debug_dashboard.Prelude.{
  ℕ, Bool, true, false, not, ◌&&◌, Option, none, some, List, [], ◌∷◌, ◌++◌, ◌==◌, if◌then◌else◌,
  any, map, is_empty, Text, lit, text_eq, strip, rstrip, lstrip, starts_with, words, is_digits,
  show_int, ℤ,
}
use node_debug_dashboard.Json.{Json}
use node_debug_dashboard.Regex.{search_text}
use node_debug_dashboard.Models.Storage.{DiskInfo, SmartHealth}
use node_debug_dashboard.Storage.{standby_re}
use node_debug_dashboard.Storage.Disks.{smart_candidates}
use node_debug_dashboard.Storage.Smart.{parse_smart}

-- A directory of `/proc`: its name, and its files `cmdline` and `stat`, unless they cannot be read.
pub record Process : Type 0 where
  pub name : Text
  pub cmdline : Option Text
  pub stat : Option Text

-- What `run_command` answers.
pub record Output : Type 0 where
  pub stdout : Text
  pub stderr : Text
  pub rc : ℤ

-- What a query finds on the node: which device files there are, the processes, the answer of a
-- command, the value of a text of JSON, and the text of the exception for a report that is odd.
pub record Host : Type 0 where
  pub path_exists : Text → Bool
  pub processes : Option (List Process)
  pub run_command : List Text → Output
  pub loads : Text → Option Json
  pub complaint : Json → Text

-- `"\0".join(cmd)`
unfoldable pub join_nul : List Text → Text
join_nul [] = []
join_nul (w ∷ []) = w
join_nul (w ∷ v ∷ ws) = w ++ 0 ∷ join_nul (v ∷ ws)

-- `s.rstrip("\0")`
unfoldable pub strip_nul : Text → Text
strip_nul [] = []
strip_nul (c ∷ s) = let rest = strip_nul s in if c == 0 && is_empty rest then [] else c ∷ rest

-- `s.rsplit(")", 1)[-1]`
unfoldable pub after_paren : Text → Text
after_paren [] = []
after_paren (c ∷ s) =
    let later = after_paren s in
    if any (λ d. d == b')') s then later else if c == b')' then s else c ∷ s

abbrev is_zombie : List Text → Bool
is_zombie [] = false
is_zombie (w ∷ ws) = text_eq w (lit "Z")

-- The command that a process runs, when it can be read and the process is no zombie.
unfoldable pub is_alive : Text → Process → Bool
unfolding strip_nul after_paren words lit text_eq
is_alive want p = elim p.cmdline [
  | none ↦ false
  | some argv ↦
      if text_eq (strip_nul argv) want
      then (elim p.stat [ none ↦ false | some s ↦ not (is_zombie (words (after_paren s))) ])
      else false
]

-- `_still_running`
unfoldable pub still_running : List Text → Option (List Process) → Bool
unfolding join_nul is_alive is_digits
still_running cmd none = false
still_running cmd (some listing) = any (λ p. is_digits p.name && is_alive (join_nul cmd) p) listing

abbrev pub blank : Text → SmartHealth
blank device = record {
  device = device;
  model = none;
  serial = none;
  smart_available = false;
  health_passed = none;
  temperature_celsius = none;
  power_on_hours = none;
  wear_leveling_percent = none;
  reallocated_sectors = none;
  pending_sectors = none;
  offline_uncorrectable = none;
  smart_issues = [];
  standby = false;
  error = none;
  attributes = [];
}

abbrev pub asleep : Text → SmartHealth
asleep device = record (blank device) { standby = true }

abbrev pub failed : Text → Text → SmartHealth
failed device reason = record (blank device) { error = some reason }

unfoldable pub dev_path : Text → Text
unfolding lit starts_with
dev_path device = if starts_with (lit "/dev/") device then device else lit "/dev/" ++ device

unfoldable pub smartctl : Text → List Text
unfolding lit
smartctl path = lit "smartctl" ∷ lit "-a" ∷ lit "-n" ∷ lit "standby" ∷ path ∷ lit "--json" ∷ []

-- Nothing on standard output: the drive sleeps, or the command says why.
unfoldable pub silent_report : Text → Output → SmartHealth
unfolding search_text standby_re strip show_int lit
silent_report path out =
    if search_text standby_re out.stderr
    then asleep path
    else failed path (
        if is_empty (strip out.stderr)
        then lit "smartctl exited " ++ (show_int out.rc ++ lit " with no output")
        else strip out.stderr)

-- What the output says, once it is read as JSON or turns out not to be.
unfoldable pub loaded_report : Host → Text → Output → Option Json → SmartHealth
unfolding search_text standby_re parse_smart lit
loaded_report host path out none =
    if search_text standby_re out.stdout
    then asleep path
    else failed path (lit "smartctl output is not valid JSON")
loaded_report host path out (some data_) = elim (parse_smart data_ path (some out.rc)) [
  | none ↦ failed path (lit "Unparseable smartctl output: " ++ host.complaint data_)
  | some report ↦ report
]

unfoldable pub report_of : Host → Text → Output → SmartHealth
unfolding silent_report loaded_report strip
report_of host path out =
    if is_empty (strip out.stdout)
    then silent_report path out
    else loaded_report host path out (host.loads out.stdout)

-- `collect_smart_for_device`
unfoldable pub collect_smart_for_device : Host → Text → Option SmartHealth
unfolding dev_path smartctl still_running report_of lit
collect_smart_for_device host device =
    let path = dev_path device in
    if not (host.path_exists path)
    then none
    else if still_running (smartctl path) host.processes
    then some (
        failed path
          (lit "A previous smartctl on this device is still running (device not responding)"))
    else some (report_of host path (host.run_command (smartctl path)))

-- How one query ended among those that were gathered: with its value, or with an exception and its text.
pub data Query : Type 0 where
  answered : Option SmartHealth → Query
  blew_up : Text → Query

-- The loop of `collect_all_smart`.
unfoldable pub reports_of : List (Text × Query) → List SmartHealth
unfolding lit
reports_of [] = []
reports_of ((device, answered none) ∷ rest) = reports_of rest
reports_of ((device, answered (some report)) ∷ rest) = report ∷ reports_of rest
reports_of ((device, blew_up reason) ∷ rest) =
    failed device (lit "SMART collection failed: " ++ reason) ∷ reports_of rest

-- One of the gathered calls of `collect_smart_for_device`, with what it finds on the node, and with the
-- text of an exception if one comes up outside the code that is modelled here.
unfoldable pub query : (Text → Host) → (Text → Option Text) → Text → Query
unfolding collect_smart_for_device
query hosts exception device = elim (exception device) [
  | some reason ↦ blew_up reason
  | none ↦ answered (collect_smart_for_device (hosts device) device)
]

-- `collect_all_smart`; the disks are those of `collect_disks`.
unfoldable pub collect_all_smart :
    (Text → Host) → (Text → Option Text) → (Text → Option Text) → List DiskInfo → List SmartHealth
unfolding smart_candidates reports_of query
collect_all_smart hosts exception transport_file disks =
    reports_of (
      map (λ device. (device, query hosts exception device))
        (smart_candidates transport_file disks))
