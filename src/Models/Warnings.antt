-- ===== src/Models/Warnings.antt =====
-- app/models/warnings.py. The severities and the sources are closed sets of texts in the source.
use node_debug_dashboard.Prelude.{Text, Option, Bool, true, false}

pub data Severity : Type 0 where
  ok info warning critical : Severity

pub data Source : Type 0 where
  smart temperature memory network disk cpu pcie certificate etcd kubernetes dashboard : Source

pub record NodeWarning : Type 0 where
  pub severity : Severity
  pub source : Source
  pub message : Text
  pub device : Option Text

abbrev pub is_ok : Severity → Bool
is_ok Severity.ok = true
is_ok _ = false
