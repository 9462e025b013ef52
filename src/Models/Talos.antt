-- ===== src/Models/Talos.antt =====
-- app/models/talos.py.
use node_debug_dashboard.Prelude.{Text, Option, Bool, List, ℤ}
use node_debug_dashboard.Models.Warnings.{Severity}

pub record TalosNetworkInterface : Type 0 where
  pub name : Text
  pub addresses : List Text
  pub routes : List Text
  pub dhcp : Bool

pub record TalosCertificateInfo : Type 0 where
  pub name : Text
  pub subject : Text
  pub issuer : Text
  pub not_before : Text
  pub not_after : Text
  pub serial_number : Text
  pub sha256_fingerprint : Text
  pub days_until_expiry : Option ℤ
  pub expiry_severity : Severity
