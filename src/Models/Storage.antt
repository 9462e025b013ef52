-- ===== src/Models/Storage.antt =====
-- app/models/storage.py.
use node_debug_dashboard.Prelude.{ℕ, Text, Option, Bool, List, ℤ}
use node_debug_dashboard.Models.Warnings.{Severity}

pub record Partition : Type 0 where
  pub name : Text
  pub size : Text
  pub type : Text
  pub mountpoint : Option Text
  pub fstype : Option Text

pub record DiskInfo : Type 0 where
  pub name : Text
  pub model : Option Text
  pub serial : Option Text
  pub size : Text
  pub type : Text
  pub transport : Option Text
  pub rotational : Bool
  pub partitions : List Partition

pub record SmartAttribute : Type 0 where
  pub id : ℤ
  pub name : Text
  pub value : ℤ
  pub worst : ℤ
  pub threshold : ℤ
  pub raw_value : Text

-- `health_passed` is missing where the drive never reported.
pub record SmartHealth : Type 0 where
  pub device : Text
  pub model : Option Text
  pub serial : Option Text
  pub smart_available : Bool
  pub health_passed : Option Bool
  pub temperature_celsius : Option ℤ
  pub power_on_hours : Option ℤ
  pub wear_leveling_percent : Option ℤ
  pub reallocated_sectors : Option ℤ
  pub pending_sectors : Option ℤ
  pub offline_uncorrectable : Option ℤ
  pub smart_issues : List Text
  pub standby : Bool
  pub error : Option Text
  pub attributes : List SmartAttribute

pub record DiskUsage : Type 0 where
  pub filesystem : Text
  pub mount : Text
  pub fs_type : Text
  pub size : Text
  pub used : Text
  pub available : Text
  pub used_percent : ℕ
  pub severity : Severity
