-- ===== src/Models/Hardware.antt =====
-- app/models/hardware.py.
use node_debug_dashboard.Prelude.{ℕ, Text, Option, Bool, List, ℤ}

pub record CpuInfo : Type 0 where
  pub model : Text
  pub sockets : ℕ
  pub cores_per_socket : ℕ
  pub threads : ℕ
  pub architecture : Text
  pub flags : List Text

pub record DimmInfo : Type 0 where
  pub locator : Text
  pub size_mb : Option ℕ
  pub type : Option Text
  pub speed_mhz : Option ℕ
  pub manufacturer : Option Text
  pub serial : Option Text
  pub part_number : Option Text

-- The sizes in GB and the percentage are in tenths.
pub record MemoryInfo : Type 0 where
  pub total_gb : ℕ
  pub available_gb : ℕ
  pub used_percent : ℕ
  pub dimms : List DimmInfo
  pub ecc_correctable_errors : ℕ
  pub ecc_uncorrectable_errors : ℕ

pub record PciDevice : Type 0 where
  pub slot : Text
  pub class_name : Text
  pub vendor : Text
  pub device : Text
  pub subsystem_vendor : Text
  pub subsystem_device : Text
  pub rev : Text
  pub driver : Text

pub record NicInfo : Type 0 where
  pub name : Text
  pub mac : Text
  pub driver : Text
  pub speed : Text
  pub duplex : Text
  pub link_detected : Bool
  pub ip_addresses : List Text
  pub rx_errors : ℕ
  pub tx_errors : ℕ
  pub rx_dropped : ℕ
  pub tx_dropped : ℕ
  pub rx_crc_errors : ℕ
  pub tx_carrier_errors : ℕ

-- The value and the thresholds are in thousandths.
pub record SensorReading : Type 0 where
  pub name : Text
  pub label : Text
  pub value : ℤ
  pub unit : Text
  pub critical : Option ℤ
  pub warning : Option ℤ
  pub is_alarm : Bool
