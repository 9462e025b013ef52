-- ===== src/Models/Kubernetes.antt =====
-- app/models/kubernetes.py.
use node_debug_dashboard.Prelude.{ℕ, Text, Option, Bool, List, ℤ, Dict}
use node_debug_dashboard.Json.{Json}
use node_debug_dashboard.Models.Warnings.{Severity}

pub record K8sNodeCondition : Type 0 where
  pub type : Text
  pub status : Text
  pub reason : Text
  pub message : Text
  pub last_transition : Text

pub record K8sNodeAddress : Type 0 where
  pub type : Text
  pub address : Text

pub record K8sNodeResources : Type 0 where
  pub cpu : Text
  pub memory : Text
  pub ephemeral_storage : Text
  pub pods : Text
  pub gpu_nvidia : Text

pub record K8sNodeInfo : Type 0 where
  pub labels : Dict Text Text
  pub annotations_count : ℕ
  pub conditions : List K8sNodeCondition
  pub addresses : List K8sNodeAddress
  pub capacity : K8sNodeResources
  pub allocatable : K8sNodeResources
  pub kubelet_version : Text
  pub container_runtime : Text
  pub os_image : Text
  pub architecture : Text

pub record CertificateInfo : Type 0 where
  pub file_path : Text
  pub subject : Text
  pub issuer : Text
  pub not_before : Text
  pub not_after : Text
  pub serial_number : Text
  pub sha256_fingerprint : Text
  pub days_until_expiry : Option ℤ
  pub expiry_severity : Severity

-- Members are dictionaries, which nothing validates.
pub record EtcdMember : Type 0 where
  pub id : Text
  pub name : Json
  pub peer_urls : Json
  pub client_urls : Json

-- The sizes in MB and the percentage are in tenths.
pub record EtcdStatus : Type 0 where
  pub healthy : Bool
  pub db_size_mb : ℕ
  pub db_size_in_use_mb : ℕ
  pub db_size_quota_mb : ℕ
  pub quota_assumed : Bool
  pub quota_used_percent : ℕ
  pub defrag_reclaimable_mb : ℕ
  pub defrag_severity : Severity
  pub version : Text
  pub leader_id : Text
  pub member_id : Text
  pub is_leader : Bool
  pub raft_index : ℕ
  pub raft_term : ℕ
  pub raft_applied_index : ℕ
  pub members : List EtcdMember

pub record K8sComponentStatus : Type 0 where
  pub name : Text
  pub running : Bool
  pub health_status : Text
  pub container_id : Text
  pub uptime : Text
  pub etcd_status : Option EtcdStatus

pub record ClusterNode : Type 0 where
  pub name : Text
  pub ip : Text
  pub role : Text
  pub ready : Bool
  pub current : Bool

pub record K8sApiEndpoint : Type 0 where
  pub url : Text
  pub healthy : Bool
