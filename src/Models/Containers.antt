-- ===== src/Models/Containers.antt =====
-- app/models/containers.py. The share of the CPU is always 0.0 and is left out.
use node_debug_dashboard.Prelude.{Text, ℤ}

pub record ContainerStats : Type 0 where
  pub memory_bytes : ℤ
  pub memory_human : Text

pub record SystemContainer : Type 0 where
  pub name : Text
  pub container_id : Text
  pub state : Text
  pub image : Text
  pub uptime : Text
  pub created_at : Text
  pub stats : ContainerStats

pub record WorkloadContainer : Type 0 where
  pub pod_name : Text
  pub namespace : Text
  pub container_name : Text
  pub container_id : Text
  pub image : Text
  pub state : Text
  pub uptime : Text
  pub created_at : Text
  pub stats : ContainerStats
