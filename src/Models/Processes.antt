-- ===== src/Models/Processes.antt =====
-- app/models/processes.py. The shares are in hundredths of a percent.
use node_debug_dashboard.Prelude.{ℕ, Text, List, ℤ}

pub record ProcessInfo : Type 0 where
  pub pid : ℕ
  pub ppid : ℤ
  pub user : Text
  pub cpu_percent : ℕ
  pub mem_percent : ℕ
  pub rss_kb : ℕ
  pub vsz_kb : ℕ
  pub state : Text
  pub command : Text

pub record ProcessesOverview : Type 0 where
  pub total_count : ℕ
  pub processes : List ProcessInfo
