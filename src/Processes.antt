-- ===== src/Processes.antt =====
-- app/collectors/processes.py: the processes of the node from the files of `/proc`, their share of a core
-- between two collections, and the choice of the heaviest. The files and the clocks are arguments:
-- uptimes and monotonic times are in microseconds, and shares in hundredths of a percent, rounded once
-- from the exact quotient. The masking of secrets on command lines is an argument too.
pub mod Selection
mod Tests
mod Turn
unfoldable pub use Turn.*
use node_debug_dashboard.Prelude.{
  ℕ, zero, suc, ◌+◌, ◌-◌, ◌*◌, ◌/◌, ◌%◌, Bool, true, false, not, ◌&&◌, ◌||◌, Option, none, some,
  List, [], ◌∷◌, ◌++◌, map, ltb, leb, ◌==◌, if◌then◌else◌, any, keep, take, length, is_empty, Text,
  lit, text_eq, starts_with, words, split_on, strip, is_ascii_digit, is_digits, read_digits, ℤ, pos,
  negsuc, int_eq, str_eq, parse_int, Dict, Eq, lookup, put, or_else, show_nat, sort_by, ◌>>=◌,
  filter_map, ==_iff, ◌≡◌, ◌↔◌,
}
use node_debug_dashboard.Dmesg.Scan.{splitlines, read_float}
use node_debug_dashboard.Dmesg.Stamps.{take_digits}
use node_debug_dashboard.Kubernetes.Etcd.{round_div}
use node_debug_dashboard.Storage.Device.{after_paren}
use node_debug_dashboard.Models.Processes.{ProcessInfo, ProcessesOverview}

-- `_TOP_BY_MEM` and `_TOP_BY_CPU`
abbrev pub top_by_mem : ℕ
top_by_mem = 200

abbrev pub top_by_cpu : ℕ
top_by_cpu = 50

abbrev pub more_cpu : ProcessInfo → ProcessInfo → Bool
more_cpu p q = ltb q.cpu_percent p.cpu_percent

abbrev pub more_mem : ProcessInfo → ProcessInfo → Bool
more_mem p q = ltb q.mem_percent p.mem_percent

abbrev pub has_pid : List ProcessInfo → ProcessInfo → Bool
has_pid kept p = any (λ q. q.pid == p.pid) kept

-- The heaviest by memory, then the busiest that are not among them.
unfoldable pub top_processes : List ProcessInfo → List ProcessInfo
unfolding sort_by
top_processes processes =
    let top = take top_by_mem (sort_by more_mem processes) in
    top ++ keep (λ p. not (has_pid top p)) (take top_by_cpu (sort_by more_cpu processes))

-- What a collection reads of the node before its loop; the files are texts, empty if unreadable.
pub record Reading : Type 0 where
  pub clk_tck : ℕ
  pub uptime_raw : Text
  pub now : ℕ
  pub meminfo : Text
  pub passwd : Text
  pub listing : List ProcFiles
  pub redact : Text → Text

abbrev uptime_of : List Text → Option ℕ
uptime_of [] = none
uptime_of (w ∷ ws) = read_float w

abbrev pub pass_of : Reading → ℕ → List CpuSample → Pass
pass_of r uptime prev_samples = record {
  clk_tck = r.clk_tck;
  uptime = uptime;
  now = r.now;
  total_mem_kb = total_memory (splitlines r.meminfo);
  uids = parse_uid_map r.passwd;
  prev_samples = prev_samples;
  redact = r.redact;
}

abbrev pub read_rows_of : Reading → ℕ → List CpuSample → List (CpuSample × ProcessInfo)
read_rows_of r uptime prev_samples =
    filter_map (read_process (pass_of r uptime prev_samples)) r.listing

-- `_collect_processes_sync`, with the samples of the last pass before and after; an uptime that is no
-- number raises, and one that cannot be read leaves the samples alone.
unfoldable pub collect_processes :
    Reading → List CpuSample → Option (List CpuSample × ProcessesOverview)
unfolding read_float words total_memory parse_uid_map read_process top_processes splitlines
collect_processes r prev_samples =
    if is_empty r.uptime_raw
    then some (prev_samples, record { total_count = 0; processes = [] })
    else (do
      uptime ← uptime_of (words r.uptime_raw)
      let rows = read_rows_of r uptime prev_samples
      let processes = map (λ (sample, p). p) rows
      some (
        map (λ (sample, p). sample) rows,
        record { total_count = length processes; processes = top_processes processes },
      ))
