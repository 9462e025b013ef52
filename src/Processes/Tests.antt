-- ===== src/Processes/Tests.antt =====
-- Two processes, one of them new under an old pid.
use node_debug_dashboard.Prelude.{
  ◌≤◌, ◌≡◌, refl, some, List, [], ◌∷◌, length, In, lit, text_eq, starts_with, words, starts_word,
  split_on, push_char, strip, lstrip, rstrip, is_space, read_digits, pos, parse_int, read_unsigned,
  read_more, starts_with_digit, lookup, put, show_nat, show_from, sort_by, insert_by,
}
use node_debug_dashboard.Dmesg.Scan.{splitlines, read_float}
use node_debug_dashboard.Dmesg.Stamps.{take_digits, read_digits_1, read_number, micros}
use node_debug_dashboard.Kubernetes.Etcd.{round_div}
use node_debug_dashboard.Storage.Device.{after_paren}
use node_debug_dashboard.Models.Processes.{ProcessInfo}
use node_debug_dashboard.Processes.{
  from_digit, first_number, uid_line, add_uids, parse_uid_map, find_sample, lifetime_share,
  cpu_share, add_status_line, read_status, total_memory, mem_share, user_of, state_map,
  before_paren, after_open, command_of, stat_words, stat_of, process_of, ProcFiles, read_process,
  top_processes, Reading, collect_processes,
}
use node_debug_dashboard.Processes.Selection.{top_processes-heaviest, IsPlaced}

program : Unit {0}
unfolding lit text_eq starts_with words starts_word split_on push_char strip lstrip rstrip is_space
    read_digits parse_int read_unsigned read_more starts_with_digit lookup put show_nat show_from
    sort_by insert_by splitlines read_float take_digits read_digits_1 read_number micros round_div
    after_paren from_digit first_number uid_line add_uids parse_uid_map find_sample lifetime_share
    cpu_share add_status_line read_status total_memory mem_share user_of state_map before_paren
    after_open command_of stat_words stat_of process_of read_process top_processes collect_processes
program = tt

-- A name with a parenthesis; 30 ticks of the user and 20 of the system; started at tick 500.
abbrev files : ProcFiles
files = record {
  pid = 7;
  stat = lit "7 (a) b) R 1 0 0 0 0 0 0 0 0 0 30 20 0 0 20 0 1 0 500 0";
  status = lit "Name:\ta\nVmRSS:\t  500 kB\nUid:\t1000 1000\n";
  cmdline = [];
}

-- Ten seconds after boot, of a node with 1000 kB.
abbrev reading : Reading
reading = record {
  clk_tck = 100;
  uptime_raw = lit "10.0 9.0\n";
  now = 50_000_000;
  meminfo = lit "MemTotal:  1000 kB\n";
  passwd = lit "root:x:0:\nann:x:1000:\n";
  listing = files ∷ record files { pid = 8; stat = lit "8 (x) Z 1" } ∷ [];
  redact = λ s. s;
}

abbrev row : ProcessInfo
row = record {
  pid = 7;
  ppid = pos 1;
  user = lit "ann";
  cpu_percent = 1000;
  mem_percent = 5000;
  rss_kb = 500;
  vsz_kb = 0;
  state = lit "running";
  command = lit "[a) b]";
}

-- 50 ticks in the five seconds of its life.
first_pass :
    collect_processes reading []
    ≡ some (
      record { pid = 7; starttime = 500; ticks = 50; time = 50_000_000 } ∷ [],
      record { total_count = 1; processes = row ∷ [] },
    )
unfolding program
first_pass = refl

-- 25 ticks in the last second; a sample of another start time does not count.
second_pass :
    (cpu_share 100 7 500 50 10_000_000 50_000_000
        (record { pid = 7; starttime = 500; ticks = 25; time = 49_000_000 } ∷ [])
      ≡ 2500)
    × (cpu_share 100 7 500 50 10_000_000 50_000_000
          (record { pid = 7; starttime = 400; ticks = 25; time = 49_000_000 } ∷ [])
        ≡ 1000)
unfolding program
second_pass = (refl, refl)

abbrev two : List ProcessInfo
two = row ∷ record row { pid = 9; mem_percent = 6000 } ∷ []

shown : top_processes two ≡ record row { pid = 9; mem_percent = 6000 } ∷ row ∷ []
unfolding program
shown = refl

top_processes-heaviest_example :
    ((p : ProcessInfo) → In p two → IsPlaced two p)
    × ((p : ProcessInfo) → In p (top_processes two) → In p two)
    × (length (top_processes two) ≤ 250)
unfolding program
top_processes-heaviest_example = top_processes-heaviest two
