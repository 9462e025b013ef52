-- ===== src/Processes/Turn.antt =====
-- What app/collectors/processes.py reads of one process, and its share of a core.
use node_debug_dashboard.Prelude.{
  ℕ, ◌+◌, ◌-◌, ◌*◌, ◌&&◌, Option, none, some, List, [], ◌∷◌, ◌++◌, map, ltb, leb, ◌==◌,
  if◌then◌else◌, any, is_empty, Text, lit, starts_with, words, split_on, strip, is_ascii_digit,
  read_digits, ℤ, pos, negsuc, int_eq, str_eq, parse_int, Dict, lookup, put, or_else, show_nat,
  ◌>>=◌,
}
use node_debug_dashboard.Dmesg.Scan.{splitlines}
use node_debug_dashboard.Dmesg.Stamps.{take_digits}
use node_debug_dashboard.Kubernetes.Etcd.{round_div}
use node_debug_dashboard.Storage.Device.{after_paren}
use node_debug_dashboard.Models.Processes.{ProcessInfo}

-- The text from the first digit on: `re.search(r"\d+", line)` takes the digits there.
unfoldable pub from_digit : Text → Text
from_digit [] = []
from_digit (c ∷ s) = let rest = from_digit s in if is_ascii_digit c then c ∷ s else rest

unfoldable pub first_number : Text → Option ℕ
unfolding from_digit take_digits read_digits
first_number line =
    let (digits, rest) = take_digits (from_digit line) in
    if is_empty digits then none else some (read_digits 0 digits)

-- `_parse_uid_map`
unfoldable pub uid_line : List Text → Option (ℤ × Text)
unfolding parse_int
uid_line (name ∷ password ∷ uid ∷ rest) = elim (parse_int uid) [
  | none ↦ none
  | some n ↦ some (n, name)
]
uid_line _ = none

unfoldable pub add_uids : List Text → Dict ℤ Text → Dict ℤ Text
unfolding uid_line split_on put
add_uids [] uids = uids
add_uids (line ∷ lines) uids = elim (uid_line (split_on b':' line)) [
  | none ↦ add_uids lines uids
  | some (uid, name) ↦ add_uids lines (put uid name uids)
]

unfoldable pub parse_uid_map : Text → Dict ℤ Text
unfolding splitlines add_uids
parse_uid_map passwd_content = add_uids (splitlines passwd_content) []

-- A process by its pid and its start time, and the ticks that it had used at a time.
pub record CpuSample : Type 0 where
  pub pid : ℕ
  pub starttime : ℕ
  pub ticks : ℕ
  pub time : ℕ

-- `prev_samples.get((pid, starttime))`; a pass has one sample under a key, since `/proc` lists a pid once.
unfoldable pub find_sample : ℕ → ℕ → List CpuSample → Option CpuSample
find_sample pid starttime [] = none
find_sample pid starttime (s ∷ samples) =
    let rest = find_sample pid starttime samples in
    if pid == s.pid && starttime == s.starttime then some s else rest

-- The average over the life of the process. Ticks of `clk_tck` a second; an age in ticks is scaled by
-- the 1000000 microseconds of a second.
unfoldable pub lifetime_share : ℕ → ℕ → ℕ → ℕ → ℕ
unfolding round_div
lifetime_share clk_tck starttime cpu_ticks uptime =
    let started = starttime * 1_000_000 in
    if leb (uptime * clk_tck) started
    then 0
    else round_div (cpu_ticks * 10_000 * 1_000_000) (uptime * clk_tck - started)

-- `_cpu_percent`, in hundredths of a percent.
unfoldable pub cpu_share : ℕ → ℕ → ℕ → ℕ → ℕ → ℕ → List CpuSample → ℕ
unfolding find_sample lifetime_share round_div
cpu_share clk_tck pid starttime cpu_ticks uptime now prev_samples =
    let average = lifetime_share clk_tck starttime cpu_ticks uptime in
    if clk_tck == 0 then 0 else elim (find_sample pid starttime prev_samples) [
      | none ↦ average
      | some prev ↦
          if ltb prev.time now && leb prev.ticks cpu_ticks
          then round_div ((cpu_ticks - prev.ticks) * 10_000 * 1_000_000)
              (clk_tck * (now - prev.time))
          else average
    ]

-- What the loop over `/proc/<pid>/status` keeps.
pub record Status : Type 0 where
  pub rss_kb : ℕ
  pub vsz_kb : ℕ
  pub uid : ℤ

abbrev pub no_status : Status
no_status = record { rss_kb = 0; vsz_kb = 0; uid = negsuc 0 }

abbrev pub second_int : List Text → Option ℤ
second_int (key ∷ value ∷ rest) = parse_int value
second_int _ = none

unfoldable pub add_status_line : Text → Status → Status
unfolding first_number parse_int starts_with words lit
add_status_line line s =
    if starts_with (lit "VmRSS:") line
    then record s { rss_kb = or_else (first_number line) s.rss_kb }
    else if starts_with (lit "VmSize:") line
    then record s { vsz_kb = or_else (first_number line) s.vsz_kb }
    else if starts_with (lit "Uid:") line
    then record s { uid = or_else (second_int (words line)) s.uid }
    else s

unfoldable pub read_status : List Text → Status → Status
unfolding add_status_line
read_status [] s = s
read_status (line ∷ lines) s = read_status lines (add_status_line line s)

-- The total memory in kB: the first line that names it counts.
unfoldable pub total_memory : List Text → ℕ
unfolding first_number starts_with lit
total_memory [] = 0
total_memory (line ∷ lines) =
    let later = total_memory lines in
    if starts_with (lit "MemTotal:") line then or_else (first_number line) 0 else later

unfoldable pub mem_share : ℕ → ℕ → ℕ
unfolding round_div
mem_share rss_kb total_mem_kb =
    if total_mem_kb == 0 then 0 else round_div (rss_kb * 10_000) total_mem_kb

-- `uid_map.get(uid, str(uid)) if uid >= 0 else ""`
unfoldable pub user_of : Dict ℤ Text → ℤ → Text
unfolding lookup show_nat
user_of uids (negsuc n) = []
user_of uids (pos n) = or_else (lookup (pos n) uids) (show_nat n)

-- `_STATE_MAP`
unfoldable pub state_map : Dict Text Text
unfolding lit
state_map =
    (lit "R", lit "running")
    ∷ (lit "S", lit "sleeping")
    ∷ (lit "D", lit "disk sleep")
    ∷ (lit "Z", lit "zombie")
    ∷ (lit "T", lit "stopped")
    ∷ (lit "t", lit "tracing stop")
    ∷ (lit "X", lit "dead")
    ∷ (lit "I", lit "idle")
    ∷ []

unfoldable pub before_paren : Text → Text
before_paren [] = []
before_paren (c ∷ s) =
    let later = before_paren s in if any (λ d. d == b')') s then c ∷ later else []

unfoldable pub after_open : Text → Text
after_open [] = []
after_open (c ∷ s) = let later = after_open s in if c == b'(' then s else later

-- The command line without its NULs, or the name in brackets where it is empty.
unfoldable pub command_of : (Text → Text) → Text → Text → Text
unfolding before_paren after_open strip
command_of redact cmdline_raw stat_raw =
    if is_empty cmdline_raw
    then b'[' ∷ after_open (before_paren stat_raw) ++ b']' ∷ []
    else redact (strip (map (λ c. if c == 0 then 32 else c) cmdline_raw))

-- The words of `/proc/<pid>/stat` after the name; nothing without a parenthesis.
abbrev pub drop_one : Text → Text
drop_one [] = []
drop_one (c ∷ s) = s

unfoldable pub stat_words : Text → Option (List Text)
unfolding after_paren words
stat_words stat_raw =
    if any (λ c. c == b')') stat_raw then some (words (drop_one (after_paren stat_raw))) else none

-- The kernel's counters are not negative; a line with a negative one is skipped like one without a
-- number.
abbrev pub as_count : Text → Option ℕ
as_count w = elim (parse_int w) [ none ↦ none | some (pos n) ↦ some n | some (negsuc n) ↦ none ]

-- The fields that are read of a line with at least 20 words: the state, the parent, the ticks of the
-- user and of the system, and the start time.
pub record Stat : Type 0 where
  pub state : Text
  pub ppid : ℤ
  pub cpu_ticks : ℕ
  pub starttime : ℕ

unfoldable pub stat_of : List Text → Option Stat
unfolding parse_int
stat_of
      (state ∷ ppid ∷ c ∷ d ∷ e ∷ f ∷ g ∷ h ∷ i ∷ j ∷ k ∷ utime ∷ stime ∷ l ∷ m ∷ n ∷ o ∷ p ∷ q
        ∷ start ∷ rest) =
    do
      parent ← parse_int ppid
      user_ticks ← as_count utime
      system_ticks ← as_count stime
      starttime ← as_count start
      some (record {
        state = state;
        ppid = parent;
        cpu_ticks = user_ticks + system_ticks;
        starttime = starttime;
      })
stat_of _ = none

-- The files of a process; one that cannot be read is empty.
pub record ProcFiles : Type 0 where
  pub pid : ℕ
  pub stat : Text
  pub status : Text
  pub cmdline : Text

-- What a pass knows of the node.
pub record Pass : Type 0 where
  pub clk_tck : ℕ
  pub uptime : ℕ
  pub now : ℕ
  pub total_mem_kb : ℕ
  pub uids : Dict ℤ Text
  pub prev_samples : List CpuSample
  pub redact : Text → Text

abbrev pub stat_from : ProcFiles → Option Stat
stat_from f = do fields ← stat_words f.stat; stat_of fields

abbrev pub sample_of : Pass → ProcFiles → Stat → CpuSample
sample_of pass f st = record {
  pid = f.pid;
  starttime = st.starttime;
  ticks = st.cpu_ticks;
  time = pass.now;
}

unfoldable pub process_of : Pass → ProcFiles → Stat → ProcessInfo
unfolding cpu_share read_status splitlines mem_share user_of state_map command_of lookup
process_of pass f st =
    let status = read_status (splitlines f.status) no_status in
    record {
      pid = f.pid;
      ppid = st.ppid;
      user = user_of pass.uids status.uid;
      cpu_percent =
          cpu_share pass.clk_tck f.pid st.starttime st.cpu_ticks pass.uptime pass.now
            pass.prev_samples;
      mem_percent = mem_share status.rss_kb pass.total_mem_kb;
      rss_kb = status.rss_kb;
      vsz_kb = status.vsz_kb;
      state = or_else (lookup st.state state_map) st.state;
      command = command_of pass.redact f.cmdline f.stat;
    }

-- One turn of the loop: the sample and the process, unless the process is skipped.
unfoldable pub read_process : Pass → ProcFiles → Option (CpuSample × ProcessInfo)
unfolding stat_words stat_of process_of
read_process pass f = do st ← stat_from f; some (sample_of pass f st, process_of pass f st)
