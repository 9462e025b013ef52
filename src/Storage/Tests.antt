-- ===== src/Storage/Tests.antt =====
-- A node with a worn disk and a sleeping one, as app/collectors/storage.py reads it.
use node_debug_dashboard.Prelude.{
  ◌≡◌, refl, map, not, if◌then◌else◌, In, inr, true, false, Option, none, some, List, [], ◌∷◌, Text,
  lit, text_eq, strip, lstrip, rstrip, starts_with, words, starts_word, is_space, lower_char,
  push_char, split_on, is_digits, read_digits, parse_int, read_unsigned, read_more,
  starts_with_digit, show_int, show_nat, show_from, ℤ, pos, inl, put, lookup, span_word, str_eq,
}
use node_debug_dashboard.Json.{
  Json, Fields, Items, boolean, int, text, list, dict, nil, cons, end, field, get_or, truthy,
  iterate, repr, repr_text, repr_char,
}
use node_debug_dashboard.Regex.{search_text, search_from, ends, repeat, at_boundary, word, all_of}
use node_debug_dashboard.Dmesg.Scan.{splitlines}
use node_debug_dashboard.Models.Warnings.{warning}
use node_debug_dashboard.Models.Storage.{DiskInfo, SmartHealth}
use node_debug_dashboard.Storage.{smartctl_issues, standby_re, raw_count}
use node_debug_dashboard.Storage.Disks.{
  required_bool, partition_of, stripped, disk_of, disks_of, collect_disks, remote_transports,
  virtual_prefixes, nvme_over_fabrics, is_candidate, smart_candidates, device_path,
}
use node_debug_dashboard.Storage.Smart.{
  status_of, reported_health, is_disabled, verdict, issues_from, messages_of, is_standby,
  open_error, attribute_of, add_attribute, read_rows, read_table, first_wear, statistics,
  last_endurance, ata_wear, model_of, smart_report, parse_smart,
}
use node_debug_dashboard.Storage.Smart.Verdict.{parse_smart-verdict, IsFaithful}
use node_debug_dashboard.Storage.Smart.Attributes.{parse_smart-attributes, IsCountedBy}
use node_debug_dashboard.Storage.Device.{
  Host, join_nul, strip_nul, after_paren, is_alive, still_running, dev_path, smartctl,
  silent_report, loaded_report, report_of, collect_smart_for_device, query, reports_of,
  collect_all_smart, asleep,
}
use node_debug_dashboard.Storage.Device.Reports.{collect_all_smart-device_path}
use node_debug_dashboard.Storage.Mounts.{
  Mount, Entry, is_overlay, df_skip_types, unescape_from, unescape_mountinfo, partition_dash,
  entry_from, read_entry, keep_shortest, add_mount, add_entry, add_lines, mounts_by_dev,
  parse_mountinfo,
}
use node_debug_dashboard.Storage.Mounts.Shortest.{
  parse_mountinfo-shortest, entries_in, IsUsable, Covers,
}
use node_debug_dashboard.Storage.Usage.{
  reverse, split_words, rsplit_words, path_table, percent_of, usage_severity, usage_of, row_usage,
  usages_of, df_command, df, collect_disk_usage,
}

program : Unit {0}
unfolding lit text_eq strip lstrip rstrip starts_with words starts_word is_space lower_char
    push_char split_on is_digits read_digits parse_int read_unsigned read_more starts_with_digit
    show_int show_nat show_from lookup put get_or truthy iterate repr repr_text repr_char
    search_text search_from ends repeat at_boundary word all_of splitlines smartctl_issues
    standby_re raw_count required_bool partition_of stripped disk_of disks_of collect_disks
    remote_transports virtual_prefixes nvme_over_fabrics is_candidate smart_candidates status_of
    reported_health is_disabled verdict issues_from messages_of is_standby open_error attribute_of
    add_attribute read_rows read_table first_wear statistics last_endurance ata_wear model_of
    smart_report parse_smart join_nul strip_nul after_paren is_alive still_running dev_path smartctl
    silent_report loaded_report report_of collect_smart_for_device query reports_of
    collect_all_smart df_skip_types unescape_from unescape_mountinfo partition_dash entry_from
    read_entry keep_shortest add_mount add_entry add_lines mounts_by_dev parse_mountinfo reverse
    split_words rsplit_words path_table percent_of usage_severity usage_of row_usage usages_of
    df_command df collect_disk_usage span_word
program = tt

abbrev obj : List (Text × Json) → Fields
obj [] = end
obj ((k, v) ∷ rest) = field k v (obj rest)

abbrev attr : ℤ → ℤ → Text → Items → Items
attr id value raw = cons (
    dict (
      obj (
        (lit "id", int id)
        ∷ (lit "value", int value)
        ∷ (lit "raw", dict (obj ((lit "string", text raw) ∷ [])))
        ∷ [])))

-- Bit 7, the self-test log, is set next to a verdict of "passed".
abbrev worn : Json
worn = dict (
    obj (
      (lit "smartctl", dict (obj ((lit "exit_status", int (pos 128)) ∷ [])))
      ∷ (lit "smart_status", dict (obj ((lit "passed", boolean true) ∷ [])))
      ∷ (
        lit "ata_smart_attributes",
        dict (
            obj (
              (
                lit "table",
                list (
                    attr (pos 5) (pos 100) (lit "3") (
                      attr (pos 231) (pos 40) (lit "0")
                        (attr (pos 197) (pos 9) (lit "2 (x)") nil))),
              )
              ∷ [])),
      )
      ∷ []))

abbrev worn_health : SmartHealth
worn_health = record (asleep (lit "/dev/sda")) {
  smart_available = true;
  health_passed = some true;
  standby = false;
  wear_leveling_percent = some (pos 40);
  reallocated_sectors = some (pos 3);
  pending_sectors = some (pos 2);
  smart_issues = lit "Self-test log contains errors" ∷ [];
  attributes =
      record {
        id = pos 5;
        name = [];
        value = pos 100;
        worst = pos 0;
        threshold = pos 0;
        raw_value = lit "3";
      }
      ∷ record {
        id = pos 231;
        name = [];
        value = pos 40;
        worst = pos 0;
        threshold = pos 0;
        raw_value = lit "0";
      }
      ∷ record {
        id = pos 197;
        name = [];
        value = pos 9;
        worst = pos 0;
        threshold = pos 0;
        raw_value = lit "2 (x)";
      }
      ∷ [];
}

worn_report : parse_smart worn (lit "/dev/sda") (some (pos 0)) ≡ some worn_health
unfolding program
worn_report = refl

parse_smart-verdict_example : IsFaithful worn (some (pos 0)) worn_health
unfolding program
parse_smart-verdict_example =
    parse_smart-verdict worn (lit "/dev/sda") (some (pos 0)) worn_health worn_report

parse_smart-attributes_example : IsCountedBy worn worn_health
unfolding program
parse_smart-attributes_example =
    parse_smart-attributes worn (lit "/dev/sda") (some (pos 0)) worn_health worn_report

-- `sda` answers, `sdb` sleeps, `sdc` has no device file, and the query of `sdd` raises.
abbrev host : Text → Host
host device = record {
  path_exists = λ p. not (text_eq p (lit "/dev/sdc"));
  processes = some (
      record { name = lit "7"; cmdline = some (lit "init"); stat = some (lit "7 (init) S 0") }
      ∷ []);
  run_command = λ cmd.
      if text_eq device (lit "/dev/sdb")
      then record { stdout = []; stderr = lit "Device is in STANDBY mode, exit(2)"; rc = pos 2 }
      else record { stdout = lit "{}"; stderr = []; rc = pos 0 };
  loads = λ s. some worn;
  complaint = λ v. [];
}

abbrev exception : Text → Option Text
exception device = if text_eq device (lit "/dev/sdd") then some (lit "boom") else none

abbrev disk : Text → DiskInfo
disk name = record {
  name = name;
  model = none;
  serial = none;
  size = lit "1T";
  type = lit "disk";
  transport = some (lit "sata");
  rotational = true;
  partitions = [];
}

abbrev disks : List DiskInfo
disks =
    disk (lit "sda")
    ∷ disk (lit "sdb")
    ∷ disk (lit "sdc")
    ∷ disk (lit "sdd")
    ∷ disk (lit "rbd0")
    ∷ record (disk (lit "sde")) { transport = some (lit "iSCSI") }
    ∷ []

four_disks :
    map (λ h. h.device) (collect_all_smart host exception (λ n. none) disks)
    ≡ lit "/dev/sda" ∷ lit "/dev/sdb" ∷ lit "/dev/sdd" ∷ []
unfolding program
four_disks = refl

sleeping :
    collect_smart_for_device (host (lit "/dev/sdb")) (lit "sdb") ≡ some (asleep (lit "/dev/sdb"))
unfolding program
sleeping = refl

collect_all_smart-device_path_example :
    (h : SmartHealth) × In h (collect_all_smart host exception (λ n. none) disks)
    × (h.device ≡ device_path (disk (lit "sdb")))
unfolding program
collect_all_smart-device_path_example =
    (collect_all_smart-device_path host exception (λ n. none) disks).0 (disk (lit "sdb"))
      (inr (inl refl)) refl refl

-- `lsblk`: a disk with a partition, and a CD drive.
abbrev blocks : Json
blocks = dict (
    obj (
      (
        lit "blockdevices",
        list (
            cons
              (dict (
                obj (
                  (lit "name", text (lit "sda"))
                  ∷ (lit "size", text (lit "1T"))
                  ∷ (lit "type", text (lit "disk"))
                  ∷ (lit "model", text (lit "  "))
                  ∷ (lit "rota", text (lit "1"))
                  ∷ (lit "tran", text (lit "sata"))
                  ∷ (
                    lit "children",
                    list (cons (dict (obj ((lit "name", text (lit "sda1")) ∷ []))) nil),
                  )
                  ∷ [])))
              (cons (dict (obj ((lit "type", text (lit "rom")) ∷ []))) nil)),
      )
      ∷ []))

one_disk :
    collect_disks (pos 0) (some blocks)
    ≡ some (
        record (disk (lit "sda")) {
          partitions =
              record {
                name = lit "sda1";
                size = [];
                type = lit "part";
                mountpoint = none;
                fstype = none;
              }
              ∷ [];
        }
        ∷ [])
unfolding program
one_disk = refl

-- The root, a bind mount of it, a read-only image, and an overlay that is not the root.
abbrev info : Text
info =
    lit
      "36 1 8:1 / /var\\040lib rw,relatime - ext4 /dev/sda1 rw\n37 1 8:1 /x /var rw - ext4 /dev/sda1 rw\n38 1 7:0 / /snap ro - ext4 /dev/loop0 ro\n39 1 0:9 / /run/c rw - overlay overlay rw\n"

abbrev var : Mount
var = record { source = lit "/dev/sda1"; fs_type = lit "ext4"; point = lit "/var" }

one_mount : mounts_by_dev info ≡ some ((lit "8:1", var) ∷ [])
unfolding program
one_mount = refl

parse_mountinfo-shortest_example :
    ((dev : Text) (m : Mount)
      → lookup dev ((lit "8:1", var) ∷ []) ≡ some m
      → (e : Entry) × In e (entries_in info) × IsUsable e × (e.dev ≡ dev) × (e.mount ≡ m))
    × ((e : Entry)
        → In e (entries_in info)
        → IsUsable e
        → is_overlay e.mount ≡ false
        → Covers e.dev e.mount ((lit "8:1", var) ∷ []))
unfolding program
parse_mountinfo-shortest_example = parse_mountinfo-shortest info ((lit "8:1", var) ∷ []) one_mount

-- A line with five fields before the dash gets past the guard.
too_short : parse_mountinfo (lit "36 1 8:1 / /var - ext4 /dev/sda1 rw") ≡ none
unfolding program
too_short = refl

nearly_full :
    df
      (λ cmd. lit "File Size Used Avail Use%\n/host/var  10G  9G 1G  90%\n")
      (lit "/host")
      (var ∷ [])
    ≡ record {
      filesystem = lit "/dev/sda1";
      mount = lit "/var";
      fs_type = lit "ext4";
      size = lit "10G";
      used = lit "9G";
      available = lit "1G";
      used_percent = 90;
      severity = warning;
    }
      ∷ []
unfolding program
nearly_full = refl
