-- ===== src/Lib.antt =====
-- Node Debug Dashboard: the logic of its Python server, under app/.
--
-- The server answers HTTP and WebSocket requests about the node that it runs on. A request first
-- passes the middleware of app/auth.py; a router then calls collectors, which read files, run commands
-- and ask APIs behind the cache of app/collectors/base.py, and composes what they return. The endpoint
-- of app/routers/warnings.py turns the reports of ten collectors into one list of warnings.
--
-- The files and the code that they model:
--   Config: app/config.py, the settings that the modelled code reads.
--   Auth: app/auth.py. `middleware` is `AuthMiddleware.__call__`, from a scope to an `Action`;
--     `check_bearer` and `check_basic` are the two ways to log in. Auth/Scheme has the lemmas on
--     `_split_scheme`, Auth/Bearer and Auth/Basic the two logins, Auth/Gate the middleware.
--   Encoding: what Auth uses of Python's str.encode, bytes.decode and base64.b64decode, with the
--     round trips in Encoding/Utf8 and Encoding/Base64.
--   Cache: `ttl_cache` of app/collectors/base.py. The wrapper is cut at its awaits into `arrive`,
--     `wake`, `finish`, `fail`, `cancel` and `leave`; `run` is a sequence of such events. A lock is the
--     queue of the callers that hold it or wait for it. Cache/Quiet has the events that leave the
--     tables and the front of a queue as they are.
--   Models: the records of app/models that the other files use.
--   Warnings: app/routers/warnings.py. `get_warnings` takes the table of counters and what the
--     collectors returned (`Gathered`), and gives the new table and the list. Its parts are in
--     Warnings/Counting, Warnings/Devices and Warnings/Cluster; Increases, Health and
--     Assembly, on Failures and Origins, hold the theorems.
--   Regex: Python's `re.search` with IGNORECASE, for the patterns that the rules use; its meaning is
--     the relation `Matches` of Regex/Semantics.
--   Dmesg: app/collectors/dmesg.py. Dmesg/Rules has the rules, Dmesg/Stamps `parse_line`, and Dmesg/Scan
--     `scan` and `collect_dmesg_warnings`, from what the commands and the file answered. Dmesg/Lines
--     prints the lines that `parse_line` reads back.
--   Degrade: `gather_sections` of app/routers/degrade.py, on how each collector ended, and
--     `get_hardware` of app/routers/hardware.py up to the arguments of the model that it fills.
--   Http: the shared clients of app/httpclient.py, as a state machine whose calls take what the file
--     system and the SSL library answer; Http/Trust and Http/Lifetime have its invariants.
--   Json: the values of `json.loads`, with `dict.get`, truth, iteration and `str`.
--   Storage: app/collectors/storage.py. Storage/Disks has `collect_disks` and `smart_candidates`,
--     Storage/Smart `parse_smart` on Smart/Table, Storage/Device `collect_smart_for_device`,
--     `_still_running` and `collect_all_smart`, Storage/Mounts `parse_mountinfo`, and Storage/Usage `_df` and
--     `collect_disk_usage`. The theorems are in Smart/Verdict, Smart/Attributes, Device/Reports and
--     Mounts/Shortest.
--   Kubernetes: app/collectors/kubernetes.py. Kubernetes/Requests has the requests of the collector, each
--     with its client and headers, and Kubernetes/Probes what the answers say; Kubernetes/Etcd has
--     `_parse_etcd_status`, Kubernetes/Cluster `collect_k8s_node_info` and `collect_cluster_nodes`, and
--     Kubernetes/Certificates `collect_k8s_certificates`. The theorems are in Kubernetes/Secrecy, on the
--     clients of Http, Kubernetes/Defrag and Kubernetes/Members.
--   Containers: app/collectors/containers.py, with sizes and uptimes in Containers/Words and the
--     shares of the list in Containers/Partition. Containers/Logs is the WebSocket of
--     app/routers/containers.py: the checks of `container_logs`, and in Logs/Stream its process and the
--     two tasks of its group, as events.
--   Processes: app/collectors/processes.py. `collect_processes` is one pass over the texts of the files
--     of `/proc`, with the samples before and after; Processes/Turn is a turn of its loop, and
--     `top_processes` its last part, with its theorem in Processes/Selection.
--   Prelude: Python's str, dict and list operations, and the lemmas that the files share.
--
-- The windows of the kernel log and of the counters are at their defaults, 168 and 24 hours; the
-- environment variables that change them are not read.
--
-- Bounds and fuel. Everything is structural recursion but for two functions on fuel: `show_from` runs
-- on the number to print plus one, and each of its steps divides by ten; `repeat`, the star of a
-- pattern, runs on the length of the text, and each of its steps but the last consumes a character.
-- `ends_iff` of Regex/Semantics shows that this is enough.
--
-- Conventions. Text is a list of code points; bytes are numbers. White space is Python's; digits
-- are ASCII, and the case of letters and the word characters of a pattern are those of Latin-1: of the
-- characters above it none is a word character. Floats are numbers of tenths or
-- thousandths, where the source rounds to these, and shares of processes numbers of hundredths,
-- rounded once from the exact quotient. Times are numbers of ticks; the clock is read once in a
-- step of the cache and once in a call of the warnings endpoint. In the kernel log a time is a
-- number of microseconds of UTC, counted from the day before the first one of year 1; digits of a
-- fraction beyond the sixth are dropped, and `float` of the uptime reads digits with or without a
-- fraction. A key of the cache is any type with a decidable equality. `compare_digest` is equality.
-- A call of the HTTP clients is one step, the closing of all of them included. Code that raises
-- gives no result; a float of JSON is the text that Python prints for it, `int(s)` reads digits of
-- ASCII, and the value that `json.loads` makes of an output is an argument. Of `urlsplit`, only
-- what finds the host is modelled.
--
-- The numbers that etcd sends are not negative, and its percentage has no rounding error but that
-- of its one decimal.
--
-- Not modelled: the patterns of app/collectors/processes.py that mask secrets on command lines; the
-- other collectors, their commands and files; the wiring of FastAPI.
mod Prelude
pub mod Config
pub mod Encoding
pub mod Auth
pub mod Cache
pub mod Models
pub mod Warnings
pub mod Regex
pub mod Dmesg
pub mod Degrade
pub mod Http
pub mod Json
pub mod Storage
pub mod Kubernetes
pub mod Containers
pub mod Processes
