-- ===== src/Storage/Device/Reports.antt =====
-- No drive drops out of the SMART reports: what fails is reported as failed.
use node_debug_dashboard.Prelude.{
  ◌≡◌, refl, sym, ap, ◌∙◌, arith, ◌⊎◌, inl, inr, true, Bool-cases, Option, none, some, Option-cases,
  List, [], ◌∷◌, ◌++◌, map, In, In-keep, keep-In, map-In, In-map, keep, Text, lit, starts_with,
  is_empty, strip, ℤ,
}
use mathlib.Core.Path.{subst}
use node_debug_dashboard.Json.{Json}
use node_debug_dashboard.Regex.{search_text}
use node_debug_dashboard.Models.Storage.{DiskInfo, SmartHealth}
use node_debug_dashboard.Storage.{standby_re}
use node_debug_dashboard.Storage.Disks.{is_candidate, device_path, smart_candidates}
use node_debug_dashboard.Storage.Smart.{parse_smart, parse_smart-report, smart_report}
use node_debug_dashboard.Storage.Device.{
  Host, Output, dev_path, silent_report, loaded_report, report_of, collect_smart_for_device,
  still_running, smartctl, Query, answered, blew_up, failed, reports_of, query, collect_all_smart,
}

parse_smart-device :
    (j : Json) (path : Text) (rc : Option ℤ) (h : SmartHealth)
    → parse_smart j path rc ≡ some h
    → h.device ≡ path
unfolding smart_report
parse_smart-device j path rc h e =
    let (ms, w, m, s, a, b, same) = parse_smart-report j path rc h e in
    sym (ap (λ r. r.device) same)

loaded_report-device :
    (host : Host) (path : Text) (out : Output) (o : Option Json)
    → (loaded_report host path out o).device ≡ path
unfolding loaded_report
loaded_report-device host path out none = elim (Bool-cases (search_text standby_re out.stdout)) [
  | inl s ↦ rw s refl
  | inr s ↦ rw s refl
]
loaded_report-device host path out (some j) =
    elim (Option-cases (parse_smart j path (some out.rc))) [
      | inl e ↦ rw (e, loaded_report) refl
      | inr (h, e) ↦ rw (e, loaded_report) (parse_smart-device j path (some out.rc) h e)
    ]

report_of-device :
    (host : Host) (path : Text) (out : Output) → (report_of host path out).device ≡ path
unfolding report_of silent_report
report_of-device host path out = elim (Bool-cases (is_empty (strip out.stdout))) [
  | inl e ↦ elim (Bool-cases (search_text standby_re out.stderr)) [
    | inl s ↦ rw (e, s) refl
    | inr s ↦ rw (e, s) refl
  ]
  | inr e ↦ rw e (loaded_report-device host path out (host.loads out.stdout))
]

-- A drive whose device file is there always gets a report, under its own path.
collect_smart_for_device-reports :
    (host : Host) (device : Text)
    → host.path_exists (dev_path device) ≡ true
    → (h : SmartHealth) × (collect_smart_for_device host device ≡ some h)
      × (h.device ≡ dev_path device)
unfolding collect_smart_for_device
collect_smart_for_device-reports host device e =
    let path = dev_path device in
    let hung = lit "A previous smartctl on this device is still running (device not responding)" in
    elim (Bool-cases (still_running (smartctl path) host.processes)) [
      | inl r ↦ (failed path hung, ground (arith, e, r), refl)
      | inr r ↦ (
        report_of host path (host.run_command (smartctl path)),
        ground (arith, e, r),
        report_of-device host path (host.run_command (smartctl path)),
      )
    ]

reports_of-later :
    (h : SmartHealth) (device : Text) (q : Query) (rs : List (Text × Query))
    → In h (reports_of rs)
    → In h (reports_of ((device, q) ∷ rs))
unfolding reports_of
reports_of-later h device (answered none) rs i = i
reports_of-later h device (answered (some r)) rs i = inr i
reports_of-later h device (blew_up reason) rs i = inr i

reports_of-first :
    (h : SmartHealth) (device : Text) (q : Query) (rs : List (Text × Query))
    → In h (reports_of ((device, q) ∷ rs))
    → ((q ≡ answered (some h)) ⊎ (h.device ≡ device)) ⊎ In h (reports_of rs)
unfolding reports_of
reports_of-first h device (answered none) rs i = inr i
reports_of-first h device (answered (some r)) rs (inl e) =
    inl (inl (ap (λ x. answered (some x)) (sym e)))
reports_of-first h device (answered (some r)) rs (inr i) = inr i
reports_of-first h device (blew_up reason) rs (inl e) = inl (inr (ap (λ x. x.device) e))
reports_of-first h device (blew_up reason) rs (inr i) = inr i

abbrev paired : (Text → Query) → List Text → List (Text × Query)
paired ask devices = map (λ device. (device, ask device)) devices

reports_of-In :
    (ask : Text → Query) (device : Text) (devices : List Text)
    → In device devices
    → ((h : SmartHealth) × (ask device ≡ answered (some h)) × (h.device ≡ device))
      ⊎ ((reason : Text) × (ask device ≡ blew_up reason))
    → (h : SmartHealth) × In h (reports_of (paired ask devices)) × (h.device ≡ device)
unfolding reports_of
reports_of-In ask device [] i a = absurd i
reports_of-In ask device (d ∷ ds) (inl e) (inl (h, a, same)) =
    (h, rw (sym (ap ask e) ∙ a, reports_of) (inl refl), same)
reports_of-In ask device (d ∷ ds) (inl e) (inr (reason, a)) = (
  failed d (lit "SMART collection failed: " ++ reason),
  rw (sym (ap ask e) ∙ a, reports_of) (inl refl),
  sym e,
)
reports_of-In ask device (d ∷ ds) (inr i) a =
    let (h, j, same) = reports_of-In ask device ds i a in
    (h, reports_of-later h d (ask d) (paired ask ds) j, same)

In-reports_of :
    (ask : Text → Query) (h : SmartHealth) (devices : List Text)
    → In h (reports_of (paired ask devices))
    → (device : Text) × In device devices × ((ask device ≡ answered (some h)) ⊎ (h.device ≡ device))
unfolding reports_of
In-reports_of ask h [] i = absurd i
In-reports_of ask h (d ∷ ds) i = elim (reports_of-first h d (ask d) (paired ask ds) i) [
  | inl a ↦ (d, inl refl, a)
  | inr j ↦ let (x, m, a) = In-reports_of ask h ds j in (x, inr m, a)
]

dev_path-device_path : (d : DiskInfo) → dev_path (device_path d) ≡ device_path d
unfolding dev_path lit starts_with
dev_path-device_path d = refl

query-reports :
    (hosts : Text → Host) (exception : Text → Option Text) (device : Text)
    → (hosts device).path_exists (dev_path device) ≡ true
    → ((h : SmartHealth) × (query hosts exception device ≡ answered (some h))
        × (h.device ≡ dev_path device))
      ⊎ ((reason : Text) × (query hosts exception device ≡ blew_up reason))
unfolding query
query-reports hosts exception device there = elim (Option-cases (exception device)) [
  | inr (reason, e) ↦ inr (reason, ground (arith, e))
  | inl e ↦
      let (h, same, path) = collect_smart_for_device-reports (hosts device) device there in
      inl (h, ground (arith, e, same), path)
]

query-device :
    (hosts : Text → Host) (exception : Text → Option Text) (device : Text) (h : SmartHealth)
    → query hosts exception device ≡ answered (some h)
    → h.device ≡ dev_path device
unfolding query collect_smart_for_device
query-device hosts exception device h e = elim (Option-cases (exception device)) [
  | inr (reason, a) ↦ absurd (ground (arith, e, a))
  | inl a ↦ elim (Bool-cases ((hosts device).path_exists (dev_path device))) [
    | inr b ↦ absurd (ground (arith, e, a, b))
    | inl b ↦
        let (r, same, path) = collect_smart_for_device-reports (hosts device) device b in
        ground (arith, e, a, same, path)
  ]
]

-- Whatever the queries find, and whichever of them raise: each disk that is a candidate and whose
-- device file is there has a report under its path, and each report is of a candidate.
pub collect_all_smart-device_path :
    (hosts : Text → Host) (exception transport_file : Text → Option Text) (disks : List DiskInfo)
    → ((d : DiskInfo)
        → In d disks
        → is_candidate transport_file d ≡ true
        → (hosts (device_path d)).path_exists (device_path d) ≡ true
        → (h : SmartHealth) × In h (collect_all_smart hosts exception transport_file disks)
          × (h.device ≡ device_path d))
      × ((h : SmartHealth)
          → In h (collect_all_smart hosts exception transport_file disks)
          → (d : DiskInfo) × In d disks
            × (is_candidate transport_file d ≡ true)
            × (h.device ≡ device_path d))
unfolding collect_all_smart smart_candidates
collect_all_smart-device_path hosts exception transport_file disks =
    let candidates = keep (is_candidate transport_file) disks in
    let ask = query hosts exception in
    (
      λ d i c there.
          reports_of-In ask (device_path d) (map device_path candidates)
            (map-In device_path d candidates (keep-In (is_candidate transport_file) d disks i c))
            (subst
              (λ p.
                ((h : SmartHealth) × (ask (device_path d) ≡ answered (some h)) × (h.device ≡ p))
                ⊎ ((reason : Text) × (ask (device_path d) ≡ blew_up reason)))
              (dev_path-device_path d)
              (query-reports hosts exception (device_path d) (rw (dev_path-device_path d) there))),
      λ h i.
          let (path, m, a) = In-reports_of ask h (map device_path candidates) i in
          let (d, n, e) = In-map device_path path candidates m in
          let (k, c) = In-keep (is_candidate transport_file) d disks n in
          (d, k, c, named h path d e a),
    )
  where
    named :
        (h : SmartHealth) (path : Text) (d : DiskInfo)
        → path ≡ device_path d
        → (query hosts exception path ≡ answered (some h)) ⊎ (h.device ≡ path)
        → h.device ≡ device_path d
    named h path d e (inr same) = same ∙ e
    named h path d e (inl a) =
        query-device hosts exception path h a ∙ ap dev_path e ∙ dev_path-device_path d
