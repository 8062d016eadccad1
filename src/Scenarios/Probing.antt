-- ===== src/Scenarios/Probing.antt =====
-- `ev_probe_check`, `ev_malformed_burst`, `_peer_field`, `_state_is_established` and `_dedup_log` of
-- harness/scenarios.py. The cases of the malformed suite are an argument. A change of a counter is a
-- pair of its two readings.
pub mod Counts
use vyos_ixp_bgp_stress.Prelude.{
  ℕ, suc, ◌+◌, ◌-◌, ◌/◌, String, Bool, true, false, not, ◌&&◌, ◌||◌, Option, none, some, List, [],
  ◌∷◌, ◌++◌, ltb, str_eq, if◌then◌else◌, length, take, or_zero, is_some,
}
use vyos_ixp_bgp_stress.Prelude.Dict.{lookup, insert}
use vyos_ixp_bgp_stress.Prelude.Clip.{clip, char_count, split_colon}
use vyos_ixp_bgp_stress.Telemetry.Violation.{Afi, ipv4, ipv6}
use vyos_ixp_bgp_stress.Telemetry.Sampler.{Json, find, bgp_peer_node, bgp_peer_state}
use vyos_ixp_bgp_stress.Telemetry.Sampler
use vyos_ixp_bgp_stress.Inventory.Profile.{Session}
use vyos_ixp_bgp_stress.Probes.{
  Probe, Expect, accept, reject, Ends, Malformed, absent, present, either, probe_announce_commands,
  probe_withdraw_commands, without_comments, malformed_announce_commands,
  malformed_withdraw_commands,
}
use vyos_ixp_bgp_stress.Probes.Table.{build_probes}
use vyos_ixp_bgp_stress.Scenarios.Calls.{
  Datum, nothing, flag, number, text, named, many, dict, Items, end, item, Entries, done, entry,
  Payload, Io, BgpPath, call, pure, ◌>>=◌, ◌>>◌, collect, sleep, bgp_summary, exabgp_commands,
  lookup_prefix, log_counts, log_since,
}
use vyos_ixp_bgp_stress.Scenarios.Context.{Ctx, log, select, skipped, items}
use vyos_ixp_bgp_stress.Scenarios.Blackhole.{Texts, PeerState, state_dict}

-- What the events read of the inventory besides the sessions.
pub record ProbeLab : Type 0 where
  pub texts : Texts
  pub lower : String → String
  pub first_two : String → String
  pub strip : String → String
  pub own_supernet4 : String
  pub dut_addrs : Session → ℕ × ℕ

abbrev pub ends_of : ProbeLab → Session → Ends
ends_of lab s = record {
  peer_v4 = s.v4;
  peer_v6 = s.v6;
  dut_v4 = (lab.dut_addrs s).0;
  dut_v6 = (lab.dut_addrs s).1;
}

-- `[x for x in ctx.inv.sessions if x.engine == "exabgp"]`
abbrev pub exabgp_sessions : Ctx → List Session
exabgp_sessions ctx = select (λ s. str_eq s.engine "exabgp") ctx.sessions

-- A row of `results`.
pub record Row : Type 0 where
  pub pid : String
  pub prefix : String
  pub expect : Expect
  pub observed : Expect
  pub passed : Bool
  pub template_defect : Bool
  pub local_pref : Option ℕ
  pub large_community : Option String

-- `bool(got and got.get("paths"))`
unfoldable pub is_present : Option (List BgpPath) → Bool
is_present none = false
is_present (some []) = false
is_present (some (p ∷ paths)) = true

abbrev pub verdict_of : Bool → Expect
verdict_of true = accept
verdict_of false = reject

abbrev pub same_verdict : Expect → Expect → Bool
same_verdict accept accept = true
same_verdict reject reject = true
same_verdict _ _ = false

abbrev pub first_path : {A : Type 0} → Option (List BgpPath) → (BgpPath → Option A) → Option A
first_path (some (p ∷ paths)) field = field p
first_path _ field = none

-- `locPrf` if it is not `None`, and else `localPref`.
abbrev pub preference : BgpPath → Option ℕ
preference p = elim p.loc_prf [ some n ↦ some n | none ↦ p.local_pref ]

unfoldable pub grade : Probe → Option (List BgpPath) → Row
grade p got =
    let passed = same_verdict (verdict_of (is_present got)) p.expect in
    record {
      pid = p.pid;
      prefix = p.prefix;
      expect = p.expect;
      observed = verdict_of (is_present got);
      passed = passed;
      template_defect = not passed && p.template_defect;
      local_pref = first_path got preference;
      large_community = first_path got (λ q. q.large_community);
    }

-- `[r for r in results if not r["pass"]]` and those of them with a template defect.
unfoldable pub failed : List Row → List Row
failed [] = []
failed (r ∷ results) = let rest = failed results in if r.passed then rest else r ∷ rest

unfoldable pub defects : List Row → List Row
defects [] = []
defects (r ∷ results) = let rest = defects results in if r.template_defect then r ∷ rest else rest

abbrev pub expect_text : Expect → String
expect_text accept = "accept"
expect_text reject = "reject"

abbrev pub opt_number : Option ℕ → Datum
opt_number none = nothing
opt_number (some n) = number n

abbrev pub opt_text : Option String → Datum
opt_text none = nothing
opt_text (some t) = text t

-- `row["classification"]`, which a probe that passed does not have.
abbrev pub classification : Row → Datum
classification r =
    if r.passed
    then nothing
    else text (if r.template_defect then "template-defect-confirmed" else "unexpected")

unfoldable pub row_dict : Row → Datum
row_dict r = dict (
    entry "pid" (text r.pid) (
      entry "prefix" (text r.prefix) (
        entry "expect" (text (expect_text r.expect)) (
          entry "observed" (text (expect_text r.observed)) (
            entry "pass" (flag r.passed) (
              entry "template_defect" (flag r.template_defect) (
                entry "classification" (classification r) (
                  entry "local_pref" (opt_number r.local_pref)
                    (entry "large_community" (opt_text r.large_community) done)))))))))

module _ (lab : ProbeLab) (ctx : Ctx) where
  unfoldable pub announce_probes : Session → List Probe → ℕ → Bool → Io (Unit {0})
  announce_probes s probes settle false = pure tt
  announce_probes s probes settle true =
      call (
        exabgp_commands s (without_comments (probe_announce_commands (ends_of lab s) probes s.asn)))
      >> call (sleep settle)

  unfoldable pub check_probes : Session → List Probe → ℕ → Bool → Io (List Row)
  check_probes s probes settle announce =
      if ctx.dry_run
      then pure []
      else announce_probes s probes settle announce
        >> collect probes (λ p. call (lookup_prefix p.prefix p.afi) >>= λ got. pure (grade p got))

  unfoldable pub withdraw_probes : Session → List Probe → Bool → Bool → Io (Unit {0})
  withdraw_probes s probes announce withdraw =
      if not ctx.dry_run && (announce && withdraw)
      then call (exabgp_commands s (probe_withdraw_commands (ends_of lab s) probes))
      else pure tt

  unfoldable pub probe_result : Bool → List Row → Io Payload
  probe_result announce results = log "probe_check" [] (
      ("total", number (length results))
      ∷ ("failures", number (length (failed results)))
      ∷ ("template_defects", number (length (defects (failed results))))
      ∷ ("unexplained", number (length (failed results) - length (defects (failed results))))
      ∷ ("announced", flag (announce && not ctx.dry_run))
      ∷ ("results", many (items row_dict results))
      ∷ [])

  unfoldable pub probe_session : List Session → Bool → ℕ → Bool → Io Payload
  probe_session [] announce settle withdraw = skipped "probe_check"
  probe_session (s ∷ rest) announce settle withdraw =
      let probes = build_probes lab.first_two lab.own_supernet4 s.asn in
      check_probes s probes settle announce >>= λ results.
      withdraw_probes s probes announce withdraw >> probe_result announce results

  unfoldable pub ev_probe_check : Bool → ℕ → Bool → Io Payload
  ev_probe_check announce settle withdraw =
      probe_session (exabgp_sessions ctx) announce settle withdraw

-- `_peer_field`
unfoldable pub peer_field : Option Json → String → String → Option ℕ
peer_field summary peer field = elim (bgp_peer_node summary) [
  | none ↦ none
  | some node ↦ elim (find "peers" node) [
    | some peers ↦ elim peers [
      | Sampler.object ps ↦ elim (find peer ps) [
        | some p ↦ elim p [
          | Sampler.object fs ↦ elim (find field fs) [
            | some v ↦ elim v [ Sampler.number n ↦ some n | _ ↦ none ]
            | none ↦ none
          ]
          | _ ↦ none
        ]
        | none ↦ none
      ]
      | _ ↦ none
    ]
    | none ↦ none
  ]
]

-- `_state_is_established`
unfoldable pub state_is_established : (String → String) → Option String → Option Bool
state_is_established lower none = none
state_is_established lower (some state) = some (str_eq (lower state) "established")

-- The loop of `_dedup_log`: `counts` and `order`.
unfoldable pub count_line :
    String → List (String × ℕ) × List String → List (String × ℕ) × List String
count_line key (counts, order) = (
  insert key (or_zero (lookup key counts) + 1) counts,
  if is_some (lookup key counts) then order else order ++ key ∷ [],
)

unfoldable pub count_lines :
    List String → List (String × ℕ) × List String → List (String × ℕ) × List String
count_lines [] state = state
count_lines (key ∷ keys) state = count_lines keys (count_line key state)

unfoldable pub with_count : List (String × ℕ) → List String → List (String × ℕ)
with_count counts [] = []
with_count counts (key ∷ order) =
    (clip 400 key, or_zero (lookup key counts)) ∷ with_count counts order

-- `key` of a line; `str.strip` is a parameter.
unfoldable pub line_key : (String → String) → String → String
line_key strip raw =
    let key = strip raw in
    elim (split_colon key) [
      | none ↦ key
      | some (front, rest) ↦ if ltb (char_count front) 80 then rest else key
    ]

abbrev pub keys_of : (String → String) → List String → List String
keys_of strip [] = []
keys_of strip (raw ∷ lines) = line_key strip raw ∷ keys_of strip lines

-- `_dedup_log`
unfoldable pub dedup_log : (String → String) → List String → ℕ → List (String × ℕ)
dedup_log strip lines limit =
    let (counts, order) = count_lines (keys_of strip lines) ([], []) in
    with_count counts (take limit order)
