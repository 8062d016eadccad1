-- ===== src/Scenarios/Examples.antt =====
-- Events against a lab in which every call succeeds, but the removal of a link's addresses, which
-- raises.
use vyos_ixp_bgp_stress.Prelude.{
  ℕ, String, ◌≡◌, refl, true, false, none, some, List, [], ◌∷◌, arith, map, take, All,
}
use vyos_ixp_bgp_stress.Prelude.Dict.{lookup, insert}
use vyos_ixp_bgp_stress.Inventory.Profile.{Session}
use vyos_ixp_bgp_stress.Scenarios.Calls.{
  Environment, ok, raised, unexpected, RunResult, Payload, text, sample, uniform, randrange, choice,
  monotonic, addrs_missing, addrs_misplaced, blackhole, netem_active, bgp_summary, graceful_restart,
  path_exists, configure_file, reset_bgp, restart_bgpd, exabgp_commands, lookup_prefix, log_counts,
  log_since, impair_begin, impair_end, expect_daemon_restart, event, sleep, flap, unflap, rib_batch,
  inject_mrt, exabgp_send_many, netem, netem_clear, set_walk_offset,
}
use vyos_ixp_bgp_stress.Probes.{
  Ends, without_comments, probe_announce_commands, probe_withdraw_commands,
}
use vyos_ixp_bgp_stress.Probes.Table.{build_probes}
use vyos_ixp_bgp_stress.Probes.Pairs.{
  targets, IsFirst, announced_are_withdrawn, probes_start_with_peer,
}
use vyos_ixp_bgp_stress.Scenarios.Probing.{
  dedup_log, keys_of, line_key, count_lines, count_line, with_count,
}
use vyos_ixp_bgp_stress.Prelude.Clip.{clip, skip, char_count, split_colon}
use vyos_ixp_bgp_stress.Scenarios.Probing.Counts.{line_of, first_of_each, dedup_log-first_of_each}
use vyos_ixp_bgp_stress.Scenarios.Context.{Ctx, merge}
use vyos_ixp_bgp_stress.Scenarios.Context.Merge.{override, merge-override}
use vyos_ixp_bgp_stress.Scenarios.Brackets.{Keeps}
use vyos_ixp_bgp_stress.Scenarios.Impairment.{impairs}
use vyos_ixp_bgp_stress.Scenarios.Policy.{ev_policy_churn}
use vyos_ixp_bgp_stress.Scenarios.Policy.Reverted.{modifies, ev_policy_churn-reverts}
use vyos_ixp_bgp_stress.Scenarios.Scheduler.{
  Spec, Lab, Weighted, peer_flap, blackhole_peer, dut_bgpd_restart, run_one, drawn, total,
}
use vyos_ixp_bgp_stress.Scenarios.Scheduler.Weights.{IsDrawn, drawn-IsDrawn}
use vyos_ixp_bgp_stress.Scenarios.Scheduler.Runs.{run_one-Keeps}
use vyos_ixp_bgp_stress.Scenarios.Scheduler.Returns.{HasKind, run_one-returns}

abbrev done_well : RunResult
done_well = record { rc = 0; out = ""; err = ""; seconds = 3 }

abbrev lab_env : Environment
lab_env (sample pool n) t = ok pool
lab_env (uniform low high) t = ok low
lab_env (randrange low high) t = ok low
lab_env (choice []) t = ok ""
lab_env (choice (f ∷ pool)) t = ok f
lab_env monotonic t = ok 7
lab_env (addrs_missing c) t = raised unexpected
lab_env (addrs_misplaced c) t = ok []
lab_env (blackhole s on) t =
    ok (record { iptables_present = true; rules_installed = 6; effective = true; output = "" })
lab_env (netem_active c) t = ok (record { active = true; qdisc = "netem" })
lab_env (bgp_summary afi) t = ok none
lab_env (graceful_restart s) t = ok none
lab_env (path_exists name way) t = ok true
lab_env (configure_file name way) t = ok done_well
lab_env (reset_bgp target soft afi) t = ok done_well
lab_env restart_bgpd t = ok done_well
lab_env (exabgp_commands s lines) t = ok tt
lab_env (lookup_prefix prefix afi) t = ok none
lab_env (log_counts window) t = ok []
lab_env (log_since window) t = ok []
lab_env impair_begin t = ok tt
lab_env (impair_end grace) t = ok tt
lab_env (expect_daemon_restart d) t = ok tt
lab_env (event kind payload) t = ok tt
lab_env (sleep n) t = ok tt
lab_env (flap s mode) t = ok tt
lab_env (unflap s mode) t = ok tt
lab_env (rib_batch s commands) t = ok tt
lab_env (inject_mrt s) t = ok tt
lab_env (exabgp_send_many s lines) t = ok tt
lab_env (netem c delay jitter loss) t = ok tt
lab_env (netem_clear c) t = ok tt
lab_env (set_walk_offset sid offset) t = ok tt

abbrev gobgp_session : Session
gobgp_session = record {
  sid = ("ixp1-bilat", 0);
  fleet = "ixp1-bilat";
  fabric = "ixp1";
  engine = "gobgp";
  role = "bilateral";
  asn = 65001;
  v4 = some 10;
  v6 = some 11;
  container = ("ixp1-bilat", 0);
  api_port = 50051;
  dut_pg4 = none;
  dut_pg6 = none;
  max_prefix4 = none;
  max_prefix6 = none;
  prefixes_v4 = 4;
  prefixes_v6 = 2;
  paths_per_prefix = 1;
  passive = false;
  timers = [];
  flappable = true;
  mrt = none;
  nlri_slot = 0;
  transparent_as_path = none;
}

abbrev ctx : Ctx
ctx = record { sessions = gobgp_session ∷ []; dry_run = false; preds = true }

abbrev lab : Lab
lab = record {
  probing = record {
    texts = record { str = λ j. ""; address = λ a. "" };
    lower = λ t. t;
    first_two = λ t. t;
    strip = λ t. t;
    own_supernet4 = "44.30.0.0/15";
    dut_addrs = λ s. (1, 2);
  };
  prefixes = record {
    v4_first_octets = 100 ∷ [];
    v4_len = 24;
    v6_address = 0;
    v6_prefixlen = 32;
    v6_len = 48;
    contested = λ n. 0;
    contested_pool_v4 = 1;
    contested_pool_v6 = 1;
  };
}

abbrev link_flap : ℕ × Spec
link_flap = (3, peer_flap "link_down" 1 (5000, 30000))

abbrev others : Weighted
others = (2, blackhole_peer 1 0) ∷ (1, dut_bgpd_restart) ∷ []

run_one-Keeps_example : Keeps impairs lab_env (run_one lab ctx link_flap others)
run_one-Keeps_example = run_one-Keeps lab_env lab ctx link_flap others (λ s t. (_, refl))

run_one-returns_example :
    (rec_ : Payload) × ((run_one lab ctx link_flap others lab_env []).0 ≡ ok rec_)
    × HasKind lab_env [] link_flap others rec_
unfolding total
run_one-returns_example =
    run_one-returns lab_env lab ctx link_flap others []
      (record {
        draws = λ low high t some_number. (low, refl, omega arith, omega arith);
        clock = λ t. (7, refl);
        writes = λ kind payload t. (tt, refl);
      })
      (omega arith)

drawn-IsDrawn_example : IsDrawn 4 0 (link_flap ∷ others) (drawn 4 link_flap others)
unfolding total
drawn-IsDrawn_example = drawn-IsDrawn 4 link_flap others (omega arith)

abbrev payload : Payload
payload = ("afi", text "ipv4") ∷ ("kind", text "sample") ∷ []

abbrev keywords : Payload
keywords = ("afi", text "ipv6") ∷ []

merge-override_example :
    (lookup "kind" (merge payload keywords) ≡ none)
    × (lookup "afi" (merge payload keywords) ≡ override "afi" keywords (lookup "afi" payload))
merge-override_example = merge-override payload keywords "afi" refl refl

ev_policy_churn-reverts_example :
    Keeps
      (modifies "community-retag")
      lab_env
      (ev_policy_churn ctx ("community-retag" ∷ []) 15000 true)
ev_policy_churn-reverts_example =
    ev_policy_churn-reverts lab_env "community-retag" ctx ("community-retag" ∷ []) 15000

-- Three lines, of which two are the same behind the time and the host.
abbrev log_lines : List String
log_lines = "12:00 dut: up" ∷ "12:01 dut: down: hold" ∷ "12:02 dut: up" ∷ []

dedup_log-first_of_each_example :
    dedup_log (λ t. t) log_lines 40
    ≡ map
        (line_of (keys_of (λ t. t) log_lines))
        (take 40 (first_of_each [] (keys_of (λ t. t) log_lines)))
dedup_log-first_of_each_example = dedup_log-first_of_each (λ t. t) log_lines 40

counts_of_three : dedup_log (λ t. t) log_lines 40 ≡ ("up", 2) ∷ ("down: hold", 1) ∷ []
unfolding dedup_log line_key split_colon skip char_count count_lines count_line with_count lookup
    insert clip
counts_of_three = refl

abbrev ends : Ends
ends = record { peer_v4 = some 10; peer_v6 = none; dut_v4 = 1; dut_v6 = 2 }

announced_are_withdrawn_example :
    targets (
      without_comments
        (probe_announce_commands ends (build_probes (λ t. t) "44.30.0.0/15" 65001) 65001))
    ≡ targets (probe_withdraw_commands ends (build_probes (λ t. t) "44.30.0.0/15" 65001))
announced_are_withdrawn_example =
    announced_are_withdrawn ends (build_probes (λ t. t) "44.30.0.0/15" 65001) 65001

probes_start_with_peer_example :
    All
      (IsFirst 65001)
      (probe_announce_commands ends (build_probes (λ t. t) "44.30.0.0/15" 65001) 65001)
probes_start_with_peer_example =
    probes_start_with_peer ends (λ t. t) "44.30.0.0/15" 65001 (λ e. omega (arith, e))
