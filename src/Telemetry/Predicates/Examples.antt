-- ===== src/Telemetry/Predicates/Examples.antt =====
-- The predicate set on small timelines, and its theorems at concrete input.
use vyos_ixp_bgp_stress.Prelude.{
  ℕ, ◌≡◌, refl, true, false, none, some, List, [], ◌∷◌, map, or_zero, arith,
}
use vyos_ixp_bgp_stress.Prelude.Dict.{lookup}
use vyos_ixp_bgp_stress.Prelude.Keys.{Distinct, mem}
use vyos_ixp_bgp_stress.Telemetry.Sample.{Summary, Rec, sample, read_failed, no_dplane, no_logs}
use vyos_ixp_bgp_stress.Telemetry.Violation.{ipv4, fail, info, Key, key, Key-discrete, Budgets}
use vyos_ixp_bgp_stress.Telemetry.Predicates.{
  Predicates, init, impair_begin, expect_daemon_restart, daemon_pid, check,
}
use vyos_ixp_bgp_stress.Telemetry.Predicates.Fresh.{run, found, run_reports_each_key_once}
use vyos_ixp_bgp_stress.Telemetry.Predicates.Count.{count, is_restart_of, is_peer_fault_of}
use vyos_ixp_bgp_stress.Telemetry.Predicates.Restarts.{
  changes, shown_in, severities, restarts_are_pid_changes, expected_restart_is_consumed,
}
use vyos_ixp_bgp_stress.Telemetry.Predicates.Peers.{peer_fault_exactly_when}

abbrev budgets : Budgets
budgets = record {
  bgpd_rss_mb = 40000;
  zebra_rss_mb = 20000;
  fib_min_ratio = 98;
  fib_lag_grace = 60000;
  max_failed_peers = 0;
  max_dplane_errors = 0;
  allow_sendq_warn = false;
}

abbrev family : ℕ → Summary
family failed = record {
  read_ok = true;
  peers = 2;
  established = 1;
  failed = some failed;
  table_version = some 50;
  rib_count = some 9;
  pfx_rcd_total = 9;
}

abbrev reading : ℕ → ℕ → Rec
reading pid failed = record {
  kind = sample;
  t = some 1000;
  dut_down = false;
  bgp = record { ipv4 = some (family failed); ipv6 = none };
  proc = ("bgpd", record { pid = some pid; rss_mb = some 100; cpu_pct = some 10 }) ∷ [];
  route_installs = none;
  dplane = no_dplane;
  logs = no_logs;
}

abbrev restarting : List (ℕ × Rec)
restarting = (1000, reading 7 1) ∷ (2000, reading 7 1) ∷ (3000, reading 8 1) ∷ []

run_reports_each_key_once_example :
    Distinct Key-discrete (map key (run (init budgets) restarting).0)
    × ((k : Key)
        → mem Key-discrete k (map key (run (init budgets) restarting).0)
          ≡ mem Key-discrete k (map key (found (init budgets) restarting)))
run_reports_each_key_once_example = run_reports_each_key_once budgets restarting

restarts_are_pid_changes_example :
    (or_zero (lookup "bgpd" (run (init budgets) restarting).1.restarts)
      ≡ changes none (shown_in "bgpd" restarting))
    × (count (is_restart_of "bgpd") (found (init budgets) restarting)
        ≡ changes none (shown_in "bgpd" restarting))
restarts_are_pid_changes_example = restarts_are_pid_changes budgets restarting "bgpd"

one_change : changes none (shown_in "bgpd" restarting) ≡ 1
unfolding read_failed lookup
one_change = refl

abbrev settled : Predicates
settled = record {
  budgets = budgets;
  pids = ("bgpd", 7) ∷ [];
  restarts = [];
  unresponsive_at = none;
  seen = [];
  impair_until = 0;
  impaired = false;
  fib_lag_since = none;
  expect_restart = [];
  qmax_baseline = none;
}

settled_pid : lookup "bgpd" settled.pids ≡ some 7
unfolding lookup
settled_pid = refl

expected_restart_is_consumed_example :
    (severities (daemon_pid (expect_daemon_restart settled "bgpd") (reading 8 0) "bgpd" (some 8)).0
      ≡ info ∷ [])
    × (severities
          (daemon_pid
            (daemon_pid (expect_daemon_restart settled "bgpd") (reading 8 0) "bgpd" (some 8)).1
            (reading 9 0)
            "bgpd"
            (some 9)).0
        ≡ fail ∷ [])
expected_restart_is_consumed_example =
    expected_restart_is_consumed settled "bgpd" (reading 8 0) (reading 9 0) 7 8 9 settled_pid
      (λ e. absurd (omega arith)) (λ e. absurd (omega arith))

peer_fault_exactly_when_example :
    count (is_peer_fault_of ipv4) (check settled 5000 (reading 7 1)).0 ≡ 1
unfolding read_failed
peer_fault_exactly_when_example = peer_fault_exactly_when settled 5000 (reading 7 1) ipv4

suppressed_while_impaired :
    count (is_peer_fault_of ipv4) (check (impair_begin settled) 5000 (reading 7 1)).0 ≡ 0
unfolding read_failed impair_begin
suppressed_while_impaired =
    peer_fault_exactly_when (record settled { impaired = true }) 5000 (reading 7 1) ipv4
