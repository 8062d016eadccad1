-- ===== src/Telemetry/Fib/Examples.antt =====
-- The FIB judgement on small rounds, and its theorems at concrete input.
use vyos_ixp_bgp_stress.Prelude.{ℕ, ◌≡◌, refl, true, false, none, some, List, [], ◌∷◌, All, arith}
use vyos_ixp_bgp_stress.Telemetry.Sample.{Summary, Rec, sample, no_dplane, no_logs}
use vyos_ixp_bgp_stress.Telemetry.Violation.{Afi, ipv4, ipv6, fail}
use vyos_ixp_bgp_stress.Telemetry.Predicates.{Predicates}
use vyos_ixp_bgp_stress.Telemetry.Fib.{Counts, RouteSummary, feed_fib}
use vyos_ixp_bgp_stress.Telemetry.Fib.Lag.{
  Measures, IsSplit, IsWarning, Round, fib_rounds, feed_series, lag_violation,
  lag_is_measured_from_first, split_lag_never_fails,
}

abbrev start : Predicates
start = record {
  budgets = record {
    bgpd_rss_mb = 40000;
    zebra_rss_mb = 20000;
    fib_min_ratio = 98;
    fib_lag_grace = 60000;
    max_failed_peers = 0;
    max_dplane_errors = 0;
    allow_sendq_warn = false;
  };
  pids = [];
  restarts = [];
  unresponsive_at = none;
  seen = [];
  impair_until = 0;
  impaired = false;
  fib_lag_since = none;
  expect_restart = [];
  qmax_baseline = none;
}

abbrev counts : ℕ → Counts
counts fib = record { routes = 100; fib = fib }

abbrev summary : Afi → ℕ → RouteSummary
summary afi fib = record { ok = true; afi = afi; sources = []; bgp = some (counts fib) }

behind : (afi : Afi) → Measures start.budgets true (summary afi 50)
behind afi = record {
  read = refl;
  counts = counts 50;
  found = refl;
  routed = omega arith;
  verdict = refl;
}

healthy : (afi : Afi) → Measures start.budgets false (summary afi 99)
healthy afi = record {
  read = refl;
  counts = counts 99;
  found = refl;
  routed = omega arith;
  verdict = refl;
}

lag_is_measured_from_first_example :
    (feed_fib
      (feed_series (feed_fib start (summary ipv4 50) (some 1000)).1 ((summary ipv4 50, 30000) ∷ []))
      (summary ipv4 50)
      (some 70000)).0
    ≡ lag_violation ipv4 fail ∷ []
lag_is_measured_from_first_example =
    lag_is_measured_from_first start (summary ipv4 50) (summary ipv4 50) 1000 70000
      ((summary ipv4 50, 30000) ∷ []) refl (behind ipv4) (behind ipv4, tt) (behind ipv4)

abbrev family : Summary
family = record {
  read_ok = true;
  peers = 1;
  established = 1;
  failed = some 0;
  table_version = some 50;
  rib_count = some 100;
  pfx_rcd_total = 100;
}

abbrev last : ℕ → Rec
last t = record {
  kind = sample;
  t = some t;
  dut_down = false;
  bgp = record { ipv4 = some family; ipv6 = some family };
  proc = [];
  route_installs = none;
  dplane = no_dplane;
  logs = no_logs;
}

abbrev zebra : Afi → RouteSummary
zebra ipv4 = summary ipv4 50
zebra ipv6 = summary ipv6 99

split : (t : ℕ) → IsSplit start.budgets (last t) zebra
split t = record {
  asked_v4 = omega arith;
  asked_v6 = omega arith;
  behind_v4 = behind ipv4;
  healthy_v6 = healthy ipv6;
}

-- Ten minutes apart, with a grace of one.
abbrev rounds : List Round
rounds =
    record { last = last 1000; zebra = zebra } ∷ record { last = last 601000; zebra = zebra } ∷ []

split_lag_never_fails_example : All IsWarning (fib_rounds start rounds).0
split_lag_never_fails_example =
    split_lag_never_fails start rounds refl (split 1000, (split 601000, tt))
