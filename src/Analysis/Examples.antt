-- ===== src/Analysis/Examples.antt =====
-- The tables of analysis/analyze.py on small timelines.
use vyos_ixp_bgp_stress.Prelude.{
  ℕ, ◌+◌, ◌/◌, ◌≤◌, ◌≡◌, ◌↔◌, refl, String, true, none, some, List, [], ◌∷◌, arith,
}
use vyos_ixp_bgp_stress.Prelude.Dict.{lookup}
use vyos_ixp_bgp_stress.Analysis.Timeline.{Row}
use vyos_ixp_bgp_stress.Analysis.Settle.{settle_after, first_settled, since, settle_loop}
use vyos_ixp_bgp_stress.Analysis.Settle.History.{settle_after-first_settled}
use vyos_ixp_bgp_stress.Analysis.Metrics.{
  pct, pct_sorted, sorted, insert_in, interpolate, summarise, Metrics,
}
use vyos_ixp_bgp_stress.Analysis.Metrics.Ranks.{IsPercentile, pct-IsPercentile}
use vyos_ixp_bgp_stress.Analysis.Metrics.Consistent.{
  IsConsistent, IsRounding, summarise-IsConsistent,
}
use vyos_ixp_bgp_stress.Analysis.Signatures.{
  Window, number, log_totals, windows_with, truthy, counted,
}
use vyos_ixp_bgp_stress.Analysis.Signatures.Totals.{totals_are_sums, in_windows, in_window}
use vyos_ixp_bgp_stress.Analysis.Signatures.Suspects.{
  IsConstant, values, values_in, shown, suspect_exactly_when,
}
use vyos_ixp_bgp_stress.Analysis.Flaps.{Event, peer_flap_down, peer_flap_up, flap_recovery}
use vyos_ixp_bgp_stress.Analysis.Flaps.Pairing.{paired, steps, flap_recovery-paired}
use vyos_ixp_bgp_stress.Analysis.Commits.{
  commit_latencies, policy_churn_applied, policy_churn_reverted,
}
use vyos_ixp_bgp_stress.Analysis.Commits
use vyos_ixp_bgp_stress.Analysis.Commits.Phases.{count_of, total_of, phases_add_up}

-- A row at a time with an IPv4 table version.
row_at : ℕ → ℕ → Row
row_at t version = record {
  t = some t;
  v4_established = some 1;
  v4_failed = some 0;
  v4_pfx_rcd = some 7;
  v4_table_version = some version;
  v4_rib_count = none;
  v6_established = none;
  v6_failed = none;
  v6_pfx_rcd = none;
  v6_table_version = none;
  bgpd_rss_mb = some 100;
  bgpd_cpu_pct = some 9600;
  bgpd_threads = none;
  zebra_rss_mb = none;
  zebra_cpu_pct = none;
  cgroup_mem_mb = none;
  route_installs = none;
  dplane_queue_max = none;
  dplane_errors = none;
}

abbrev moving : List Row
unfolding row_at
moving = row_at 1000 4 ∷ row_at 2000 5 ∷ row_at 3000 5 ∷ row_at 4000 5 ∷ []

settle_after-first_settled_example :
    settle_after 3 moving (some 1500) ≡ first_settled 3 1500 [] (since 1500 moving)
settle_after-first_settled_example = settle_after-first_settled 3 moving 1500

settles_at : settle_after 3 moving (some 1500) ≡ some 2500
unfolding settle_after settle_loop since row_at
settles_at = refl

pct-IsPercentile_example :
    (v : ℕ) × (pct (3 ∷ 1 ∷ 2 ∷ 9 ∷ []) 95 100 ≡ some v)
    × IsPercentile (3 ∷ 1 ∷ 2 ∷ 9 ∷ []) 95 100 v
pct-IsPercentile_example = pct-IsPercentile 3 (1 ∷ 2 ∷ 9 ∷ []) 95 100 (omega arith) (omega arith)

-- 8.1
p95_of_four : pct (3 ∷ 1 ∷ 2 ∷ 9 ∷ []) 95 100 ≡ some 810
unfolding pct pct_sorted sorted insert_in interpolate
p95_of_four = refl

-- Half a tenth goes up.
half_up : ℕ → ℕ
half_up n = (n + 500) / 1000

half_up-IsRounding : IsRounding half_up
unfolding half_up
half_up-IsRounding = record {
  not_below = λ n. omega arith;
  not_above = λ n. omega arith;
  keeps_order = λ m n le. omega arith;
}

summarise-IsConsistent_example :
    (m : Metrics) × (summarise half_up (row_at 1000 4 ∷ row_at 2000 5 ∷ []) ≡ some m)
    × IsConsistent m
summarise-IsConsistent_example =
    summarise-IsConsistent half_up (row_at 1000 4) (row_at 2000 5 ∷ []) half_up-IsRounding

abbrev window : Window
window = ("martian_nexthop", number 332) ∷ ("_window", number 60) ∷ []

abbrev windows : List Window
windows = window ∷ window ∷ window ∷ window ∷ window ∷ []

totals_are_sums_example : lookup "martian_nexthop" (log_totals windows).totals ≡ some 1660
unfolding in_windows in_window counted
totals_are_sums_example = totals_are_sums "martian_nexthop" windows

suspect_exactly_when_example :
    ((log_totals windows).suspect ≡ true)
    ↔ ((name : String) × IsConstant (values name windows) × (5 ≤ windows_with name windows))
suspect_exactly_when_example = suspect_exactly_when windows

stale : (log_totals windows).suspect ≡ true
unfolding values values_in shown windows_with counted truthy lookup
stale =
    (suspect_exactly_when windows).1
      ("martian_nexthop", (refl, (refl, (refl, (refl, tt)))), omega arith)

abbrev flaps : List Event
flaps =
    peer_flap_down ("s1" ∷ "s2" ∷ []) (some 10)
    ∷ peer_flap_up ("s1" ∷ []) (some 20) none
    ∷ peer_flap_up ("s1" ∷ "s2" ∷ []) (some 30) none
    ∷ []

flap_recovery-paired_example : flap_recovery flaps moving ≡ paired moving [] (steps flaps)
flap_recovery-paired_example = flap_recovery-paired flaps moving

abbrev commits : List Commits.Event
commits =
    policy_churn_applied (some "retag") (some 3260)
    ∷ policy_churn_reverted (some "retag") (some 30)
    ∷ []

phases_add_up_example :
    (count_of (lookup "retag" (commit_latencies commits).per_fragment)
      ≡ count_of (lookup "retag" (commit_latencies commits).applied)
        + count_of (lookup "retag" (commit_latencies commits).reverted))
    × (total_of (lookup "retag" (commit_latencies commits).per_fragment)
        ≡ total_of (lookup "retag" (commit_latencies commits).applied)
          + total_of (lookup "retag" (commit_latencies commits).reverted))
phases_add_up_example = phases_add_up commits "retag"
