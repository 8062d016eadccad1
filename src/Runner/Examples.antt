-- ===== src/Runner/Examples.antt =====
-- A ramp over two sessions whose second step does not converge, and one whose first step has a crash.
use vyos_ixp_bgp_stress.Prelude.{
  ℕ, ◌≡◌, ◌≤◌, refl, arith, String, Bool, true, false, ltb, none, some, List, [], ◌∷◌, length,
}
use vyos_ixp_bgp_stress.Inventory.Profile.{Session}
use vyos_ixp_bgp_stress.Telemetry.Violation.{fail, plain, bgpd_crash}
use vyos_ixp_bgp_stress.Runner.{with_v4, with_v6, expected_session_counts}
use vyos_ixp_bgp_stress.Runner.Ramp.{
  ramp_before, insert_session, ordered_sessions, Reply, measured, Row, has_hard, judge_step,
  ramp_step, Ramp, extend_started, ramp_loop, ramp, last_row, last_but_one, last_good_step,
}
use vyos_ixp_bgp_stress.Runner.Ramp.Limit.{good_rows, last_good_step-last_row}
use vyos_ixp_bgp_stress.Runner.Ramp.Waves.{Waves, ramp-Waves}

abbrev bilateral : Session
bilateral = record {
  sid = ("ixp1-bilat", 0);
  fleet = "ixp1-bilat";
  fabric = "ixp1";
  engine = "gobgp";
  role = "bilateral";
  asn = 65001;
  v4 = some 10;
  v6 = some 11;
  container = ("ixp1-bilat", 0);
  api_port = 50051;
  dut_pg4 = none;
  dut_pg6 = none;
  max_prefix4 = none;
  max_prefix6 = none;
  prefixes_v4 = 4;
  prefixes_v6 = 2;
  paths_per_prefix = 1;
  passive = false;
  timers = [];
  flappable = true;
  mrt = none;
  nlri_slot = 0;
  transparent_as_path = none;
}

abbrev route_server : Session
route_server = record bilateral {
  sid = ("ixp1-rs", 0);
  fleet = "ixp1-rs";
  role = "route-server";
  v4 = some 20;
  v6 = none;
}

abbrev by_index : String × ℕ → String × ℕ → Bool
by_index a b = ltb a.1 b.1

abbrev small_at_first : ℕ → List Session → ℕ → Reply
small_at_first i started cap =
    measured (record { ok = ltb (length started) 2; secs = 100; new_v = [] }) none

abbrev crashing : ℕ → List Session → ℕ → Reply
crashing i started cap =
    measured (record { ok = true; secs = 100; new_v = plain bgpd_crash fail ∷ [] }) none

abbrev two_steps : Ramp
two_steps = record {
  ordered = route_server ∷ bilateral ∷ [];
  step_peers = 1;
  step_prefixes = 25000;
  lab = small_at_first;
}

abbrev one_step : Ramp
one_step = record two_steps { lab = crashing }

abbrev row_1 : Row
row_1 = record {
  step = 1;
  sessions = 1;
  prefix_cap = 25000;
  expected = (1, 0);
  converged = true;
  convergence_s = 100;
  violations = [];
}

ordered_sessions_test :
    ordered_sessions by_index (bilateral ∷ route_server ∷ []) ≡ route_server ∷ bilateral ∷ []
unfolding ordered_sessions insert_session ramp_before
ordered_sessions_test = refl

last_good_step-last_row_example :
    last_good_step (ramp two_steps 5).verdict (ramp two_steps 5).steps
    ≡ last_row (good_rows (ramp two_steps 5).steps)
unfolding ramp ramp_loop extend_started ramp_step judge_step has_hard
last_good_step-last_row_example = last_good_step-last_row two_steps 5 (omega arith)

ramp-Waves_example :
    Waves two_steps 1 (ramp two_steps 5).steps × (length (ramp two_steps 5).steps ≤ 5)
ramp-Waves_example = ramp-Waves two_steps 5

last_good_step_test :
    last_good_step (ramp two_steps 5).verdict (ramp two_steps 5).steps ≡ some row_1
unfolding ramp ramp_loop extend_started ramp_step judge_step has_hard expected_session_counts
    with_v4 with_v6 last_good_step last_but_one
last_good_step_test = refl

-- The step with the crash stands in the summary as the last good one.
first_step_test :
    last_good_step (ramp one_step 5).verdict (ramp one_step 5).steps
    ≡ some (record row_1 { violations = plain bgpd_crash fail ∷ [] })
unfolding ramp ramp_loop extend_started ramp_step judge_step has_hard expected_session_counts
    with_v4 with_v6 last_good_step last_row
first_step_test = refl
