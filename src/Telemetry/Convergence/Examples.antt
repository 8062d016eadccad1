-- ===== src/Telemetry/Convergence/Examples.antt =====
-- The tracker on small timelines, and its theorems at concrete input.
use vyos_ixp_bgp_stress.Prelude.{
  ℕ, ◌≤◌, ◌<◌, ◌≡◌, refl, true, false, Option, none, some, List, [], ◌∷◌, ◌++◌, arith,
}
use vyos_ixp_bgp_stress.Prelude.Dict.{lookup}
use vyos_ixp_bgp_stress.Telemetry.Sample.{Summary, Rec, sample, read_failed, no_dplane, no_logs}
use vyos_ixp_bgp_stress.Telemetry.Convergence.{
  Config, Key, Tracker, bgpd_busy, key, sessions_ok, feed, busy, settle, count,
}
use vyos_ixp_bgp_stress.Telemetry.Convergence.History.{IsSteady, IsRun, none_yet, grow, after}
use vyos_ixp_bgp_stress.Telemetry.Convergence.Confirm.{confirmed-IsRun, confirms_when_stable}
use vyos_ixp_bgp_stress.Telemetry.Convergence.StaleFib.{
  IsBusy, IsBlind, feed_all, confirms_without_fib,
}
use vyos_ixp_bgp_stress.Telemetry.Convergence.Wait.{
  Poll, Outcome, IsConfirmed, wait, wait_for_convergence, wait_for_convergence-IsConfirmed,
  wait_for_convergence-returns,
}

abbrev strict : Config
strict = record {
  expected_sessions_v4 = 1;
  expected_sessions_v6 = 0;
  stable_samples = 2;
  require_all_established = true;
  busy_cpu_pct = 6000;
  require_quiet = true;
}

abbrev family : Summary
family = record {
  read_ok = true;
  peers = 1;
  established = 1;
  failed = some 0;
  table_version = some 50;
  rib_count = some 9;
  pfx_rcd_total = 9;
}

-- A sample with the CPU of bgpd and, on a slow sample, zebra's install counter.
abbrev reading : ℕ → Option ℕ → Rec
reading cpu installs = record {
  kind = sample;
  t = some 1000;
  dut_down = false;
  bgp = record { ipv4 = some family; ipv6 = some family };
  proc = ("bgpd", record { pid = some 7; rss_mb = some 100; cpu_pct = some cpu }) ∷ [];
  route_installs = installs;
  dplane = no_dplane;
  logs = no_logs;
}

abbrev counters : Key
counters = record {
  version_v4 = some 50;
  received_v4 = some 9;
  version_v6 = some 50;
  received_v6 = some 9;
}

confirms_on_second :
    (feed strict (after strict (reading 10 (some 5) ∷ [])) (reading 10 (some 5))).0 ≡ true
unfolding feed after busy settle count read_failed sessions_ok key lookup
confirms_on_second = refl

waits_for_fib : (feed strict (after strict (reading 10 none ∷ [])) (reading 10 none)).0 ≡ false
unfolding feed after busy settle count read_failed sessions_ok key lookup
waits_for_fib = refl

confirmed-IsRun_example :
    (k : Key) × (n : ℕ) × (2 ≤ n)
    × (0 < n)
    × IsRun strict k n (reading 10 (some 5) ∷ reading 10 (some 5) ∷ [])
confirmed-IsRun_example =
    confirmed-IsRun strict (reading 10 (some 5) ∷ []) (reading 10 (some 5)) confirms_on_second

abbrev loose : Config
loose = record strict { require_quiet = false }

steady :
    (c : Config)
    → c.require_quiet ≡ false
    → (cpu : ℕ) → sessions_ok c (reading cpu none) ≡ true
    → IsSteady c counters (reading cpu none)
unfolding read_failed key
steady c e cpu ok = record {
  sampled = refl;
  running = refl;
  read = refl;
  counters = refl;
  counted = λ h. cc;
  established = ok;
  cpu_quiet = λ h. cc;
  queue_quiet = λ h. cc;
}

loose_ok : (cpu : ℕ) → sessions_ok loose (reading cpu none) ≡ true
unfolding sessions_ok
loose_ok cpu = refl

-- bgpd at 100% does not matter without the quiet gate.
confirms_when_stable_example :
    (feed loose (after loose (reading 10000 none ∷ [])) (reading 10000 none)).0 ≡ true
confirms_when_stable_example =
    confirms_when_stable loose counters 1 (reading 10000 none ∷ []) (reading 10000 none) refl
      (steady loose refl 10000 (loose_ok 10000))
      (grow {n = 0} (omega arith) (steady loose refl 10000 (loose_ok 10000)) (none_yet []))
      (omega arith)

abbrev was_settled : Tracker
was_settled = record {
  streak = 2;
  last_key = some counters;
  last_installs = some 5;
  fib_seen = true;
  reason = none;
}

overloaded : IsBusy strict (reading 10000 none)
unfolding read_failed lookup
overloaded = record {
  sampled = refl;
  running = refl;
  read = refl;
  why = bgpd_busy 10000;
  over = refl;
}

blind : IsBlind strict counters (reading 10 none)
unfolding read_failed lookup key sessions_ok
blind = record {
  steady = record {
    sampled = refl;
    running = refl;
    read = refl;
    counters = refl;
    counted = λ h. cc;
    established = refl;
    cpu_quiet = λ h. refl;
    queue_quiet = λ h. refl;
  };
  blind = refl;
}

confirms_without_fib_example :
    (feed strict
      (feed_all strict (feed strict was_settled (reading 10000 none)).1 (reading 10 none ∷ []))
      (reading 10 none)).0
    ≡ true
confirms_without_fib_example =
    confirms_without_fib strict was_settled counters (reading 10000 none) (reading 10 none)
      (reading 10 none ∷ []) refl refl refl overloaded (blind, tt) blind (omega arith)

-- The same record is looked at twice, then the next one, a second later each.
abbrev polls : List Poll
polls =
    record { at = 0; latest = some (1, reading 10 (some 5)); looked = 10 }
    ∷ record { at = 1000; latest = some (1, reading 10 (some 5)); looked = 1010 }
    ∷ record { at = 2000; latest = some (2, reading 10 (some 5)); looked = 2010 }
    ∷ []

abbrev outcome : Outcome
outcome = record { converged = true; elapsed = 10; last = some (2, reading 10 (some 5)) }

confirms_on_third_poll : wait_for_convergence strict 60000 2000 polls ≡ some outcome
unfolding wait_for_convergence wait feed busy settle count read_failed sessions_ok key lookup
confirms_on_third_poll = refl

wait_for_convergence-IsConfirmed_example : IsConfirmed strict 60000 2000 polls outcome
wait_for_convergence-IsConfirmed_example =
    wait_for_convergence-IsConfirmed strict 60000 2000 polls outcome confirms_on_third_poll refl

abbrev late : Poll
late = record { at = 60000; latest = none; looked = 60001 }

wait_for_convergence-returns_example :
    (o : Outcome) × (wait_for_convergence strict 60000 2000 (polls ++ late ∷ []) ≡ some o)
wait_for_convergence-returns_example =
    wait_for_convergence-returns strict 60000 2000 polls late [] (omega arith)
