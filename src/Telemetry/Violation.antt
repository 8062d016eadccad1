-- ===== src/Telemetry/Violation.antt =====
-- `Violation` and `Budgets` of harness/telemetry.py. The text of `detail` and the evidence other
-- than that of a restart are left out.
use vyos_ixp_bgp_stress.Prelude.{ℕ, String, Bool, Option, none}
use vyos_ixp_bgp_stress.Prelude.Keys.{string_discrete}
use native.Mathlib.Decide.{ℕ_discrete}

pub data Afi : Type 0 where
  ipv4 ipv6 : Afi

pub data Severity : Type 0 where
  fail warn info : Severity

-- The codes; the texts that are put together from a name, as `{name}_restarted`, carry the name.
pub data Code : Type 0 where
  telemetry_read_failed dut_container_down sendq_stuck_proper sendq_stuck_warn : Code
  netlink_overrun bgpd_crash optmem_exhausted dplane_route_errors : Code
  dplane_queue_saturated_before_run dplane_queue_saturated dplane_updates_skipped : Code
  fib_state_unreadable fib_summary_unrecognised fib_behind_rib : Code
  failed_peers : Afi → Code
  rss_exceeded restarted gone : String → Code

-- What the `dedup` text is made of.
pub data Dedup : Type 0 where
  pid_change : ℕ → ℕ → Dedup
  state_unreadable summary_unrecognised : Afi → Dedup
  behind_rib : Afi → Severity → Dedup

-- The evidence of a restart.
pub record Restart : Type 0 where
  pub old_pid : ℕ
  pub new_pid : ℕ
  pub nth : ℕ
  pub expected : Bool
  pub watchdog_kill : Bool

pub record Violation : Type 0 where
  pub code : Code
  pub severity : Severity
  pub dedup : Option Dedup
  pub restart : Option Restart

-- `key()`
pub record Key : Type 0 where
  pub code : Code
  pub severity : Severity
  pub dedup : Option Dedup

abbrev pub key : Violation → Key
key v = record { code = v.code; severity = v.severity; dedup = v.dedup }

abbrev pub plain : Code → Severity → Violation
plain code severity = record { code = code; severity = severity; dedup = none; restart = none }

pub Key-discrete : Discrete Key
Key-discrete = hlevel (ℕ_discrete, string_discrete)

pub Code-discrete : Discrete Code
Code-discrete = hlevel string_discrete

-- `fib_min_ratio` is in hundredths, RSS budgets in tenths of a MB, times in milliseconds.
pub record Budgets : Type 0 where
  pub bgpd_rss_mb : ℕ
  pub zebra_rss_mb : ℕ
  pub fib_min_ratio : ℕ
  pub fib_lag_grace : ℕ
  pub max_failed_peers : ℕ
  pub max_dplane_errors : ℕ
  pub allow_sendq_warn : Bool
