-- ===== src/Telemetry/Sample.antt =====
-- The record that `Sampler.sample` of harness/telemetry.py puts on the timeline, as far as the
-- tracker and the predicates read it. A dictionary key that may be missing is an `Option`; an empty
-- or missing sub-dictionary is one whose keys are all missing. Times are milliseconds, the CPU
-- percentage is in hundredths and the RSS in tenths of a MB, which is how the sampler rounds them.
use vyos_ixp_bgp_stress.Prelude.{ℕ, String, Bool, true, false, ◌||◌, Option, none, some, List}

-- One address family of `rec["bgp"]`, the result of `_summarise_bgp`.
pub record Summary : Type 0 where
  pub read_ok : Bool
  pub peers : ℕ
  pub established : ℕ
  pub failed : Option ℕ
  pub table_version : Option ℕ
  pub rib_count : Option ℕ
  pub pfx_rcd_total : ℕ

pub record Bgp : Type 0 where
  pub ipv4 : Option Summary
  pub ipv6 : Option Summary

-- One daemon of `rec["proc"]`.
pub record Process : Type 0 where
  pub pid : Option ℕ
  pub rss_mb : Option ℕ
  pub cpu_pct : Option ℕ

-- `rec["dplane"]`, the counters of `show zebra dplane`.
pub record Dplane : Type 0 where
  pub route_update_errors : Option ℕ
  pub queue_limit : Option ℕ
  pub queue_depth : Option ℕ
  pub queue_max : Option ℕ
  pub updates_skipped : Option ℕ

-- `rec["logs"]`: how often each failure signature stood in the log window.
pub record Logs : Type 0 where
  pub daemon_unresponsive : ℕ
  pub sendq_stuck_proper : ℕ
  pub sendq_stuck_warn : ℕ
  pub netlink_overrun : ℕ
  pub zebra_recvmsg_overrun : ℕ
  pub bgpd_crash : ℕ
  pub optmem : ℕ

-- `rec["kind"]`; everything that is not a sample is an event of the timeline.
pub data Kind : Type 0 where
  sample event : Kind

pub record Rec : Type 0 where
  pub kind : Kind
  pub t : Option ℕ
  pub dut_down : Bool
  pub bgp : Bgp
  pub proc : List (String × Process)
  pub route_installs : Option ℕ
  pub dplane : Dplane
  pub logs : Logs

abbrev pub is_sample : Kind → Bool
is_sample sample = true
is_sample event = false

-- `(b.get(a) or {}).get("read_ok") is False`
abbrev pub family_read_failed : Option Summary → Bool
family_read_failed none = false
family_read_failed (some s) = elim s.read_ok [ true ↦ false | false ↦ true ]

-- `read_failed`, the same static method of both classes.
unfoldable pub read_failed : Rec → Bool
read_failed r = family_read_failed r.bgp.ipv4 || family_read_failed r.bgp.ipv6

abbrev pub no_bgp : Bgp
no_bgp = record { ipv4 = none; ipv6 = none }

abbrev pub no_dplane : Dplane
no_dplane = record {
  route_update_errors = none;
  queue_limit = none;
  queue_depth = none;
  queue_max = none;
  updates_skipped = none;
}

abbrev pub no_logs : Logs
no_logs = record {
  daemon_unresponsive = 0;
  sendq_stuck_proper = 0;
  sendq_stuck_warn = 0;
  netlink_overrun = 0;
  zebra_recvmsg_overrun = 0;
  bgpd_crash = 0;
  optmem = 0;
}
