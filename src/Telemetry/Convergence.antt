-- ===== src/Telemetry/Convergence.antt =====
-- `ConvergenceTracker` of harness/telemetry.py: a state machine that is fed one record at a time.
-- `fib_min_ratio` is not read by the class and is left out.
mod History
mod Confirm
mod StaleFib
mod Wait
mod Examples
use vyos_ixp_bgp_stress.Prelude.{
  ℕ, ◌+◌, Bool, true, false, not, ◌&&◌, ◌||◌, Option, none, some, ltb, leb, ◌==◌, if◌then◌else◌,
  opt_eq, or_zero,
}
use vyos_ixp_bgp_stress.Prelude.Dict.{lookup}
use vyos_ixp_bgp_stress.Telemetry.Sample.{Summary, Bgp, Process, Rec, is_sample, read_failed}

-- The fields that the caller sets.
pub record Config : Type 0 where
  pub expected_sessions_v4 : ℕ
  pub expected_sessions_v6 : ℕ
  pub stable_samples : ℕ
  pub require_all_established : Bool
  pub busy_cpu_pct : ℕ
  pub require_quiet : Bool

-- The tuple that `_key` returns.
pub record Key : Type 0 where
  pub version_v4 : Option ℕ
  pub received_v4 : Option ℕ
  pub version_v6 : Option ℕ
  pub received_v6 : Option ℕ

-- Why the latest sample was not accepted.
pub data Reason : Type 0 where
  dut_not_running summary_unread not_established waiting_for_fib : Reason
  bgpd_busy queue_backlog : ℕ → Reason
  still_installing stabilising : ℕ → ℕ → Reason

pub record Tracker : Type 0 where
  pub streak : ℕ
  pub last_key : Option Key
  pub last_installs : Option ℕ
  pub fib_seen : Bool
  pub reason : Option Reason

-- `reset`, and the initial fields.
abbrev pub reset : Tracker
reset = record {
  streak = 0;
  last_key = none;
  last_installs = none;
  fib_seen = false;
  reason = none;
}

abbrev pub key_of : Option Summary → Option Summary → Key
key_of v4 v6 = record {
  version_v4 = elim v4 [ none ↦ none | some s ↦ s.table_version ];
  received_v4 = elim v4 [ none ↦ none | some s ↦ some s.pfx_rcd_total ];
  version_v6 = elim v6 [ none ↦ none | some s ↦ s.table_version ];
  received_v6 = elim v6 [ none ↦ none | some s ↦ some s.pfx_rcd_total ];
}

-- `_key`: none when there is no `bgp` at all.
abbrev pub bgp_key : Option Summary → Option Summary → Option Key
bgp_key none none = none
bgp_key v4 v6 = some (key_of v4 v6)

unfoldable pub key : Rec → Option Key
key r = bgp_key r.bgp.ipv4 r.bgp.ipv6

abbrev pub same_key : Key → Key → Bool
same_key a b =
    opt_eq a.version_v4 b.version_v4
    && opt_eq a.received_v4 b.received_v4
    && opt_eq a.version_v6 b.version_v6
    && opt_eq a.received_v6 b.received_v6

-- `key == self._last_key`
abbrev pub same_as_last : Key → Option Key → Bool
same_as_last k none = false
same_as_last k (some l) = same_key k l

abbrev pub failed_count : Option Summary → ℕ
failed_count none = 0
failed_count (some s) = or_zero s.failed

abbrev pub established_count : Option Summary → ℕ
established_count none = 0
established_count (some s) = s.established

unfoldable pub families_ok : Config → Option Summary → Option Summary → Bool
families_ok c none none = false
families_ok c v4 v6 =
    if ltb 0 (failed_count v4) || ltb 0 (failed_count v6)
    then false
    else if not c.require_all_established
    then true
    else if ltb 0 c.expected_sessions_v4 && ltb (established_count v4) c.expected_sessions_v4
    then false
    else if ltb 0 c.expected_sessions_v6 && ltb (established_count v6) c.expected_sessions_v6
    then false
    else true

unfoldable pub sessions_ok : Config → Rec → Bool
unfolding families_ok
sessions_ok c r = families_ok c r.bgp.ipv4 r.bgp.ipv6

-- `rec["proc"]["bgpd"]["cpu_pct"]`, where it is a number.
abbrev pub bgpd_cpu : Rec → Option ℕ
bgpd_cpu r = elim (lookup "bgpd" r.proc) [ none ↦ none | some p ↦ p.cpu_pct ]

abbrev pub cpu_reason : Config → Option ℕ → Option Reason
cpu_reason c none = none
cpu_reason c (some cpu) = if leb c.busy_cpu_pct cpu then some (bgpd_busy cpu) else none

abbrev pub queue_reason : Option ℕ → Option Reason
queue_reason none = none
queue_reason (some depth) = if ltb 0 depth then some (queue_backlog depth) else none

-- The part of `busy` that reads zebra's install counter and remembers it.
abbrev pub watch_installs : Option ℕ → Option ℕ → Tracker → Option Reason × Tracker
watch_installs none prev st = (none, st)
watch_installs (some installs) none st = (none, record st { last_installs = some installs })
watch_installs (some installs) (some prev) st =
    if installs == prev
    then (none, record st { last_installs = some installs; fib_seen = true })
    else (some (still_installing prev installs), record st { last_installs = some installs })

unfoldable pub busy : Config → Tracker → Rec → Option Reason × Tracker
busy c st r = elim (cpu_reason c (bgpd_cpu r)) [
  | some why ↦ (some why, st)
  | none ↦ elim (queue_reason r.dplane.queue_depth) [
    | some why ↦ (some why, st)
    | none ↦ watch_installs r.route_installs st.last_installs st
  ]
]

-- `feed` from the comparison of the keys on.
abbrev pub conclude : Config → Tracker → Bool × Tracker
conclude c st =
    if ltb st.streak c.stable_samples
    then (false, record st { reason = some (stabilising st.streak c.stable_samples) })
    else if c.require_quiet && not st.fib_seen
    then (false, record st { reason = some waiting_for_fib })
    else (true, st)

unfoldable pub count : Config → Tracker → Key → Bool × Tracker
count c st k =
    if same_as_last k st.last_key
    then conclude c (record st { streak = st.streak + 1; last_key = some k })
    else conclude c (record st { streak = 1; last_key = some k; fib_seen = false })

-- `feed` from the key on.
unfoldable pub settle : Config → Tracker → Rec → Option Key → Bool × Tracker
unfolding count
settle c st r none = (false, record st { streak = 0; last_key = none })
settle c st r (some k) = elim k.version_v4 [
  | none ↦ (false, record st { streak = 0; last_key = some k })
  | some v ↦
      if sessions_ok c r
      then count c st k
      else (false, record st { streak = 0; last_key = some k; reason = some not_established })
]

-- `feed` behind the call of `busy`.
abbrev pub judge : Config → Rec → Option Reason × Tracker → Bool × Tracker
judge c r (some why, st) = (false, record st { streak = 0; reason = some why })
judge c r (none, st) = settle c st r (key r)

unfoldable pub feed : Config → Tracker → Rec → Bool × Tracker
feed c st r =
    if not (is_sample r.kind)
    then (false, st)
    else if r.dut_down
    then (false, record st { streak = 0; reason = some dut_not_running })
    else if read_failed r
    then (false, record st { reason = some summary_unread })
    else if c.require_quiet
    then judge c r (busy c (record st { reason = none }) r)
    else judge c r (none, record st { reason = none })
