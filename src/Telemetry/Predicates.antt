-- ===== src/Telemetry/Predicates.antt =====
-- `PredicateSet` of harness/telemetry.py. The monotonic clock is an argument of what reads it, and
-- `_impair_until` is 0 where the source starts with -1.0: no clock value is below either.
pub mod Fresh
mod Count
mod Restarts
mod Peers
mod Examples
use vyos_ixp_bgp_stress.Prelude.{
  ℕ, ◌+◌, ◌-◌, ◌*◌, Bool, true, false, not, ◌&&◌, ◌||◌, Option, none, some, List, [], ◌∷◌, ◌++◌,
  ltb, leb, ◌==◌, if◌then◌else◌, or_zero, is_some, String,
}
use vyos_ixp_bgp_stress.Prelude.Dict.{lookup, insert, contains, add, discard}
use vyos_ixp_bgp_stress.Prelude.Keys.{mem}
use vyos_ixp_bgp_stress.Telemetry.Sample.{
  Summary, Bgp, Process, Dplane, Logs, Rec, is_sample, read_failed,
}
use vyos_ixp_bgp_stress.Telemetry.Violation.{
  Afi, ipv4, ipv6, Severity, fail, warn, info, Code, telemetry_read_failed, dut_container_down,
  sendq_stuck_proper, sendq_stuck_warn, netlink_overrun, bgpd_crash, optmem_exhausted,
  dplane_route_errors, dplane_queue_saturated_before_run, dplane_queue_saturated,
  dplane_updates_skipped, fib_state_unreadable, fib_summary_unrecognised, fib_behind_rib,
  failed_peers, rss_exceeded, restarted, gone, Dedup, pid_change, state_unreadable,
  summary_unrecognised, behind_rib, Restart, Violation, Key, key, plain, Key-discrete, Budgets,
}

pub record Predicates : Type 0 where
  pub budgets : Budgets
  pub pids : List (String × ℕ)
  pub restarts : List (String × ℕ)
  pub unresponsive_at : Option ℕ
  pub seen : List Key
  pub impair_until : ℕ
  pub impaired : Bool
  pub fib_lag_since : Option ℕ
  pub expect_restart : List String
  pub qmax_baseline : Option ℕ

abbrev pub impair_grace : ℕ
impair_grace = 30000

abbrev pub watchdog_attribution : ℕ
watchdog_attribution = 600000

-- `__init__`
unfoldable pub init : Budgets → Predicates
init b = record {
  budgets = b;
  pids = [];
  restarts = [];
  unresponsive_at = none;
  seen = [];
  impair_until = 0;
  impaired = false;
  fib_lag_since = none;
  expect_restart = [];
  qmax_baseline = none;
}

unfoldable pub impair_begin : Predicates → Predicates
impair_begin s = record s { impaired = true }

-- The second argument is the clock.
unfoldable pub impair_end : Predicates → ℕ → Option ℕ → Predicates
impair_end s now grace = record s {
  impaired = false;
  impair_until = now + elim grace [ none ↦ impair_grace | some g ↦ g ];
}

unfoldable pub peer_faults_suppressed : Predicates → ℕ → Bool
peer_faults_suppressed s now = s.impaired || ltb now s.impair_until

unfoldable pub expect_daemon_restart : Predicates → String → Predicates
expect_daemon_restart s name = record s { expect_restart = add name s.expect_restart }

unfoldable pub note_watchdog : Predicates → Rec → Predicates
note_watchdog s r =
    if ltb 0 r.logs.daemon_unresponsive then record s { unresponsive_at = r.t } else s

-- A negative difference is within the limit too, as it is here, where it is 0.
abbrev pub within_attribution : Option ℕ → Option ℕ → Bool
within_attribution none t = false
within_attribution (some at) none = false
within_attribution (some at) (some t) = leb (t - at) watchdog_attribution

unfoldable pub watchdog_recent : Predicates → Rec → Bool
watchdog_recent s r = within_attribution s.unresponsive_at r.t

-- `[v] if b else []`
abbrev pub when : Bool → Violation → List Violation
when b v = if b then v ∷ [] else []

-- Session health, for one address family.
abbrev pub family_failed : Option Summary → ℕ
family_failed none = 0
family_failed (some s) = or_zero s.failed

unfoldable pub peer_faults : Predicates → ℕ → Afi → Option Summary → List Violation
peer_faults s now afi b =
    when (ltb s.budgets.max_failed_peers (family_failed b) && not (peer_faults_suppressed s now))
      (plain (failed_peers afi) fail)

-- Memory, for one daemon.
abbrev pub rss_over : Option Process → ℕ → Bool
rss_over none budget = false
rss_over (some p) budget = ltb 0 (or_zero p.rss_mb) && ltb budget (or_zero p.rss_mb)

unfoldable pub memory_faults : Predicates → List (String × Process) → List Violation
memory_faults s proc =
    when (rss_over (lookup "bgpd" proc) s.budgets.bgpd_rss_mb) (plain (rss_exceeded "bgpd") fail)
    ++ when (rss_over (lookup "zebra" proc) s.budgets.zebra_rss_mb)
        (plain (rss_exceeded "zebra") fail)

-- One daemon whose PID is not the remembered one.
abbrev pub restart_severity : Bool → Severity
restart_severity expected = if expected then info else fail

unfoldable pub restart_seen : Predicates → Rec → String → ℕ → ℕ → Violation × Predicates
restart_seen s r name prev pid =
    let expected = contains name s.expect_restart in
    let nth = or_zero (lookup name s.restarts) + 1 in
    (
      record {
        code = restarted name;
        severity = restart_severity expected;
        dedup = some (pid_change prev pid);
        restart = some (record {
          old_pid = prev;
          new_pid = pid;
          nth = nth;
          expected = expected;
          watchdog_kill = watchdog_recent s r;
        });
      },
      record s {
        restarts = insert name nth s.restarts;
        expect_restart = if expected then discard name s.expect_restart else s.expect_restart;
      },
    )

abbrev pub remember_pid : Predicates → String → ℕ → Predicates
remember_pid s name pid = record s { pids = insert name pid s.pids }

abbrev pub compare_pid : Predicates → Rec → String → Option ℕ → ℕ → List Violation × Predicates
compare_pid s r name none pid = ([], remember_pid s name pid)
compare_pid s r name (some prev) pid =
    if pid == prev
    then ([], remember_pid s name pid)
    else let (v, s') = restart_seen s r name prev pid in (v ∷ [], remember_pid s' name pid)

abbrev pub daemon_pid : Predicates → Rec → String → Option ℕ → List Violation × Predicates
daemon_pid s r name none = ([], s)
daemon_pid s r name (some pid) = compare_pid s r name (lookup name s.pids) pid

-- The loop over `proc.items()`.
unfoldable pub daemon_restarts :
    Predicates → Rec → List (String × Process) → List Violation × Predicates
daemon_restarts s r [] = ([], s)
daemon_restarts s r ((name, p) ∷ rest) =
    let (v, s') = daemon_pid s r name p.pid in
    let (vs, s'') = daemon_restarts s' r rest in (v ++ vs, s'')

unfoldable pub daemon_gone : Predicates → List (String × Process) → String → List Violation
daemon_gone s proc name =
    when (is_some (lookup name s.pids) && not (is_some (lookup name proc))) (plain (gone name) fail)

unfoldable pub log_faults : Predicates → Logs → List Violation
log_faults s logs =
    when (ltb 0 logs.sendq_stuck_proper) (plain sendq_stuck_proper fail)
    ++ when (ltb 0 logs.sendq_stuck_warn)
        (plain sendq_stuck_warn (if s.budgets.allow_sendq_warn then warn else fail))
    ++ when (ltb 0 logs.netlink_overrun || ltb 0 logs.zebra_recvmsg_overrun)
        (plain netlink_overrun fail)
    ++ when (ltb 0 logs.bgpd_crash) (plain bgpd_crash fail)
    ++ when (ltb 0 logs.optmem) (plain optmem_exhausted fail)

-- The latched high-water mark of zebra's dataplane queue.
abbrev pub watch_queue : Predicates → ℕ → ℕ → Option ℕ → List Violation × Predicates
watch_queue s limit qmax none = (
  when (leb limit qmax) (plain dplane_queue_saturated_before_run warn),
  record s { qmax_baseline = some qmax },
)
watch_queue s limit qmax (some baseline) =
    if ltb baseline qmax
    then (
      when (leb limit qmax) (plain dplane_queue_saturated warn),
      record s { qmax_baseline = some qmax },
    )
    else ([], s)

unfoldable pub dplane_faults : Predicates → Dplane → List Violation × Predicates
dplane_faults s dp =
    let errs =
      when (ltb s.budgets.max_dplane_errors (or_zero dp.route_update_errors))
        (plain dplane_route_errors fail) in
    let skipped = when (ltb 0 (or_zero dp.updates_skipped)) (plain dplane_updates_skipped warn) in
    let (queue, s') =
      (if ltb 0 (or_zero dp.queue_limit) && ltb 0 (or_zero dp.queue_max)
        then watch_queue s (or_zero dp.queue_limit) (or_zero dp.queue_max) s.qmax_baseline
        else ([], s)) in
    (errs ++ (queue ++ skipped), s')

-- `check` on a sample that was read from a running DUT.
unfoldable pub judge : Predicates → ℕ → Rec → List Violation × Predicates
judge s now r =
    let (restarts, s1) = daemon_restarts s r r.proc in
    let (dplane, s2) = dplane_faults s1 r.dplane in
    (
      peer_faults s now ipv4 r.bgp.ipv4
          ++ (peer_faults s now ipv6 r.bgp.ipv6
              ++ (memory_faults s r.proc
                  ++ (restarts
                      ++ (daemon_gone s1 r.proc "bgpd"
                          ++ (daemon_gone s1 r.proc "zebra"
                              ++ (log_faults s1 r.logs ++ dplane)))))),
      s2,
    )

unfoldable pub check : Predicates → ℕ → Rec → List Violation × Predicates
check s0 now r =
    let s = note_watchdog s0 r in
    if not (is_sample r.kind)
    then ([], s)
    else if read_failed r
    then (plain telemetry_read_failed warn ∷ [], s)
    else if r.dut_down
    then (plain dut_container_down fail ∷ [], s)
    else judge s now r

-- The loop of `check_new`: what was not reported before, and the keys reported so far.
unfoldable pub fresh : List Key → List Violation → List Violation × List Key
fresh seen [] = ([], seen)
fresh seen (v ∷ vs) =
    let old = mem Key-discrete (key v) seen in
    let (out, seen') = fresh (if old then seen else key v ∷ seen) vs in
    (if old then out else v ∷ out, seen')

unfoldable pub check_new : Predicates → ℕ → Rec → List Violation × Predicates
check_new s now r =
    let (vs, s') = check s now r in
    let (out, seen') = fresh s'.seen vs in (out, record s' { seen = seen' })
