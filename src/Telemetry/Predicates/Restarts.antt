-- ===== src/Telemetry/Predicates/Restarts.antt =====
-- Daemon restarts: the counter, the violations and the PID changes in the samples agree.
use vyos_ixp_bgp_stress.Prelude.{
  ℕ, ◌+◌, ◌≡◌, ◌≢◌, refl, ◌∙◌, Option, none, some, List, [], ◌∷◌, ◌++◌, arith, if◌then◌else◌,
  String, map, str_eq, eq_iff, or_zero, ◌==◌,
}
use vyos_ixp_bgp_stress.Prelude.Dict.{lookup, lookup-insert, add, contains-discard, contains-add}
use vyos_ixp_bgp_stress.Telemetry.Sample.{Process, Dplane, Rec}
use vyos_ixp_bgp_stress.Telemetry.Violation.{Violation, Budgets, Severity, fail, info}
use vyos_ixp_bgp_stress.Telemetry.Predicates.{
  Predicates, init, check, check_new, judge, note_watchdog, daemon_pid, daemon_restarts,
  restart_seen, dplane_faults, expect_daemon_restart,
}
use vyos_ixp_bgp_stress.Telemetry.Predicates.Fresh.{run, found}
use vyos_ixp_bgp_stress.Telemetry.Predicates.Count.{
  is_restart_of, count, count-append, judged, restarts-judge,
}

-- The PIDs of one daemon in a sample, in the samples of a run, and how often they change.
abbrev pub own_pid : String → String → Option ℕ → List ℕ
own_pid name n none = []
own_pid name n (some pid) = if str_eq n name then pid ∷ [] else []

abbrev pub pids_in : String → List (String × Process) → List ℕ
pids_in name [] = []
pids_in name ((n, p) ∷ rest) = own_pid name n p.pid ++ pids_in name rest

abbrev pub last_of : Option ℕ → List ℕ → Option ℕ
last_of o [] = o
last_of o (x ∷ xs) = last_of (some x) xs

abbrev pub changed : Option ℕ → ℕ → ℕ
changed none x = 0
changed (some y) x = if x == y then 0 else 1

abbrev pub changes : Option ℕ → List ℕ → ℕ
changes o [] = 0
changes o (x ∷ xs) = changed o x + changes (some x) xs

changes-append :
    (o : Option ℕ) (xs ys : List ℕ)
    → changes o (xs ++ ys) ≡ changes o xs + changes (last_of o xs) ys
changes-append o [] ys = omega arith
changes-append o (x ∷ xs) ys = omega (arith, changes-append (some x) xs ys)

last_of-append : (o : Option ℕ) (xs ys : List ℕ) → last_of o (xs ++ ys) ≡ last_of (last_of o xs) ys
last_of-append o [] ys = refl
last_of-append o (x ∷ xs) ys = last_of-append (some x) xs ys

module _ (name : String) where
  -- What a step over the PIDs `xs` of the daemon does to the memory of it.
  record Follows (s : Predicates) (xs : List ℕ) (vs : List Violation) (s' : Predicates)
      : Type 0 where
    pid : lookup name s'.pids ≡ last_of (lookup name s.pids) xs
    counter :
        or_zero (lookup name s'.restarts)
        ≡ or_zero (lookup name s.restarts) + changes (lookup name s.pids) xs
    reported : count (is_restart_of name) vs ≡ changes (lookup name s.pids) xs

  Follows-daemon_pid :
      (s : Predicates) (r : Rec) (n : String) (pid : Option ℕ)
      → Follows s (own_pid name n pid) (daemon_pid s r n pid).0 (daemon_pid s r n pid).1
  unfolding count restart_seen
  Follows-daemon_pid s r n none = record { pid = refl; counter = omega arith; reported = refl }
  Follows-daemon_pid s r n (some pid) = record {
    pid = ground (arith, eq_iff n name, lookup-insert n name pid s.pids);
    counter =
        ground (
          arith,
          eq_iff n name,
          lookup-insert n name (or_zero (lookup n s.restarts) + 1) s.restarts,
        );
    reported = ground (arith, eq_iff n name);
  }

  Follows-append :
      (s s1 s2 : Predicates) (xs ys : List ℕ) (vs ws : List Violation)
      → Follows s xs vs s1
      → Follows s1 ys ws s2
      → Follows s (xs ++ ys) (vs ++ ws) s2
  Follows-append s s1 s2 xs ys vs ws a b = record {
    pid = b.pid ∙ (rw (a.pid, last_of-append (lookup name s.pids) xs ys) refl);
    counter =
        rw (changes-append (lookup name s.pids) xs ys, ← a.pid)
          (omega (arith, a.counter, b.counter));
    reported =
        rw
          (
            changes-append (lookup name s.pids) xs ys,
            ← a.pid,
            count-append (is_restart_of name) vs ws,
          )
          (omega (arith, a.reported, b.reported));
  }

  Follows-daemon_restarts :
      (s : Predicates) (r : Rec) (proc : List (String × Process))
      → Follows s (pids_in name proc) (daemon_restarts s r proc).0 (daemon_restarts s r proc).1
  unfolding daemon_restarts
  Follows-daemon_restarts s r [] =
      unfold count in record { pid = refl; counter = omega arith; reported = refl }
  Follows-daemon_restarts s r ((n, p) ∷ rest) =
      let s1 = (daemon_pid s r n p.pid).1 in
      Follows-append s s1 (daemon_restarts s1 r rest).1 (own_pid name n p.pid) (pids_in name rest)
        (daemon_pid s r n p.pid).0 (daemon_restarts s1 r rest).0 (Follows-daemon_pid s r n p.pid)
        (Follows-daemon_restarts s1 r rest)

  -- The PIDs that a sample shows to `check`.
  abbrev pub shown : Rec → List ℕ
  shown r = if judged r then pids_in name r.proc else []

  Follows-dplane :
      (s s' : Predicates) (xs : List ℕ) (vs : List Violation) (dp : Dplane)
      → Follows s xs vs s'
      → Follows s xs vs (dplane_faults s' dp).1
  unfolding dplane_faults
  Follows-dplane s s' xs vs dp f = record {
    pid = ground (arith, f.pid);
    counter = ground (arith, f.counter);
    reported = f.reported;
  }

  Follows-judge :
      (s : Predicates) (now : ℕ) (r : Rec)
      → Follows s (pids_in name r.proc) (judge s now r).0 (judge s now r).1
  Follows-judge s now r =
      let all =
        Follows-dplane s (daemon_restarts s r r.proc).1 (pids_in name r.proc)
          (daemon_restarts s r r.proc).0 r.dplane (Follows-daemon_restarts s r r.proc) in
      record {
        pid = unfold judge in all.pid;
        counter = unfold judge in all.counter;
        reported = restarts-judge name s now r ∙ all.reported;
      }

  Follows-check :
      (s : Predicates) (now : ℕ) (r : Rec) → Follows s (shown r) (check s now r).0 (check s now r).1
  unfolding check note_watchdog count
  Follows-check s now r =
      let a = Follows-judge s now r in
      let b = Follows-judge (record s { unresponsive_at = r.t }) now r in
      record {
        pid = ground (arith, a.pid, b.pid);
        counter = ground (arith, a.counter, b.counter);
        reported = ground (arith, a.reported, b.reported);
      }

  abbrev pub shown_in : List (ℕ × Rec) → List ℕ
  shown_in [] = []
  shown_in ((now, r) ∷ rest) = shown r ++ shown_in rest

  Follows-check_new :
      (s : Predicates) (now : ℕ) (r : Rec)
      → Follows s (shown r) (check s now r).0 (check_new s now r).1
  unfolding check_new
  Follows-check_new s now r =
      let a = Follows-check s now r in
      record { pid = a.pid; counter = a.counter; reported = a.reported }

  Follows-run :
      (s : Predicates) (rs : List (ℕ × Rec)) → Follows s (shown_in rs) (found s rs) (run s rs).1
  unfolding run found count
  Follows-run s [] = record { pid = refl; counter = omega arith; reported = refl }
  Follows-run s ((now, r) ∷ rest) =
      let s1 = (check_new s now r).1 in
      Follows-append s s1 (run s1 rest).1 (shown r) (shown_in rest) (check s now r).0
        (found s1 rest) (Follows-check_new s now r) (Follows-run s1 rest)

-- Over any run from a fresh predicate set and for every daemon: the restart counter, the number of
-- its `_restarted` violations, and the number of changes from one PID to the next in the samples
-- that were read from a running DUT are the same number.
pub restarts_are_pid_changes :
    (b : Budgets) (rs : List (ℕ × Rec)) (name : String)
    → (or_zero (lookup name (run (init b) rs).1.restarts) ≡ changes none (shown_in name rs))
      × (count (is_restart_of name) (found (init b) rs) ≡ changes none (shown_in name rs))
unfolding init lookup
restarts_are_pid_changes b rs name =
    let f = Follows-run name (init b) rs in (omega (arith, f.counter), f.reported)

abbrev pub severities : List Violation → List Severity
severities vs = map (λ v. v.severity) vs

-- An announced restart excuses one PID change and no more: after `expect_daemon_restart`, the first
-- change of the daemon's PID is reported as information, and the next one as a failure.
pub expected_restart_is_consumed :
    (s : Predicates) (name : String) (r r' : Rec) (p q q' : ℕ)
    → lookup name s.pids ≡ some p
    → q ≢ p
    → q' ≢ q
    → (severities (daemon_pid (expect_daemon_restart s name) r name (some q)).0 ≡ info ∷ [])
      × (severities
            (daemon_pid
              (daemon_pid (expect_daemon_restart s name) r name (some q)).1
              r'
              name
              (some q')).0
          ≡ fail ∷ [])
unfolding restart_seen expect_daemon_restart
expected_restart_is_consumed s name r r' p q q' known first second = (
  ground (arith, eq_iff name name, contains-add name name s.expect_restart),
  ground (
    arith,
    eq_iff name name,
    contains-add name name s.expect_restart,
    contains-discard name name (add name s.expect_restart),
    lookup-insert name name q s.pids,
  ),
)
