-- ===== src/Runner/Ramp.antt =====
-- `cmd_ramp` of harness/runner.py: the loop over the steps and the summary. What a step measures is the
-- answer of a lab, which knows the number of the step, the sessions started and the cap; an exception
-- comes before the step's row is kept or after. The row's sums of the tables and its readings of the
-- processes are left out, with the output and what the `finally` itself may raise.
pub mod Limit
pub mod Waves
use vyos_ixp_bgp_stress.Prelude.{
  ℕ, zero, suc, ◌*◌, String, Bool, true, false, not, ◌&&◌, ◌||◌, Option, none, some, List, [], ◌∷◌,
  ◌++◌, ltb, str_eq, length, take, drop, if◌then◌else◌,
}
use vyos_ixp_bgp_stress.Inventory.Profile.{Session}
use vyos_ixp_bgp_stress.Telemetry.Violation.{Violation, Severity, fail, warn, info}
use vyos_ixp_bgp_stress.Runner.{asked_or, expected_session_counts}

-- `sorted(inv.sessions, key=...)`: the route servers first, then by the order of the `sid` texts,
-- which is a parameter.
module _ (before : String × ℕ → String × ℕ → Bool) where
  unfoldable pub ramp_before : Session → Session → Bool
  ramp_before a b =
      if str_eq a.role "route-server"
      then (if str_eq b.role "route-server" then before a.sid b.sid else true)
      else (if str_eq b.role "route-server" then false else before a.sid b.sid)

  -- Before the first one that is not to stand earlier, so that equal ones keep their order.
  unfoldable pub insert_session : Session → List Session → List Session
  insert_session s [] = s ∷ []
  insert_session s (t ∷ sessions) =
      let later = insert_session s sessions in
      if ramp_before t s then t ∷ later else s ∷ t ∷ sessions

  unfoldable pub ordered_sessions : List Session → List Session
  ordered_sessions [] = []
  ordered_sessions (s ∷ sessions) = insert_session s (ordered_sessions sessions)

pub data Verdict : Type 0 where
  completed_all_steps no_sessions predicate_failed convergence_budget_exceeded interrupted : Verdict

-- `KeyboardInterrupt`, or any other exception.
pub data Stop : Type 0 where
  keyboard_interrupt other_exception : Stop

-- `ok`, `secs` in hundredths and `new_v`.
pub record Measured : Type 0 where
  pub ok : Bool
  pub secs : ℕ
  pub new_v : List Violation

pub data Reply : Type 0 where
  stopped : Stop → Reply
  measured : Measured → Option Stop → Reply

pub record Row : Type 0 where
  pub step : ℕ
  pub sessions : ℕ
  pub prefix_cap : ℕ
  pub expected : ℕ × ℕ
  pub converged : Bool
  pub convergence_s : ℕ
  pub violations : List Violation

-- The steps and the verdict when the `finally` runs, and whether an exception goes on after it.
pub record Outcome : Type 0 where
  pub steps : List Row
  pub verdict : Verdict
  pub propagates : Bool

abbrev pub ended : List Row → Verdict → Outcome
ended steps verdict = record { steps = steps; verdict = verdict; propagates = false }

unfoldable pub on_exception : Stop → List Row → Outcome
on_exception keyboard_interrupt steps = ended steps interrupted
on_exception other_exception steps = record {
  steps = steps;
  verdict = completed_all_steps;
  propagates = true;
}

abbrev pub is_fail : Severity → Bool
is_fail fail = true
is_fail warn = false
is_fail info = false

-- `if hard`
unfoldable pub has_hard : List Violation → Bool
has_hard [] = false
has_hard (v ∷ violations) = is_fail v.severity || has_hard violations

unfoldable pub judge_step : Row → Option Stop → List Row → Outcome → Outcome
judge_step row (some stop) steps go_on = on_exception stop steps
judge_step row none steps go_on =
    if has_hard row.violations
    then ended steps predicate_failed
    else (if not row.converged then ended steps convergence_budget_exceeded else go_on)

abbrev pub row_of : ℕ → List Session → ℕ → Measured → Row
row_of i started cap m = record {
  step = i;
  sessions = length started;
  prefix_cap = cap;
  expected = expected_session_counts started;
  converged = m.ok;
  convergence_s = m.secs;
  violations = m.new_v;
}

unfoldable pub ramp_step : ℕ → List Session → ℕ → List Row → Reply → (List Row → Outcome) → Outcome
ramp_step i started cap steps (stopped stop) go_on = on_exception stop steps
ramp_step i started cap steps (measured m stop) go_on =
    let row = row_of i started cap m in
    judge_step row stop (steps ++ row ∷ []) (go_on (steps ++ row ∷ []))

pub record Ramp : Type 0 where
  pub ordered : List Session
  pub step_peers : ℕ
  pub step_prefixes : ℕ
  pub lab : ℕ → List Session → ℕ → Reply

abbrev pub is_empty : List Session → Bool
is_empty [] = true
is_empty (s ∷ sessions) = false

-- `started` after a step that starts with it.
unfoldable pub extend_started : Ramp → List Session → List Session
extend_started r started = started ++ take r.step_peers (drop (length started) r.ordered)

-- The loop, `n` steps before its end.
unfoldable pub ramp_loop : Ramp → ℕ → ℕ → List Session → List Row → Outcome
ramp_loop r zero i started steps = ended steps completed_all_steps
ramp_loop r (suc n) i started steps =
    let all = extend_started r started in
    let cap = r.step_prefixes * i in
    let go_on = ramp_loop r n (suc i) all in
    if is_empty all
    then ended steps no_sessions
    else ramp_step i all cap steps (r.lab i all cap) go_on

unfoldable pub ramp : Ramp → ℕ → Outcome
ramp r max_steps = ramp_loop r max_steps 1 [] []

-- `steps[-1]` and `steps[-2]`
unfoldable pub last_row : List Row → Option Row
last_row [] = none
last_row (row ∷ []) = some row
last_row (row ∷ row' ∷ rows) = last_row (row' ∷ rows)

unfoldable pub last_but_one : List Row → Option Row
last_but_one [] = none
last_but_one (row ∷ []) = none
last_but_one (row ∷ row' ∷ []) = some row
last_but_one (row ∷ row' ∷ row'' ∷ rows) = last_but_one (row' ∷ row'' ∷ rows)

abbrev pub is_completed : Verdict → Bool
is_completed completed_all_steps = true
is_completed no_sessions = false
is_completed predicate_failed = false
is_completed convergence_budget_exceeded = false
is_completed interrupted = false

unfoldable pub last_good_step : Verdict → List Row → Option Row
last_good_step verdict steps =
    if not (is_completed verdict) && ltb 1 (length steps)
    then last_but_one steps
    else last_row steps

-- The numbers that the command line or the profile give, and the inventory.
pub record Asked : Type 0 where
  pub step_peers : Option ℕ
  pub step_prefixes : Option ℕ
  pub max_steps : Option ℕ

unfoldable pub cmd_ramp :
    (String × ℕ → String × ℕ → Bool)
    → (ℕ → List Session → ℕ → Reply)
    → List Session
    → Asked
    → Asked
    → Outcome
cmd_ramp before lab sessions args profile =
    ramp
      (record {
        ordered = ordered_sessions before sessions;
        step_peers = asked_or args.step_peers profile.step_peers 10;
        step_prefixes = asked_or args.step_prefixes profile.step_prefixes 25000;
        lab = lab;
      })
      (asked_or args.max_steps profile.max_steps 40)
