-- ===== src/Scenarios/Scheduler.antt =====
-- `EVENTS` and `Scheduler` of harness/scenarios.py, with the events that are modelled. An entry of the
-- scenario has its event's arguments, the defaults filled in; `self._spec` is the list of weights and
-- entries.
pub mod Weights
pub mod Runs
pub mod Returns
use vyos_ixp_bgp_stress.Prelude.{
  ℕ, ◌+◌, ◌-◌, ◌≡◌, String, Bool, true, false, Option, none, some, List, [], ◌∷◌, ltb,
  if◌then◌else◌,
}
use vyos_ixp_bgp_stress.Prelude.Dict.{insert, contains}
use vyos_ixp_bgp_stress.Telemetry.Violation.{Afi}
use vyos_ixp_bgp_stress.Prefixes.{PrefixPlan}
use vyos_ixp_bgp_stress.Scenarios.Calls.{
  Exception, commit_timeout, value_error, unexpected, Payload, Io, Outcome, ok, raised, call, pure,
  ◌>>=◌, ◌>>◌, except_any, raise, randrange, monotonic, uniform, sleep, number, text,
}
use vyos_ixp_bgp_stress.Scenarios.Context.{Ctx, log}
use vyos_ixp_bgp_stress.Scenarios.Flap.{ev_peer_flap, ev_gr_event, ev_dut_bgpd_restart}
use vyos_ixp_bgp_stress.Scenarios.Blackhole.{ev_blackhole_peer}
use vyos_ixp_bgp_stress.Scenarios.Probing.{ProbeLab, ev_probe_check}
use vyos_ixp_bgp_stress.Scenarios.Malformed.{ev_malformed_burst}
use vyos_ixp_bgp_stress.Probes.{Malformed}
use vyos_ixp_bgp_stress.Scenarios.Churn.{Fraction, ev_churn}
use vyos_ixp_bgp_stress.Scenarios.Policy.{ev_policy_churn, ev_soft_clear}
use vyos_ixp_bgp_stress.Scenarios.Netem.{Settings, ev_netem}

-- `EVENTS`, by its keys.
abbrev pub event_kinds : List String
event_kinds =
    "peer_flap" ∷ "blackhole_peer" ∷ "churn" ∷ "policy_churn" ∷ "soft_clear" ∷ "maxprefix_trip"
    ∷ "netem" ∷ "gr_event" ∷ "dut_bgpd_restart" ∷ "probe_check" ∷ "malformed_burst"
    ∷ "malformed_isolate" ∷ []

-- An entry with another kind is `unknown`. There are none with the kinds `maxprefix_trip` and
-- `malformed_isolate`, which `EVENTS` has too.
pub data Spec : Type 0 where
  peer_flap : String → ℕ → ℕ × ℕ → Spec
  blackhole_peer : ℕ → ℕ → Spec
  churn : String → Fraction → ℕ → ℕ → Spec
  policy_churn : List String → ℕ → Bool → Spec
  soft_clear : String → String → Option Afi → Spec
  netem_event : Settings → ℕ → Spec
  gr_event : String → ℕ → Spec
  dut_bgpd_restart : Spec
  probe_check : Bool → ℕ → Bool → Spec
  malformed_burst : List Malformed → ℕ → Spec
  unknown : (kind : String) → contains kind event_kinds ≡ false → Spec

abbrev pub kind_of : Spec → String
kind_of (peer_flap mode count down_s) = "peer_flap"
kind_of (blackhole_peer count hold_s) = "blackhole_peer"
kind_of (churn mode f count settle) = "churn"
kind_of (policy_churn fragments hold_s asked) = "policy_churn"
kind_of (soft_clear target direction afi) = "soft_clear"
kind_of (netem_event cfg count) = "netem"
kind_of (gr_event mode down_s) = "gr_event"
kind_of dut_bgpd_restart = "dut_bgpd_restart"
kind_of (probe_check announce settle withdraw) = "probe_check"
kind_of (malformed_burst cases withdraw_after) = "malformed_burst"
kind_of (unknown kind missing) = kind

-- What the events read besides the context.
pub record Lab : Type 0 where
  pub probing : ProbeLab
  pub prefixes : PrefixPlan

-- `EVENTS[kind](ctx, **spec)`; `__post_init__` refuses an unknown kind, which would be an error here.
unfoldable pub run_event : Lab → Ctx → Spec → Io Payload
run_event lab ctx (peer_flap mode count down_s) = ev_peer_flap ctx mode count down_s
run_event lab ctx (blackhole_peer count hold_s) =
    ev_blackhole_peer lab.probing.texts ctx count hold_s
run_event lab ctx (churn mode f count settle) =
    ev_churn lab.prefixes ctx f settle lab.probing.dut_addrs mode count
run_event lab ctx (policy_churn fragments hold_s asked) = ev_policy_churn ctx fragments hold_s asked
run_event lab ctx (soft_clear target direction afi) = ev_soft_clear ctx target direction afi
run_event lab ctx (netem_event cfg count) = ev_netem ctx cfg count
run_event lab ctx (gr_event mode down_s) = ev_gr_event ctx mode down_s
run_event lab ctx dut_bgpd_restart = ev_dut_bgpd_restart ctx
run_event lab ctx (probe_check announce settle withdraw) =
    ev_probe_check lab.probing ctx announce settle withdraw
run_event lab ctx (malformed_burst cases withdraw_after) =
    ev_malformed_burst lab.probing ctx cases withdraw_after
run_event lab ctx (unknown kind missing) = raise unexpected

-- An entry of `self.events`: its weight, if it has one, and its event.
abbrev pub Weighted : Type 0
Weighted = List (ℕ × Spec)

abbrev pub weight_of : Option ℕ → ℕ
weight_of none = 1
weight_of (some w) = w

-- The loop of `__post_init__`.
unfoldable pub weigh : List (Option ℕ × Spec) → Outcome Weighted
weigh [] = ok []
weigh ((w, unknown kind missing) ∷ events) = raised value_error
weigh ((w, e) ∷ events) = elim (weigh events) [
  | ok specs ↦ ok ((weight_of w, e) ∷ specs)
  | raised x ↦ raised x
]

abbrev pub not_empty : Outcome Weighted → Outcome Weighted
not_empty (ok []) = raised value_error
not_empty (ok (s ∷ specs)) = ok (s ∷ specs)
not_empty (raised x) = raised x

unfoldable pub post_init : List (Option ℕ × Spec) → Outcome Weighted
post_init events = not_empty (weigh events)

-- `self._total`
unfoldable pub total : Weighted → ℕ
total [] = 0
total ((w, e) ∷ specs) = w + total specs

-- `self._spec[-1][1]`
unfoldable pub last_spec : Spec → Weighted → Spec
last_spec e [] = e
last_spec e ((w, e') ∷ specs) = last_spec e' specs

-- The loop of `draw`, with its `acc`.
unfoldable pub draw_loop : ℕ → ℕ → Spec → Weighted → Spec
draw_loop r acc last [] = last
draw_loop r acc last ((w, e) ∷ specs) =
    let rest = draw_loop r (acc + w) last specs in if ltb r (acc + w) then e else rest

-- What `draw` returns for the number drawn.
unfoldable pub drawn : ℕ → ℕ × Spec → Weighted → Spec
drawn r (w, e) specs = draw_loop r 0 (last_spec e specs) ((w, e) ∷ specs)

unfoldable pub draw : ℕ × Spec → Weighted → Io Spec
draw s specs = call (randrange 0 (total (s ∷ specs))) >>= λ r. pure (drawn r s specs)

-- `except Exception as exc`, with the exception's class for `repr(exc)`.
abbrev pub repr : Exception → String
repr commit_timeout = "CommitTimeout"
repr value_error = "ValueError"
repr unexpected = "Exception"

unfoldable pub log_error : String → Exception → Io Payload
log_error kind e = log "event_error" [] (("event", text kind) ∷ ("error", text (repr e)) ∷ [])

unfoldable pub stamp : String → ℕ → Payload → Payload
stamp kind seconds rec_ =
    insert "event_seconds" (number seconds) (insert "event_kind" (text kind) rec_)

-- `run_one` after its draw.
unfoldable pub run_spec : Lab → Ctx → Spec → Io Payload
run_spec lab ctx e = call monotonic >>= λ t0.
    except_any (run_event lab ctx e) (log_error (kind_of e)) >>= λ rec_.
    call monotonic >>= λ t1. pure (stamp (kind_of e) (t1 - t0) rec_)

unfoldable pub run_one : Lab → Ctx → ℕ × Spec → Weighted → Io Payload
run_one lab ctx s specs = draw s specs >>= run_spec lab ctx

unfoldable pub sleep_gap : ℕ → ℕ → Io ℕ
sleep_gap min_gap max_gap = call (uniform min_gap max_gap) >>= λ gap. call (sleep gap) >> pure gap
