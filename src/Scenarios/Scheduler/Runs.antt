-- ===== src/Scenarios/Scheduler/Runs.antt =====
-- One run of the scheduler: the impairments that it leaves, and that it returns a record.
use vyos_ixp_bgp_stress.Prelude.{ℕ, refl, ◌∷◌}
use vyos_ixp_bgp_stress.Scenarios.Calls.{Environment, unexpected, randrange, monotonic}
use vyos_ixp_bgp_stress.Scenarios.Context.{Ctx}
use vyos_ixp_bgp_stress.Scenarios.Brackets.{
  Keeps, Quiet-call, Quiet-pure, Quiet-raise, Keeps-bind, Keeps-of_Quiet, Keeps-except_any,
}
use vyos_ixp_bgp_stress.Scenarios.Impairment.{impairs, Quiet-log}
use vyos_ixp_bgp_stress.Scenarios.Impairment.Flap.{Keeps-ev_peer_flap}
use vyos_ixp_bgp_stress.Scenarios.Impairment.Blackhole.{Clears, Keeps-ev_blackhole_peer}
use vyos_ixp_bgp_stress.Scenarios.Impairment.Churn.{Quiet-ev_churn}
use vyos_ixp_bgp_stress.Scenarios.Impairment.Probing.{
  Quiet-ev_probe_check, Quiet-ev_malformed_burst,
}
use vyos_ixp_bgp_stress.Scenarios.Impairment.Others.{
  Quiet-ev_gr_event, Quiet-ev_dut_bgpd_restart, Quiet-ev_policy_churn, Quiet-ev_soft_clear,
  Quiet-ev_netem,
}
use vyos_ixp_bgp_stress.Scenarios.Scheduler.{
  Spec, peer_flap, blackhole_peer, churn, policy_churn, soft_clear, netem_event, gr_event,
  dut_bgpd_restart, probe_check, malformed_burst, unknown, Lab, Weighted, run_event, total, drawn,
  draw, log_error, run_spec, run_one,
}

Keeps-run_event :
    {env : Environment} (lab : Lab) (ctx : Ctx) (e : Spec)
    → Clears env
    → Keeps impairs env (run_event lab ctx e)
unfolding run_event
Keeps-run_event lab ctx (peer_flap mode count down_s) clears =
    Keeps-ev_peer_flap ctx mode count down_s
Keeps-run_event lab ctx (blackhole_peer count hold_s) clears =
    Keeps-ev_blackhole_peer lab.probing.texts ctx count hold_s clears
Keeps-run_event lab ctx (churn mode f count settle) clears =
    Keeps-of_Quiet _ (Quiet-ev_churn lab.prefixes ctx f settle lab.probing.dut_addrs mode count)
Keeps-run_event lab ctx (policy_churn fragments hold_s asked) clears =
    Keeps-of_Quiet _ (Quiet-ev_policy_churn ctx fragments hold_s asked)
Keeps-run_event lab ctx (soft_clear target direction afi) clears =
    Keeps-of_Quiet _ (Quiet-ev_soft_clear ctx target direction afi)
Keeps-run_event lab ctx (netem_event cfg count) clears =
    Keeps-of_Quiet _ (Quiet-ev_netem ctx cfg count)
Keeps-run_event lab ctx (gr_event mode down_s) clears =
    Keeps-of_Quiet _ (Quiet-ev_gr_event ctx mode down_s)
Keeps-run_event lab ctx dut_bgpd_restart clears = Keeps-of_Quiet _ (Quiet-ev_dut_bgpd_restart ctx)
Keeps-run_event lab ctx (probe_check announce settle withdraw) clears =
    Keeps-of_Quiet _ (Quiet-ev_probe_check lab.probing ctx announce settle withdraw)
Keeps-run_event lab ctx (malformed_burst cases withdraw_after) clears =
    Keeps-of_Quiet _ (Quiet-ev_malformed_burst lab.probing ctx cases withdraw_after)
Keeps-run_event lab ctx (unknown kind missing) clears = Keeps-of_Quiet _ (Quiet-raise unexpected)

-- However a run of one event of the scheduler ends, an impairment that it begins is ended, if the
-- rules of a blackhole can always be removed.
pub run_one-Keeps :
    (env : Environment) (lab : Lab) (ctx : Ctx) (s : ℕ × Spec) (specs : Weighted)
    → Clears env
    → Keeps impairs env (run_one lab ctx s specs)
unfolding run_one draw run_spec log_error
run_one-Keeps env lab ctx s specs clears =
    Keeps-bind
      (Keeps-bind (Keeps-of_Quiet _ (Quiet-call (randrange 0 (total (s ∷ specs))) refl))
        λ r. Keeps-of_Quiet _ (Quiet-pure (drawn r s specs)))
      λ e. Keeps-bind (Keeps-of_Quiet _ (Quiet-call monotonic refl)) λ t0.
        Keeps-bind
          (Keeps-except_any (Keeps-run_event lab ctx e clears)
            λ x. Keeps-of_Quiet _ (Quiet-log _ _ _))
          λ rec_.
            Keeps-bind (Keeps-of_Quiet _ (Quiet-call monotonic refl))
              λ t1. Keeps-of_Quiet _ (Quiet-pure _)
