-- ===== src/Scenarios/Impairment/Probing.antt =====
-- The probes and the malformed suite neither begin nor end an impairment.
use vyos_ixp_bgp_stress.Prelude.{ℕ, Bool, true, false, not, ◌&&◌, List, [], ◌∷◌, refl}
use vyos_ixp_bgp_stress.Telemetry.Violation.{ipv4, ipv6}
use vyos_ixp_bgp_stress.Inventory.Profile.{Session}
use vyos_ixp_bgp_stress.Probes.{Probe, Malformed}
use vyos_ixp_bgp_stress.Scenarios.Calls.{
  Environment, bgp_summary, exabgp_commands, lookup_prefix, log_counts, log_since, sleep,
}
use vyos_ixp_bgp_stress.Scenarios.Context.{Ctx}
use vyos_ixp_bgp_stress.Scenarios.Brackets.{
  Quiet, Quiet-call, Quiet-pure, Quiet-bind, Quiet-if, Quiet-collect,
}
use vyos_ixp_bgp_stress.Scenarios.Impairment.{impairs, Quiet-log, Quiet-skipped}
use vyos_ixp_bgp_stress.Scenarios.Probing.{
  ProbeLab, Row, exabgp_sessions, announce_probes, check_probes, withdraw_probes, probe_result,
  probe_session, ev_probe_check,
}
use vyos_ixp_bgp_stress.Scenarios.Malformed.{
  check_routes, read_summaries, burst, burst_session, ev_malformed_burst,
}

module _ {env : Environment} (lab : ProbeLab) (ctx : Ctx) where
  Quiet-announce_probes :
      (s : Session) (probes : List Probe) (settle : ℕ) (announce : Bool)
      → Quiet impairs env (announce_probes lab ctx s probes settle announce)
  unfolding announce_probes
  Quiet-announce_probes s probes settle false = Quiet-pure tt
  Quiet-announce_probes s probes settle true =
      Quiet-bind (Quiet-call (exabgp_commands s _) refl) λ _. Quiet-call (sleep settle) refl

  Quiet-check_probes :
      (s : Session) (probes : List Probe) (settle : ℕ) (announce : Bool)
      → Quiet impairs env (check_probes lab ctx s probes settle announce)
  unfolding check_probes
  Quiet-check_probes s probes settle announce = Quiet-if ctx.dry_run (Quiet-pure []) (
      Quiet-bind (Quiet-announce_probes s probes settle announce) λ _.
        Quiet-collect probes _
          λ p. Quiet-bind (Quiet-call (lookup_prefix p.prefix p.afi) refl) λ got. Quiet-pure _)

  Quiet-withdraw_probes :
      (s : Session) (probes : List Probe) (announce withdraw : Bool)
      → Quiet impairs env (withdraw_probes lab ctx s probes announce withdraw)
  unfolding withdraw_probes
  Quiet-withdraw_probes s probes announce withdraw =
      Quiet-if (not ctx.dry_run && (announce && withdraw)) (Quiet-call (exabgp_commands s _) refl)
        (Quiet-pure tt)

  Quiet-probe_result :
      (announce : Bool) (results : List Row)
      → Quiet impairs env (probe_result lab ctx announce results)
  unfolding probe_result
  Quiet-probe_result announce results = Quiet-log _ _ _

  Quiet-probe_session :
      (targets : List Session) (announce : Bool) (settle : ℕ) (withdraw : Bool)
      → Quiet impairs env (probe_session lab ctx targets announce settle withdraw)
  unfolding probe_session
  Quiet-probe_session [] announce settle withdraw = Quiet-skipped _
  Quiet-probe_session (s ∷ rest) announce settle withdraw =
      Quiet-bind (Quiet-check_probes s _ settle announce) λ results.
        Quiet-bind (Quiet-withdraw_probes s _ announce withdraw)
          λ _. Quiet-probe_result announce results

  pub Quiet-ev_probe_check :
      (announce : Bool) (settle : ℕ) (withdraw : Bool)
      → Quiet impairs env (ev_probe_check lab ctx announce settle withdraw)
  unfolding ev_probe_check
  Quiet-ev_probe_check announce settle withdraw =
      Quiet-probe_session (exabgp_sessions ctx) announce settle withdraw

  Quiet-read_summaries : Quiet impairs env read_summaries
  unfolding read_summaries
  Quiet-read_summaries =
      Quiet-bind (Quiet-call (bgp_summary ipv4) refl)
        λ four. Quiet-bind (Quiet-call (bgp_summary ipv6) refl) λ six. Quiet-pure _

  Quiet-check_routes : (cases : List Malformed) → Quiet impairs env (check_routes cases)
  unfolding check_routes
  Quiet-check_routes cases =
      Quiet-collect cases _
        λ m. Quiet-bind (Quiet-call (lookup_prefix m.prefix m.afi) refl) λ got. Quiet-pure _

  Quiet-burst :
      (s : Session) (cases : List Malformed) (withdraw_after : ℕ)
      → Quiet impairs env (burst lab ctx s cases withdraw_after)
  unfolding burst
  Quiet-burst s cases withdraw_after = Quiet-bind Quiet-read_summaries λ before.
      Quiet-bind
        (Quiet-bind
          (Quiet-bind (Quiet-call (exabgp_commands s _) refl)
            λ _. Quiet-call (sleep withdraw_after) refl)
          λ _. Quiet-check_routes cases)
        λ results. Quiet-bind Quiet-read_summaries λ after.
          Quiet-bind (Quiet-call (log_counts _) refl) λ logs.
            Quiet-bind (Quiet-call (log_since _) refl)
              λ raw. Quiet-bind (Quiet-call (exabgp_commands s _) refl) λ _. Quiet-log _ _ _

  Quiet-burst_session :
      (cases : List Malformed) (withdraw_after : ℕ) (targets : List Session)
      → Quiet impairs env (burst_session lab ctx cases withdraw_after targets)
  unfolding burst_session
  Quiet-burst_session cases withdraw_after [] = Quiet-skipped _
  Quiet-burst_session cases withdraw_after (s ∷ targets) =
      Quiet-bind (Quiet-log _ _ _)
        λ _. Quiet-if ctx.dry_run (Quiet-log _ _ _) (Quiet-burst s cases withdraw_after)

  pub Quiet-ev_malformed_burst :
      (cases : List Malformed) (withdraw_after : ℕ)
      → Quiet impairs env (ev_malformed_burst lab ctx cases withdraw_after)
  unfolding ev_malformed_burst
  Quiet-ev_malformed_burst cases withdraw_after =
      Quiet-burst_session cases withdraw_after (exabgp_sessions ctx)
