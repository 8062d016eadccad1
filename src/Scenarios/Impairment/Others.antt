-- ===== src/Scenarios/Impairment/Others.antt =====
-- The other events neither begin nor end an impairment.
use vyos_ixp_bgp_stress.Prelude.{
  ℕ, String, Bool, true, false, Option, none, some, List, [], ◌∷◌, refl,
}
use vyos_ixp_bgp_stress.Telemetry.Violation.{Afi, ipv4}
use vyos_ixp_bgp_stress.Inventory.Profile.{Session}
use vyos_ixp_bgp_stress.Scenarios.Calls.{
  Name, Environment, Qdisc, flap, unflap, sleep, bgp_summary, inject_mrt, graceful_restart,
  expect_daemon_restart, monotonic, restart_bgpd, netem, netem_clear, netem_active, choice,
  path_exists, configure_file, apply, revert, reset_bgp,
}
use vyos_ixp_bgp_stress.Scenarios.Context.{Ctx}
use vyos_ixp_bgp_stress.Scenarios.Brackets.{
  Quiet, Quiet-call, Quiet-note, Quiet-pure, Quiet-bind, Quiet-if, Quiet-each, Quiet-collect,
  Quiet-finally, Quiet-except_timeout,
}
use vyos_ixp_bgp_stress.Scenarios.Impairment.{impairs, Quiet-log, Quiet-pick, Quiet-skipped}
use vyos_ixp_bgp_stress.Scenarios.Flap.{
  ev_gr_event, gr_targets, restart_peer, ev_dut_bgpd_restart, restart_dut, expect_restarts,
}
use vyos_ixp_bgp_stress.Scenarios.Policy.{
  ev_policy_churn, churn_fragment, churn_result, apply_fragment, revert_fragment, pool_of,
  ev_soft_clear,
}
use vyos_ixp_bgp_stress.Scenarios.Netem.{
  Settings, ev_netem, netem_targets, netem_containers, netem_result, impair_all, clear_all,
  effective_of,
}

module _ {env : Environment} where
  Quiet-restart_peer :
      (ctx : Ctx) (s : Session) (mode : String) (down_s : ℕ)
      → Quiet impairs env (restart_peer ctx s mode down_s)
  unfolding restart_peer
  Quiet-restart_peer ctx s mode down_s = Quiet-if ctx.dry_run (Quiet-pure none) (
      Quiet-bind
        (Quiet-bind
          (Quiet-bind
            (Quiet-bind
              (Quiet-bind (Quiet-call (flap s mode) refl) λ _. Quiet-call (sleep down_s) refl)
              λ _. Quiet-call (unflap s mode) refl)
            λ _. Quiet-call (sleep 3000) refl)
          λ _. Quiet-call (inject_mrt s) refl)
        λ _. Quiet-call (graceful_restart s) refl)

  Quiet-gr_targets :
      (ctx : Ctx) (mode : String) (down_s : ℕ) (targets : List Session)
      → Quiet impairs env (gr_targets ctx mode down_s targets)
  unfolding gr_targets
  Quiet-gr_targets ctx mode down_s [] = Quiet-skipped _
  Quiet-gr_targets ctx mode down_s (s ∷ targets) =
      Quiet-bind (Quiet-bind (Quiet-log _ _ _) λ _. Quiet-restart_peer ctx s mode down_s)
        λ gr. Quiet-log _ _ _

  pub Quiet-ev_gr_event :
      (ctx : Ctx) (mode : String) (down_s : ℕ) → Quiet impairs env (ev_gr_event ctx mode down_s)
  unfolding ev_gr_event
  Quiet-ev_gr_event ctx mode down_s =
      Quiet-bind (Quiet-pick ctx 1 none (some "gobgp")) (Quiet-gr_targets ctx mode down_s)

  Quiet-expect_restarts : (ctx : Ctx) → Quiet impairs env (expect_restarts ctx)
  unfolding expect_restarts
  Quiet-expect_restarts ctx =
      Quiet-if ctx.preds
        (Quiet-bind
          (Quiet-bind (Quiet-note (expect_daemon_restart "bgpd") refl)
            λ _. Quiet-note (expect_daemon_restart "zebra") refl)
          λ _. Quiet-note (expect_daemon_restart "staticd") refl)
        (Quiet-pure tt)

  Quiet-restart_dut : (ctx : Ctx) → Quiet impairs env (restart_dut ctx)
  unfolding restart_dut
  Quiet-restart_dut ctx =
      Quiet-bind (Quiet-bind (Quiet-expect_restarts ctx) λ _. Quiet-call monotonic refl) λ t0.
        Quiet-bind (Quiet-call restart_bgpd refl) λ r.
          Quiet-bind
            (Quiet-bind (Quiet-call (sleep 5000) refl) λ _. Quiet-call (bgp_summary ipv4) refl)
            λ summary. Quiet-bind (Quiet-call monotonic refl) λ t1. Quiet-log _ _ _

  pub Quiet-ev_dut_bgpd_restart : (ctx : Ctx) → Quiet impairs env (ev_dut_bgpd_restart ctx)
  unfolding ev_dut_bgpd_restart
  Quiet-ev_dut_bgpd_restart ctx =
      Quiet-bind (Quiet-log _ _ _)
        λ _. Quiet-if ctx.dry_run (Quiet-log _ _ _) (Quiet-restart_dut ctx)

  Quiet-apply_fragment :
      (name : String) (hold_s : ℕ) → Quiet impairs env (apply_fragment name hold_s)
  unfolding apply_fragment
  Quiet-apply_fragment name hold_s =
      Quiet-except_timeout
        (Quiet-bind (Quiet-call (configure_file name apply) refl) λ r.
          Quiet-bind (Quiet-bind (Quiet-log _ _ _) λ _. Quiet-call (sleep hold_s) refl)
            λ _. Quiet-pure _)
        (Quiet-bind (Quiet-log _ _ _) λ _. Quiet-pure _)

  Quiet-revert_fragment :
      (name : String) (asked : Bool) → Quiet impairs env (revert_fragment name asked)
  unfolding revert_fragment
  Quiet-revert_fragment name false = Quiet-pure []
  Quiet-revert_fragment name true =
      Quiet-except_timeout
        (Quiet-bind (Quiet-call (configure_file name revert) refl) λ r. Quiet-pure _) (Quiet-pure _)

  Quiet-churn_fragment :
      (ctx : Ctx) (name : String) (hold_s : ℕ) (asked : Bool)
      → Quiet impairs env (churn_fragment ctx name hold_s asked)
  unfolding churn_fragment churn_result
  Quiet-churn_fragment ctx name hold_s asked = Quiet-bind (Quiet-log _ _ _) λ _.
      Quiet-if ctx.dry_run (Quiet-log _ _ _) (
        Quiet-bind
          (Quiet-finally (Quiet-apply_fragment name hold_s) (Quiet-revert_fragment name asked))
          λ r. Quiet-log _ _ _)

  pub Quiet-ev_policy_churn :
      (ctx : Ctx) (fragments : List String) (hold_s : ℕ) (asked : Bool)
      → Quiet impairs env (ev_policy_churn ctx fragments hold_s asked)
  unfolding ev_policy_churn
  Quiet-ev_policy_churn ctx fragments hold_s asked =
      Quiet-bind (Quiet-call (choice (pool_of fragments)) refl) λ name.
        Quiet-bind (Quiet-call (path_exists name apply) refl)
          λ found. Quiet-if found (Quiet-churn_fragment ctx name hold_s asked) (Quiet-skipped _)

  pub Quiet-ev_soft_clear :
      (ctx : Ctx) (target direction : String) (afi : Option Afi)
      → Quiet impairs env (ev_soft_clear ctx target direction afi)
  unfolding ev_soft_clear
  Quiet-ev_soft_clear ctx target direction afi = Quiet-bind (Quiet-log _ _ _) λ _.
      Quiet-if ctx.dry_run (Quiet-log _ _ _)
        (Quiet-bind (Quiet-call (reset_bgp target (some direction) afi) refl) λ r. Quiet-log _ _ _)

  Quiet-impair_all : (cfg : Settings) (cs : List Name) → Quiet impairs env (impair_all cfg cs)
  unfolding impair_all
  Quiet-impair_all cfg cs = Quiet-collect cs _ λ c.
      Quiet-bind
        (Quiet-bind (Quiet-call (netem c cfg.delay_ms cfg.jitter_ms cfg.loss) refl)
          λ _. Quiet-call (netem_active c) refl)
        λ v. Quiet-pure (c, v)

  Quiet-clear_all : (cs : List Name) → Quiet impairs env (clear_all cs)
  unfolding clear_all
  Quiet-clear_all cs = Quiet-each cs _ λ c. Quiet-call (netem_clear c) refl

  Quiet-netem_result :
      (cfg : Settings) (cs : List Name) (applied : List (Name × Qdisc)) (effective : List Name)
      → Quiet impairs env (netem_result cfg cs applied effective)
  unfolding netem_result
  Quiet-netem_result cfg cs applied [] = Quiet-bind (Quiet-clear_all cs) λ _. Quiet-log _ _ _
  Quiet-netem_result cfg cs applied (c ∷ effective) =
      Quiet-bind (Quiet-bind (Quiet-call (sleep cfg.duration) refl) λ _. Quiet-clear_all cs)
        λ _. Quiet-log _ _ _

  Quiet-netem_containers :
      (ctx : Ctx) (cfg : Settings) (cs : List Name)
      → Quiet impairs env (netem_containers ctx cfg cs)
  unfolding netem_containers
  Quiet-netem_containers ctx cfg cs = Quiet-bind (Quiet-log _ _ _) λ _.
      Quiet-if ctx.dry_run (Quiet-log _ _ _) (
        Quiet-bind (Quiet-impair_all cfg cs)
          λ applied. Quiet-netem_result cfg cs applied (effective_of applied))

  Quiet-netem_targets :
      (ctx : Ctx) (cfg : Settings) (targets : List Session)
      → Quiet impairs env (netem_targets ctx cfg targets)
  unfolding netem_targets
  Quiet-netem_targets ctx cfg [] = Quiet-skipped _
  Quiet-netem_targets ctx cfg (s ∷ targets) = Quiet-netem_containers ctx cfg _

  pub Quiet-ev_netem :
      (ctx : Ctx) (cfg : Settings) (count : ℕ) → Quiet impairs env (ev_netem ctx cfg count)
  unfolding ev_netem
  Quiet-ev_netem ctx cfg count =
      Quiet-bind (Quiet-pick ctx count none none) (Quiet-netem_targets ctx cfg)
