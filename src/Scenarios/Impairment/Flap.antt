-- ===== src/Scenarios/Impairment/Flap.antt =====
-- A flap ends the impairment that it begins.
use vyos_ixp_bgp_stress.Prelude.{ℕ, String, none, some, List, [], ◌∷◌, refl, str_eq}
use vyos_ixp_bgp_stress.Inventory.Profile.{Session}
use vyos_ixp_bgp_stress.Scenarios.Calls.{
  Name, Environment, flap, unflap, addrs_missing, addrs_misplaced, sleep, uniform,
}
use vyos_ixp_bgp_stress.Scenarios.Context.{Ctx, impair_off}
use vyos_ixp_bgp_stress.Scenarios.Brackets.{
  Quiet, Keeps, Quiet-call, Quiet-pure, Quiet-bind, Quiet-if, Quiet-each, Keeps-bind,
  Keeps-of_Quiet, Keeps-if,
}
use vyos_ixp_bgp_stress.Scenarios.Impairment.{
  impairs, Quiet-log, Quiet-pick, Quiet-impair_off, Closes-impair_off, Keeps-impaired,
}
use vyos_ixp_bgp_stress.Scenarios.Flap.{
  ev_peer_flap, flap_targets, flap_impaired, flap_all, check_addrs,
}

module _ {env : Environment} where
  Quiet-check_addrs : (cs : List Name) → Quiet impairs env (check_addrs cs)
  unfolding check_addrs
  Quiet-check_addrs [] = Quiet-pure _
  Quiet-check_addrs (c ∷ cs) = Quiet-bind (Quiet-call (addrs_missing c) refl) λ gone.
      Quiet-bind (Quiet-call (addrs_misplaced c) refl)
        λ stray. Quiet-bind (Quiet-check_addrs cs) λ found. Quiet-pure _

  Quiet-flap_all :
      (targets : List Session) (mode : String) (hold : ℕ)
      → Quiet impairs env (flap_all targets mode hold)
  unfolding flap_all
  Quiet-flap_all targets mode hold =
      Quiet-bind
        (Quiet-bind
          (Quiet-bind (Quiet-each targets _ λ s. Quiet-call (flap s mode) refl)
            λ _. Quiet-call (sleep hold) refl)
          λ _. Quiet-each targets _ λ s. Quiet-call (unflap s mode) refl)
        λ _. Quiet-if (str_eq mode "link_down") (Quiet-check_addrs _) (Quiet-pure _)

  Keeps-flap_impaired :
      (ctx : Ctx) (targets : List Session) (mode : String) (hold : ℕ)
      → Keeps impairs env (flap_impaired ctx targets mode hold)
  unfolding flap_impaired
  Keeps-flap_impaired ctx targets mode hold =
      Keeps-if ctx.dry_run (Keeps-of_Quiet _ (Quiet-pure _)) (
        Keeps-bind
          (Keeps-impaired ctx (flap_all targets mode hold) (impair_off ctx (some 60000))
            (Quiet-flap_all targets mode hold) (Quiet-impair_off ctx (some 60000))
            (Closes-impair_off ctx (some 60000)))
          λ r. Keeps-of_Quiet _ (Quiet-pure r.0))

  Keeps-flap_targets :
      (ctx : Ctx) (mode : String) (down_s : ℕ × ℕ) (targets : List Session)
      → Keeps impairs env (flap_targets ctx mode down_s targets)
  unfolding flap_targets
  Keeps-flap_targets ctx mode down_s [] = Keeps-of_Quiet _ (Quiet-log _ _ _)
  Keeps-flap_targets ctx mode down_s (s ∷ targets) =
      Keeps-bind (Keeps-of_Quiet _ (Quiet-call (uniform down_s.0 down_s.1) refl)) λ hold.
        Keeps-bind
          (Keeps-bind (Keeps-of_Quiet _ (Quiet-log _ _ _))
            λ _. Keeps-flap_impaired ctx (s ∷ targets) mode hold)
          λ found. Keeps-of_Quiet _ (Quiet-log _ _ _)

  -- a flap ends the impairment that it begins, whatever call raises
  pub Keeps-ev_peer_flap :
      (ctx : Ctx) (mode : String) (count : ℕ) (down_s : ℕ × ℕ)
      → Keeps impairs env (ev_peer_flap ctx mode count down_s)
  unfolding ev_peer_flap
  Keeps-ev_peer_flap ctx mode count down_s =
      Keeps-bind (Keeps-of_Quiet _ (Quiet-pick ctx count none none))
        (Keeps-flap_targets ctx mode down_s)
