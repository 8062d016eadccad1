-- ===== src/Scenarios/Impairment/Blackhole.antt =====
-- A blackhole ends the impairment that it begins, if the rules can be removed.
use vyos_ixp_bgp_stress.Prelude.{ℕ, true, false, Option, none, some, List, [], ◌∷◌, refl, ◌≡◌}
use vyos_ixp_bgp_stress.Telemetry.Violation.{ipv4, ipv6}
use vyos_ixp_bgp_stress.Telemetry.Sampler.{Json}
use vyos_ixp_bgp_stress.Inventory.Profile.{Session}
use vyos_ixp_bgp_stress.Scenarios.Calls.{
  Trace, Environment, ok, Blackhole, sleep, blackhole, bgp_summary,
}
use vyos_ixp_bgp_stress.Scenarios.Context.{Ctx}
use vyos_ixp_bgp_stress.Scenarios.Brackets.{
  Quiet, Keeps, Closes, Quiet-call, Quiet-pure, Quiet-bind, Quiet-if, Keeps-bind, Keeps-of_Quiet,
  Keeps-if, Closes-answered, Closes-bind,
}
use vyos_ixp_bgp_stress.Scenarios.Impairment.{
  impairs, Quiet-log, Quiet-pick, Quiet-skipped, Quiet-impair_off, Closes-impair_off,
  Keeps-impaired,
}
use vyos_ixp_bgp_stress.Scenarios.Blackhole.{
  Texts, PeerState, Left, returned, at_end, peer_state, hold_blackhole, clear_blackhole,
  blackhole_result, blackhole_session, blackhole_targets, ev_blackhole_peer,
}

-- `PeerFleet.blackhole(s, on=False)` never raises.
abbrev pub Clears : Environment → Type 0
Clears env = (s : Session) (t : Trace) → (b : Blackhole) × (env (blackhole s false) t ≡ ok b)

module _ {env : Environment} (txt : Texts) where
  Quiet-peer_state : (s : Session) → Quiet impairs env (peer_state txt s)
  unfolding peer_state
  Quiet-peer_state s =
      Quiet-bind (Quiet-call (bgp_summary ipv4) refl)
        λ four. Quiet-bind (Quiet-call (bgp_summary ipv6) refl) λ six. Quiet-pure _

  Quiet-hold_blackhole : (s : Session) (hold : ℕ) → Quiet impairs env (hold_blackhole txt s hold)
  unfolding hold_blackhole
  Quiet-hold_blackhole s hold = Quiet-bind (Quiet-call (blackhole s true) refl) λ applied.
      Quiet-if applied.effective
        (Quiet-bind (Quiet-bind (Quiet-call (sleep _) refl) λ _. Quiet-peer_state s)
          λ held. Quiet-bind (Quiet-call (sleep _) refl) λ _. Quiet-pure _)
        (Quiet-bind (Quiet-bind (Quiet-call (blackhole s false) refl) λ _. Quiet-log _ _ _)
          λ rec_. Quiet-pure _)

  Quiet-clear_blackhole :
      (ctx : Ctx) (s : Session) → ctx.preds ≡ false → Quiet impairs env (clear_blackhole txt ctx s)
  unfolding clear_blackhole
  Quiet-clear_blackhole ctx s e =
      Quiet-bind (Quiet-call (blackhole s false) refl)
        λ cleared. Quiet-bind (Quiet-impair_off ctx (some 60000) e) λ _. Quiet-pure cleared

  Closes-clear_blackhole :
      (ctx : Ctx) (s : Session)
      → Clears env
      → ctx.preds ≡ true
      → Closes impairs env (clear_blackhole txt ctx s)
  unfolding clear_blackhole
  Closes-clear_blackhole ctx s clears e =
      Closes-answered (blackhole s false) _ (clears s) λ cleared.
        Closes-bind (Closes-impair_off ctx (some 60000) e)
          λ _. Keeps-of_Quiet _ (Quiet-pure cleared)

  Quiet-blackhole_result :
      (s : Session) (hold : ℕ) (snt : Option Json) (before : PeerState) (r : Left × Blackhole)
      → Quiet impairs env (blackhole_result txt s hold snt before r)
  unfolding blackhole_result
  Quiet-blackhole_result s hold snt before (returned rec_, cleared) = Quiet-pure rec_
  Quiet-blackhole_result s hold snt before (at_end applied held, cleared) = Quiet-log _ _ _

  Keeps-blackhole_session :
      (ctx : Ctx) (s : Session) (hold : ℕ)
      → Clears env
      → Keeps impairs env (blackhole_session txt ctx s hold)
  unfolding blackhole_session
  Keeps-blackhole_session ctx s hold clears =
      Keeps-bind (Keeps-of_Quiet _ (Quiet-call (bgp_summary ipv4) refl)) λ summ.
        Keeps-bind (Keeps-of_Quiet _ (Quiet-peer_state s)) λ before.
          Keeps-bind
            (Keeps-impaired ctx _ _ (Quiet-hold_blackhole s hold) (Quiet-clear_blackhole ctx s)
              (Closes-clear_blackhole ctx s clears))
            λ left. Keeps-of_Quiet _ (Quiet-blackhole_result s hold _ before left)

  Keeps-blackhole_targets :
      (ctx : Ctx) (hold_s : ℕ) (targets : List Session)
      → Clears env
      → Keeps impairs env (blackhole_targets txt ctx hold_s targets)
  unfolding blackhole_targets
  Keeps-blackhole_targets ctx hold_s [] clears = Keeps-of_Quiet _ (Quiet-skipped _)
  Keeps-blackhole_targets ctx hold_s (s ∷ targets) clears =
      Keeps-bind (Keeps-of_Quiet _ (Quiet-log _ _ _)) λ _.
        Keeps-if ctx.dry_run (Keeps-of_Quiet _ (Quiet-log _ _ _))
          (Keeps-blackhole_session ctx s _ clears)

  -- a blackhole ends the impairment that it begins, if the rules can be removed
  pub Keeps-ev_blackhole_peer :
      (ctx : Ctx) (count hold_s : ℕ)
      → Clears env
      → Keeps impairs env (ev_blackhole_peer txt ctx count hold_s)
  unfolding ev_blackhole_peer
  Keeps-ev_blackhole_peer ctx count hold_s clears =
      Keeps-bind (Keeps-of_Quiet _ (Quiet-pick ctx count none (some "gobgp")))
        λ targets. Keeps-blackhole_targets ctx hold_s targets clears
