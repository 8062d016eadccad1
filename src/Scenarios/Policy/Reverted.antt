-- ===== src/Scenarios/Policy/Reverted.antt =====
-- The revert is attempted after every apply, and a revert that timed out is flagged.
use vyos_ixp_bgp_stress.Prelude.{
  ℕ, ◌≡◌, refl, String, true, false, none, some, List, if◌then◌else◌, str_eq, Bool-cases, inl, inr,
}
use vyos_ixp_bgp_stress.Scenarios.Calls.{
  Payload, Environment, event, choice, path_exists, configure_file, apply, revert, sleep,
  try_finally,
}
use vyos_ixp_bgp_stress.Scenarios.Context.{Ctx, log, merge}
use vyos_ixp_bgp_stress.Scenarios.Brackets.{
  Marks, Quiet, Keeps, Closes, Quiet-call, Quiet-pure, Quiet-bind, Keeps-bind, Keeps-if,
  Keeps-of_Quiet, Keeps-of_Closes, Closes-call, Closes-bind, Closes-finally, Closes-except_timeout,
  Quiet-except_timeout, Quiet-finally,
}
use vyos_ixp_bgp_stress.Scenarios.Policy.{
  ev_policy_churn, churn_fragment, churn_result, apply_fragment, revert_fragment, pool_of,
}

-- The fragment is applied, and its revert is attempted.
abbrev pub modifies : String → Marks
modifies target (configure_file name apply) = if str_eq name target then some true else none
modifies target (configure_file name revert) = if str_eq name target then some false else none
modifies target _ = none

module _ {env : Environment} (target : String) where
  Quiet-log :
      (kind : String) (payload kw : Payload) → Quiet (modifies target) env (log kind payload kw)
  unfolding log
  Quiet-log kind payload kw =
      Quiet-bind (Quiet-call (event kind (merge payload kw)) refl) (λ _. Quiet-pure _)

  Closes-revert_fragment :
      (name : String)
      → str_eq name target ≡ true
      → Closes (modifies target) env (revert_fragment name true)
  unfolding revert_fragment
  Closes-revert_fragment name same =
      Closes-except_timeout
        (Closes-bind (Closes-call (configure_file name revert) (rw same refl))
          λ r. Keeps-of_Quiet _ (Quiet-pure _))
        (Quiet-pure _)

  Quiet-revert_fragment :
      (name : String)
      → str_eq name target ≡ false
      → Quiet (modifies target) env (revert_fragment name true)
  unfolding revert_fragment
  Quiet-revert_fragment name other =
      Quiet-except_timeout
        (Quiet-bind (Quiet-call (configure_file name revert) (rw other refl)) λ r. Quiet-pure _)
        (Quiet-pure _)

  Quiet-apply_fragment :
      (name : String) (hold_s : ℕ)
      → str_eq name target ≡ false
      → Quiet (modifies target) env (apply_fragment name hold_s)
  unfolding apply_fragment
  Quiet-apply_fragment name hold_s other =
      Quiet-except_timeout
        (Quiet-bind (Quiet-call (configure_file name apply) (rw other refl)) λ r.
          Quiet-bind (Quiet-bind (Quiet-log _ _ _) λ _. Quiet-call (sleep hold_s) refl)
            λ _. Quiet-pure _)
        (Quiet-bind (Quiet-log _ _ _) λ _. Quiet-pure _)

  Keeps-try :
      (name : String) (hold_s : ℕ)
      → Keeps
          (modifies target)
          env
          (try_finally (apply_fragment name hold_s) (revert_fragment name true))
  Keeps-try name hold_s = elim (Bool-cases (str_eq name target)) [
    | inl same ↦ Keeps-of_Closes _ (Closes-finally _ _ (Closes-revert_fragment name same))
    | inr other ↦
        Keeps-of_Quiet _ (
          Quiet-finally (Quiet-apply_fragment name hold_s other) (Quiet-revert_fragment name other))
  ]

  Keeps-churn_fragment :
      (ctx : Ctx) (name : String) (hold_s : ℕ)
      → Keeps (modifies target) env (churn_fragment ctx name hold_s true)
  unfolding churn_fragment churn_result
  Keeps-churn_fragment ctx name hold_s = Keeps-bind (Keeps-of_Quiet _ (Quiet-log _ _ _)) λ _.
      Keeps-if ctx.dry_run (Keeps-of_Quiet _ (Quiet-log _ _ _))
        (Keeps-bind (Keeps-try name hold_s) λ r. Keeps-of_Quiet _ (Quiet-log _ _ _))

-- Whatever the environment answers or raises, and however the event ends, it tries to revert every
-- fragment that it has tried to apply, if it is asked to revert.
pub ev_policy_churn-reverts :
    (env : Environment) (target : String) (ctx : Ctx) (fragments : List String) (hold_s : ℕ)
    → Keeps (modifies target) env (ev_policy_churn ctx fragments hold_s true)
unfolding ev_policy_churn
ev_policy_churn-reverts env target ctx fragments hold_s =
    Keeps-bind (Keeps-of_Quiet _ (Quiet-call (choice (pool_of fragments)) refl)) λ name.
      Keeps-bind (Keeps-of_Quiet _ (Quiet-call (path_exists name apply) refl)) λ found.
        Keeps-if found (Keeps-churn_fragment target ctx name hold_s)
          (Keeps-of_Quiet _ (Quiet-log target _ _ _))
