-- ===== src/Scenarios/Impairment/Churn.antt =====
-- The churn of prefixes neither begins nor ends an impairment.
use vyos_ixp_bgp_stress.Prelude.{
  ℕ, String, Option, none, some, List, [], ◌∷◌, ◌++◌, refl, str_eq, ◌||◌, ◌==◌,
}
use vyos_ixp_bgp_stress.Inventory.Profile.{Session}
use vyos_ixp_bgp_stress.Mrt.Writer.{Prefix}
use vyos_ixp_bgp_stress.Scenarios.Calls.{
  Environment, sleep, inject_mrt, randrange, rib_batch, exabgp_send_many, set_walk_offset,
  value_error,
}
use vyos_ixp_bgp_stress.Scenarios.Context.{Ctx}
use vyos_ixp_bgp_stress.Scenarios.Brackets.{
  Quiet, Quiet-call, Quiet-note, Quiet-pure, Quiet-raise, Quiet-bind, Quiet-if, Quiet-walk_offset,
}
use vyos_ixp_bgp_stress.Scenarios.Impairment.{impairs, Quiet-log, Quiet-pick, Quiet-skipped}
use vyos_ixp_bgp_stress.Prefixes.{PrefixPlan}
use vyos_ixp_bgp_stress.Scenarios.Churn.{
  Fraction, Both, or_error, first_v4, first_v6, session_prefixes, size, dels, adds, withdraw_storm,
  flap_same, attr_churn, walk, churn_by, churn_gobgp, exabgp_withdraw, churn_exabgp, churn_all,
  churn_targets, ev_churn,
}

module _ {env : Environment} (prefixes : PrefixPlan) (ctx : Ctx) (f : Fraction) (settle : ℕ) where
  Quiet-or_error : (ps : Option (List Prefix)) → Quiet impairs env (or_error ps)
  Quiet-or_error none = Quiet-raise value_error
  Quiet-or_error (some ps) = Quiet-pure ps

  Quiet-session_prefixes :
      (s : Session) (off : ℕ) → Quiet impairs env (session_prefixes prefixes s f off)
  unfolding session_prefixes
  Quiet-session_prefixes s off =
      Quiet-bind (Quiet-or_error (first_v4 prefixes s f off))
        λ v4. Quiet-bind (Quiet-or_error (first_v6 prefixes s f off)) λ v6. Quiet-pure _

  Quiet-withdraw_storm :
      (s : Session) (v : Both) → Quiet impairs env (withdraw_storm prefixes ctx f settle s v)
  unfolding withdraw_storm
  Quiet-withdraw_storm s v =
      Quiet-bind
        (Quiet-bind
          (Quiet-bind (Quiet-call (rib_batch s (dels v)) refl) λ _. Quiet-call (sleep settle) refl)
          λ _. Quiet-call (inject_mrt s) refl)
        λ _. Quiet-pure _

  Quiet-flap_same :
      (s : Session) (v : Both) → Quiet impairs env (flap_same prefixes ctx f settle s v)
  unfolding flap_same
  Quiet-flap_same s v =
      Quiet-bind
        (Quiet-bind
          (Quiet-bind (Quiet-call (rib_batch s (dels v)) refl) λ _. Quiet-call (sleep settle) refl)
          λ _. Quiet-call (rib_batch s (adds s none none v)) refl)
        λ _. Quiet-pure _

  Quiet-attr_churn :
      (s : Session) (v : Both) → Quiet impairs env (attr_churn prefixes ctx f settle s v)
  unfolding attr_churn
  Quiet-attr_churn s v = Quiet-bind (Quiet-call (randrange 1 5000) refl) λ med.
      Quiet-bind (Quiet-call (randrange 1 9999) refl) λ lc.
        Quiet-bind (Quiet-call (rib_batch s (adds s (some med) (some lc) v)) refl) λ _. Quiet-pure _

  Quiet-walk :
      (s : Session) (off : ℕ) (v : Both) → Quiet impairs env (walk prefixes ctx f settle s off v)
  unfolding walk
  Quiet-walk s off v = Quiet-bind (Quiet-session_prefixes s _) λ fresh.
      Quiet-bind
        (Quiet-bind (Quiet-call (rib_batch s (adds s none none fresh ++ dels v)) refl)
          λ _. Quiet-note (set_walk_offset s.sid _) refl)
        λ _. Quiet-pure _

  Quiet-churn_by :
      (mode : String) (s : Session) (off : ℕ) (v : Both)
      → Quiet impairs env (churn_by prefixes ctx f settle mode s off v)
  unfolding churn_by
  Quiet-churn_by mode s off v = Quiet-if (str_eq mode "withdraw_storm") (Quiet-withdraw_storm s v) (
      Quiet-if (str_eq mode "flap_same") (Quiet-flap_same s v) (
        Quiet-if (str_eq mode "attr_churn") (Quiet-attr_churn s v)
          (Quiet-if (str_eq mode "walk") (Quiet-walk s off v) (Quiet-raise value_error))))

  Quiet-churn_gobgp :
      (mode : String) (s : Session) → Quiet impairs env (churn_gobgp prefixes ctx f settle mode s)
  unfolding churn_gobgp
  Quiet-churn_gobgp mode s = Quiet-bind (Quiet-walk_offset s.sid) λ off.
      Quiet-bind (Quiet-session_prefixes s off)
        λ v. Quiet-if (ctx.dry_run || size v == 0) (Quiet-pure _) (Quiet-churn_by mode s off v)

  module _ (dut_addrs : Session → ℕ × ℕ) where
    Quiet-exabgp_withdraw :
        (mode : String) (s : Session) (v : Both)
        → Quiet impairs env (exabgp_withdraw prefixes ctx f settle dut_addrs mode s v)
    unfolding exabgp_withdraw
    Quiet-exabgp_withdraw mode s v =
        Quiet-if (str_eq mode "flap_same" || str_eq mode "withdraw_storm")
          (Quiet-bind (Quiet-call (exabgp_send_many s _) refl) λ _. Quiet-call (sleep settle) refl)
          (Quiet-pure tt)

    Quiet-churn_exabgp :
        (mode : String) (s : Session)
        → Quiet impairs env (churn_exabgp prefixes ctx f settle dut_addrs mode s)
    unfolding churn_exabgp
    Quiet-churn_exabgp mode s = Quiet-bind (Quiet-walk_offset s.sid) λ off.
        Quiet-bind (Quiet-session_prefixes s off) λ v.
          Quiet-if (ctx.dry_run || size v == 0) (Quiet-pure _) (
            Quiet-bind
              (Quiet-bind (Quiet-exabgp_withdraw mode s v) λ _.
                Quiet-if (str_eq mode "attr_churn") (Quiet-call (randrange 1 5000) refl)
                  (Quiet-pure 50))
              λ med. Quiet-bind (Quiet-call (exabgp_send_many s _) refl) λ _. Quiet-pure _)

    Quiet-churn_all :
        (mode : String) (targets : List Session)
        → Quiet impairs env (churn_all prefixes ctx f settle dut_addrs mode targets)
    unfolding churn_all
    Quiet-churn_all mode [] = Quiet-pure 0
    Quiet-churn_all mode (s ∷ targets) =
        Quiet-bind
          (Quiet-if (str_eq s.engine "gobgp") (Quiet-churn_gobgp mode s)
            (Quiet-churn_exabgp mode s))
          λ n. Quiet-bind (Quiet-churn_all mode targets) λ rest. Quiet-pure _

    Quiet-churn_targets :
        (mode : String) (targets : List Session)
        → Quiet impairs env (churn_targets prefixes ctx f settle dut_addrs mode targets)
    unfolding churn_targets
    Quiet-churn_targets mode [] = Quiet-skipped _
    Quiet-churn_targets mode (s ∷ targets) =
        Quiet-bind (Quiet-churn_all mode (s ∷ targets)) λ total. Quiet-log _ _ _

    pub Quiet-ev_churn :
        (mode : String) (count : ℕ)
        → Quiet impairs env (ev_churn prefixes ctx f settle dut_addrs mode count)
    unfolding ev_churn
    Quiet-ev_churn mode count =
        Quiet-bind (Quiet-pick ctx count none none) (Quiet-churn_targets mode)
