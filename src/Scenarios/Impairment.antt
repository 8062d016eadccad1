-- ===== src/Scenarios/Impairment.antt =====
-- Which calls begin and end an impairment of the predicates.
pub mod Flap
pub mod Blackhole
pub mod Others
pub mod Churn
pub mod Probing
use vyos_ixp_bgp_stress.Prelude.{
  ℕ, String, Bool, true, false, Option, none, some, List, [], ◌∷◌, refl, str_eq, Bool-cases, inl,
  inr, ◌≡◌, min, length, if◌then◌else◌,
}
use vyos_ixp_bgp_stress.Inventory.Profile.{Session}
use vyos_ixp_bgp_stress.Scenarios.Calls.{
  Call, Payload, Name, Io, Trace, Environment, impair_begin, impair_end, call, pure, each, event,
  sample, flap, unflap, addrs_missing, addrs_misplaced, sleep, uniform, ◌>>=◌, ◌>>◌, try_finally,
  note,
}
use vyos_ixp_bgp_stress.Scenarios.Context.{
  Ctx, log, merge, pick, draw_from, impair_on, impair_off, skipped, containers_of,
}
use vyos_ixp_bgp_stress.Scenarios.Brackets.{
  Marks, Quiet, Keeps, Closes, is_open, Quiet-call, Quiet-note, Closes-note, Quiet-pure, Quiet-bind,
  Quiet-if, Quiet-each, Keeps-bind, Keeps-of_Quiet, Keeps-of_Closes, Quiet-finally, Quiet-collect,
  Quiet-except_timeout, Closes-note_then, Closes-answered, Closes-finally, Closes-bind, Keeps-if,
  Keeps-except_any,
}

abbrev pub impairs : Marks
impairs impair_begin = some true
impairs (impair_end grace) = some false
impairs _ = none

module _ {env : Environment} where
  pub Quiet-log : (kind : String) (payload kw : Payload) → Quiet impairs env (log kind payload kw)
  unfolding log
  Quiet-log kind payload kw =
      Quiet-bind (Quiet-call (event kind (merge payload kw)) refl) (λ _. Quiet-pure _)

  Quiet-draw_from : (pool : List Session) (n : ℕ) → Quiet impairs env (draw_from pool n)
  unfolding draw_from
  Quiet-draw_from [] n = Quiet-pure []
  Quiet-draw_from (s ∷ pool) n = Quiet-call (sample (s ∷ pool) (min n (length (s ∷ pool)))) refl

  pub Quiet-pick :
      (ctx : Ctx) (n : ℕ) (role engine : Option String) → Quiet impairs env (pick ctx n role engine)
  unfolding pick
  Quiet-pick ctx n role engine = Quiet-draw_from _ n

  pub Closes-impair_off :
      (ctx : Ctx) (grace : Option ℕ) → ctx.preds ≡ true → Closes impairs env (impair_off ctx grace)
  unfolding impair_off
  Closes-impair_off ctx grace e = rw e (Closes-note (impair_end grace) refl)

  pub Quiet-impair_off :
      (ctx : Ctx) (grace : Option ℕ) → ctx.preds ≡ false → Quiet impairs env (impair_off ctx grace)
  unfolding impair_off
  Quiet-impair_off ctx grace e = rw e (Quiet-pure tt)

  pub Keeps-impaired :
      {A B : Type 0} (ctx : Ctx) (body : Io A) (last : Io B)
      → Quiet impairs env body
      → (ctx.preds ≡ false → Quiet impairs env last)
      → (ctx.preds ≡ true → Closes impairs env last)
      → Keeps impairs env (impair_on ctx >> try_finally body last)
  unfolding impair_on
  Keeps-impaired ctx body last q without with = elim (Bool-cases ctx.preds) [
    | inl e ↦
        rw e
          (Keeps-of_Closes _ (Closes-note_then impair_begin _ (Closes-finally body last (with e))))
    | inr e ↦
        rw e (Keeps-of_Quiet _ (Quiet-bind (Quiet-pure tt) (λ _. Quiet-finally q (without e))))
  ]

  pub Quiet-skipped : (name : String) → Quiet impairs env (skipped name)
  Quiet-skipped name = Quiet-log _ _ _
