-- ===== src/Scenarios/Scheduler/Returns.antt =====
-- An exception of an event does not end the run.
use vyos_ixp_bgp_stress.Prelude.{ℕ, ◌-◌, ◌≡◌, ◌≤◌, ◌<◌, ◌∙◌, refl, subst, String, some, [], ◌∷◌}
use vyos_ixp_bgp_stress.Prelude.Dict.{lookup, lookup-insert}
use vyos_ixp_bgp_stress.Scenarios.Calls.{
  Call, Answer, Exception, Outcome, ok, raised, Trace, Environment, Io, Payload, call, pure, ◌>>=◌,
  continue, except_any, on_exception, randrange, monotonic, event, text, number,
}
use vyos_ixp_bgp_stress.Scenarios.Context.{Ctx, log, merge}
use vyos_ixp_bgp_stress.Scenarios.Scheduler.{
  Spec, kind_of, Lab, Weighted, run_event, total, drawn, draw, log_error, stamp, run_spec, run_one,
}

-- In the environment the program returns a value that has the property.
pub record Returns (env : Environment) {A : Type 0} (P : A → Type 0) (m : Io A) : Type 0 where
  pub returns : (t : Trace) → (a : A) × ((m env t).0 ≡ ok a) × P a

abbrev Anything : {A : Type 0} → A → Type 0
Anything a = Unit

module _ {env : Environment} where
  Returns-pure : {A : Type 0} {P : A → Type 0} (a : A) → P a → Returns env P (pure a)
  unfolding pure
  Returns-pure a p = record { returns = λ t. (a, refl, p) }

  Returns-call :
      (c : Call) → ((t : Trace) → (a : Answer c) × (env c t ≡ ok a)) → Returns env Anything (call c)
  unfolding call
  Returns-call c answers = record { returns = λ t. let (a, e) = answers t in (a, e, tt) }

  continue-Returns :
      {A B : Type 0} {Q : B → Type 0} (k : A → Io B) (r : Outcome A × Trace) (a : A)
      → r.0 ≡ ok a
      → Returns env Q (k a)
      → (b : B) × ((continue k env r).0 ≡ ok b) × Q b
  continue-Returns {Q} k (ok a', t) a e h =
      let same : a ≡ a' = cc in let r = subst (λ z. Returns env Q (k z)) same h in r.returns t
  continue-Returns k (raised x, t) a e h = cc

  Returns-bind :
      {A B : Type 0} {P : A → Type 0} {Q : B → Type 0} {m : Io A} {k : A → Io B}
      → Returns env P m
      → ((a : A) → P a → Returns env Q (k a))
      → Returns env Q (m >>= k)
  unfolding ◌>>=◌
  Returns-bind {m} {k} rm rk = record {
    returns = λ t. let (a, e, p) = rm.returns t in continue-Returns k (m env t) a e (rk a p);
  }

  on_exception-Returns :
      {A : Type 0} {P : A → Type 0} (handler : Exception → Io A) (r : Outcome A × Trace)
      → ((x : Exception) → Returns env P (handler x))
      → (b : A) × ((on_exception handler env r).0 ≡ ok b) × Unit {0}
  on_exception-Returns handler (ok a, t) h = (a, refl, tt)
  on_exception-Returns handler (raised x, t) h = let (b, e, p) = (h x).returns t in (b, e, tt)

  Returns-except_any :
      {A : Type 0} {P : A → Type 0} (body : Io A) {handler : Exception → Io A}
      → ((x : Exception) → Returns env P (handler x))
      → Returns env Anything (except_any body handler)
  unfolding except_any
  Returns-except_any body {handler} h = record {
    returns = λ t. on_exception-Returns handler (body env t) h;
  }

-- A random number is drawn from a range that is not empty; the clock and the timeline's file raise
-- nothing.
pub record Answers (env : Environment) : Type 0 where
  pub draws :
      (low high : ℕ) (t : Trace)
      → low < high
      → (r : ℕ) × (env (randrange low high) t ≡ ok r) × (low ≤ r) × (r < high)
  pub clock : (t : Trace) → (now : ℕ) × (env monotonic t ≡ ok now)
  pub writes :
      (kind : String) (payload : Payload) (t : Trace)
      → (u : Unit {0}) × (env (event kind payload) t ≡ ok u)

module _ {env : Environment} (a : Answers env) where
  Returns-log : (kind : String) (payload kw : Payload) → Returns env Anything (log kind payload kw)
  unfolding log
  Returns-log kind payload kw =
      Returns-bind (Returns-call (event kind (merge payload kw)) (a.writes kind (merge payload kw)))
        (λ u p. Returns-pure _ tt)

-- The record names the kind of the event that the number drawn here stands for.
abbrev pub HasKind : Environment → Trace → ℕ × Spec → Weighted → Payload → Type 0
HasKind env t s specs rec_ =
    (r : ℕ) × (env (randrange 0 (total (s ∷ specs))) t ≡ ok r)
    × (r < total (s ∷ specs))
    × (lookup "event_kind" rec_ ≡ some (text (kind_of (drawn r s specs))))

lookup-stamp :
    (kind : String) (seconds : ℕ) (rec_ : Payload)
    → lookup "event_kind" (stamp kind seconds rec_) ≡ some (text kind)
unfolding stamp
lookup-stamp kind seconds rec_ =
    lookup-insert "event_seconds" "event_kind" (number seconds) _
    ∙ lookup-insert "event_kind" "event_kind" (text kind) rec_

Returns-run_spec :
    {env : Environment} (lab : Lab) (ctx : Ctx) (e : Spec)
    → Answers env
    → Returns env (λ rec_. lookup "event_kind" rec_ ≡ some (text (kind_of e))) (run_spec lab ctx e)
unfolding run_spec log_error
Returns-run_spec lab ctx e a = Returns-bind (Returns-call monotonic a.clock) λ t0 p0.
    Returns-bind (Returns-except_any (run_event lab ctx e) (λ x. Returns-log a "event_error" [] _))
      λ rec_ p1.
        Returns-bind (Returns-call monotonic a.clock)
          λ t1 p2. Returns-pure _ (lookup-stamp (kind_of e) (t1 - t0) rec_)

-- Whatever an event raises, `run_one` returns a record, and the record names the kind of the event
-- that `draw` returns for the number that is drawn, if the total of the weights is not 0, a draw
-- from a range that is not empty gives a number of the range, and the clock and the writing of the
-- timeline raise nothing.
pub run_one-returns :
    (env : Environment) (lab : Lab) (ctx : Ctx) (s : ℕ × Spec) (specs : Weighted) (t : Trace)
    → Answers env
    → 0 < total (s ∷ specs)
    → (rec_ : Payload) × ((run_one lab ctx s specs env t).0 ≡ ok rec_) × HasKind env t s specs rec_
unfolding run_one draw call ◌>>=◌ pure
run_one-returns env lab ctx s specs t a some_weight =
    let (r, drew, low, high) = a.draws 0 (total (s ∷ specs)) t some_weight in
    let (rec_, returned, kind) =
      (Returns-run_spec lab ctx (drawn r s specs) a).returns
        (randrange 0 (total (s ∷ specs)) ∷ t) in
    (rec_, rw drew returned, (r, drew, high, kind))
