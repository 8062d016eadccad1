-- ===== src/Scenarios/Brackets.antt =====
-- Calls that open something and calls that close it again, in the trace of a program.
use vyos_ixp_bgp_stress.Prelude.{
  ◌≡◌, ◌∙◌, refl, ap, Bool, true, false, Option, none, some, List, [], ◌∷◌, if◌then◌else◌,
}
use vyos_ixp_bgp_stress.Scenarios.Calls.{
  Call, Answer, Exception, Outcome, ok, raised, Trace, Environment, Io, call, note, pure, raise,
  ◌>>=◌, ◌>>◌, continue, then_again, try_finally, except_timeout, on_timeout, except_any,
  on_exception, each, collect, value_error, commit_timeout, unexpected, Name, walk_offset,
}

-- Whether the newest call that opens or closes opens.
abbrev pub Marks : Type 0
Marks = Call → Option Bool

unfoldable pub is_open : Marks → Trace → Bool
is_open marks [] = false
is_open marks (c ∷ t) = elim (marks c) [ none ↦ is_open marks t | some b ↦ b ]

-- In the environment the program neither opens nor closes.
pub record Quiet (marks : Marks) (env : Environment) {A : Type 0} (m : Io A) : Type 0 where
  pub quiet : (t : Trace) → is_open marks (m env t).1 ≡ is_open marks t

-- However it ends in the environment, what was closed is closed afterwards.
pub record Keeps (marks : Marks) (env : Environment) {A : Type 0} (m : Io A) : Type 0 where
  pub keeps : (t : Trace) → is_open marks t ≡ false → is_open marks (m env t).1 ≡ false

-- However it ends, it leaves everything closed.
pub record Closes (marks : Marks) (env : Environment) {A : Type 0} (m : Io A) : Type 0 where
  pub closes : (t : Trace) → is_open marks (m env t).1 ≡ false

then_again_trace :
    {A B : Type 0} (first : Outcome A) (r : Outcome B × Trace) → (then_again first r).1 ≡ r.1
then_again_trace first (ok b, t) = refl
then_again_trace first (raised e, t) = refl

module _ {marks : Marks} {env : Environment} where
  pub Quiet-call : (c : Call) → marks c ≡ none → Quiet marks env (call c)
  unfolding call is_open
  Quiet-call c e = record { quiet = λ t. rw e refl }

  pub Quiet-note : (c : Call) → marks c ≡ none → Quiet marks env (note c)
  unfolding note is_open
  Quiet-note c e = record { quiet = λ t. rw e refl }

  pub Closes-note : (c : Call) → marks c ≡ some false → Closes marks env (note c)
  unfolding note is_open
  Closes-note c e = record { closes = λ t. rw e refl }

  pub Closes-call : (c : Call) → marks c ≡ some false → Closes marks env (call c)
  unfolding call is_open
  Closes-call c e = record { closes = λ t. rw e refl }

  pub Quiet-walk_offset : (sid : Name) → Quiet marks env (walk_offset sid)
  unfolding walk_offset
  Quiet-walk_offset sid = record { quiet = λ t. refl }

  module _ {A : Type 0} where
    pub Quiet-pure : (a : A) → Quiet marks env (pure a)
    unfolding pure
    Quiet-pure a = record { quiet = λ t. refl }

    pub Quiet-raise : (e : Exception) → Quiet marks env (raise {A = A} e)
    unfolding raise
    Quiet-raise e = record { quiet = λ t. refl }

    pub Keeps-of_Quiet : (m : Io A) → Quiet marks env m → Keeps marks env m
    Keeps-of_Quiet m q = record { keeps = λ t closed. q.quiet t ∙ closed }

    pub Keeps-of_Closes : (m : Io A) → Closes marks env m → Keeps marks env m
    Keeps-of_Closes m c = record { keeps = λ t closed. c.closes t }

  module _ {A B : Type 0} where
    continue-Quiet :
        (k : A → Io B) (r : Outcome A × Trace)
        → ((a : A) → Quiet marks env (k a))
        → is_open marks (continue k env r).1 ≡ is_open marks r.1
    continue-Quiet k (ok a, t) q = (q a).quiet t
    continue-Quiet k (raised e, t) q = refl

    continue-Keeps :
        (k : A → Io B) (r : Outcome A × Trace)
        → ((a : A) → Keeps marks env (k a))
        → is_open marks r.1 ≡ false
        → is_open marks (continue k env r).1 ≡ false
    continue-Keeps k (ok a, t) q closed = (q a).keeps t closed
    continue-Keeps k (raised e, t) q closed = closed

    pub Quiet-bind :
        {m : Io A} {k : A → Io B}
        → Quiet marks env m
        → ((a : A) → Quiet marks env (k a))
        → Quiet marks env (m >>= k)
    unfolding ◌>>=◌
    Quiet-bind {m} {k} qm qk = record { quiet = λ t. continue-Quiet k (m env t) qk ∙ qm.quiet t }

    pub Keeps-bind :
        {m : Io A} {k : A → Io B}
        → Keeps marks env m
        → ((a : A) → Keeps marks env (k a))
        → Keeps marks env (m >>= k)
    unfolding ◌>>=◌
    Keeps-bind {m} {k} qm qk = record {
      keeps = λ t closed. continue-Keeps k (m env t) qk (qm.keeps t closed);
    }

    pub Closes-bind :
        {m : Io A} {k : A → Io B}
        → Closes marks env m
        → ((a : A) → Keeps marks env (k a))
        → Closes marks env (m >>= k)
    unfolding ◌>>=◌
    Closes-bind {m} {k} cm qk = record { closes = λ t. continue-Keeps k (m env t) qk (cm.closes t) }

    -- A `finally` that closes does so whatever the body did.
    pub Closes-finally :
        (body : Io A) (last : Io B)
        → Closes marks env last
        → Closes marks env (try_finally body last)
    unfolding try_finally
    Closes-finally body last c = record {
      closes = λ t. ap (is_open marks) (then_again_trace _ _) ∙ c.closes (body env t).1;
    }

    pub Quiet-finally :
        {body : Io A} {last : Io B}
        → Quiet marks env body
        → Quiet marks env last
        → Quiet marks env (try_finally body last)
    unfolding try_finally
    Quiet-finally {body} {last} qb ql = record {
      quiet = λ t. ap (is_open marks) (then_again_trace _ _) ∙ ql.quiet (body env t).1 ∙ qb.quiet t;
    }

  module _ {B : Type 0} where
    -- A step that raises nothing, before one that closes.
    pub Closes-note_then :
        (c : Call) (n : Io B) → Closes marks env n → Closes marks env (note c >> n)
    unfolding ◌>>=◌ note
    Closes-note_then c n h = record { closes = λ t. h.closes (c ∷ t) }

    -- A call that does not raise, before what closes.
    pub Closes-answered :
        (c : Call) (k : Answer c → Io B)
        → ((t : Trace) → (a : Answer c) × (env c t ≡ ok a))
        → ((a : Answer c) → Closes marks env (k a))
        → Closes marks env (call c >>= k)
    unfolding ◌>>=◌ call
    Closes-answered c k answers h = record {
      closes = λ t. let (a, e) = answers t in rw e ((h a).closes (c ∷ t));
    }

  module _ {A : Type 0} where
    on_timeout-Quiet :
        (handler : Io A) (r : Outcome A × Trace)
        → Quiet marks env handler
        → is_open marks (on_timeout handler env r).1 ≡ is_open marks r.1
    on_timeout-Quiet handler (ok a, t) q = refl
    on_timeout-Quiet handler (raised commit_timeout, t) q = q.quiet t
    on_timeout-Quiet handler (raised value_error, t) q = refl
    on_timeout-Quiet handler (raised unexpected, t) q = refl

    pub Quiet-except_timeout :
        {body handler : Io A}
        → Quiet marks env body
        → Quiet marks env handler
        → Quiet marks env (except_timeout body handler)
    unfolding except_timeout
    Quiet-except_timeout {body} {handler} qb qh = record {
      quiet = λ t. on_timeout-Quiet handler (body env t) qh ∙ qb.quiet t;
    }

    pub Closes-except_timeout :
        {body handler : Io A}
        → Closes marks env body
        → Quiet marks env handler
        → Closes marks env (except_timeout body handler)
    unfolding except_timeout
    Closes-except_timeout {body} {handler} cb qh = record {
      closes = λ t. on_timeout-Quiet handler (body env t) qh ∙ cb.closes t;
    }

    on_exception-Keeps :
        (handler : Exception → Io A) (r : Outcome A × Trace)
        → ((e : Exception) → Keeps marks env (handler e))
        → is_open marks r.1 ≡ false
        → is_open marks (on_exception handler env r).1 ≡ false
    on_exception-Keeps handler (ok a, t) q closed = closed
    on_exception-Keeps handler (raised e, t) q closed = (q e).keeps t closed

    pub Keeps-except_any :
        {body : Io A} {handler : Exception → Io A}
        → Keeps marks env body
        → ((e : Exception) → Keeps marks env (handler e))
        → Keeps marks env (except_any body handler)
    unfolding except_any
    Keeps-except_any {body} {handler} kb kh = record {
      keeps = λ t closed. on_exception-Keeps handler (body env t) kh (kb.keeps t closed);
    }

    pub Quiet-if :
        (b : Bool) {m n : Io A}
        → Quiet marks env m
        → Quiet marks env n
        → Quiet marks env (if b then m else n)
    Quiet-if true qm qn = qm
    Quiet-if false qm qn = qn

    pub Keeps-if :
        (b : Bool) {m n : Io A}
        → Keeps marks env m
        → Keeps marks env n
        → Keeps marks env (if b then m else n)
    Keeps-if true qm qn = qm
    Keeps-if false qm qn = qn

    pub Quiet-each :
        (xs : List A) (f : A → Io (Unit {0}))
        → ((x : A) → Quiet marks env (f x))
        → Quiet marks env (each xs f)
    unfolding each
    Quiet-each [] f q = Quiet-pure tt
    Quiet-each (x ∷ xs) f q = Quiet-bind (q x) (λ _. Quiet-each xs f q)

    pub Quiet-collect :
        {B : Type 0} (xs : List A) (f : A → Io B)
        → ((x : A) → Quiet marks env (f x))
        → Quiet marks env (collect xs f)
    unfolding collect
    Quiet-collect [] f q = Quiet-pure []
    Quiet-collect (x ∷ xs) f q =
        Quiet-bind (q x) (λ y. Quiet-bind (Quiet-collect xs f q) (λ ys. Quiet-pure (y ∷ ys)))
