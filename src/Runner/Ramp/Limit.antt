-- ===== src/Runner/Ramp/Limit.antt =====
-- The good steps of `cmd_ramp` of harness/runner.py, and the last of them.
use vyos_ixp_bgp_stress.Prelude.{
  ℕ, zero, suc, ◌<◌, ◌≡◌, ◌∙◌, refl, sym, ap, Bool, true, false, not, ◌&&◌, Option, none, some,
  List, [], ◌∷◌, ◌++◌, lt→ltb, length, Bool-cases, inl, inr, All, All-append, if◌then◌else◌,
}
use vyos_ixp_bgp_stress.Inventory.Profile.{Session}
use vyos_ixp_bgp_stress.Runner.Ramp.{
  Verdict, completed_all_steps, no_sessions, predicate_failed, convergence_budget_exceeded,
  interrupted, Stop, keyboard_interrupt, other_exception, Reply, stopped, measured, Row, Outcome,
  ended, on_exception, has_hard, judge_step, row_of, ramp_step, Ramp, extend_started, is_empty,
  ramp_loop, ramp, last_row, last_but_one, last_good_step,
}

-- A step that converged with no violation of severity `fail`.
unfoldable pub good : Row → Bool
good row = row.converged && not (has_hard row.violations)

abbrev pub Good : Row → Type 0
Good row = good row ≡ true

unfoldable pub good_rows : List Row → List Row
good_rows [] = []
good_rows (row ∷ rows) = let kept = good_rows rows in if good row then row ∷ kept else kept

-- The rows are good ones and then one that is not.
abbrev pub OneBad : List Row → Type 0
OneBad rows =
    (kept : List Row) × (bad : Row) × (rows ≡ kept ++ bad ∷ []) × All Good kept × (good bad ≡ false)

-- What the rows are by the verdict and whether an exception goes on.
abbrev pub Shape : Verdict → Bool → List Row → Type 0
Shape completed_all_steps false rows = All Good rows
Shape completed_all_steps true rows = Unit
Shape no_sessions propagates rows = rows ≡ []
Shape predicate_failed propagates rows = OneBad rows
Shape convergence_budget_exceeded propagates rows = OneBad rows
Shape interrupted propagates rows = Unit

abbrev pub Shaped : Outcome → Type 0
Shaped o = Shape o.verdict o.propagates o.steps

-- The loop came to its end, or a step after the first one was the limit.
abbrev pub Ends : Verdict → Bool → List Row → Type 0
Ends completed_all_steps propagates rows = propagates ≡ false
Ends no_sessions propagates rows = Unit
Ends predicate_failed propagates rows = 1 < length rows
Ends convergence_budget_exceeded propagates rows = 1 < length rows
Ends interrupted propagates rows = ⊥

on_exception-Shaped : (stop : Stop) (steps : List Row) → Shaped (on_exception stop steps)
unfolding on_exception
on_exception-Shaped keyboard_interrupt steps = tt
on_exception-Shaped other_exception steps = tt

hard_is_bad : (row : Row) → has_hard row.violations ≡ true → good row ≡ false
unfolding good
hard_is_bad row hard = rw hard (and_false row.converged)
  where
    and_false : (b : Bool) → (b && false) ≡ false
    and_false true = refl
    and_false false = refl

slow_is_bad : (row : Row) → row.converged ≡ false → good row ≡ false
unfolding good
slow_is_bad row slow = rw slow refl

soft_is_Good : (row : Row) → has_hard row.violations ≡ false → row.converged ≡ true → Good row
unfolding good
soft_is_Good row soft ok = rw soft (rw ok refl)

judge_step-Shaped :
    (row : Row) (stop : Option Stop) (steps : List Row) (go_on : Outcome)
    → All Good steps
    → (All Good (steps ++ row ∷ []) → Shaped go_on)
    → Shaped (judge_step row stop (steps ++ row ∷ []) go_on)
unfolding judge_step
judge_step-Shaped row (some stop) steps go_on h k = on_exception-Shaped stop (steps ++ row ∷ [])
judge_step-Shaped row none steps go_on h k = elim (Bool-cases (has_hard row.violations)) [
  | inl hard ↦ rw hard (steps, row, refl, h, hard_is_bad row hard)
  | inr soft ↦ rw soft (by_converged soft row.converged refl)
]
  where
    by_converged :
        has_hard row.violations ≡ false
        → (b : Bool) → row.converged ≡ b
        → Shaped (if not b then ended (steps ++ row ∷ []) convergence_budget_exceeded else go_on)
    by_converged soft true ok =
        k (All-append Good steps (row ∷ []) h (soft_is_Good row soft ok, tt))
    by_converged soft false slow = (steps, row, refl, h, slow_is_bad row slow)

ramp_step-Shaped :
    (i : ℕ) (all : List Session) (cap : ℕ) (steps : List Row) (reply : Reply)
    (go_on : List Row → Outcome)
    → All Good steps
    → ((rows : List Row) → All Good rows → Shaped (go_on rows))
    → Shaped (ramp_step i all cap steps reply go_on)
unfolding ramp_step
ramp_step-Shaped i all cap steps (stopped stop) go_on h k = on_exception-Shaped stop steps
ramp_step-Shaped i all cap steps (measured m stop) go_on h k =
    judge_step-Shaped (row_of i all cap m) stop steps _ h (k _)

is_empty-append :
    (started new : List Session) → is_empty (started ++ new) ≡ true → is_empty started ≡ true
is_empty-append [] new h = refl
is_empty-append (s ∷ started) new h = h

ramp_loop-Shaped :
    (r : Ramp) (n i : ℕ) (started : List Session) (steps : List Row)
    → All Good steps
    → (is_empty started ≡ true → steps ≡ [])
    → Shaped (ramp_loop r n i started steps)
unfolding ramp_loop extend_started
ramp_loop-Shaped r zero i started steps h fresh = h
ramp_loop-Shaped r (suc n) i started steps h fresh =
    elim (Bool-cases (is_empty (extend_started r started))) [
      | inl none_there ↦ rw none_there (fresh (is_empty-append started _ none_there))
      | inr some_there ↦ rw some_there (
          ramp_step-Shaped i _ _ steps _ _ h (λ rows good_so_far.
            ramp_loop-Shaped r n (suc i) (extend_started r started) rows good_so_far
              (λ none_there. absurd (false_not_true (sym some_there ∙ none_there)))))
    ]
  where
    false_not_true : ¬ (false ≡ true)
    false_not_true e = cc

good_rows_all : (rows : List Row) → All Good rows → good_rows rows ≡ rows
unfolding good_rows
good_rows_all [] h = refl
good_rows_all (row ∷ rows) h = rw (h.0) (ap (◌∷◌ row) (good_rows_all rows h.1))

good_rows_but_last :
    (kept : List Row) (bad : Row)
    → All Good kept
    → good bad ≡ false
    → good_rows (kept ++ bad ∷ []) ≡ kept
unfolding good_rows
good_rows_but_last [] bad h b = rw b refl
good_rows_but_last (row ∷ kept) bad h b =
    rw (h.0) (ap (◌∷◌ row) (good_rows_but_last kept bad h.1 b))

last_but_one-append :
    (kept : List Row) (bad : Row) → last_but_one (kept ++ bad ∷ []) ≡ last_row kept
unfolding last_but_one last_row
last_but_one-append [] bad = refl
last_but_one-append (a ∷ []) bad = refl
last_but_one-append (a ∷ b ∷ []) bad = refl
last_but_one-append (a ∷ b ∷ c ∷ kept) bad = last_but_one-append (b ∷ c ∷ kept) bad

limit_is_before : (rows : List Row) → OneBad rows → last_but_one rows ≡ last_row (good_rows rows)
limit_is_before rows (kept, bad, e, h, b) =
    rw e (last_but_one-append kept bad ∙ ap last_row (sym (good_rows_but_last kept bad h b)))

last_good_lem :
    (verdict : Verdict) (propagates : Bool) (rows : List Row)
    → Shape verdict propagates rows
    → Ends verdict propagates rows
    → last_good_step verdict rows ≡ last_row (good_rows rows)
unfolding last_good_step good_rows
last_good_lem completed_all_steps false rows h e = ap last_row (sym (good_rows_all rows h))
last_good_lem completed_all_steps true rows h e = cc
last_good_lem no_sessions propagates rows h e = rw h refl
last_good_lem predicate_failed propagates rows h e =
    rw (lt→ltb 1 (length rows) e) (limit_is_before rows h)
last_good_lem convergence_budget_exceeded propagates rows h e =
    rw (lt→ltb 1 (length rows) e) (limit_is_before rows h)
last_good_lem interrupted propagates rows h e = absurd e

-- The summary of a ramp that came to its end, or that stopped at a limit after its first step, gives
-- as its last good step the last of the steps that converged without a violation that fails.
pub last_good_step-last_row :
    (r : Ramp) (max_steps : ℕ)
    → Ends (ramp r max_steps).verdict (ramp r max_steps).propagates (ramp r max_steps).steps
    → last_good_step (ramp r max_steps).verdict (ramp r max_steps).steps
      ≡ last_row (good_rows (ramp r max_steps).steps)
unfolding ramp
last_good_step-last_row r max_steps e =
    last_good_lem _ _ _ (ramp_loop-Shaped r max_steps 1 [] [] tt (λ _. refl)) e
