-- ===== src/Runner/Ramp/Waves.antt =====
-- The sessions and the cap of each step of `cmd_ramp` of harness/runner.py.
use vyos_ixp_bgp_stress.Prelude.{
  ℕ, zero, suc, ◌+◌, ◌*◌, ◌≤◌, ◌≡◌, ◌∙◌, refl, sym, ap, subst, Bool, true, false, not, Option, none,
  some, List, [], ◌∷◌, ◌++◌, arith, min, length, length-append, take, drop, Bool-cases, inl, inr,
  if◌then◌else◌,
}
use vyos_ixp_bgp_stress.Inventory.Profile.{Session}
use vyos_ixp_bgp_stress.Runner.{expected_session_counts}
use vyos_ixp_bgp_stress.Runner.Ramp.{
  ended, predicate_failed, convergence_budget_exceeded, Stop, keyboard_interrupt, other_exception,
  Reply, stopped, measured, Row, Outcome, on_exception, has_hard, judge_step, row_of, ramp_step,
  Ramp, extend_started, is_empty, ramp_loop, ramp,
}

-- The sessions of step `k`.
abbrev pub first_sessions : Ramp → ℕ → List Session
first_sessions r k = take (k * r.step_peers) r.ordered

-- The rows are those of the steps `k`, `suc k` and so on: each one's sessions are the first
-- `step_peers` times its number, or all, and its cap is `step_prefixes` times its number.
abbrev pub Waves : Ramp → ℕ → List Row → Type 0
Waves r k [] = Unit
Waves r k (row ∷ rows) =
    (row.step ≡ k)
    × (row.sessions ≡ min (k * r.step_peers) (length r.ordered))
    × (row.expected ≡ expected_session_counts (first_sessions r k))
    × (row.prefix_cap ≡ r.step_prefixes * k)
    × Waves r (suc k) rows

length-take : (n : ℕ) (xs : List Session) → length (take n xs) ≡ min n (length xs)
length-take zero xs = omega arith
length-take (suc n) [] = omega arith
length-take (suc n) (x ∷ xs) = omega (arith, length-take n xs)

abbrev no_more : List Session
no_more = []

take_nil : (n : ℕ) → take n no_more ≡ []
take_nil zero = refl
take_nil (suc n) = refl

take_more :
    (m p : ℕ) (xs : List Session)
    → take m xs ++ take p (drop (length (take m xs)) xs) ≡ take (m + p) xs
take_more zero p xs = ap (λ n. take n xs) (omega arith)
take_more (suc m) p [] = take_nil p ∙ sym (take_nil (suc m + p))
take_more (suc m) p (x ∷ xs) =
    ap (◌∷◌ x) (take_more m p xs) ∙ ap (λ n. take n (x ∷ xs)) (the_sum m p)
  where
    the_sum : (a b : ℕ) → suc (a + b) ≡ suc a + b
    the_sum a b = omega arith

Waves-append :
    (r : Ramp) (k : ℕ) (rows new : List Row)
    → Waves r k rows
    → Waves r (k + length rows) new
    → Waves r k (rows ++ new)
Waves-append r k [] new h h' = subst (λ m. Waves r m new) (omega arith) h'
Waves-append r k (row ∷ rows) new h h' = (
  h.0,
  h.1,
  h.2,
  h.3,
  Waves-append r (suc k) rows new h.4 (subst (λ m. Waves r m new) (omega arith) h'),
)

-- The rows of a loop that has run `j` steps, with at most `bound` when it ends.
abbrev Runs : Ramp → ℕ → List Row → Type 0
Runs r bound rows = Waves r 1 rows × (length rows ≤ bound)

on_exception_steps : (stop : Stop) (steps : List Row) → (on_exception stop steps).steps ≡ steps
unfolding on_exception
on_exception_steps keyboard_interrupt steps = refl
on_exception_steps other_exception steps = refl

judge_step-Runs :
    (r : Ramp) (bound : ℕ) (row : Row) (stop : Option Stop) (steps : List Row) (go_on : Outcome)
    → Runs r bound steps
    → Runs r bound go_on.steps
    → Runs r bound (judge_step row stop steps go_on).steps
unfolding judge_step
judge_step-Runs r bound row (some stop) steps go_on h k = rw (on_exception_steps stop steps) h
judge_step-Runs r bound row none steps go_on h k = by_tests (has_hard row.violations) row.converged
  where
    by_tests :
        (hard ok : Bool)
        → Runs r bound
            (if hard
              then ended steps predicate_failed
              else (if not ok then ended steps convergence_budget_exceeded else go_on)).steps
    by_tests true ok = h
    by_tests false true = k
    by_tests false false = h

extend_started-first :
    (r : Ramp) (j : ℕ) → extend_started r (first_sessions r j) ≡ first_sessions r (suc j)
unfolding extend_started
extend_started-first r j =
    take_more (j * r.step_peers) r.step_peers r.ordered ∙ ap (λ m. take m r.ordered) (omega arith)

ramp_step-Runs :
    (r : Ramp) (bound j : ℕ) (steps : List Row) (reply : Reply) (go_on : List Row → Outcome)
    → length steps ≡ j
    → suc j ≤ bound
    → Waves r 1 steps
    → ((rows : List Row) → length rows ≡ suc j → Waves r 1 rows → Runs r bound (go_on rows).steps)
    → Runs r bound
        (ramp_step
          (suc j)
          (first_sessions r (suc j))
          (r.step_prefixes * suc j)
          steps
          reply
          go_on).steps
unfolding ramp_step
ramp_step-Runs r bound j steps (stopped stop) go_on len room h k =
    rw (on_exception_steps stop steps) (h, omega (arith, len, room))
ramp_step-Runs r bound j steps (measured m stop) go_on len room h k =
    let row : Row = row_of (suc j) (first_sessions r (suc j)) (r.step_prefixes * suc j) m in
    let longer : length (steps ++ row ∷ []) ≡ suc j =
      length-append steps (row ∷ []) ∙ omega (arith, len) in
    let waves : Waves r 1 (steps ++ row ∷ []) = Waves-append r 1 steps (row ∷ []) h (
      subst (λ k'. Waves r k' (row ∷ [])) (omega (arith, len))
        (refl, length-take (suc j * r.step_peers) r.ordered, refl, refl, tt)) in
    judge_step-Runs r bound row stop _ _ (waves, rw longer room) (k _ longer waves)

ramp_loop-Runs :
    (r : Ramp) (n j : ℕ) (steps : List Row)
    → length steps ≡ j
    → Waves r 1 steps
    → Runs r (j + n) (ramp_loop r n (suc j) (first_sessions r j) steps).steps
unfolding ramp_loop
ramp_loop-Runs r zero j steps len h = (h, omega (arith, len))
ramp_loop-Runs r (suc n) j steps len h =
    rw (extend_started-first r j) (elim (Bool-cases (is_empty (first_sessions r (suc j)))) [
      | inl none_there ↦ rw none_there (h, omega (arith, len))
      | inr some_there ↦ rw some_there (
          ramp_step-Runs r (j + suc n) j steps _ _ len (omega arith) h
            (λ rows len' h'. more_room rows (ramp_loop-Runs r n (suc j) rows len' h')))
    ])
  where
    more_room :
        (rows : List Row)
        → Runs r (suc j + n) (ramp_loop r n (suc (suc j)) (first_sessions r (suc j)) rows).steps
        → Runs r (j + suc n) (ramp_loop r n (suc (suc j)) (first_sessions r (suc j)) rows).steps
    more_room rows h' = (h'.0, omega (arith, h'.1))

-- Whatever the lab answers, the rows of a ramp are at most `max_steps`, and each one is numbered by
-- its place. Step `k` has the first `k` times `step_peers` sessions of the order, or all, expects the
-- counts of these, and has the cap `k` times `step_prefixes`.
pub ramp-Waves :
    (r : Ramp) (max_steps : ℕ)
    → Waves r 1 (ramp r max_steps).steps × (length (ramp r max_steps).steps ≤ max_steps)
unfolding ramp
ramp-Waves r max_steps =
    let none_yet : 0 * r.step_peers ≡ 0 = omega arith in
    let runs : Runs r (0 + max_steps) (ramp_loop r max_steps 1 [] []).steps =
      subst (λ started. Runs r (0 + max_steps) (ramp_loop r max_steps 1 started []).steps)
        (ap (λ n. take n r.ordered) none_yet) (ramp_loop-Runs r max_steps 0 [] refl tt) in
    (runs.0, omega (arith, runs.1))
