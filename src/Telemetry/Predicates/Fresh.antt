-- ===== src/Telemetry/Predicates/Fresh.antt =====
-- What `check_new` passes on: each key once in a run, and every key that `check` found.
use mathlib.Core.List.{map-append}
use vyos_ixp_bgp_stress.Prelude.{
  ℕ, ◌≡◌, refl, ◌∙◌, Bool, not, ◌&&◌, Option, String, true, false, ◌||◌, inl, inr, List, [], ◌∷◌,
  ◌++◌, map, All, arith, Bool-cases,
}
use vyos_ixp_bgp_stress.Prelude.Keys.{
  mem, Distinct, same-mem, mem-same, mem_head, Distinct-append, mem-append,
}
use vyos_ixp_bgp_stress.Telemetry.Sample.{Rec, Process, Dplane}
use vyos_ixp_bgp_stress.Telemetry.Violation.{Violation, Key, key, Key-discrete, Budgets}
use vyos_ixp_bgp_stress.Telemetry.Predicates.{
  Predicates, init, check, check_new, fresh, judge, note_watchdog, daemon_pid, daemon_restarts,
  restart_seen, dplane_faults,
}

abbrev pub known : Key → List Key → Bool
known = mem Key-discrete

-- A property of all violations passes to the fresh ones.
pub All-fresh :
    (P : Violation → Type 0) (seen : List Key) (vs : List Violation)
    → All P vs
    → All P (fresh seen vs).0
unfolding fresh
All-fresh P seen [] h = tt
All-fresh P seen (v ∷ vs) h = elim (Bool-cases (known (key v) seen)) [
  | inl old ↦ rw old (All-fresh P seen vs h.1)
  | inr new ↦ rw new (h.0, All-fresh P (key v ∷ seen) vs h.1)
]

fresh-seen :
    (k : Key) (seen : List Key) (vs : List Violation)
    → known k (fresh seen vs).1 ≡ (known k seen || known k (map key vs))
unfolding fresh mem
fresh-seen k seen [] = ground arith
fresh-seen k seen (v ∷ vs) = ground (
  arith,
  fresh-seen k seen vs,
  fresh-seen k (key v ∷ seen) vs,
  same-mem Key-discrete k (key v) seen,
)

fresh-keys :
    (k : Key) (seen : List Key) (vs : List Violation)
    → known k (map key (fresh seen vs).0) ≡ (known k (map key vs) && not (known k seen))
unfolding fresh mem
fresh-keys k seen [] = ground arith
fresh-keys k seen (v ∷ vs) = ground (
  arith,
  fresh-keys k seen vs,
  fresh-keys k (key v ∷ seen) vs,
  same-mem Key-discrete k (key v) seen,
  mem-same Key-discrete k (key v) seen,
)

fresh-Distinct :
    (seen : List Key) (vs : List Violation) → Distinct Key-discrete (map key (fresh seen vs).0)
unfolding fresh
fresh-Distinct seen [] = tt
fresh-Distinct seen (v ∷ vs) = elim (Bool-cases (known (key v) seen)) [
  | inl old ↦ rw old (fresh-Distinct seen vs)
  | inr new ↦ rw new (
    rw (fresh-keys (key v) (key v ∷ seen) vs, mem_head Key-discrete (key v) seen) (ground arith),
    fresh-Distinct (key v ∷ seen) vs,
  )
]

-- `check` leaves the reported keys alone.
seen-daemon_pid :
    (s : Predicates) (r : Rec) (name : String) (pid : Option ℕ)
    → (daemon_pid s r name pid).1.seen ≡ s.seen
unfolding restart_seen
seen-daemon_pid s r name pid = ground arith

seen-daemon_restarts :
    (s : Predicates) (r : Rec) (proc : List (String × Process))
    → (daemon_restarts s r proc).1.seen ≡ s.seen
unfolding daemon_restarts
seen-daemon_restarts s r [] = refl
seen-daemon_restarts s r ((name, p) ∷ rest) =
    seen-daemon_restarts (daemon_pid s r name p.pid).1 r rest ∙ seen-daemon_pid s r name p.pid

seen-dplane_faults : (s : Predicates) (dp : Dplane) → (dplane_faults s dp).1.seen ≡ s.seen
unfolding dplane_faults
seen-dplane_faults s dp = ground arith

seen-judge : (s : Predicates) (now : ℕ) (r : Rec) → (judge s now r).1.seen ≡ s.seen
unfolding judge
seen-judge s now r =
    seen-dplane_faults (daemon_restarts s r r.proc).1 r.dplane ∙ seen-daemon_restarts s r r.proc

seen-check : (s : Predicates) (now : ℕ) (r : Rec) → (check s now r).1.seen ≡ s.seen
unfolding check note_watchdog
seen-check s now r =
    ground (arith, seen-judge s now r, seen-judge (record s { unresponsive_at = r.t }) now r)

-- A run of `check_new` over samples, oldest first, each with the clock at its check.
unfoldable pub run : Predicates → List (ℕ × Rec) → List Violation × Predicates
run s [] = ([], s)
run s ((now, r) ∷ rest) =
    let (out, s1) = check_new s now r in let (more, s2) = run s1 rest in (out ++ more, s2)

-- Everything that `check` found in the same run.
unfoldable pub found : Predicates → List (ℕ × Rec) → List Violation
found s [] = []
found s ((now, r) ∷ rest) = (check s now r).0 ++ found (check_new s now r).1 rest

seen-check_new :
    (k : Key) (s : Predicates) (now : ℕ) (r : Rec)
    → known k (check_new s now r).1.seen ≡ (known k s.seen || known k (map key (check s now r).0))
unfolding check_new
seen-check_new k s now r =
    rw (fresh-seen k (check s now r).1.seen (check s now r).0, seen-check s now r)

known-check_new :
    (k : Key) (s : Predicates) (now : ℕ) (r : Rec)
    → known k (map key (check_new s now r).0)
      ≡ (known k (map key (check s now r).0) && not (known k s.seen))
unfolding check_new
known-check_new k s now r =
    rw (fresh-keys k (check s now r).1.seen (check s now r).0, seen-check s now r)

known-append :
    (k : Key) (xs ys : List Violation)
    → known k (map key (xs ++ ys)) ≡ (known k (map key xs) || known k (map key ys))
known-append k xs ys =
    rw (map-append key xs ys) (mem-append Key-discrete k (map key xs) (map key ys))

known-run :
    (k : Key) (s : Predicates) (rs : List (ℕ × Rec))
    → known k (map key (run s rs).0) ≡ (known k (map key (found s rs)) && not (known k s.seen))
unfolding run found mem
known-run k s [] = ground arith
known-run k s ((now, r) ∷ rest) = ground (
  arith,
  known-append k (check_new s now r).0 (run (check_new s now r).1 rest).0,
  known-append k (check s now r).0 (found (check_new s now r).1 rest),
  known-check_new k s now r,
  seen-check_new k s now r,
  known-run k (check_new s now r).1 rest,
)

new_then_not :
    (k : Key) (s : Predicates) (now : ℕ) (r : Rec) (rest : List (ℕ × Rec))
    → known k (map key (check_new s now r).0) ≡ true
    → known k (map key (run (check_new s now r).1 rest).0) ≡ false
new_then_not k s now r rest h = ground (
  arith,
  known-check_new k s now r,
  seen-check_new k s now r,
  known-run k (check_new s now r).1 rest,
)

check_new-Distinct :
    (s : Predicates) (now : ℕ) (r : Rec) → Distinct Key-discrete (map key (check_new s now r).0)
unfolding check_new
check_new-Distinct s now r = fresh-Distinct (check s now r).1.seen (check s now r).0

run-Distinct : (s : Predicates) (rs : List (ℕ × Rec)) → Distinct Key-discrete (map key (run s rs).0)
unfolding run
run-Distinct s [] = tt
run-Distinct s ((now, r) ∷ rest) =
    rw (map-append key (check_new s now r).0 (run (check_new s now r).1 rest).0) (
      Distinct-append Key-discrete (map key (check_new s now r).0)
        (map key (run (check_new s now r).1 rest).0) (check_new-Distinct s now r)
        (run-Distinct (check_new s now r).1 rest) (λ k. new_then_not k s now r rest))

-- Over any run from a fresh predicate set, whatever the samples and the clock: no two violations
-- that `check_new` reports have the same (code, severity, dedup), and the keys that it reports are
-- exactly the keys of the violations that `check` finds in the run.
pub run_reports_each_key_once :
    (b : Budgets) (rs : List (ℕ × Rec))
    → Distinct Key-discrete (map key (run (init b) rs).0)
      × ((k : Key)
          → mem Key-discrete k (map key (run (init b) rs).0)
            ≡ mem Key-discrete k (map key (found (init b) rs)))
unfolding init mem
run_reports_each_key_once b rs =
    (run-Distinct (init b) rs, λ k. ground (arith, known-run k (init b) rs))
