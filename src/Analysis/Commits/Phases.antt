-- ===== src/Analysis/Commits/Phases.antt =====
-- The commits of a fragment are those of its two phases.
use vyos_ixp_bgp_stress.Prelude.{
  ℕ, suc, ◌+◌, ◌≡◌, refl, String, Option, none, some, List, [], ◌∷◌, ◌++◌, arith, if◌then◌else◌,
  str_eq, eq_iff, length, length-append,
}
use vyos_ixp_bgp_stress.Prelude.Dict.{lookup, lookup-insert}
use vyos_ixp_bgp_stress.Analysis.Metrics.{sum}
use vyos_ixp_bgp_stress.Analysis.Commits.{
  Event, policy_churn_applied, policy_churn_reverted, policy_churn_commit_timeout,
  policy_churn_revert_timeout, unrelated, fragment_of, Times, or_empty, append, State, collect,
  collect_all, Latency, latency, latencies, commit_latencies,
}

get : String → Times → List ℕ
get name d = or_empty (lookup name d)

-- What a dictionary has for a fragment is the sum of what two others have for it.
Splits : Times → Times → Times → Type 0
Splits per applies reverts =
    (name : String)
    → (length (get name per) ≡ length (get name applies) + length (get name reverts))
      × (sum (get name per) ≡ sum (get name applies) + sum (get name reverts))

get-append :
    (name frag : String) (s : ℕ) (d : Times)
    → get name (append frag (some s) d)
      ≡ (if str_eq frag name then get name d ++ s ∷ [] else get name d)
unfolding get append
get-append name frag s d =
    ground (arith, lookup-insert frag name (or_empty (lookup frag d) ++ s ∷ []) d, eq_iff frag name)

sum-snoc : (xs : List ℕ) (s : ℕ) → sum (xs ++ s ∷ []) ≡ sum xs + s
unfolding sum
sum-snoc [] s = omega arith
sum-snoc (x ∷ xs) s = omega (arith, sum-snoc xs s)

length-get-append :
    (name frag : String) (s : ℕ) (d : Times)
    → length (get name (append frag (some s) d))
      ≡ (if str_eq frag name then suc (length (get name d)) else length (get name d))
length-get-append name frag s d =
    ground (arith, get-append name frag s d, length-append (get name d) (s ∷ []))

sum-get-append :
    (name frag : String) (s : ℕ) (d : Times)
    → sum (get name (append frag (some s) d))
      ≡ (if str_eq frag name then sum (get name d) + s else sum (get name d))
sum-get-append name frag s d = ground (arith, get-append name frag s d, sum-snoc (get name d) s)

Splits-apply :
    (frag : String) (s : Option ℕ) (per applies reverts : Times)
    → Splits per applies reverts
    → Splits (append frag s per) (append frag s applies) reverts
unfolding Splits append
Splits-apply frag none per applies reverts h name = h name
Splits-apply frag (some s) per applies reverts h name = (
  ground (arith, h name, length-get-append name frag s per, length-get-append name frag s applies),
  ground (arith, h name, sum-get-append name frag s per, sum-get-append name frag s applies),
)

Splits-revert :
    (frag : String) (s : Option ℕ) (per applies reverts : Times)
    → Splits per applies reverts
    → Splits (append frag s per) applies (append frag s reverts)
unfolding Splits append
Splits-revert frag none per applies reverts h name = h name
Splits-revert frag (some s) per applies reverts h name = (
  ground (arith, h name, length-get-append name frag s per, length-get-append name frag s reverts),
  ground (arith, h name, sum-get-append name frag s per, sum-get-append name frag s reverts),
)

Splits-collect :
    (e : Event) (st : State)
    → Splits st.per st.applies st.reverts
    → Splits (collect e st).per (collect e st).applies (collect e st).reverts
unfolding collect
Splits-collect (policy_churn_applied frag s) st h =
    Splits-apply (fragment_of frag) s st.per st.applies st.reverts h
Splits-collect (policy_churn_reverted frag s) st h =
    Splits-revert (fragment_of frag) s st.per st.applies st.reverts h
Splits-collect (policy_churn_commit_timeout frag) st h = h
Splits-collect (policy_churn_revert_timeout frag) st h = h
Splits-collect unrelated st h = h

Splits-collect_all :
    (records : List Event) (st : State)
    → Splits st.per st.applies st.reverts
    → Splits
        (collect_all records st).per
        (collect_all records st).applies
        (collect_all records st).reverts
unfolding collect_all
Splits-collect_all [] st h = h
Splits-collect_all (e ∷ records) st h =
    Splits-collect_all records (collect e st) (Splits-collect e st h)

-- The number and the sum under a key that may be missing.
abbrev pub count_of : Option Latency → ℕ
count_of none = 0
count_of (some l) = l.n

abbrev pub total_of : Option Latency → ℕ
total_of none = 0
total_of (some l) = l.total

count_of-lookup :
    (name : String) (d : Times) → count_of (lookup name (latencies d)) ≡ length (get name d)
unfolding get lookup latencies latency
count_of-lookup name [] = refl
count_of-lookup name ((frag, []) ∷ d) = ground (arith, count_of-lookup name d)
count_of-lookup name ((frag, v ∷ vals) ∷ d) = ground (arith, count_of-lookup name d)

total_of-lookup :
    (name : String) (d : Times) → total_of (lookup name (latencies d)) ≡ sum (get name d)
unfolding get lookup latencies latency sum
total_of-lookup name [] = refl
total_of-lookup name ((frag, []) ∷ d) = ground (arith, total_of-lookup name d)
total_of-lookup name ((frag, v ∷ vals) ∷ d) = ground (arith, total_of-lookup name d)

add_up :
    (name : String) (per applies reverts : Times)
    → Splits per applies reverts
    → (count_of (lookup name (latencies per))
        ≡ count_of (lookup name (latencies applies)) + count_of (lookup name (latencies reverts)))
      × (total_of (lookup name (latencies per))
          ≡ total_of (lookup name (latencies applies)) + total_of (lookup name (latencies reverts)))
unfolding Splits
add_up name per applies reverts h = (
  omega (
    arith,
    (h name).0,
    count_of-lookup name per,
    count_of-lookup name applies,
    count_of-lookup name reverts,
  ),
  omega (
    arith,
    (h name).1,
    total_of-lookup name per,
    total_of-lookup name applies,
    total_of-lookup name reverts,
  ),
)

Splits-nothing : Splits [] [] []
unfolding Splits get lookup sum
Splits-nothing name = (omega arith, omega arith)

-- Of every fragment, the number of commits and their total time are those of its applies and its
-- reverts together, a fragment that a table does not hold counting as none.
pub phases_add_up :
    (records : List Event) (name : String)
    → (count_of (lookup name (commit_latencies records).per_fragment)
        ≡ count_of (lookup name (commit_latencies records).applied)
          + count_of (lookup name (commit_latencies records).reverted))
      × (total_of (lookup name (commit_latencies records).per_fragment)
          ≡ total_of (lookup name (commit_latencies records).applied)
            + total_of (lookup name (commit_latencies records).reverted))
unfolding commit_latencies
phases_add_up records name = add_up name _ _ _ (Splits-collect_all records _ Splits-nothing)
