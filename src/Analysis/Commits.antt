-- ===== src/Analysis/Commits.antt =====
-- `commit_latencies` of analysis/analyze.py. Times are in hundredths of a second, as the events round
-- them; a mean is kept as its sum and its number, and a percentile is times 100. The dictionary
-- `split`, whose keys are a fragment and a phase, is one dictionary for each phase, and the order of
-- the result's keys is not modelled.
pub mod Phases
use vyos_ixp_bgp_stress.Prelude.{
  ℕ, ◌+◌, String, Option, none, some, List, [], ◌∷◌, ◌++◌, or_zero, length, map,
}
use vyos_ixp_bgp_stress.Prelude.Dict.{lookup, insert}
use vyos_ixp_bgp_stress.Analysis.Metrics.{sum, greatest, pct}

-- The records that the function reads, by their `kind`.
pub data Event : Type 0 where
  policy_churn_applied policy_churn_reverted : Option String → Option ℕ → Event
  policy_churn_commit_timeout policy_churn_revert_timeout : Option String → Event
  unrelated : Event

-- `rec.get("fragment", "?")`
abbrev pub fragment_of : Option String → String
fragment_of none = "?"
fragment_of (some frag) = frag

abbrev pub Times : Type 0
Times = List (String × List ℕ)

abbrev pub or_empty : Option (List ℕ) → List ℕ
or_empty none = []
or_empty (some vals) = vals

-- `d.setdefault(frag, []).append(s)`, if `s` is a number.
unfoldable pub append : String → Option ℕ → Times → Times
append frag none d = d
append frag (some s) d = insert frag (or_empty (lookup frag d) ++ s ∷ []) d

pub record State : Type 0 where
  pub per : Times
  pub applies : Times
  pub reverts : Times
  pub timeouts : List String

unfoldable pub collect : Event → State → State
collect (policy_churn_applied frag s) st = record st {
  per = append (fragment_of frag) s st.per;
  applies = append (fragment_of frag) s st.applies;
}
collect (policy_churn_reverted frag s) st = record st {
  per = append (fragment_of frag) s st.per;
  reverts = append (fragment_of frag) s st.reverts;
}
collect (policy_churn_commit_timeout frag) st = record st {
  timeouts = st.timeouts ++ fragment_of frag ∷ [];
}
collect (policy_churn_revert_timeout frag) st = record st {
  timeouts = st.timeouts ++ fragment_of frag ∷ [];
}
collect unrelated st = st

unfoldable pub collect_all : List Event → State → State
collect_all [] st = st
collect_all (rec_ ∷ records) st = collect_all records (collect rec_ st)

pub record Latency : Type 0 where
  pub n : ℕ
  pub total : ℕ
  pub most : ℕ
  pub p95 : ℕ

-- No list of the dictionaries is empty; `statistics.fmean` of one would be an error.
unfoldable pub latency : List ℕ → Latency
latency [] = record { n = 0; total = 0; most = 0; p95 = 0 }
latency (v ∷ vals) = record {
  n = length (v ∷ vals);
  total = sum (v ∷ vals);
  most = greatest v vals;
  p95 = or_zero (pct (v ∷ vals) 95 100);
}

unfoldable pub latencies : Times → List (String × Latency)
latencies [] = []
latencies ((frag, vals) ∷ d) = (frag, latency vals) ∷ latencies d

-- `[v for vals in per.values() for v in vals]`
unfoldable pub all_values : Times → List ℕ
all_values [] = []
all_values ((frag, vals) ∷ d) = vals ++ all_values d

abbrev pub overall_of : List ℕ → Option Latency
overall_of [] = none
overall_of (v ∷ vals) = some (latency (v ∷ vals))

pub record Report : Type 0 where
  pub timeouts : List String
  pub per_fragment : List (String × Latency)
  pub applied : List (String × Latency)
  pub reverted : List (String × Latency)
  pub overall : Option Latency

unfoldable pub commit_latencies : List Event → Report
commit_latencies records =
    let st = collect_all records (record { per = []; applies = []; reverts = []; timeouts = [] }) in
    record {
      timeouts = st.timeouts;
      per_fragment = latencies st.per;
      applied = latencies st.applies;
      reverted = latencies st.reverts;
      overall = overall_of (all_values st.per);
    }
