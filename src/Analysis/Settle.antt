-- ===== src/Analysis/Settle.antt =====
-- `_settle_after` of analysis/analyze.py: when the tables stop moving after a given time. Times are
-- milliseconds; the rounding of the result to two decimals is not made.
pub mod History
use vyos_ixp_bgp_stress.Prelude.{
  ℕ, zero, suc, ◌+◌, ◌-◌, ◌≡◌, refl, Bool, true, false, ◌&&◌, Option, none, some, List, [], ◌∷◌,
  arith, leb, ◌==◌, or_zero, if◌then◌else◌, length, Bool-cases, Option-cases, inl, inr,
}
use vyos_ixp_bgp_stress.Telemetry.Convergence.{Key, same_key, same_as_last}
use vyos_ixp_bgp_stress.Analysis.Timeline.{Row, row_key}

-- `[r for r in rows if (r.get("t") or 0) >= t_from]`
unfoldable pub since : ℕ → List Row → List Row
since t_from [] = []
since t_from (r ∷ rows) =
    let later = since t_from rows in if leb t_from (or_zero r.t) then r ∷ later else later

-- `streak += 1` or `streak = 1`
abbrev pub streak_with : Key → Option Key → ℕ → ℕ
streak_with k prev streak = if same_as_last k prev then suc streak else 1

-- The loop, with its `streak` and `prev`.
unfoldable pub settle_loop : ℕ → ℕ → ℕ → Option Key → List Row → Option ℕ
settle_loop stable_n t_from streak prev [] = none
settle_loop stable_n t_from streak prev (r ∷ rows) = elim r.v4_table_version [
  | none ↦ settle_loop stable_n t_from streak prev rows
  | some v ↦
      let longer = streak_with (row_key r) prev streak in
      let rest = settle_loop stable_n t_from longer (some (row_key r)) rows in
      if leb stable_n longer && or_zero r.v4_failed == 0 then some (or_zero r.t - t_from) else rest
]

unfoldable pub settle_after : ℕ → List Row → Option ℕ → Option ℕ
settle_after stable_n rows none = none
settle_after stable_n rows (some t_from) = settle_loop stable_n t_from 0 none (since t_from rows)

-- The newest `n` rows of a history exist and have the counters `k`.
unfoldable pub agree : ℕ → Key → List Row → Bool
agree zero k history = true
agree (suc n) k [] = false
agree (suc n) k (r ∷ history) = same_key k (row_key r) && agree n k history

-- What the loop is for, with no counter: the first row with counters whose `stable_n` newest rows,
-- itself included, have its counters while no IPv4 session is failed.
unfoldable pub first_settled : ℕ → ℕ → List Row → List Row → Option ℕ
first_settled stable_n t_from history [] = none
first_settled stable_n t_from history (r ∷ rows) = elim r.v4_table_version [
  | none ↦ first_settled stable_n t_from history rows
  | some v ↦
      let rest = first_settled stable_n t_from (r ∷ history) rows in
      if agree stable_n (row_key r) (r ∷ history) && or_zero r.v4_failed == 0
      then some (or_zero r.t - t_from)
      else rest
]
