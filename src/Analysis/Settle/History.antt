-- ===== src/Analysis/Settle/History.antt =====
-- The loop's streak is how far back the counters of the newest row reach, so that `_settle_after`
-- finds the first row at which the tables have been still for long enough.
use vyos_ixp_bgp_stress.Prelude.{
  ℕ, zero, suc, ◌≡◌, refl, sym, ap, true, false, Option, none, some, List, [], ◌∷◌, arith, leb, inl,
  inr, Bool-cases, Option-cases, opt_eq_iff, subst,
}
use vyos_ixp_bgp_stress.Telemetry.Convergence.{Key, same_key}
use vyos_ixp_bgp_stress.Analysis.Timeline.{Row, row_key}
use vyos_ixp_bgp_stress.Analysis.Settle.{
  settle_loop, settle_after, since, agree, first_settled, streak_with,
}

-- How many of the newest rows have the counters `k`.
reach : Key → List Row → ℕ
reach k [] = 0
reach k (r ∷ history) = elim (same_key k (row_key r)) [ true ↦ suc (reach k history) | false ↦ 0 ]

agree-reach : (n : ℕ) (k : Key) (history : List Row) → agree n k history ≡ leb n (reach k history)
unfolding agree reach
agree-reach zero k history = ground arith
agree-reach (suc n) k [] = ground arith
agree-reach (suc n) k (r ∷ history) = ground (arith, agree-reach n k history)

same_key_iff : (a b : Key) → (same_key a b ≡ true → a ≡ b) × (a ≡ b → same_key a b ≡ true)
same_key_iff a b = (
  (λ h. ground (
    arith,
    opt_eq_iff a.version_v4 b.version_v4,
    opt_eq_iff a.received_v4 b.received_v4,
    opt_eq_iff a.version_v6 b.version_v6,
    opt_eq_iff a.received_v6 b.received_v6,
  )),
  (λ e. ground (
    arith,
    opt_eq_iff a.version_v4 b.version_v4,
    opt_eq_iff a.received_v4 b.received_v4,
    opt_eq_iff a.version_v6 b.version_v6,
    opt_eq_iff a.received_v6 b.received_v6,
  )),
)

-- What `streak` and `prev` say of the rows seen.
data Follows : ℕ → Option Key → List Row → Type 0 where
  start : Follows 0 none []
  seen :
      {streak : ℕ} {r : Row} {history : List Row}
      → streak ≡ reach (row_key r) (r ∷ history)
      → Follows streak (some (row_key r)) (r ∷ history)

reach_here :
    (r : Row) (history : List Row)
    → reach (row_key r) (r ∷ history) ≡ suc (reach (row_key r) history)
unfolding reach
reach_here r history = rw ((same_key_iff (row_key r) (row_key r)).1 refl)

longer :
    (k l : Key) (history : List Row) {streak : ℕ}
    → streak ≡ reach l history
    → (same_key k l ≡ false → reach k history ≡ 0)
    → streak_with k (some l) streak ≡ suc (reach k history)
longer k l history e other = elim (Bool-cases (same_key k l)) [
  | inl same ↦
      rw (same, e)
        (ap suc
          (subst (λ z. reach l history ≡ reach z history) (sym ((same_key_iff k l).0 same)) refl))
  | inr differ ↦ rw (differ, other differ) refl
]

reach_next :
    (r : Row) {streak : ℕ} {prev : Option Key} {history : List Row}
    → Follows streak prev history
    → streak_with (row_key r) prev streak ≡ reach (row_key r) (r ∷ history)
unfolding reach
reach_next r start = rw (reach_here r []) refl
reach_next r (seen {streak} {r = last} {history} e) =
    rw (reach_here r (last ∷ history))
      (longer (row_key r) (row_key last) (last ∷ history) e (λ other. rw other refl))

settle_loop-eq :
    (stable_n t_from : ℕ) (rows : List Row) {streak : ℕ} {prev : Option Key} {history : List Row}
    → Follows streak prev history
    → settle_loop stable_n t_from streak prev rows ≡ first_settled stable_n t_from history rows
unfolding settle_loop first_settled
settle_loop-eq stable_n t_from [] f = refl
settle_loop-eq stable_n t_from (r ∷ rows) {history = history} f =
    elim (Option-cases r.v4_table_version) [
      | inl missing ↦ rw missing (settle_loop-eq stable_n t_from rows f)
      | inr (v, found) ↦
          rw
            (
              found,
              agree-reach stable_n (row_key r) (r ∷ history),
              sym (reach_next r f),
              settle_loop-eq stable_n t_from rows (seen (reach_next r f)),
            )
            refl
    ]

-- `_settle_after` with a time returns what its description does: of the rows from that time on, the
-- time since then of the first one with counters at which the newest `stable_n` rows with counters
-- agree on them and no IPv4 session is failed, and nothing when no row is such.
pub settle_after-first_settled :
    (stable_n : ℕ) (rows : List Row) (t_from : ℕ)
    → settle_after stable_n rows (some t_from)
      ≡ first_settled stable_n t_from [] (since t_from rows)
unfolding settle_after
settle_after-first_settled stable_n rows t_from =
    settle_loop-eq stable_n t_from (since t_from rows) start
