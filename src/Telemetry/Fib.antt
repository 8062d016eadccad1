-- ===== src/Telemetry/Fib.antt =====
-- FIB completeness: `Dut.route_summary` of harness/dut.py on the rows that its regular expression
-- finds, `PredicateSet.feed_fib` of harness/telemetry.py, `_fib_agrees` of harness/runner.py and the
-- part of `_converge` there that feeds the one with the other. `str.lower` is a parameter, and so is
-- what zebra answers. Ratios are compared exactly, in hundredths.
mod Lag
mod Examples
use vyos_ixp_bgp_stress.Prelude.{
  ℕ, ◌+◌, ◌-◌, ◌*◌, String, Bool, true, false, not, ◌&&◌, ◌||◌, Option, none, some, List, [], ◌∷◌,
  ◌++◌, ltb, ◌==◌, if◌then◌else◌, or_zero, str_eq,
}
use vyos_ixp_bgp_stress.Prelude.Dict.{insert}
use vyos_ixp_bgp_stress.Telemetry.Sample.{Summary, Bgp, Rec}
use vyos_ixp_bgp_stress.Telemetry.Violation.{
  Afi, ipv4, ipv6, Severity, fail, warn, fib_state_unreadable, fib_summary_unrecognised,
  fib_behind_rib, state_unreadable, summary_unrecognised, behind_rib, Violation, Budgets,
}
use vyos_ixp_bgp_stress.Telemetry.Predicates.{Predicates, fresh}

-- RIB and FIB counts.
pub record Counts : Type 0 where
  pub routes : ℕ
  pub fib : ℕ

-- One match of `ROUTE_SUMMARY_RE`.
pub record Row : Type 0 where
  pub source : String
  pub counts : Counts

-- The result of `route_summary`: `bgp_routes` and `bgp_fib` are both numbers or both `None`.
pub record RouteSummary : Type 0 where
  pub ok : Bool
  pub afi : Afi
  pub sources : List (String × Counts)
  pub bgp : Option Counts

abbrev pub is_bgp_source : String → Bool
is_bgp_source k = str_eq k "bgp" || str_eq k "ebgp" || str_eq k "ibgp"

abbrev pub is_heading : String → Bool
is_heading k = str_eq k "route" || str_eq k "totals"

-- The loop that fills `out["sources"]`.
unfoldable pub collect :
    (String → String) → List (String × Counts) → List Row → List (String × Counts)
collect lower sources [] = sources
collect lower sources (row ∷ rows) =
    collect lower
      (if is_heading (lower row.source)
        then sources
        else insert (lower row.source) row.counts sources)
      rows

abbrev pub plus : Option Counts → Counts → Option Counts
plus none c = some c
plus (some a) c = some (record { routes = a.routes + c.routes; fib = a.fib + c.fib })

-- The sums over the rows whose key is in `BGP_ROUTE_SOURCES`, `None` if there is no such row.
unfoldable pub bgp_total : List (String × Counts) → Option Counts
bgp_total [] = none
bgp_total ((k, c) ∷ rest) =
    let total = bgp_total rest in if is_bgp_source k then plus total c else total

unfoldable pub route_summary : (String → String) → Bool → Afi → List Row → RouteSummary
unfolding collect bgp_total
route_summary lower answered afi rows =
    if answered
    then record {
      ok = true;
      afi = afi;
      sources = collect lower [] rows;
      bgp = bgp_total (collect lower [] rows);
    }
    else record { ok = false; afi = afi; sources = []; bgp = none }

abbrev pub warning : Violation → List Violation
warning v = v ∷ []

-- `fib / routes < min_ratio`
abbrev pub is_behind : ℕ → Counts → Bool
is_behind min_ratio c = ltb (c.fib * 100) (min_ratio * c.routes)

abbrev pub lag_start : Option ℕ → Option ℕ → ℕ
lag_start none t = or_zero t
lag_start (some since) t = since

abbrev pub lag_severity : ℕ → ℕ → Severity
lag_severity grace held = if ltb grace held then fail else warn

-- `feed_fib` on a readable summary with the counts `c`.
unfoldable pub judge_counts : Predicates → Afi → Counts → Option ℕ → List Violation × Predicates
judge_counts s afi c t =
    if c.routes == 0
    then ([], s)
    else if is_behind s.budgets.fib_min_ratio c
    then (let since = lag_start s.fib_lag_since t in
        let severity = lag_severity s.budgets.fib_lag_grace (or_zero t - since) in
        (
          warning (record {
            code = fib_behind_rib;
            severity = severity;
            dedup = some (behind_rib afi severity);
            restart = none;
          }),
          record s { fib_lag_since = some since },
        ))
    else ([], record s { fib_lag_since = none })

unfoldable pub feed_fib : Predicates → RouteSummary → Option ℕ → List Violation × Predicates
unfolding judge_counts
feed_fib s summary t =
    if not summary.ok
    then (
      warning (record {
        code = fib_state_unreadable;
        severity = warn;
        dedup = some (state_unreadable summary.afi);
        restart = none;
      }),
      s,
    )
    else elim summary.bgp [
      | none ↦ (
        warning (record {
          code = fib_summary_unrecognised;
          severity = warn;
          dedup = some (summary_unrecognised summary.afi);
          restart = none;
        }),
        s,
      )
      | some c ↦ judge_counts s summary.afi c t
    ]

-- `_fib_agrees`: the verdict, and the summaries that were asked for.
abbrev pub rib_entries : Option Summary → ℕ
rib_entries none = 0
rib_entries (some s) = or_zero s.rib_count

abbrev pub counts_agree : ℕ → Option Counts → Bool
counts_agree min_ratio none = true
counts_agree min_ratio (some c) = not (ltb 0 c.routes && is_behind min_ratio c)

unfoldable pub family_agrees : ℕ → RouteSummary → Bool
family_agrees min_ratio summary = if summary.ok then counts_agree min_ratio summary.bgp else true

abbrev pub asked : Option Summary → RouteSummary → List RouteSummary
asked b summary = if ltb 0 (rib_entries b) then summary ∷ [] else []

abbrev pub all_agree : ℕ → List RouteSummary → Bool
all_agree min_ratio [] = true
all_agree min_ratio (s ∷ rest) = family_agrees min_ratio s && all_agree min_ratio rest

unfoldable pub fib_agrees : ℕ → Rec → (Afi → RouteSummary) → Bool × List RouteSummary
unfolding family_agrees
fib_agrees min_ratio last zebra =
    let detail = asked last.bgp.ipv4 (zebra ipv4) ++ asked last.bgp.ipv6 (zebra ipv6) in
    (all_agree min_ratio detail, detail)

-- The loop of `_converge` over the detail: new violations, and the predicate set afterwards.
unfoldable pub feed_details :
    Predicates → List RouteSummary → Option ℕ → List Violation × Predicates
feed_details s [] t = ([], s)
feed_details s (summary ∷ rest) t =
    let (vs, s1) = feed_fib s summary t in
    let (out, seen') = fresh s1.seen vs in
    let (more, s2) = feed_details (record s1 { seen = seen' }) rest t in (out ++ more, s2)

-- One round of the loop of `_converge` behind a confirmed streak.
unfoldable pub fib_round :
    Predicates → Rec → (Afi → RouteSummary) → Bool × List Violation × Predicates
fib_round s last zebra =
    let (agrees, detail) = fib_agrees s.budgets.fib_min_ratio last zebra in
    let (vs, s') = feed_details s detail last.t in (agrees, vs, s')
