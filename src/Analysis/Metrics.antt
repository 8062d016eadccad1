-- ===== src/Analysis/Metrics.antt =====
-- `_num`, `pct` and `summarise` of analysis/analyze.py. Percentages are in hundredths and memory in
-- tenths of a MB, as the sampler rounds them. A quotient is kept as a pair of numbers instead of the
-- rounded quotient, and a percentile, which interpolates, is multiplied by the denominator of `p`,
-- which is taken as the exact fraction.
-- `round(x, 1)` of the other numbers is a parameter, since a number half way between two tenths goes
-- where the float is; it is a function from ten-thousandths to tenths of a percent.
pub mod Percentile
pub mod Ranks
pub mod Consistent
use vyos_ixp_bgp_stress.Prelude.{
  ℕ, zero, suc, ◌+◌, ◌-◌, ◌*◌, ◌/◌, ◌%◌, min, max, Bool, true, false, Option, none, some, List, [],
  ◌∷◌, leb, ltb, or_zero, if◌then◌else◌, length, get_elem?, map,
}
use vyos_ixp_bgp_stress.Analysis.Timeline.{Row}

-- `_num`
unfoldable pub num : List (Option ℕ) → List ℕ
num [] = []
num (none ∷ xs) = num xs
num (some x ∷ xs) = x ∷ num xs

-- Python's `sorted`, `max`, `min`, the last element and `sum` of a list of numbers, the three in
-- the middle for a list that is not empty.
unfoldable pub insert_in : ℕ → List ℕ → List ℕ
insert_in x [] = x ∷ []
insert_in x (y ∷ ys) = let rest = insert_in x ys in if leb x y then x ∷ y ∷ ys else y ∷ rest

unfoldable pub sorted : List ℕ → List ℕ
sorted [] = []
sorted (x ∷ xs) = insert_in x (sorted xs)

unfoldable pub greatest : ℕ → List ℕ → ℕ
greatest x [] = x
greatest x (y ∷ ys) = max x (greatest y ys)

unfoldable pub least : ℕ → List ℕ → ℕ
least x [] = x
least x (y ∷ ys) = min x (least y ys)

unfoldable pub final : {A : Type 0} → A → List A → A
final x [] = x
final x (y ∷ ys) = final y ys

unfoldable pub sum : List ℕ → ℕ
sum [] = 0
sum (x ∷ xs) = x + sum xs

-- `s[lo] + (s[hi] - s[lo]) * (k - lo)` for `k` in units of 1 / `den`, times `den`.
unfoldable pub interpolate : ℕ → ℕ → Option ℕ → Option ℕ → Option ℕ
interpolate k den (some low) (some high) = some (low * den + (high - low) * (k % den))
interpolate k den _ _ = none

-- What `pct` does with the sorted list; an index out of range is `none`.
unfoldable pub pct_sorted : List ℕ → ℕ → ℕ → Option ℕ
pct_sorted [] top den = none
pct_sorted (x ∷ []) top den = some (x * den)
pct_sorted (x ∷ y ∷ zs) top den =
    let s = x ∷ y ∷ zs in
    let last = suc (length zs) in
    let k = last * top in
    let lo = k / den in interpolate k den (get_elem? s lo) (get_elem? s (min (suc lo) last))

-- `pct(xs, top / den)`
unfoldable pub pct : List ℕ → ℕ → ℕ → Option ℕ
pct [] top den = none
pct (x ∷ xs) top den = pct_sorted (sorted (x ∷ xs)) top den

pub record Counter : Type 0 where
  pub peak : ℕ
  pub at_end : ℕ

pub record Range : Type 0 where
  pub peak : ℕ
  pub at_end : ℕ
  pub lowest : ℕ

pub record Cpu : Type 0 where
  pub total : ℕ
  pub readings : ℕ
  pub p95 : ℕ
  pub most : ℕ
  pub saturated_samples : ℕ

-- `f"{key}_peak"` and `f"{key}_final"`
unfoldable pub counter_of : List ℕ → Option Counter
counter_of [] = none
counter_of (v ∷ vals) = some (record { peak = greatest v vals; at_end = final v vals })

-- `f"{key}_peak"`, `f"{key}_final"` and `f"{key}_min"`
unfoldable pub range_of : List ℕ → Option Range
range_of [] = none
range_of (v ∷ vals) =
    some (record { peak = greatest v vals; at_end = final v vals; lowest = least v vals })

-- `sum(1 for v in vals if v >= 95.0)`
unfoldable pub saturated : List ℕ → ℕ
saturated [] = 0
saturated (v ∷ vals) = let rest = saturated vals in if leb 9500 v then suc rest else rest

unfoldable pub cpu_of : (ℕ → ℕ) → List ℕ → Option Cpu
cpu_of round [] = none
cpu_of round (v ∷ vals) = some (record {
  total = sum (v ∷ vals);
  readings = length (v ∷ vals);
  p95 = round (or_zero (pct (v ∷ vals) 95 100));
  most = round (greatest v vals * 100);
  saturated_samples = saturated (v ∷ vals);
})

-- A difference and, if the span is positive, the span in milliseconds that it is divided by.
pub record Rate : Type 0 where
  pub delta : ℕ
  pub span : Option ℕ

-- `(rows[-1].get("t") or 0) - (rows[0].get("t") or 0)`
unfoldable pub span_of : Row → List Row → Option ℕ
span_of r rows =
    let start = or_zero r.t in
    let end = or_zero (final r rows).t in if ltb start end then some (end - start) else none

unfoldable pub rate_of : Option ℕ → List ℕ → Option Rate
rate_of span (v ∷ w ∷ vals) =
    some (record { delta = greatest v (w ∷ vals) - least v (w ∷ vals); span = span })
rate_of span _ = none

-- The dividend in tenths of a byte and the divisor of `bytes_per_path_estimate`.
unfoldable pub estimate_of : List ℕ → List ℕ → Option (ℕ × ℕ)
estimate_of (m ∷ rss) (p ∷ pfx) =
    let d_rss = (greatest m rss - least m rss) * 1048576 in
    let d_pfx = greatest p pfx - least p pfx in
    if ltb 1000 (greatest p pfx)
    then (if ltb 1000 d_pfx then some (d_rss, d_pfx) else none)
    else none
estimate_of _ _ = none

pub record Metrics : Type 0 where
  pub samples : ℕ
  pub duration : Option ℕ
  pub v4_pfx_rcd : Option Counter
  pub v6_pfx_rcd : Option Counter
  pub v4_rib_count : Option Counter
  pub bgpd_rss_mb : Option Range
  pub zebra_rss_mb : Option Range
  pub cgroup_mem_mb : Option Range
  pub bgpd_cpu_pct : Option Cpu
  pub zebra_cpu_pct : Option Cpu
  pub v4_table_changes : Option Rate
  pub kernel_route_installs : Option Rate
  pub bytes_per_path_estimate : Option (ℕ × ℕ)

-- `_num(r.get(key) for r in rows)`
abbrev pub column : (Row → Option ℕ) → List Row → List ℕ
column key rows = num (map key rows)

unfoldable pub summarise : (ℕ → ℕ) → List Row → Option Metrics
summarise round [] = none
summarise round (r ∷ rows) =
    let all = r ∷ rows in
    some (record {
      samples = length all;
      duration = (final r rows).t;
      v4_pfx_rcd = counter_of (column (λ x. x.v4_pfx_rcd) all);
      v6_pfx_rcd = counter_of (column (λ x. x.v6_pfx_rcd) all);
      v4_rib_count = counter_of (column (λ x. x.v4_rib_count) all);
      bgpd_rss_mb = range_of (column (λ x. x.bgpd_rss_mb) all);
      zebra_rss_mb = range_of (column (λ x. x.zebra_rss_mb) all);
      cgroup_mem_mb = range_of (column (λ x. x.cgroup_mem_mb) all);
      bgpd_cpu_pct = cpu_of round (column (λ x. x.bgpd_cpu_pct) all);
      zebra_cpu_pct = cpu_of round (column (λ x. x.zebra_cpu_pct) all);
      v4_table_changes = rate_of (span_of r rows) (column (λ x. x.v4_table_version) all);
      kernel_route_installs = rate_of (span_of r rows) (column (λ x. x.route_installs) all);
      bytes_per_path_estimate =
          estimate_of (column (λ x. x.bgpd_rss_mb) all) (column (λ x. x.v4_pfx_rcd) all);
    })
