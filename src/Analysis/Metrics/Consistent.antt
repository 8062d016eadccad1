-- ===== src/Analysis/Metrics/Consistent.antt =====
-- The numbers of one summary fit together.
use vyos_ixp_bgp_stress.Prelude.{
  ℕ, ◌+◌, ◌*◌, ◌≤◌, ◌<◌, ◌≡◌, refl, ◌↔◌, Option, none, some, List, [], ◌∷◌, arith, length, or_zero,
}
use vyos_ixp_bgp_stress.Analysis.Timeline.{Row}
use vyos_ixp_bgp_stress.Analysis.Metrics.{
  Counter, counter_of, Range, Cpu, Metrics, summarise, range_of, cpu_of, saturated, greatest, least,
  final, pct, estimate_of,
}
use vyos_ixp_bgp_stress.Analysis.Metrics.Percentile.{pct-between}

-- The last value and the extremes of a column.
abbrev pub IsRange : Option Range → Type 0
IsRange none = Unit
IsRange (some r) = (r.lowest ≤ r.at_end) × (r.at_end ≤ r.peak)

abbrev pub IsCounter : Option Counter → Type 0
IsCounter none = Unit
IsCounter (some c) = c.at_end ≤ c.peak

-- `round(x, 1)`: a tenth next to the number, by no more than half a tenth off, and in the same order.
pub record IsRounding (round : ℕ → ℕ) : Type 0 where
  pub not_below : (n : ℕ) → n ≤ round n * 1000 + 500
  pub not_above : (n : ℕ) → round n * 1000 ≤ n + 500
  pub keeps_order : (m n : ℕ) → m ≤ n → round m ≤ round n

-- In tenths of a percent: the percentile is no more than the maximum, the maximum is 95 % or more if
-- some sample is saturated, and some sample is if it is more than 95 %.
abbrev pub IsCpu : Option Cpu → Type 0
IsCpu none = Unit
IsCpu (some c) =
    (c.p95 ≤ c.most)
    × (c.saturated_samples ≤ c.readings)
    × (0 < c.saturated_samples → 950 ≤ c.most)
    × (950 < c.most → 0 < c.saturated_samples)

-- The divisor of the estimate.
abbrev pub IsEstimate : Option (ℕ × ℕ) → Type 0
IsEstimate none = Unit
IsEstimate (some (d_rss, d_pfx)) = 1000 < d_pfx

pub record IsConsistent (m : Metrics) : Type 0 where
  pub v4_pfx_rcd : IsCounter m.v4_pfx_rcd
  pub v6_pfx_rcd : IsCounter m.v6_pfx_rcd
  pub v4_rib_count : IsCounter m.v4_rib_count
  pub bgpd_rss_mb : IsRange m.bgpd_rss_mb
  pub zebra_rss_mb : IsRange m.zebra_rss_mb
  pub cgroup_mem_mb : IsRange m.cgroup_mem_mb
  pub bgpd_cpu_pct : IsCpu m.bgpd_cpu_pct
  pub zebra_cpu_pct : IsCpu m.zebra_cpu_pct
  pub bytes_per_path_estimate : IsEstimate m.bytes_per_path_estimate

final_within :
    (v : ℕ) (vals : List ℕ) → (least v vals ≤ final v vals) × (final v vals ≤ greatest v vals)
unfolding least greatest final
final_within v [] = (omega arith, omega arith)
final_within v (w ∷ vals) =
    let later = final_within w vals in (omega (arith, later), omega (arith, later))

IsRange-range_of : (vals : List ℕ) → IsRange (range_of vals)
unfolding range_of
IsRange-range_of [] = tt
IsRange-range_of (v ∷ vals) = final_within v vals

IsCounter-counter_of : (vals : List ℕ) → IsCounter (counter_of vals)
unfolding counter_of
IsCounter-counter_of [] = tt
IsCounter-counter_of (v ∷ vals) = (final_within v vals).1

saturated-length : (vals : List ℕ) → saturated vals ≤ length vals
unfolding saturated
saturated-length [] = omega arith
saturated-length (v ∷ vals) = ground (arith, saturated-length vals)

saturated_iff : (v : ℕ) (vals : List ℕ) → (0 < saturated (v ∷ vals)) ↔ (9500 ≤ greatest v vals)
unfolding saturated greatest
saturated_iff v [] = ground arith
saturated_iff v (w ∷ vals) = ground (arith, saturated_iff w vals)

p95_below : (v : ℕ) (vals : List ℕ) → or_zero (pct (v ∷ vals) 95 100) ≤ greatest v vals * 100
p95_below v vals = let p = pct-between v vals 95 100 (omega arith) (omega arith) in rw p.1 p.2.1

IsCpu-cpu_of : (round : ℕ → ℕ) (vals : List ℕ) → IsRounding round → IsCpu (cpu_of round vals)
unfolding cpu_of
IsCpu-cpu_of round [] r = tt
IsCpu-cpu_of round (v ∷ vals) r = (
  r.keeps_order _ _ (p95_below v vals),
  saturated-length (v ∷ vals),
  (λ some_there.
      omega (arith, (saturated_iff v vals).0 some_there, r.not_below (greatest v vals * 100))),
  (λ high. (saturated_iff v vals).1 (omega (arith, high, r.not_above (greatest v vals * 100)))),
)

IsEstimate-estimate_of : (rss pfx : List ℕ) → IsEstimate (estimate_of rss pfx)
unfolding estimate_of
IsEstimate-estimate_of [] pfx = tt
IsEstimate-estimate_of (m ∷ rss) [] = tt
IsEstimate-estimate_of (m ∷ rss) (p ∷ pfx) = ground arith

-- A timeline with a sample has a summary, and its numbers fit together: for each counter and memory
-- column the last value is no more than the peak and for a memory column no less than the minimum;
-- for each CPU column the 95th percentile is no more than the maximum, both rounded to tenths, no more
-- samples are saturated than were read, the maximum is 95.0 or more if one is saturated, and one is
-- if the maximum is more than 95.0; and the bytes for a path are divided by more than 1000 prefixes.
-- The rounding is to a nearest tenth and keeps the order.
pub summarise-IsConsistent :
    (round : ℕ → ℕ) (r : Row) (rows : List Row)
    → IsRounding round
    → (m : Metrics) × (summarise round (r ∷ rows) ≡ some m) × IsConsistent m
unfolding summarise
summarise-IsConsistent round r rows rounds = (
  _,
  refl,
  record {
    v4_pfx_rcd = IsCounter-counter_of _;
    v6_pfx_rcd = IsCounter-counter_of _;
    v4_rib_count = IsCounter-counter_of _;
    bgpd_rss_mb = IsRange-range_of _;
    zebra_rss_mb = IsRange-range_of _;
    cgroup_mem_mb = IsRange-range_of _;
    bgpd_cpu_pct = IsCpu-cpu_of round _ rounds;
    zebra_cpu_pct = IsCpu-cpu_of round _ rounds;
    bytes_per_path_estimate = IsEstimate-estimate_of _ _;
  },
)
