-- ===== src/Analysis/Timeline.antt =====
-- A line of the timeline as analysis/analyze.py reads it, and the row of the CSV made from it. The
-- dictionaries are those of Telemetry.Sample, with the two columns that only the CSV reads.
use vyos_ixp_bgp_stress.Prelude.{ℕ, Option, none, some, if◌then◌else◌}
use vyos_ixp_bgp_stress.Prelude.Dict.{lookup}
use vyos_ixp_bgp_stress.Telemetry.Sample.{Rec, Summary, Process, is_sample}
use vyos_ixp_bgp_stress.Telemetry.Convergence.{Key}

pub record Line : Type 0 where
  pub recorded : Rec
  pub bgpd_threads : Option ℕ
  pub cgroup_mem_mb : Option ℕ

-- `CSV_COLUMNS`
pub record Row : Type 0 where
  pub t : Option ℕ
  pub v4_established : Option ℕ
  pub v4_failed : Option ℕ
  pub v4_pfx_rcd : Option ℕ
  pub v4_table_version : Option ℕ
  pub v4_rib_count : Option ℕ
  pub v6_established : Option ℕ
  pub v6_failed : Option ℕ
  pub v6_pfx_rcd : Option ℕ
  pub v6_table_version : Option ℕ
  pub bgpd_rss_mb : Option ℕ
  pub bgpd_cpu_pct : Option ℕ
  pub bgpd_threads : Option ℕ
  pub zebra_rss_mb : Option ℕ
  pub zebra_cpu_pct : Option ℕ
  pub cgroup_mem_mb : Option ℕ
  pub route_installs : Option ℕ
  pub dplane_queue_max : Option ℕ
  pub dplane_errors : Option ℕ

-- `(d or {}).get(key)`
abbrev pub get_of : {A : Type 0} → Option A → (A → Option ℕ) → Option ℕ
get_of none field = none
get_of (some a) field = field a

unfoldable pub flatten : Line → Option Row
flatten line = if is_sample rec_.kind then some row else none
  where
    rec_ : Rec
    rec_ = line.recorded

    v4 : Option Summary
    v4 = rec_.bgp.ipv4

    v6 : Option Summary
    v6 = rec_.bgp.ipv6

    bg : Option Process
    bg = lookup "bgpd" rec_.proc

    ze : Option Process
    ze = lookup "zebra" rec_.proc

    row : Row
    row = record {
      t = rec_.t;
      v4_established = get_of v4 λ s. some s.established;
      v4_failed = get_of v4 λ s. s.failed;
      v4_pfx_rcd = get_of v4 λ s. some s.pfx_rcd_total;
      v4_table_version = get_of v4 λ s. s.table_version;
      v4_rib_count = get_of v4 λ s. s.rib_count;
      v6_established = get_of v6 λ s. some s.established;
      v6_failed = get_of v6 λ s. s.failed;
      v6_pfx_rcd = get_of v6 λ s. some s.pfx_rcd_total;
      v6_table_version = get_of v6 λ s. s.table_version;
      bgpd_rss_mb = get_of bg λ p. p.rss_mb;
      bgpd_cpu_pct = get_of bg λ p. p.cpu_pct;
      bgpd_threads = line.bgpd_threads;
      zebra_rss_mb = get_of ze λ p. p.rss_mb;
      zebra_cpu_pct = get_of ze λ p. p.cpu_pct;
      cgroup_mem_mb = line.cgroup_mem_mb;
      route_installs = rec_.route_installs;
      dplane_queue_max = rec_.dplane.queue_max;
      dplane_errors = rec_.dplane.route_update_errors;
    }

-- The tuple that `_settle_after` compares.
abbrev pub row_key : Row → Key
row_key r = record {
  version_v4 = r.v4_table_version;
  received_v4 = r.v4_pfx_rcd;
  version_v6 = r.v6_table_version;
  received_v6 = r.v6_pfx_rcd;
}
