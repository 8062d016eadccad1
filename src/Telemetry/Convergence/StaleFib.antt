-- ===== src/Telemetry/Convergence/StaleFib.antt =====
-- `_fib_seen` outlives the streak in which the FIB was read: `feed` sets `_streak` to 0 on a busy
-- sample and leaves the flag, so a later streak is confirmed though none of its samples carried a
-- reading of zebra's install counter.
use vyos_ixp_bgp_stress.Prelude.{
  ℕ, ◌+◌, ◌≤◌, ◌≡◌, true, false, none, some, List, [], ◌∷◌, All, length, arith,
}
use vyos_ixp_bgp_stress.Telemetry.Sample.{Rec, is_sample, read_failed}
use vyos_ixp_bgp_stress.Telemetry.Convergence.{
  Config, Key, Tracker, Reason, bgpd_cpu, cpu_reason, busy, conclude, count, settle, feed,
}
use vyos_ixp_bgp_stress.Telemetry.Convergence.History.{IsSteady}
use vyos_ixp_bgp_stress.Telemetry.Convergence.Confirm.{same_as_last_self}

-- The tracker after more records, oldest first.
abbrev pub feed_all : Config → Tracker → List Rec → Tracker
feed_all c st [] = st
feed_all c st (r ∷ rs) = feed_all c (feed c st r).1 rs

-- A sample that the CPU test rejects.
pub record IsBusy (c : Config) (r : Rec) : Type 0 where
  pub sampled : is_sample r.kind ≡ true
  pub running : r.dut_down ≡ false
  pub read : read_failed r ≡ false
  pub why : Reason
  pub over : cpu_reason c (bgpd_cpu r) ≡ some why

-- A steady sample with no reading of zebra's install counter.
pub record IsBlind (c : Config) (k : Key) (r : Rec) : Type 0 where
  pub steady : IsSteady c k r
  pub blind : r.route_installs ≡ none

module _ (c : Config) (quiet : c.require_quiet ≡ true) (k : Key) where
  -- The flag and the counters are remembered, and `n` samples are counted.
  abbrev Holds : ℕ → Tracker → Type 0
  Holds n st = (st.streak ≡ n) × (st.last_key ≡ some k) × (st.fib_seen ≡ true)

  busy-Holds :
      (st : Tracker) (r : Rec)
      → IsBusy c r
      → st.last_key ≡ some k
      → st.fib_seen ≡ true
      → Holds 0 (feed c st r).1
  unfolding feed busy
  busy-Holds st r x last seen = ground (arith, x.over)

  blind-feed :
      (st : Tracker) (r : Rec)
      → IsBlind c k r
      → feed c st r ≡ count c (record st { reason = none }) k
  unfolding feed busy settle
  blind-feed st r x = ground (
    arith,
    x.blind,
    x.steady.counted,
    x.steady.counters,
    x.steady.cpu_quiet quiet,
    x.steady.queue_quiet quiet,
  )

  blind-count :
      (st : Tracker) (n : ℕ)
      → Holds n st
      → count c st k ≡ conclude c (record st { streak = st.streak + 1; last_key = some k })
  unfolding count
  blind-count st n (streak, last, seen) = rw (same_as_last_self k st.last_key last)

  blind-Holds :
      (st : Tracker) (r : Rec) (n : ℕ) → IsBlind c k r → Holds n st → Holds (n + 1) (feed c st r).1
  blind-Holds st r n x h =
      rw (blind-feed st r x, blind-count (record st { reason = none }) n h) (ground arith)

  blinds-Holds :
      (st : Tracker) (rs : List Rec) (n : ℕ)
      → All (IsBlind c k) rs
      → Holds n st
      → Holds (n + length rs) (feed_all c st rs)
  blinds-Holds st [] n x h = ground arith
  blinds-Holds st (r ∷ rs) n x h =
      let more = blinds-Holds (feed c st r).1 rs (n + 1) x.1 (blind-Holds st r n x.0 h) in
      ground (arith, more)

-- From any state in which an earlier streak with counters `k` has read the FIB: after a sample that
-- is rejected for CPU, which ends that streak, `stable_samples` steady samples with the same
-- counters are confirmed, though not one of them carries a FIB reading.
pub confirms_without_fib :
    (c : Config) (st : Tracker) (k : Key) (b r : Rec) (rs : List Rec)
    → c.require_quiet ≡ true
    → st.last_key ≡ some k
    → st.fib_seen ≡ true
    → IsBusy c b
    → All (IsBlind c k) rs
    → IsBlind c k r
    → c.stable_samples ≤ length rs + 1
    → (feed c (feed_all c (feed c st b).1 rs) r).0 ≡ true
confirms_without_fib c st k b r rs quiet last seen over blinds now enough =
    let h0 = busy-Holds c quiet k st b over last seen in
    let h = blinds-Holds c quiet k (feed c st b).1 rs 0 blinds h0 in
    rw
      (
        blind-feed c quiet k (feed_all c (feed c st b).1 rs) r now,
        blind-count c quiet k (record (feed_all c (feed c st b).1 rs) { reason = none }) _ h,
      )
      (ground arith)
