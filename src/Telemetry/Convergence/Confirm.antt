-- ===== src/Telemetry/Convergence/Confirm.antt =====
-- When `ConvergenceTracker.feed` confirms convergence, in terms of the records that it was fed.
use vyos_ixp_bgp_stress.Prelude.{
  ℕ, zero, suc, ◌+◌, ◌≤◌, ◌<◌, ◌≡◌, refl, inl, inr, true, false, Option, none, some, List, ◌∷◌, ◌∙◌,
  ap, arith, Bool-cases, opt_eq_iff, Bool,
}
use vyos_ixp_bgp_stress.Telemetry.Sample.{Rec}
use vyos_ixp_bgp_stress.Telemetry.Convergence.{
  Config, Key, Tracker, Reason, key, same_as_last, busy, conclude, count, settle, judge, feed,
}
use vyos_ixp_bgp_stress.Telemetry.Convergence.History.{
  Ignored, IsSteady, IsRun, none_yet, skip, grow, after, Tracks-after, Tracks-feed,
}

-- A confirming result leaves a long enough streak behind.
abbrev Long : Config → Bool × Tracker → Type 0
Long c (b, st) = b ≡ true → (c.stable_samples ≤ st.streak) × (0 < st.streak)

conclude-Long : (c : Config) (st : Tracker) → 0 < st.streak → Long c (conclude c st)
conclude-Long c st h = ground arith

count-Long : (c : Config) (st : Tracker) (k : Key) → Long c (count c st k)
unfolding count
count-Long c st k = ground arith

settle-Long : (c : Config) (st : Tracker) (r : Rec) (o : Option Key) → Long c (settle c st r o)
unfolding settle
settle-Long c st r none e = cc
settle-Long c st r (some k) e = ground (arith, count-Long c st k)

judge-Long : (c : Config) (r : Rec) (b : Option Reason × Tracker) → Long c (judge c r b)
judge-Long c r (some why, st) e = cc
judge-Long c r (none, st) e = settle-Long c st r (key r) e

feed-Long : (c : Config) (st : Tracker) (r : Rec) → Long c (feed c st r)
unfolding feed
feed-Long c st r = ground (
  arith,
  judge-Long c r (busy c (record st { reason = none }) r),
  judge-Long c r (none, record st { reason = none }),
)

-- If the tracker confirms convergence on the record `r` after the history `h` (newest first), then
-- there are table counters `k` such that at least `stable_samples` of the newest records, `r` among
-- them, are samples of a running DUT with successful reads, all sessions as required, exactly the
-- counters `k` and (where quiet is required) no busy bgpd and no dataplane backlog. Between them
-- stand only events and samples whose summary read failed.
pub confirmed-IsRun :
    (c : Config) (h : List Rec) (r : Rec)
    → (feed c (after c h) r).0 ≡ true
    → (k : Key) × (n : ℕ) × (c.stable_samples ≤ n) × (0 < n) × IsRun c k n (r ∷ h)
confirmed-IsRun c h r e =
    let (enough, positive) = feed-Long c (after c h) r e in
    elim (Tracks-feed c (after c h) h r (Tracks-after c h)) [
      | inl zero_streak ↦ absurd (omega arith)
      | inr (k, last, run) ↦ (k, (feed c (after c h) r).1.streak, enough, positive, run)
    ]

-- Without the quiet gate the streak misses nothing.
module _ (c : Config) (loose : c.require_quiet ≡ false) (k : Key) where
  feed-steady :
      (st : Tracker) (r : Rec)
      → IsSteady c k r
      → feed c st r ≡ count c (record st { reason = none }) k
  unfolding feed settle
  feed-steady st r x = ground (arith, x.counted)

  feed-Ignored :
      (st : Tracker) (r : Rec)
      → Ignored r
      → ((feed c st r).1.streak ≡ st.streak) × ((feed c st r).1.last_key ≡ st.last_key)
  unfolding feed
  feed-Ignored st r (inl event) = ground arith
  feed-Ignored st r (inr (running, failed)) = ground arith

pub same_as_last_self : (k : Key) (last : Option Key) → last ≡ some k → same_as_last k last ≡ true
same_as_last_self k none e = cc
same_as_last_self k (some l) e = ground (
  arith,
  opt_eq_iff k.version_v4 l.version_v4,
  opt_eq_iff k.received_v4 l.received_v4,
  opt_eq_iff k.version_v6 l.version_v6,
  opt_eq_iff k.received_v6 l.received_v6,
)

-- The tracker has counted at least `n` samples with the counters `k`.
abbrev Counted : Key → ℕ → Tracker → Type 0
Counted k n st = (n ≤ st.streak) × (st.last_key ≡ some k)

conclude-Counted :
    (c : Config) (k : Key) (n : ℕ) (st : Tracker) → Counted k n st → Counted k n (conclude c st).1
conclude-Counted c k n st h = ground arith

count_one : (c : Config) (k : Key) (st : Tracker) → Counted k 1 (count c st k).1
unfolding count
count_one c k st = elim (Bool-cases (same_as_last k st.last_key)) [
  | inl same ↦ rw same (conclude-Counted c k 1 _ (omega arith, refl))
  | inr other ↦ rw other (conclude-Counted c k 1 _ (omega arith, refl))
]

count_more :
    (c : Config) (k : Key) (n : ℕ) (st : Tracker)
    → Counted k n st
    → Counted k (n + 1) (count c st k).1
unfolding count
count_more c k n st (long, last) =
    rw (same_as_last_self k st.last_key last) (conclude-Counted c k (n + 1) _ (omega arith, refl))

after-cons : (c : Config) (h : List Rec) (r : Rec) → after c (r ∷ h) ≡ (feed c (after c h) r).1
unfolding after
after-cons c h r = refl

run-Counted :
    (c : Config)
    → c.require_quiet ≡ false
    → (k : Key) → {n : ℕ} {h : List Rec} → IsRun c k n h
    → 0 < n
    → Counted k n (after c h)
unfolding after
run-Counted c loose k (none_yet h) p = absurd (omega arith)
run-Counted c loose k (skip {h = h} {r = r} i run) p =
    let (a, b) = feed-Ignored c loose k (after c h) r i in
    let (long, last) = run-Counted c loose k run p in (omega arith, b ∙ last)
run-Counted c loose k (grow {n = zero} {h = h} {r = r} e x run) p =
    rw (e, after-cons c h r, feed-steady c loose k (after c h) r x) (count_one c k _)
run-Counted c loose k (grow {n = suc n} {h = h} {r = r} e x run) p =
    rw (e, after-cons c h r, feed-steady c loose k (after c h) r x)
      (count_more c k (suc n) _ (run-Counted c loose k run (omega arith)))

count_done :
    (c : Config) (st : Tracker) (k : Key)
    → c.require_quiet ≡ false
    → c.stable_samples ≤ (count c st k).1.streak
    → (count c st k).0 ≡ true
unfolding count
count_done c st k loose enough = ground arith

-- Without the quiet gate the tracker does not miss convergence: on a steady sample with counters
-- `k`, after a history whose newest records that are not ignored hold `n` steady samples with the
-- same counters, it confirms as soon as n + 1 reaches `stable_samples`.
pub confirms_when_stable :
    (c : Config) (k : Key) (n : ℕ) (h : List Rec) (r : Rec)
    → c.require_quiet ≡ false
    → IsSteady c k r
    → IsRun c k n h
    → c.stable_samples ≤ n + 1
    → (feed c (after c h) r).0 ≡ true
unfolding count after
confirms_when_stable c k n h r loose x run enough =
    let now = feed-steady c loose k (after c h) r x in
    let (long, _) = run-Counted c loose k (grow {r = r} refl x run) (omega arith) in
    rw now
      (count_done c _ k loose (omega (arith, long, ap (λ (b : Bool × Tracker). b.1.streak) now)))
