-- ===== src/Telemetry/Fib/Lag.antt =====
-- How long the FIB is behind the RIB before `feed_fib` calls it a failure. The start of the lag is
-- one field for both address families, so a healthy family wipes out the lag of the other.
use vyos_ixp_bgp_stress.Prelude.{
  ℕ, ◌-◌, ◌<◌, ◌≡◌, refl, sym, subst, Bool, true, false, Option, none, some, List, [], ◌∷◌, ◌++◌,
  All, All-append, arith, ltb, if◌then◌else◌, or_zero,
}
use vyos_ixp_bgp_stress.Telemetry.Sample.{Rec}
use vyos_ixp_bgp_stress.Telemetry.Violation.{
  Afi, ipv4, ipv6, Severity, fail, warn, fib_behind_rib, behind_rib, Violation, Budgets,
}
use vyos_ixp_bgp_stress.Telemetry.Predicates.{Predicates, fresh}
use vyos_ixp_bgp_stress.Telemetry.Predicates.Fresh.{All-fresh}
use vyos_ixp_bgp_stress.Telemetry.Fib.{
  Counts, RouteSummary, is_behind, rib_entries, lag_severity, feed_fib, feed_details, fib_agrees,
  fib_round,
}

-- A summary that was read, with BGP routes, and behind or not.
pub record Measures (b : Budgets) (behind : Bool) (s : RouteSummary) : Type 0 where
  pub read : s.ok ≡ true
  pub counts : Counts
  pub found : s.bgp ≡ some counts
  pub routed : 0 < counts.routes
  pub verdict : is_behind b.fib_min_ratio counts ≡ behind

abbrev pub lag_violation : Afi → Severity → Violation
lag_violation afi severity = record {
  code = fib_behind_rib;
  severity = severity;
  dedup = some (behind_rib afi severity);
  restart = none;
}

feed-healthy :
    (s : Predicates) (m : RouteSummary) (t : Option ℕ)
    → Measures s.budgets false m
    → feed_fib s m t ≡ ([], record s { fib_lag_since = none })
unfolding feed_fib
feed-healthy s m t x = ground (arith, x.read, x.found, x.routed, x.verdict)

feed-behind_first :
    (s : Predicates) (m : RouteSummary) (t : Option ℕ)
    → s.fib_lag_since ≡ none
    → Measures s.budgets true m
    → feed_fib s m t
      ≡ (lag_violation m.afi warn ∷ [], record s { fib_lag_since = some (or_zero t) })
unfolding feed_fib
feed-behind_first s m t first x = ground (arith, x.read, x.found, x.routed, x.verdict)

feed-behind_later :
    (s : Predicates) (m : RouteSummary) (t : Option ℕ) (since : ℕ)
    → s.fib_lag_since ≡ some since
    → Measures s.budgets true m
    → feed_fib s m t
      ≡ (lag_violation m.afi (lag_severity s.budgets.fib_lag_grace (or_zero t - since)) ∷ [], s)
unfolding feed_fib
feed-behind_later s m t since later x = ground (arith, x.read, x.found, x.routed, x.verdict)

-- One address family that stays behind: the summaries, oldest first, with their times.
abbrev pub feed_series : Predicates → List (RouteSummary × ℕ) → Predicates
feed_series s [] = s
feed_series s ((m, t) ∷ rest) = feed_series (feed_fib s m (some t)).1 rest

abbrev pub AllBehind : Budgets → List (RouteSummary × ℕ) → Type 0
AllBehind b [] = Unit
AllBehind b ((m, t) ∷ rest) = Measures b true m × AllBehind b rest

series-since :
    (s : Predicates) (since : ℕ) (series : List (RouteSummary × ℕ))
    → s.fib_lag_since ≡ some since
    → AllBehind s.budgets series
    → feed_series s series ≡ s
series-since s since [] e h = refl
series-since s since ((m, t) ∷ rest) e h =
    rw (feed-behind_later s m (some t) since e h.0) (series-since s since rest e h.1)

-- While one family stays behind without a healthy reading in between, its violation is a failure
-- exactly when more than `fib_lag_grace_s` has passed since the first reading that was behind.
pub lag_is_measured_from_first :
    (s : Predicates) (first m : RouteSummary) (t0 t : ℕ) (series : List (RouteSummary × ℕ))
    → s.fib_lag_since ≡ none
    → Measures s.budgets true first
    → AllBehind s.budgets series
    → Measures s.budgets true m
    → (feed_fib (feed_series (feed_fib s first (some t0)).1 series) m (some t)).0
      ≡ lag_violation m.afi (if ltb s.budgets.fib_lag_grace (t - t0) then fail else warn) ∷ []
lag_is_measured_from_first s first m t0 t series none_yet x xs y =
    let s1 : Predicates = record s { fib_lag_since = some t0 } in
    rw (
      feed-behind_first s first (some t0) none_yet x,
      series-since s1 t0 series refl xs,
      feed-behind_later s1 m (some t) t0 refl y,
    )

-- A round of `_converge` in which both families are asked, IPv4 is behind and IPv6 is not.
pub record IsSplit (b : Budgets) (last : Rec) (zebra : Afi → RouteSummary) : Type 0 where
  pub asked_v4 : 0 < rib_entries last.bgp.ipv4
  pub asked_v6 : 0 < rib_entries last.bgp.ipv6
  pub behind_v4 : Measures b true (zebra ipv4)
  pub healthy_v6 : Measures b false (zebra ipv6)

pub record Round : Type 0 where
  pub last : Rec
  pub zebra : Afi → RouteSummary

-- The violations of the rounds, oldest first, and the predicate set afterwards.
unfoldable pub fib_rounds : Predicates → List Round → List Violation × Predicates
fib_rounds s [] = ([], s)
fib_rounds s (x ∷ rest) =
    let (agrees, vs, s1) = fib_round s x.last x.zebra in
    let (more, s2) = fib_rounds s1 rest in (vs ++ more, s2)

abbrev pub IsWarning : Violation → Type 0
IsWarning v = v.severity ≡ warn

-- After a split round nothing is remembered of the lag, and what it reported are warnings.
record Forgets (b : Budgets) (p : List Violation × Predicates) : Type 0 where
  warnings : All IsWarning p.0
  forgotten : p.1.fib_lag_since ≡ none
  budgets : p.1.budgets ≡ b

fib_agrees-split :
    (b : Budgets) (last : Rec) (zebra : Afi → RouteSummary)
    → IsSplit b last zebra
    → (fib_agrees b.fib_min_ratio last zebra).1 ≡ zebra ipv4 ∷ zebra ipv6 ∷ []
unfolding fib_agrees
fib_agrees-split b last zebra x = ground (arith, x.asked_v4, x.asked_v6)

feed_details-split :
    (s : Predicates) (last : Rec) (zebra : Afi → RouteSummary) (t : Option ℕ)
    → s.fib_lag_since ≡ none
    → IsSplit s.budgets last zebra
    → Forgets s.budgets (feed_details s (zebra ipv4 ∷ zebra ipv6 ∷ []) t)
unfolding feed_details
feed_details-split s last zebra t e x =
    let first = lag_violation (zebra ipv4).afi warn in
    let s1 : Predicates = record s {
      fib_lag_since = some (or_zero t);
      seen = (fresh s.seen (first ∷ [])).1;
    } in
    rw
      (
        feed-behind_first s (zebra ipv4) t e x.behind_v4,
        feed-healthy s1 (zebra ipv6) t x.healthy_v6,
      )
      (record {
        warnings =
            All-append IsWarning (fresh s.seen (first ∷ [])).0 _
              (All-fresh IsWarning s.seen (first ∷ []) (refl, tt)) (unfold fresh in tt);
        forgotten = refl;
        budgets = refl;
      })

fib_round-split :
    (s : Predicates) (x : Round)
    → s.fib_lag_since ≡ none
    → IsSplit s.budgets x.last x.zebra
    → Forgets s.budgets ((fib_round s x.last x.zebra).1, (fib_round s x.last x.zebra).2)
unfolding fib_round
fib_round-split s x e split =
    rw (fib_agrees-split s.budgets x.last x.zebra split)
      (feed_details-split s x.last x.zebra x.last.t e split)

-- However many rounds there are and however long they take, an IPv4 FIB that is behind is never
-- reported as a failure as long as each round also measures a healthy IPv6 FIB: every violation of
-- every such round is a warning.
pub split_lag_never_fails :
    (s : Predicates) (rounds : List Round)
    → s.fib_lag_since ≡ none
    → All (λ x. IsSplit s.budgets x.last x.zebra) rounds
    → All IsWarning (fib_rounds s rounds).0
unfolding fib_rounds
split_lag_never_fails s [] e h = tt
split_lag_never_fails s (x ∷ rest) e h =
    let kept = fib_round-split s x e h.0 in
    let s1 = (fib_round s x.last x.zebra).2 in
    All-append IsWarning (fib_round s x.last x.zebra).1 (fib_rounds s1 rest).0 kept.warnings (
      split_lag_never_fails s1 rest kept.forgotten
        (subst (λ b. All (λ y. IsSplit b y.last y.zebra) rest) (sym kept.budgets) h.1))
