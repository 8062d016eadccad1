-- ===== src/Scenarios/Churn.antt =====
-- `_session_prefixes`, `_churn_gobgp`, `_churn_exabgp` and `ev_churn` of harness/scenarios.py. The
-- fraction is a quotient of two numbers. A prefix that the generator does not have is an error.
use vyos_ixp_bgp_stress.Prelude.{
  ℕ, ◌+◌, ◌*◌, ◌/◌, max, String, true, false, ◌||◌, Option, none, some, List, [], ◌∷◌, ◌++◌, str_eq,
  length, take, map, if◌then◌else◌, ◌==◌,
}
use vyos_ixp_bgp_stress.Telemetry.Violation.{ipv4, ipv6}
use vyos_ixp_bgp_stress.Inventory.Profile.{Session}
use vyos_ixp_bgp_stress.Mrt.Writer.{Prefix}
use vyos_ixp_bgp_stress.Prefixes.{PrefixPlan, session_indices, all_at, v4_at, v6_at}
use vyos_ixp_bgp_stress.Prefixes.Batches.{Line, Attributes, exabgp_announce_batches}
use vyos_ixp_bgp_stress.Scenarios.Calls.{
  number, text, RibCommand, rib_del, rib_add, Payload, Io, call, pure, raise, value_error, ◌>>=◌,
  ◌>>◌, sleep, randrange, rib_batch, inject_mrt, exabgp_send_many, walk_offset, set_walk_offset,
  note, many, item, end,
}
use vyos_ixp_bgp_stress.Scenarios.Context.{Ctx, log, pick, skipped, sids}

pub record Fraction : Type 0 where
  pub top : ℕ
  pub den : ℕ

-- `max(1, int(count * fraction)) if count else 0`
abbrev pub share : ℕ → Fraction → ℕ
share count f = if count == 0 then 0 else max 1 (count * f.top / f.den)

abbrev pub or_error : Option (List Prefix) → Io (List Prefix)
or_error none = raise value_error
or_error (some ps) = pure ps

abbrev pub Both : Type 0
Both = List Prefix × List Prefix

-- `list(itertools.islice(...))`: of the indices that the generator walks only the first ones are used.
unfoldable pub first_v4 : PrefixPlan → Session → Fraction → ℕ → Option (List Prefix)
first_v4 p s f offset =
    let indices = session_indices p p.contested_pool_v4 s.nlri_slot s.prefixes_v4 offset in
    all_at (v4_at p) (take (share s.prefixes_v4 f) indices)

unfoldable pub first_v6 : PrefixPlan → Session → Fraction → ℕ → Option (List Prefix)
first_v6 p s f offset =
    let indices = session_indices p p.contested_pool_v6 s.nlri_slot s.prefixes_v6 offset in
    all_at (v6_at p) (take (share s.prefixes_v6 f) indices)

unfoldable pub session_prefixes : PrefixPlan → Session → Fraction → ℕ → Io Both
session_prefixes prefixes s f offset = or_error (first_v4 prefixes s f offset) >>= λ v4.
    or_error (first_v6 prefixes s f offset) >>= λ v6. pure (v4, v6)

abbrev pub size : Both → ℕ
size (v4, v6) = length v4 + length v6

-- The lists of commands.
abbrev pub dels : Both → List RibCommand
dels (v4, v6) = map (rib_del ipv4) v4 ++ map (rib_del ipv6) v6

abbrev pub adds : Session → Option ℕ → Option ℕ → Both → List RibCommand
adds s med lc (v4, v6) =
    map (λ p. rib_add ipv4 p s.v4 med (s.asn ∷ 3356 ∷ 15169 ∷ []) (community lc)) v4
    ++ map (λ p. rib_add ipv6 p s.v6 med (s.asn ∷ 6939 ∷ 20000 ∷ []) (community lc)) v6
  where
    community : Option ℕ → Option (ℕ × ℕ)
    community none = none
    community (some n) = some (s.asn, n)

module _ (prefixes : PrefixPlan) (ctx : Ctx) (f : Fraction) (settle : ℕ) where
  unfoldable pub withdraw_storm : Session → Both → Io ℕ
  withdraw_storm s v =
      call (rib_batch s (dels v)) >> call (sleep settle) >> call (inject_mrt s) >> pure (size v)

  unfoldable pub flap_same : Session → Both → Io ℕ
  flap_same s v =
      call (rib_batch s (dels v))
      >> call (sleep settle)
      >> call (rib_batch s (adds s none none v))
      >> pure (size v)

  unfoldable pub attr_churn : Session → Both → Io ℕ
  attr_churn s v = call (randrange 1 5000) >>= λ med. call (randrange 1 9999) >>= λ lc.
      call (rib_batch s (adds s (some med) (some lc) v)) >> pure (size v)

  -- `off + max(1, len(v4) or len(v6))`
  abbrev pub next_offset : ℕ → Both → ℕ
  next_offset off (v4, v6) = off + max 1 (if length v4 == 0 then length v6 else length v4)

  unfoldable pub walk : Session → ℕ → Both → Io ℕ
  walk s off v = session_prefixes prefixes s f (next_offset off v) >>= λ fresh.
      call (rib_batch s (adds s none none fresh ++ dels v))
      >> note (set_walk_offset s.sid (next_offset off v))
      >> pure (size fresh + size v)

  -- The chain of `if mode == ...`
  unfoldable pub churn_by : String → Session → ℕ → Both → Io ℕ
  churn_by mode s off v =
      if str_eq mode "withdraw_storm"
      then withdraw_storm s v
      else if str_eq mode "flap_same"
      then flap_same s v
      else if str_eq mode "attr_churn"
      then attr_churn s v
      else if str_eq mode "walk"
      then walk s off v
      else raise value_error

  unfoldable pub churn_gobgp : String → Session → Io ℕ
  churn_gobgp mode s = walk_offset s.sid >>= λ off. session_prefixes prefixes s f off >>= λ v.
      if ctx.dry_run || size v == 0 then pure (size v) else churn_by mode s off v

  -- The DUT's addresses on the session's fabric.
  module _ (dut_addrs : Session → ℕ × ℕ) where
    abbrev pub plain : Option ℕ → Attributes
    plain next_hop = record {
      next_hop = next_hop;
      as_path = [];
      med = none;
      communities = [];
      large_communities = [];
    }

    abbrev pub routed : Option ℕ → List ℕ → ℕ → Attributes
    routed next_hop as_path med = record (plain next_hop) { as_path = as_path; med = some med }

    -- `local_ip` is not given.
    unfoldable pub withdrawals : Session → Both → List Line
    withdrawals s (v4, v6) =
        exabgp_announce_batches v4 (plain s.v4) 500 (some (dut_addrs s).0) none true
        ++ exabgp_announce_batches v6 (plain s.v6) 500 (some (dut_addrs s).1) none true

    unfoldable pub announcements : Session → ℕ → Both → List Line
    announcements s med (v4, v6) =
        exabgp_announce_batches v4 (routed s.v4 (s.asn ∷ 3356 ∷ 15169 ∷ []) med) 200
          (some (dut_addrs s).0) none false
        ++ exabgp_announce_batches v6 (routed s.v6 (s.asn ∷ 6939 ∷ 20000 ∷ []) med) 200
            (some (dut_addrs s).1) none false

    abbrev pub med_for : String → Io ℕ
    med_for mode = if str_eq mode "attr_churn" then call (randrange 1 5000) else pure 50

    unfoldable pub exabgp_withdraw : String → Session → Both → Io (Unit {0})
    exabgp_withdraw mode s v =
        if str_eq mode "flap_same" || str_eq mode "withdraw_storm"
        then call (exabgp_send_many s (withdrawals s v)) >> call (sleep settle)
        else pure tt

    unfoldable pub churn_exabgp : String → Session → Io ℕ
    churn_exabgp mode s = walk_offset s.sid >>= λ off. session_prefixes prefixes s f off >>= λ v.
        if ctx.dry_run || size v == 0
        then pure (size v)
        else (exabgp_withdraw mode s v >> med_for mode >>= λ med.
            call (exabgp_send_many s (announcements s med v)) >> pure (size v))

    -- `for s in targets: ...`
    unfoldable pub churn_all : String → List Session → Io ℕ
    churn_all mode [] = pure 0
    churn_all mode (s ∷ targets) =
        (if str_eq s.engine "gobgp" then churn_gobgp mode s else churn_exabgp mode s) >>= λ n.
        churn_all mode targets >>= λ rest. pure (n + rest)

    unfoldable pub churn_targets : String → List Session → Io Payload
    churn_targets mode [] = skipped "churn"
    churn_targets mode (s ∷ targets) = churn_all mode (s ∷ targets) >>= λ total. log "churn" [] (
        ("mode", text mode)
        ∷ ("sessions", sids (s ∷ targets))
        ∷ ("fraction", many (item (number f.top) (item (number f.den) end)))
        ∷ ("prefixes", number total)
        ∷ [])

    unfoldable pub ev_churn : String → ℕ → Io Payload
    ev_churn mode count = pick ctx count none none >>= churn_targets mode
