-- ===== src/Scenarios/Malformed.antt =====
-- `ev_malformed_burst` of harness/scenarios.py, for any list of cases.
use vyos_ixp_bgp_stress.Prelude.{
  ℕ, ◌+◌, ◌/◌, String, Bool, true, not, Option, none, some, List, [], ◌∷◌, length, if◌then◌else◌,
}
use vyos_ixp_bgp_stress.Telemetry.Violation.{ipv4, ipv6}
use vyos_ixp_bgp_stress.Telemetry.Sampler.{Json, bgp_peer_state}
use vyos_ixp_bgp_stress.Inventory.Profile.{Session}
use vyos_ixp_bgp_stress.Probes.{
  Malformed, Route, absent, present, either, malformed_announce_commands,
  malformed_withdraw_commands, without_comments,
}
use vyos_ixp_bgp_stress.Scenarios.Calls.{
  Datum, nothing, flag, number, text, named, many, dict, end, item, done, entry, Entries, Payload,
  Io, BgpPath, call, pure, ◌>>=◌, ◌>>◌, collect, sleep, bgp_summary, exabgp_commands, lookup_prefix,
  log_counts, log_since,
}
use vyos_ixp_bgp_stress.Scenarios.Context.{Ctx, log, skipped, items}
use vyos_ixp_bgp_stress.Scenarios.Blackhole.{PeerState, state_dict}
use vyos_ixp_bgp_stress.Scenarios.Probing.{
  ProbeLab, ends_of, exabgp_sessions, is_present, peer_field, state_is_established, dedup_log,
  opt_number,
}

-- A row of `route_checks`.
pub record RouteCheck : Type 0 where
  pub mid : String
  pub prefix : String
  pub expect_route : Route
  pub found : Bool
  pub passed : Bool
  pub tags : List String

-- `ok`
unfoldable pub route_ok : Route → Bool → Bool
route_ok either found = true
route_ok present found = found
route_ok absent found = not found

unfoldable pub check_route : Malformed → Option (List BgpPath) → RouteCheck
check_route m got = record {
  mid = m.mid;
  prefix = m.prefix;
  expect_route = m.expect_route;
  found = is_present got;
  passed = route_ok m.expect_route (is_present got);
  tags = m.tags;
}

unfoldable pub check_routes : List Malformed → Io (List RouteCheck)
check_routes cases =
    collect cases λ m. call (lookup_prefix m.prefix m.afi) >>= λ got. pure (check_route m got)

abbrev pub route_text : Route → String
route_text absent = "absent"
route_text present = "present"
route_text either = "either"

abbrev pub check_dict : RouteCheck → Datum
check_dict r = dict (
    entry "mid" (text r.mid) (
      entry "prefix" (text r.prefix) (
        entry "expect_route" (text (route_text r.expect_route)) (
          entry "present" (flag r.found)
            (entry "pass" (flag r.passed) (entry "tags" (many (items text r.tags)) done))))))

unfoldable pub count_failures : List RouteCheck → ℕ
count_failures [] = 0
count_failures (r ∷ rows) = let rest = count_failures rows in if r.passed then rest else 1 + rest

-- `None if (pb is None or pa is None) else pa - pb`, as the two readings.
unfoldable pub dropped : Option ℕ → Option ℕ → Option (ℕ × ℕ)
dropped (some before) (some after) = some (before, after)
dropped _ _ = none

abbrev pub dropped_datum : Option (ℕ × ℕ) → Datum
dropped_datum none = nothing
dropped_datum (some (before, after)) = many (item (number before) (item (number after) end))

-- The summaries of both families at one time.
pub record Summaries : Type 0 where
  pub four : Option Json
  pub six : Option Json

unfoldable pub read_summaries : Io Summaries
read_summaries = call (bgp_summary ipv4) >>= λ four.
    call (bgp_summary ipv6) >>= λ six. pure (record { four = four; six = six })

abbrev pub optional_flag : Option Bool → Datum
optional_flag none = nothing
optional_flag (some b) = flag b

abbrev pub count_dict : List (String × ℕ) → Entries
count_dict [] = done
count_dict ((k, n) ∷ counts) = entry k (number n) (count_dict counts)

module _ (lab : ProbeLab) (ctx : Ctx) where
  abbrev pub states_of : Session → Summaries → PeerState
  states_of s sums = record {
    state_v4 = bgp_peer_state lab.texts.str sums.four (lab.texts.address s.v4);
    state_v6 = bgp_peer_state lab.texts.str sums.six (lab.texts.address s.v6);
  }

  -- `drops`
  unfoldable pub drops_of : Session → Summaries → Summaries → Datum
  drops_of s before after =
      let v4 = lab.texts.address s.v4 in
      let v6 = lab.texts.address s.v6 in
      let field : String = "connectionsDropped" in
      let drop4 = dropped (peer_field before.four v4 field) (peer_field after.four v4 field) in
      let drop6 = dropped (peer_field before.six v6 field) (peer_field after.six v6 field) in
      dict (entry "ipv4" (dropped_datum drop4) (entry "ipv6" (dropped_datum drop6) done))

  -- What follows `if ctx.dry_run: ...`; the time in seconds.
  unfoldable pub burst : Session → List Malformed → ℕ → Io Payload
  burst s cases withdraw_after = read_summaries >>= λ before.
      call
        (exabgp_commands s (without_comments (malformed_announce_commands (ends_of lab s) cases)))
      >> call (sleep withdraw_after)
      >> check_routes cases
      >>= λ results. read_summaries >>= λ after.
          call (log_counts (withdraw_after / 1000 + 15)) >>= λ logs.
          call (log_since (withdraw_after / 1000 + 15)) >>= λ raw.
          call (exabgp_commands s (malformed_withdraw_commands (ends_of lab s) cases))
          >> log "malformed_burst_done" [] (
              ("session", named s.sid)
              ∷ ("peer_v4", opt_number s.v4)
              ∷ ("peer_v6", opt_number s.v6)
              ∷ (
                "session_established_after",
                optional_flag (state_is_established lab.lower (states_of s after).state_v4),
              )
              ∷ ("state_before", state_dict (states_of s before))
              ∷ ("state_after", state_dict (states_of s after))
              ∷ ("connections_dropped_delta", drops_of s before after)
              ∷ ("dut_log_counts", dict (count_dict logs))
              ∷ ("dut_log_sample", dict (count_dict (dedup_log lab.strip raw 40)))
              ∷ ("route_checks", many (items check_dict results))
              ∷ ("failures", number (count_failures results))
              ∷ [])

  unfoldable pub burst_session : List Malformed → ℕ → List Session → Io Payload
  burst_session cases withdraw_after [] = skipped "malformed_burst"
  burst_session cases withdraw_after (s ∷ targets) =
      log "malformed_burst_start" []
        (("session", named s.sid) ∷ ("cases", number (length cases)) ∷ [])
      >> (if ctx.dry_run
          then log "malformed_burst_done" [] (("dry_run", flag true) ∷ [])
          else burst s cases withdraw_after)

  unfoldable pub ev_malformed_burst : List Malformed → ℕ → Io Payload
  ev_malformed_burst cases withdraw_after = burst_session cases withdraw_after (exabgp_sessions ctx)
