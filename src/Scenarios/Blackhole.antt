-- ===== src/Scenarios/Blackhole.antt =====
-- `ev_blackhole_peer` of harness/scenarios.py. The text of an address is a parameter, as are those of
-- `bgp_peer_state`. Holdtimes are seconds.
use vyos_ixp_bgp_stress.Prelude.{
  ℕ, ◌+◌, ◌-◌, ◌*◌, ◌/◌, min, String, Bool, true, false, not, ◌&&◌, Option, none, some, List, [],
  ◌∷◌, str_eq, if◌then◌else◌, ltb, ◌==◌,
}
use vyos_ixp_bgp_stress.Prelude.Dict.{lookup}
use vyos_ixp_bgp_stress.Telemetry.Violation.{ipv4, ipv6}
use vyos_ixp_bgp_stress.Telemetry.Sampler.{Json, find, size, bgp_peer_node, bgp_peer_state}
use vyos_ixp_bgp_stress.Telemetry.Sampler
use vyos_ixp_bgp_stress.Inventory.Profile.{Session}
use vyos_ixp_bgp_stress.Scenarios.Calls.{
  Datum, nothing, flag, number, text, named, dict, done, entry, Payload, Io, Blackhole, call, pure,
  ◌>>=◌, ◌>>◌, try_finally, sleep, blackhole, bgp_summary,
}
use vyos_ixp_bgp_stress.Scenarios.Context.{Ctx, impair_on, impair_off, log, pick, skipped}

pub record Texts : Type 0 where
  pub str : Json → String
  pub address : Option ℕ → String

-- The result of `peer_state()`.
pub record PeerState : Type 0 where
  pub state_v4 : Option String
  pub state_v6 : Option String

-- How the `try` block is left: by its `return`, or at its end with `applied` and `held`.
pub data Left : Type 0 where
  returned : Payload → Left
  at_end : Blackhole → PeerState → Left

-- `s.timers.get("holdtime", 90)`
abbrev pub holdtime : Session → ℕ
holdtime s = elim (lookup "holdtime" s.timers) [ none ↦ 90 | some t ↦ t ]

-- `hold_s or int(ht * 2.5)`
abbrev pub hold_for : ℕ → ℕ → ℕ
hold_for hold_s ht = if hold_s == 0 then ht * 5 / 2 else hold_s

abbrev pub opt_text : Option String → Datum
opt_text none = nothing
opt_text (some t) = text t

abbrev pub state_dict : PeerState → Datum
state_dict s = dict (entry "ipv4" (opt_text s.state_v4) (entry "ipv6" (opt_text s.state_v6) done))

abbrev pub is_established : Option String → Bool
is_established none = false
is_established (some t) = str_eq t "Established"

module _ (txt : Texts) where
  unfoldable pub peer_state : Session → Io PeerState
  peer_state s = call (bgp_summary ipv4) >>= λ four. call (bgp_summary ipv6) >>= λ six.
      pure (record {
        state_v4 = bgp_peer_state txt.str four (txt.address s.v4);
        state_v6 = bgp_peer_state txt.str six (txt.address s.v6);
      })

  -- `((node.get("peers") or {}).get(s.v4 or "") or {}).get("pfxSnt")`
  unfoldable pub sent_to : Session → Option Json → Option Json
  sent_to s summary = elim (bgp_peer_node summary) [
    | none ↦ none
    | some node ↦ elim (find "peers" node) [
      | some peers ↦ elim peers [
        | Sampler.object ps ↦ elim (find (txt.address s.v4) ps) [
          | some peer ↦ elim peer [ Sampler.object fs ↦ find "pfxSnt" fs | _ ↦ none ]
          | none ↦ none
        ]
        | _ ↦ none
      ]
      | none ↦ none
    ]
  ]

  -- `pfxSnt` as a datum, what a dictionary says not being modelled, and its truth value.
  abbrev pub json_datum : Option Json → Datum
  json_datum (some (Sampler.number n)) = number n
  json_datum (some (Sampler.text t)) = text t
  json_datum (some (Sampler.object fs)) = dict done
  json_datum _ = nothing

  abbrev pub truthy : Option Json → Bool
  truthy (some (Sampler.number n)) = ltb 0 n
  truthy (some (Sampler.text t)) = not (str_eq t "")
  truthy (some (Sampler.object fs)) = ltb 0 (size fs)
  truthy _ = false

  -- The body of the `try`.
  unfoldable pub hold_blackhole : Session → ℕ → Io Left
  hold_blackhole s hold = call (blackhole s true) >>= λ applied.
      if applied.effective
      then (call (sleep (min hold (holdtime s + 5) * 1000)) >> peer_state s >>= λ held.
          call (sleep ((hold - (holdtime s + 5)) * 1000)) >> pure (at_end applied held))
      else call (blackhole s false)
        >> log "blackhole_ineffective" [] (
            ("session", named s.sid)
            ∷ ("iptables_present", flag applied.iptables_present)
            ∷ ("rules_installed", number applied.rules_installed)
            ∷ ("output", text applied.output)
            ∷ ("event", text "blackhole_peer")
            ∷ [])
        >>= λ rec_. pure (returned rec_)

  -- The body of the `finally`, with `cleared` as its result.
  unfoldable pub clear_blackhole : Ctx → Session → Io Blackhole
  clear_blackhole ctx s =
      call (blackhole s false) >>= λ cleared. impair_off ctx (some 60000) >> pure cleared

  unfoldable pub blackhole_result :
      Session → ℕ → Option Json → PeerState → Left × Blackhole → Io Payload
  blackhole_result s hold snt before (returned rec_, cleared) = pure rec_
  blackhole_result s hold snt before (at_end applied held, cleared) = log "blackhole_off" [] (
      ("session", named s.sid)
      ∷ ("holdtime", number (holdtime s))
      ∷ ("hold_s", number hold)
      ∷ ("rules_installed", number applied.rules_installed)
      ∷ ("iptables_present", flag applied.iptables_present)
      ∷ ("rules_after_clear", number cleared.rules_installed)
      ∷ ("dut_pfx_snt_to_peer", json_datum snt)
      ∷ ("sendq_path_reachable", flag (truthy snt))
      ∷ ("state_before", state_dict before)
      ∷ ("state_at_1x_holdtime", state_dict held)
      ∷ (
        "dropped_within_holdtime",
        flag (is_established before.state_v4 && not (is_established held.state_v4)),
      )
      ∷ [])

  -- What follows `if ctx.dry_run: ...`
  unfoldable pub blackhole_session : Ctx → Session → ℕ → Io Payload
  blackhole_session ctx s hold = call (bgp_summary ipv4) >>= λ summ. peer_state s >>= λ before.
      impair_on ctx >> try_finally (hold_blackhole s hold) (clear_blackhole ctx s) >>= λ left.
      blackhole_result s hold (sent_to s summ) before left

  unfoldable pub blackhole_targets : Ctx → ℕ → List Session → Io Payload
  blackhole_targets ctx hold_s [] = skipped "blackhole_peer"
  blackhole_targets ctx hold_s (s ∷ targets) =
      let hold = hold_for hold_s (holdtime s) in
      log "blackhole_on" [] (
        ("session", named s.sid) ∷ ("hold_s", number hold) ∷ ("holdtime", number (holdtime s)) ∷ [])
      >> (if ctx.dry_run
          then log "blackhole_off" [] (("session", named s.sid) ∷ ("dry_run", flag true) ∷ [])
          else blackhole_session ctx s hold)

  unfoldable pub ev_blackhole_peer : Ctx → ℕ → ℕ → Io Payload
  ev_blackhole_peer ctx count hold_s =
      pick ctx count none (some "gobgp") >>= blackhole_targets ctx hold_s
