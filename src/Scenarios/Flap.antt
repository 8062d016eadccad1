-- ===== src/Scenarios/Flap.antt =====
-- `ev_peer_flap`, `ev_gr_event` and `ev_dut_bgpd_restart` of harness/scenarios.py.
use vyos_ixp_bgp_stress.Prelude.{
  ℕ, ◌+◌, ◌-◌, String, Bool, true, false, ◌&&◌, Option, none, some, List, [], ◌∷◌, str_eq, length,
  if◌then◌else◌, ltb,
}
use vyos_ixp_bgp_stress.Telemetry.Violation.{ipv4}
use vyos_ixp_bgp_stress.Telemetry.Sampler.{Json, find, size}
use vyos_ixp_bgp_stress.Telemetry.Sampler
use vyos_ixp_bgp_stress.Inventory.Profile.{Session}
use vyos_ixp_bgp_stress.Scenarios.Calls.{
  Datum, nothing, flag, number, text, named, many, dict, end, item, done, Payload, Name, Io, call,
  note, pure, ◌>>=◌, ◌>>◌, try_finally, each, uniform, flap, unflap, sleep, addrs_missing,
  addrs_misplaced, inject_mrt, graceful_restart, expect_daemon_restart, monotonic, restart_bgpd,
  bgp_summary,
}
use vyos_ixp_bgp_stress.Scenarios.Context.{
  Ctx, impair_on, impair_off, log, pick, skipped, items, sids, containers_of,
}

-- `addrs_lost` or `addrs_stray`.
abbrev pub Found : Type 0
Found = List (Name × List String)

abbrev pub if_any : Name → List String → Found → Found
if_any c [] found = found
if_any c (a ∷ addrs) found = (c, a ∷ addrs) ∷ found

-- `for c in sorted(...): ...`
unfoldable pub check_addrs : List Name → Io (Found × Found)
check_addrs [] = pure ([], [])
check_addrs (c ∷ cs) = call (addrs_missing c) >>= λ gone. call (addrs_misplaced c) >>= λ stray.
    check_addrs cs >>= λ found. pure (if_any c gone found.0, if_any c stray found.1)

abbrev pub empty : {A : Type 0} → List A → Bool
empty [] = true
empty (x ∷ xs) = false

abbrev pub count_all : Found → ℕ
count_all [] = 0
count_all ((c, addrs) ∷ found) = length addrs + count_all found

abbrev pub found_dict : Found → Datum
found_dict found = many (items (λ f. many (item (named f.0) (items text f.1))) found)

-- The numbers of the message.
abbrev pub bits : Found → Found → Datum
bits lost stray = many (
    item (number (count_all lost)) (
      item (number (length lost))
        (item (number (count_all stray)) (item (number (length stray)) end))))

unfoldable pub ineffective : Found → Found → Payload
ineffective lost stray =
    if empty lost && empty stray then [] else ("peer_flap_ineffective", bits lost stray) ∷ []

unfoldable pub flap_record : String → List Session → Found × Found → Payload
flap_record mode targets found =
    ("mode", text mode)
    ∷ ("sessions", sids targets)
    ∷ (if str_eq mode "link_down"
        then ("containers_flapped", many (items named (containers_of targets)))
          ∷ ("addresses_still_missing", found_dict found.0)
          ∷ ("addresses_on_wrong_iface", found_dict found.1)
          ∷ ineffective found.0 found.1
        else [])

-- The body of the `try`.
unfoldable pub flap_all : List Session → String → ℕ → Io (Found × Found)
flap_all targets mode hold =
    each targets (λ s. call (flap s mode))
    >> call (sleep hold)
    >> each targets (λ s. call (unflap s mode))
    >> (if str_eq mode "link_down" then check_addrs (containers_of targets) else pure ([], []))

-- `if not ctx.dry_run: ...`
unfoldable pub flap_impaired : Ctx → List Session → String → ℕ → Io (Found × Found)
flap_impaired ctx targets mode hold =
    if ctx.dry_run
    then pure ([], [])
    else impair_on ctx
      >> try_finally (flap_all targets mode hold) (impair_off ctx (some 60000))
      >>= λ r. pure r.0

unfoldable pub flap_targets : Ctx → String → ℕ × ℕ → List Session → Io Payload
flap_targets ctx mode down_s [] = skipped "peer_flap"
flap_targets ctx mode down_s (s ∷ targets) = call (uniform down_s.0 down_s.1) >>= λ hold.
    log "peer_flap_down" []
      (("mode", text mode) ∷ ("sessions", sids (s ∷ targets)) ∷ ("hold_s", number hold) ∷ [])
    >> flap_impaired ctx (s ∷ targets) mode hold
    >>= λ found. log "peer_flap_up" (flap_record mode (s ∷ targets) found) []

unfoldable pub ev_peer_flap : Ctx → String → ℕ → ℕ × ℕ → Io Payload
ev_peer_flap ctx mode count down_s = pick ctx count none none >>= flap_targets ctx mode down_s

-- `if not ctx.dry_run: ...` of `ev_gr_event`
unfoldable pub restart_peer : Ctx → Session → String → ℕ → Io (Option Json)
restart_peer ctx s mode down_s =
    if ctx.dry_run
    then pure none
    else call (flap s mode)
      >> call (sleep down_s)
      >> call (unflap s mode)
      >> call (sleep 3000)
      >> call (inject_mrt s)
      >> call (graceful_restart s)

-- `gr if isinstance(gr, dict) else None`; what the dictionary says is not modelled.
abbrev pub if_dict : Option Json → Datum
if_dict (some (Sampler.object fs)) = dict done
if_dict _ = nothing

unfoldable pub gr_targets : Ctx → String → ℕ → List Session → Io Payload
gr_targets ctx mode down_s [] = skipped "gr_event"
gr_targets ctx mode down_s (s ∷ targets) =
    log "gr_event_down" [] (("session", named s.sid) ∷ ("mode", text mode) ∷ [])
    >> restart_peer ctx s mode down_s
    >>= λ gr.
        log "gr_event_up" []
          (("session", named s.sid) ∷ ("mode", text mode) ∷ ("graceful_restart", if_dict gr) ∷ [])

unfoldable pub ev_gr_event : Ctx → String → ℕ → Io Payload
ev_gr_event ctx mode down_s = pick ctx 1 none (some "gobgp") >>= gr_targets ctx mode down_s

unfoldable pub expect_restarts : Ctx → Io (Unit {0})
expect_restarts ctx =
    if ctx.preds
    then note (expect_daemon_restart "bgpd")
      >> note (expect_daemon_restart "zebra")
      >> note (expect_daemon_restart "staticd")
    else pure tt

-- `len((summary or {}).get("peers", {}) or {}) if summary else 0`
abbrev pub peers_in : Option Json → ℕ
peers_in (some (Sampler.object fs)) = elim (find "peers" fs) [
  | some v ↦ elim v [ Sampler.object ps ↦ size ps | _ ↦ 0 ]
  | none ↦ 0
]
peers_in _ = 0

unfoldable pub restart_dut : Ctx → Io Payload
restart_dut ctx = expect_restarts ctx >> call monotonic >>= λ t0. call restart_bgpd >>= λ r.
    call (sleep 5000) >> call (bgp_summary ipv4) >>= λ summary. call monotonic >>= λ t1.
    log "dut_bgpd_restart_done" [] (
      ("rc", number r.rc)
      ∷ ("seconds", number (t1 - t0))
      ∷ ("peers_after", number (peers_in summary))
      ∷ ("config_survived", flag (ltb 0 (peers_in summary)))
      ∷ [])

unfoldable pub ev_dut_bgpd_restart : Ctx → Io Payload
ev_dut_bgpd_restart ctx =
    log "dut_bgpd_restart_start" [] []
    >> (if ctx.dry_run
        then log "dut_bgpd_restart_done" [] (("dry_run", flag true) ∷ [])
        else restart_dut ctx)
