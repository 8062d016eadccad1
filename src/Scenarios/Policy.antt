-- ===== src/Scenarios/Policy.antt =====
-- `ev_policy_churn` and `ev_soft_clear` of harness/scenarios.py. The error text of an exception is its
-- class, and `stderr` is not cut to its last 400 characters.
pub mod Reverted
use vyos_ixp_bgp_stress.Prelude.{
  ℕ, ◌+◌, String, Bool, true, false, not, ◌&&◌, Option, none, some, List, [], ◌∷◌, ◌++◌, str_eq,
  if◌then◌else◌, ◌==◌, is_some,
}
use vyos_ixp_bgp_stress.Prelude.Dict.{lookup}
use vyos_ixp_bgp_stress.Telemetry.Violation.{Afi, ipv4, ipv6}
use vyos_ixp_bgp_stress.Scenarios.Calls.{
  Datum, nothing, flag, number, text, dict, Entries, done, entry, Payload, Io, RunResult, call,
  pure, ◌>>=◌, ◌>>◌, try_finally, except_timeout, sleep, choice, path_exists, configure_file, apply,
  revert, reset_bgp,
}
use vyos_ixp_bgp_stress.Scenarios.Context.{Ctx, log, skipped}

-- `list(fragments) or [...]`
abbrev pub pool_of : List String → List String
pool_of [] = "localpref-flip" ∷ "community-retag" ∷ "prefixlist-grow" ∷ []
pool_of (f ∷ fragments) = f ∷ fragments

-- A dictionary inside a record.
abbrev pub entries : Payload → Entries
entries [] = done
entries ((k, v) ∷ payload) = entry k v (entries payload)

-- `{"rc": ..., "commit_s": ...}`, with `stderr` if the command failed.
unfoldable pub commit_record : RunResult → Payload
commit_record r =
    ("rc", number r.rc)
    ∷ ("commit_s", number r.seconds)
    ∷ (if r.rc == 0 then [] else ("stderr", text (if str_eq r.err "" then r.out else r.err)) ∷ [])

abbrev pub timeout_record : Payload
timeout_record = ("error", text "CommitTimeout") ∷ []

-- The `try` and its `except`: `applied` and `apply_timed_out`.
unfoldable pub apply_fragment : String → ℕ → Io (Payload × Bool)
apply_fragment name hold_s =
    except_timeout
      (call (configure_file name apply) >>= λ r.
        log "policy_churn_applied" (commit_record r) (("fragment", text name) ∷ [])
        >> call (sleep hold_s)
        >> pure (commit_record r, false))
      (log "policy_churn_commit_timeout" []
          (("fragment", text name) ∷ ("error", text "CommitTimeout") ∷ [])
        >> pure (timeout_record, true))

-- The `finally`: `rev`.
unfoldable pub revert_fragment : String → Bool → Io Payload
revert_fragment name false = pure []
revert_fragment name true =
    except_timeout (call (configure_file name revert) >>= λ r. pure (commit_record r))
      (pure timeout_record)

-- What is logged after the `finally`.
unfoldable pub churn_result : String → Bool → Payload → Bool → Payload → Io Payload
churn_result name revert_asked applied timed_out rev =
    let left_modified = revert_asked && is_some (lookup "error" rev) in
    log (if left_modified then "policy_churn_left_modified" else "policy_churn_reverted") [] (
      ("fragment", text name)
      ∷ ("applied", dict (entries applied))
      ∷ ("reverted", dict (entries rev))
      ∷ ("apply_timed_out", flag timed_out)
      ∷ ("config_left_modified", flag left_modified)
      ∷ [])

unfoldable pub churn_fragment : Ctx → String → ℕ → Bool → Io Payload
churn_fragment ctx name hold_s revert_asked =
    log "policy_churn_apply_start" [] (("fragment", text name) ∷ [])
    >> (if ctx.dry_run
        then log "policy_churn_done" [] (("fragment", text name) ∷ ("dry_run", flag true) ∷ [])
        else try_finally (apply_fragment name hold_s) (revert_fragment name revert_asked) >>= λ r.
            churn_result name revert_asked r.0.0 r.0.1 r.1)

unfoldable pub ev_policy_churn : Ctx → List String → ℕ → Bool → Io Payload
ev_policy_churn ctx fragments hold_s revert_asked = call (choice (pool_of fragments)) >>= λ name.
    call (path_exists name apply) >>= λ found.
    if found then churn_fragment ctx name hold_s revert_asked else skipped "policy_churn"

abbrev pub afi_datum : Option Afi → Datum
afi_datum none = nothing
afi_datum (some ipv4) = text "ipv4"
afi_datum (some ipv6) = text "ipv6"

unfoldable pub ev_soft_clear : Ctx → String → String → Option Afi → Io Payload
ev_soft_clear ctx target direction afi =
    log "soft_clear_start" []
      (("target", text target) ∷ ("direction", text direction) ∷ ("afi", afi_datum afi) ∷ [])
    >> (if ctx.dry_run
        then log "soft_clear_done" [] (("dry_run", flag true) ∷ [])
        else call (reset_bgp target (some direction) afi) >>= λ r.
            log "soft_clear_done" [] (("rc", number r.rc) ∷ ("seconds", number r.seconds) ∷ []))
