-- ===== src/Scenarios/Netem.antt =====
-- `ev_netem` of harness/scenarios.py. The loss is in units of its own; the containers keep the order
-- of the targets.
use vyos_ixp_bgp_stress.Prelude.{ℕ, true, none, List, [], ◌∷◌, if◌then◌else◌}
use vyos_ixp_bgp_stress.Inventory.Profile.{Session}
use vyos_ixp_bgp_stress.Scenarios.Calls.{
  Datum, flag, number, text, named, many, item, end, Payload, Name, Io, Qdisc, call, pure, ◌>>=◌,
  ◌>>◌, each, collect, sleep, netem, netem_clear, netem_active,
}
use vyos_ixp_bgp_stress.Scenarios.Context.{Ctx, log, pick, skipped, items, containers_of}

pub record Settings : Type 0 where
  pub delay_ms : ℕ
  pub jitter_ms : ℕ
  pub loss : ℕ
  pub duration : ℕ

-- The first loop: `applied`.
unfoldable pub impair_all : Settings → List Name → Io (List (Name × Qdisc))
impair_all cfg containers = collect containers λ c.
    call (netem c cfg.delay_ms cfg.jitter_ms cfg.loss) >> call (netem_active c) >>= λ v. pure (c, v)

-- `[c for c, v in applied.items() if v.get("active")]`
unfoldable pub effective_of : List (Name × Qdisc) → List Name
effective_of [] = []
effective_of ((c, v) ∷ applied) =
    let rest = effective_of applied in if v.active then c ∷ rest else rest

unfoldable pub clear_all : List Name → Io (Unit {0})
clear_all containers = each containers λ c. call (netem_clear c)

abbrev pub qdiscs : List (Name × Qdisc) → Datum
qdiscs applied = many (items (λ a. many (item (named a.0) (item (text a.1.qdisc) end))) applied)

unfoldable pub netem_result : Settings → List Name → List (Name × Qdisc) → List Name → Io Payload
netem_result cfg containers applied [] =
    clear_all containers
    >> log "netem_ineffective" [] (
        ("containers", many (items named containers))
        ∷ ("detail", qdiscs applied)
        ∷ ("event", text "netem")
        ∷ [])
netem_result cfg containers applied (c ∷ effective) =
    call (sleep cfg.duration)
    >> clear_all containers
    >> log "netem_off" [] (
        ("containers", many (items named containers))
        ∷ ("impaired", many (items named (c ∷ effective)))
        ∷ ("qdiscs", qdiscs applied)
        ∷ [])

unfoldable pub netem_containers : Ctx → Settings → List Name → Io Payload
netem_containers ctx cfg containers =
    log "netem_on" [] (
      ("containers", many (items named containers))
      ∷ ("delay_ms", number cfg.delay_ms)
      ∷ ("jitter_ms", number cfg.jitter_ms)
      ∷ ("loss_pct", number cfg.loss)
      ∷ ("duration_s", number cfg.duration)
      ∷ [])
    >> (if ctx.dry_run
        then log "netem_off" []
            (("containers", many (items named containers)) ∷ ("dry_run", flag true) ∷ [])
        else impair_all cfg containers >>= λ applied.
            netem_result cfg containers applied (effective_of applied))

unfoldable pub netem_targets : Ctx → Settings → List Session → Io Payload
netem_targets ctx cfg [] = skipped "netem"
netem_targets ctx cfg (s ∷ targets) = netem_containers ctx cfg (containers_of (s ∷ targets))

unfoldable pub ev_netem : Ctx → Settings → ℕ → Io Payload
ev_netem ctx cfg count = pick ctx count none none >>= netem_targets ctx cfg
