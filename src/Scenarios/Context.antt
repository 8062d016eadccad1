-- ===== src/Scenarios/Context.antt =====
-- `Ctx` of harness/scenarios.py. Of its fields the events read the inventory's sessions, whether
-- there are predicates and whether the run is dry; the texts that explain a record (`note`, `reason`,
-- `expect`) are left out of the records.
pub mod Merge
use vyos_ixp_bgp_stress.Prelude.{
  ℕ, min, String, Bool, true, false, Option, none, some, List, [], ◌∷◌, str_eq, length,
  if◌then◌else◌, is_some,
}
use vyos_ixp_bgp_stress.Prelude.Dict.{lookup, insert, remove}
use vyos_ixp_bgp_stress.Inventory.Profile.{Session}
use vyos_ixp_bgp_stress.Scenarios.Calls.{
  Datum, Payload, Io, call, note, pure, ◌>>=◌, ◌>>◌, impair_begin, impair_end, event, sample, text,
  Items, end, item, many, named, Name, same_name,
}

pub record Ctx : Type 0 where
  pub sessions : List Session
  pub dry_run : Bool
  pub preds : Bool

-- `Ctx.impair(True, ...)` and `Ctx.impair(False, grace_s)`
unfoldable pub impair_on : Ctx → Io (Unit {0})
impair_on ctx = if ctx.preds then note impair_begin else pure tt

unfoldable pub impair_off : Ctx → Option ℕ → Io (Unit {0})
impair_off ctx grace = if ctx.preds then note (impair_end grace) else pure tt

-- `d.update(kw)`
unfoldable pub update : Payload → Payload → Payload
update d [] = d
update d ((k, v) ∷ kw) = update (insert k v d) kw

-- `if "kind" in merged: merged.setdefault("event_kind", merged.pop("kind"))`
unfoldable pub rename_kind : Payload → Option Datum → Payload
rename_kind merged none = merged
rename_kind merged (some v) =
    let rest = remove "kind" merged in
    if is_some (lookup "event_kind" rest) then rest else insert "event_kind" v rest

-- `merged`, after the `if`
unfoldable pub merge : Payload → Payload → Payload
merge payload kw = let merged = update payload kw in rename_kind merged (lookup "kind" merged)

-- `Ctx.log(kind, payload, **kw)`, with `{"kind": kind, **merged}` as its result.
unfoldable pub log : String → Payload → Payload → Io Payload
log kind payload kw =
    call (event kind (merge payload kw))
    >> pure (update (("kind", text kind) ∷ []) (merge payload kw))

-- `[s for s in pool if ...]`
unfoldable pub select : (Session → Bool) → List Session → List Session
select p [] = []
select p (s ∷ pool) = let rest = select p pool in if p s then s ∷ rest else rest

abbrev pub narrow : Option String → (Session → String) → List Session → List Session
narrow none field pool = pool
narrow (some value) field pool = select (λ s. str_eq (field s) value) pool

unfoldable pub draw_from : List Session → ℕ → Io (List Session)
draw_from [] n = pure []
draw_from (s ∷ pool) n = call (sample (s ∷ pool) (min n (length (s ∷ pool))))

-- `Ctx.pick`
unfoldable pub pick : Ctx → ℕ → Option String → Option String → Io (List Session)
pick ctx n role engine =
    draw_from
      (narrow engine (λ s. s.engine)
        (narrow role (λ s. s.role) (select (λ s. s.flappable) ctx.sessions)))
      n

-- `return ctx.log("skipped", ...)`
abbrev pub skipped : String → Io Payload
skipped name = log "skipped" [] (("event", text name) ∷ [])

abbrev pub items : {A : Type 0} → (A → Datum) → List A → Items
items f [] = end
items f (x ∷ xs) = item (f x) (items f xs)

-- `[s.sid for s in targets]`
abbrev pub sids : List Session → Datum
sids targets = many (items (λ s. named s.sid) targets)

mem_name : Name → List Name → Bool
mem_name c [] = false
mem_name c (d ∷ names) = if same_name d c then true else mem_name c names

-- `sorted({s.container for s in targets})`, in the order of the targets instead of the texts.
unfoldable pub containers_of : List Session → List Name
unfolding mem_name
containers_of [] = []
containers_of (s ∷ targets) =
    let rest = containers_of targets in
    if mem_name s.container rest then rest else s.container ∷ rest
