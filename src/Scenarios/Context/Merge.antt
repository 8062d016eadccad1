-- ===== src/Scenarios/Context/Merge.antt =====
-- What `Ctx.log` makes of its dictionaries.
use vyos_ixp_bgp_stress.Prelude.{
  ◌≡◌, ◌∙◌, refl, String, false, Option, none, some, [], ◌∷◌, arith, str_eq, eq_iff, if◌then◌else◌,
}
use vyos_ixp_bgp_stress.Prelude.Dict.{lookup, insert, remove, lookup-insert, lookup-remove}
use vyos_ixp_bgp_stress.Scenarios.Calls.{Datum, Payload}
use vyos_ixp_bgp_stress.Scenarios.Context.{update, rename_kind, merge}

-- The value that the keywords give a key, and else the payload's.
unfoldable pub override : String → Payload → Option Datum → Option Datum
override asked [] old = old
override asked ((k, v) ∷ kw) old = override asked kw (if str_eq k asked then some v else old)

lookup-update :
    (asked : String) (d kw : Payload)
    → lookup asked (update d kw) ≡ override asked kw (lookup asked d)
unfolding update override
lookup-update asked d [] = refl
lookup-update asked d ((k, v) ∷ kw) =
    ground (arith, lookup-update asked (insert k v d) kw, lookup-insert k asked v d)

lookup-rename_kind :
    (asked : String) (merged : Payload) (found : Option Datum)
    → str_eq "kind" asked ≡ false
    → str_eq "event_kind" asked ≡ false
    → lookup asked (rename_kind merged found) ≡ lookup asked merged
unfolding rename_kind
lookup-rename_kind asked merged none a b = refl
lookup-rename_kind asked merged (some v) a b = ground (
  arith,
  lookup-remove "kind" asked merged,
  lookup-insert "event_kind" asked v (remove "kind" merged),
)

no_kind :
    (merged : Payload) (found : Option Datum)
    → lookup "kind" merged ≡ found
    → lookup "kind" (rename_kind merged found) ≡ none
unfolding rename_kind
no_kind merged none e = e
no_kind merged (some v) e = ground (
  arith,
  lookup-remove "kind" "kind" merged,
  lookup-insert "event_kind" "kind" v (remove "kind" merged),
  eq_iff "kind" "kind",
  different,
)
  where
    different : str_eq "event_kind" "kind" ≡ false
    different = refl

-- A record has no key `kind` of its own, so that its kind is the one that is logged; and under every
-- other key but `event_kind` it has what the keywords say, or else the payload.
pub merge-override :
    (payload kw : Payload) (asked : String)
    → str_eq "kind" asked ≡ false
    → str_eq "event_kind" asked ≡ false
    → (lookup "kind" (merge payload kw) ≡ none)
      × (lookup asked (merge payload kw) ≡ override asked kw (lookup asked payload))
unfolding merge
merge-override payload kw asked a b = (
  no_kind (update payload kw) _ refl,
  lookup-rename_kind asked (update payload kw) _ a b ∙ lookup-update asked payload kw,
)
