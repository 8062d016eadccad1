-- ===== src/Analysis/Flaps/Pairing.antt =====
-- The dictionary of `flap_recovery` pairs a session's way up with its last way down. The description
-- that it is compared with has no dictionary: it looks back through the steps of single sessions.
use vyos_ixp_bgp_stress.Prelude.{
  ℕ, ◌≡◌, refl, String, Option, none, List, [], ◌∷◌, ◌++◌, arith, if◌then◌else◌, str_eq,
}
use vyos_ixp_bgp_stress.Prelude.Dict.{lookup, insert, remove, lookup-insert, lookup-remove}
use vyos_ixp_bgp_stress.Analysis.Timeline.{Row}
use vyos_ixp_bgp_stress.Analysis.Settle.{settle_after}
use vyos_ixp_bgp_stress.Analysis.Flaps.{
  Event, peer_flap_down, peer_flap_up, unrelated, Recovery, Downs, popped, mark_down, bring_up,
  recoveries, flap_recovery,
}

-- A session's part of an event.
pub data Step : Type 0 where
  goes_down : String → Option ℕ → Step
  comes_up : String → Option ℕ → Option String → Step

unfoldable pub all_down : List String → Option ℕ → List Step → List Step
all_down [] t rest = rest
all_down (sid ∷ sids) t rest = goes_down sid t ∷ all_down sids t rest

unfoldable pub all_up : List String → Option ℕ → Option String → List Step → List Step
all_up [] t mode rest = rest
all_up (sid ∷ sids) t mode rest = comes_up sid t mode ∷ all_up sids t mode rest

unfoldable pub steps : List Event → List Step
steps [] = []
steps (peer_flap_down sids t ∷ records) = all_down sids t (steps records)
steps (peer_flap_up sids t mode ∷ records) = all_up sids t mode (steps records)
steps (unrelated ∷ records) = steps records

-- When the session went down and has not come up since; the history has its newest step first.
unfoldable pub last_down : String → List Step → Option ℕ
last_down name [] = none
last_down name (goes_down sid t ∷ history) = if str_eq sid name then t else last_down name history
last_down name (comes_up sid t mode ∷ history) =
    if str_eq sid name then none else last_down name history

unfoldable pub paired : List Row → List Step → List Step → List Recovery
paired rows history [] = []
paired rows history (goes_down sid t ∷ later) = paired rows (goes_down sid t ∷ history) later
paired rows history (comes_up sid t mode ∷ later) =
    record {
      session = sid;
      mode = mode;
      down_at = last_down sid history;
      up_at = t;
      resettle = settle_after 3 rows t;
    }
    ∷ paired rows (comes_up sid t mode ∷ history) later

Represents : Downs → List Step → Type 0
Represents downs history = (name : String) → popped (lookup name downs) ≡ last_down name history

Represents-insert :
    (downs : Downs) (history : List Step) (sid : String) (t : Option ℕ)
    → Represents downs history
    → Represents (insert sid t downs) (goes_down sid t ∷ history)
unfolding Represents last_down
Represents-insert downs history sid t same name =
    ground (arith, lookup-insert sid name t downs, same name)

Represents-remove :
    (downs : Downs) (history : List Step) (sid : String) (t : Option ℕ) (mode : Option String)
    → Represents downs history
    → Represents (remove sid downs) (comes_up sid t mode ∷ history)
unfolding Represents last_down
Represents-remove downs history sid t mode same name =
    ground (arith, lookup-remove sid name downs, same name)

-- What `recoveries` is for a dictionary that stands for a history.
Refines : List Row → List Event → Type 0
Refines rows records =
    (downs : Downs) (history : List Step)
    → Represents downs history
    → recoveries rows records downs ≡ paired rows history (steps records)

mark_down-paired :
    (rows : List Row) (sids : List String) (t : Option ℕ) (records : List Event)
    → Refines rows records
    → (downs : Downs) (history : List Step) → Represents downs history
    → recoveries rows records (mark_down sids t downs)
      ≡ paired rows history (all_down sids t (steps records))
unfolding mark_down all_down paired Refines
mark_down-paired rows [] t records ih downs history same = ih downs history same
mark_down-paired rows (sid ∷ sids) t records ih downs history same =
    mark_down-paired rows sids t records ih (insert sid t downs) (goes_down sid t ∷ history)
      (Represents-insert downs history sid t same)

bring_up-paired :
    (rows : List Row) (sids : List String) (t : Option ℕ) (mode : Option String)
    (records : List Event)
    → Refines rows records
    → (downs : Downs) (history : List Step) → Represents downs history
    → (bring_up rows sids t mode downs).0
        ++ recoveries rows records (bring_up rows sids t mode downs).1
      ≡ paired rows history (all_up sids t mode (steps records))
unfolding bring_up all_up paired Refines Represents
bring_up-paired rows [] t mode records ih downs history same = ih downs history same
bring_up-paired rows (sid ∷ sids) t mode records ih downs history same =
    rw
      (
        same sid,
        bring_up-paired rows sids t mode records ih (remove sid downs)
            (comes_up sid t mode ∷ history) (Represents-remove downs history sid t mode same),
      )
      refl

recoveries-Refines : (rows : List Row) (records : List Event) → Refines rows records
unfolding Refines recoveries steps paired
recoveries-Refines rows [] downs history same = refl
recoveries-Refines rows (peer_flap_down sids t ∷ records) downs history same =
    mark_down-paired rows sids t records (recoveries-Refines rows records) downs history same
recoveries-Refines rows (peer_flap_up sids t mode ∷ records) downs history same =
    bring_up-paired rows sids t mode records (recoveries-Refines rows records) downs history same
recoveries-Refines rows (unrelated ∷ records) downs history same =
    recoveries-Refines rows records downs history same

-- `flap_recovery` gives one row for each way up, in order, and its time down is that of the
-- session's last way down, or nothing if the session has come up since or never went down.
pub flap_recovery-paired :
    (records : List Event) (rows : List Row)
    → flap_recovery records rows ≡ paired rows [] (steps records)
unfolding flap_recovery Represents lookup last_down Refines
flap_recovery-paired records rows = recoveries-Refines rows records [] [] (λ name. refl)
