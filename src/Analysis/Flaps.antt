-- ===== src/Analysis/Flaps.antt =====
-- `flap_recovery` of analysis/analyze.py: for every session that a flap brings up again, when it went
-- down and how long the tables took to settle.
pub mod Pairing
use vyos_ixp_bgp_stress.Prelude.{ℕ, String, Option, none, some, List, [], ◌∷◌, ◌++◌}
use vyos_ixp_bgp_stress.Prelude.Dict.{lookup, insert, remove}
use vyos_ixp_bgp_stress.Analysis.Timeline.{Row}
use vyos_ixp_bgp_stress.Analysis.Settle.{settle_after}

-- The records that the function reads, by their `kind`.
pub data Event : Type 0 where
  peer_flap_down : List String → Option ℕ → Event
  peer_flap_up : List String → Option ℕ → Option String → Event
  unrelated : Event

pub record Recovery : Type 0 where
  pub session : String
  pub mode : Option String
  pub down_at : Option ℕ
  pub up_at : Option ℕ
  pub resettle : Option ℕ

-- The time may be missing in the record as well as the key in the dictionary.
abbrev pub Downs : Type 0
Downs = List (String × Option ℕ)

abbrev pub popped : Option (Option ℕ) → Option ℕ
popped none = none
popped (some t) = t

unfoldable pub mark_down : List String → Option ℕ → Downs → Downs
mark_down [] t downs = downs
mark_down (sid ∷ sids) t downs = mark_down sids t (insert sid t downs)

unfoldable pub bring_up :
    List Row → List String → Option ℕ → Option String → Downs → List Recovery × Downs
bring_up rows [] t_up mode downs = ([], downs)
bring_up rows (sid ∷ sids) t_up mode downs =
    let (rest, left) = bring_up rows sids t_up mode (remove sid downs) in
    let recovery : Recovery = record {
      session = sid;
      mode = mode;
      down_at = popped (lookup sid downs);
      up_at = t_up;
      resettle = settle_after 3 rows t_up;
    } in
    (recovery ∷ rest, left)

unfoldable pub recoveries : List Row → List Event → Downs → List Recovery
recoveries rows [] downs = []
recoveries rows (peer_flap_down sids t ∷ records) downs =
    recoveries rows records (mark_down sids t downs)
recoveries rows (peer_flap_up sids t mode ∷ records) downs =
    let (out, left) = bring_up rows sids t mode downs in out ++ recoveries rows records left
recoveries rows (unrelated ∷ records) downs = recoveries rows records downs

unfoldable pub flap_recovery : List Event → List Row → List Recovery
flap_recovery records rows = recoveries rows records []
