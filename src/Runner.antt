-- ===== src/Runner.antt =====
-- `cmd_ramp` and the small parts around it of harness/runner.py.
pub mod Ramp
mod Examples
use vyos_ixp_bgp_stress.Prelude.{
  ℕ, zero, suc, Option, none, some, List, [], ◌∷◌, length, is_some, Bool, true, false,
}
use vyos_ixp_bgp_stress.Inventory.Profile.{Session}

-- `[s for s in sessions if s.v4]` and the same of `v6`; the address 0 is not used.
unfoldable pub with_v4 : List Session → List Session
with_v4 [] = []
with_v4 (s ∷ sessions) = elim (is_some s.v4) [
  | true ↦ s ∷ with_v4 sessions
  | false ↦ with_v4 sessions
]

unfoldable pub with_v6 : List Session → List Session
with_v6 [] = []
with_v6 (s ∷ sessions) = elim (is_some s.v6) [
  | true ↦ s ∷ with_v6 sessions
  | false ↦ with_v6 sessions
]

unfoldable pub expected_session_counts : List Session → ℕ × ℕ
expected_session_counts sessions = (length (with_v4 sessions), length (with_v6 sessions))

-- `asked or profile.get(key, default)`, of numbers.
unfoldable pub asked_or : Option ℕ → Option ℕ → ℕ → ℕ
asked_or (some (suc n)) in_profile default = suc n
asked_or (some zero) (some n) default = n
asked_or (some zero) none default = default
asked_or none (some n) default = n
asked_or none none default = default

-- `sample_interval`, in milliseconds: unlike above, a 0 in the profile counts as missing.
unfoldable pub interval_in_profile : Option ℕ → ℕ
interval_in_profile (some (suc n)) = suc n
interval_in_profile (some zero) = 2000
interval_in_profile none = 2000

unfoldable pub sample_interval : Option ℕ → Option ℕ → ℕ
sample_interval (some (suc n)) in_profile = suc n
sample_interval (some zero) in_profile = interval_in_profile in_profile
sample_interval none in_profile = interval_in_profile in_profile
