-- ===== src/Prefixes/Examples.antt =====
-- A small plan, and the theorems about plans at this input.
use native.Mathlib.Decide.{ℕ_discrete}
use vyos_ixp_bgp_stress.Prelude.{
  ℕ, some, none, false, All, ◌/◌, ◌<◌, ◌≡◌, refl, true, false, [], ◌∷◌, some, arith, length,
}
use vyos_ixp_bgp_stress.Prelude.Keys.{mem, same, Distinct}
use vyos_ixp_bgp_stress.Prefixes.{
  PrefixPlan, generate, contested_indices, session_indices, worst_contested, exclusive_total,
  check_capacity,
}
use vyos_ixp_bgp_stress.Prefixes.Session.{session_indices-Distinct}
use vyos_ixp_bgp_stress.Mrt.Attrs.{ip4}
use vyos_ixp_bgp_stress.Mrt.Writer.{Prefix}
use vyos_ixp_bgp_stress.Prefixes.Batches.{
  Attributes, neighbor_from, scope_of, exabgp_announce_batches,
}
use vyos_ixp_bgp_stress.Prefixes.Batches.Contents.{
  announced as announced_prefixes, IsLine, exabgp_announce_batches-IsLine,
}
use vyos_ixp_bgp_stress.Prefixes.Slots.{windows_fall_together}
use vyos_ixp_bgp_stress.Prefixes.Equal.{equal_sessions_fit, equal_windows_apart}

-- A quarter of the prefixes is contested.
abbrev plan : PrefixPlan
plan = record {
  v4_first_octets = 20 ∷ [];
  v4_len = 16;
  v6_address = 0;
  v6_prefixlen = 20;
  v6_len = 28;
  contested = λ n. n / 4;
  contested_pool_v4 = 10;
  contested_pool_v6 = 10;
}

session_indices_run : session_indices plan 10 2 8 0 ≡ 22 ∷ 23 ∷ 24 ∷ 25 ∷ 26 ∷ 27 ∷ 2 ∷ 3 ∷ []
unfolding session_indices generate contested_indices
session_indices_run = refl

session_indices-Distinct_example :
    Distinct ℕ_discrete (session_indices plan 10 2 8 0)
    × (length (session_indices plan 10 2 8 0) ≡ 8)
session_indices-Distinct_example = session_indices-Distinct plan 10 2 8 0 (omega arith)

accepted : check_capacity plan ((8, 8) ∷ (8, 8) ∷ (8, 8) ∷ []) ≡ some tt
unfolding check_capacity worst_contested exclusive_total
accepted = refl

equal_sessions_fit_example :
    (mem ℕ_discrete 27 (session_indices plan 10 2 8 0) ≡ true → 27 < 256)
    × (mem ℕ_discrete 27 (session_indices plan 10 2 8 0) ≡ true → 27 < 256)
equal_sessions_fit_example = equal_sessions_fit plan 3 2 8 8 27 accepted (omega arith)

announced : mem ℕ_discrete 22 (session_indices plan 10 2 8 0) ≡ true
unfolding mem same session_indices generate contested_indices ℕ_discrete
announced = refl

equal_windows_apart_example : mem ℕ_discrete 22 (session_indices plan 10 3 8 0) ≡ false
equal_windows_apart_example =
    equal_windows_apart plan 10 2 3 8 0 22 (λ e. absurd (omega arith)) (omega arith) announced

-- Slot 1 with eight prefixes, slot 2 with four: both exclusive windows start at 16.
announced_second : mem ℕ_discrete 17 (session_indices plan 10 2 4 0) ≡ true
unfolding mem same session_indices generate contested_indices ℕ_discrete
announced_second = refl

windows_fall_together_example : mem ℕ_discrete 17 (session_indices plan 10 1 8 0) ≡ true
windows_fall_together_example =
    windows_fall_together plan 10 1 2 3 8 4 (omega arith) (omega arith) (omega arith) (omega arith)
      17 (omega arith) announced_second

abbrev prefix_at : ℕ → Prefix
prefix_at n = record { len = 24; address = ip4 n }

abbrev bare : Attributes
bare = record {
  next_hop = some 9;
  as_path = 65001 ∷ [];
  med = none;
  communities = [];
  large_communities = [];
}

exabgp_announce_batches-IsLine_example :
    (announced_prefixes (
        exabgp_announce_batches
          (prefix_at 0 ∷ prefix_at 256 ∷ prefix_at 512 ∷ [])
          bare
          2
          (some 1)
          (some 5)
          false)
      ≡ prefix_at 0 ∷ prefix_at 256 ∷ prefix_at 512 ∷ [])
    × All (IsLine (neighbor_from 1 5) bare 2 false) (
        exabgp_announce_batches
          (prefix_at 0 ∷ prefix_at 256 ∷ prefix_at 512 ∷ [])
          bare
          2
          (some 1)
          (some 5)
          false)
unfolding scope_of
exabgp_announce_batches-IsLine_example =
    exabgp_announce_batches-IsLine (prefix_at 0 ∷ prefix_at 256 ∷ prefix_at 512 ∷ []) bare 2
      (some 1) (some 5) false (omega arith)
