-- ===== src/Prefixes/Batches.antt =====
-- `exabgp_announce_batches` of harness/routegen.py: the lines that announce or withdraw prefixes. A
-- line is kept as the parts that its text is made of, and an address as a number.
pub mod Contents
use vyos_ixp_bgp_stress.Prelude.{
  ℕ, suc, ◌+◌, Bool, true, false, Option, none, some, List, [], ◌∷◌, ◌++◌, leb, length,
  if◌then◌else◌, String,
}
use vyos_ixp_bgp_stress.Mrt.Writer.{Prefix}

-- `neighbor <address> local-ip <address>`; the second one is used with the first one only.
pub data Scope : Type 0 where
  everyone : Scope
  neighbor : ℕ → Scope
  neighbor_from : ℕ → ℕ → Scope

pub record Attributes : Type 0 where
  pub next_hop : Option ℕ
  pub as_path : List ℕ
  pub med : Option ℕ
  pub communities : List String
  pub large_communities : List String

pub data Line : Type 0 where
  withdraw_route : Scope → Prefix → Line
  announce : Scope → Attributes → List Prefix → Line

unfoldable pub scope_of : Option ℕ → Option ℕ → Scope
scope_of none local_ip = everyone
scope_of (some n) none = neighbor n
scope_of (some n) (some l) = neighbor_from n l

-- `for q in buf: yield ...`
unfoldable pub withdraw_all : Scope → List Prefix → List Line
withdraw_all scope [] = []
withdraw_all scope (q ∷ buf) = withdraw_route scope q ∷ withdraw_all scope buf

-- The two loops, each with its `buf`, and what follows it.
unfoldable pub withdraw_loop : Scope → ℕ → List Prefix → List Prefix → List Line
withdraw_loop scope batch buf [] = withdraw_all scope buf
withdraw_loop scope batch buf (p ∷ prefixes) =
    let full = buf ++ p ∷ [] in
    let emptied = withdraw_loop scope batch [] prefixes in
    let filled = withdraw_loop scope batch full prefixes in
    if leb batch (length full) then withdraw_all scope full ++ emptied else filled

abbrev pub last_line : Scope → Attributes → List Prefix → List Line
last_line scope attrs [] = []
last_line scope attrs (q ∷ buf) = announce scope attrs (q ∷ buf) ∷ []

unfoldable pub announce_loop : Scope → Attributes → ℕ → List Prefix → List Prefix → List Line
announce_loop scope attrs batch buf [] = last_line scope attrs buf
announce_loop scope attrs batch buf (p ∷ prefixes) =
    let full = buf ++ p ∷ [] in
    let emptied = announce_loop scope attrs batch [] prefixes in
    let filled = announce_loop scope attrs batch full prefixes in
    if leb batch (length full) then announce scope attrs full ∷ emptied else filled

unfoldable pub exabgp_announce_batches :
    List Prefix → Attributes → ℕ → Option ℕ → Option ℕ → Bool → List Line
exabgp_announce_batches prefixes attrs batch n local_ip true =
    withdraw_loop (scope_of n local_ip) batch [] prefixes
exabgp_announce_batches prefixes attrs batch n local_ip false =
    announce_loop (scope_of n local_ip) attrs batch [] prefixes
