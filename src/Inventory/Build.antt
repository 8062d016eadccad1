-- ===== src/Inventory/Build.antt =====
-- `build_inventory` of harness/model.py and what it calls. What Python does with a text, `int` of an
-- interface's number, is the parameter `eth_number`: the number of a name that starts with "eth" and
-- has one behind it, `none` where `_validate_iface` says "must be ethN", and 0, which is out of range too,
-- for a negative number.
use vyos_ixp_bgp_stress.Prelude.{
  ℕ, zero, suc, ◌+◌, ◌-◌, ◌/◌, ◌%◌, ◌^◌, String, Bool, true, false, not, ◌&&◌, ◌||◌, Option, none,
  some, List, [], ◌∷◌, ◌++◌, length, map, ltb, leb, ◌==◌, if◌then◌else◌, max, is_some, str_eq,
}
use vyos_ixp_bgp_stress.Prelude.Dict.{lookup, insert, contains}
use vyos_ixp_bgp_stress.Inventory.Asn.{asn_is_bogon, next_safe_asn}
use vyos_ixp_bgp_stress.Inventory.Profile.{
  dut_asn_bogon, iface_not_eth, iface_range, iface_used, bridge_undeclared, unknown_fabric,
  unknown_engine, net_exhausted, asn_claimed, dut_asn_allocated, no_sessions, key_error,
  address_value, out_of_fuel, Result, ok, err, ◌>>=◌, ◌>>◌, refuse, or_raise, Network,
  num_addresses, Fabric, Fleet, Profile, Session, Container, Inventory,
}

abbrev pub vyos_iface_min : ℕ
vyos_iface_min = 1

abbrev pub vyos_iface_max : ℕ
vyos_iface_max = 99

unfoldable pub validate_dut : Profile → Result (Unit {0})
validate_dut p = refuse (asn_is_bogon p.dut_asn) dut_asn_bogon

unfoldable pub validate_iface : (String → Option ℕ) → String → Result (Unit {0})
validate_iface eth_number name = do
  n ← or_raise (eth_number name) iface_not_eth
  refuse (not (leb vyos_iface_min n && leb n vyos_iface_max)) iface_range

-- The loop over the fabrics, which only checks; the argument in the middle is `used_ifaces`.
unfoldable pub validate_fabrics :
    (String → Option ℕ) → List String → List Fabric → Result (Unit {0})
validate_fabrics eth_number used [] = ok tt
validate_fabrics eth_number used (f ∷ rest) = do
  validate_iface eth_number f.dut_iface
  refuse (contains f.dut_iface used) iface_used
  validate_fabrics eth_number (f.dut_iface ∷ used) rest

unfoldable pub validate_bridges : List String → List Fabric → Result (Unit {0})
validate_bridges declared [] = ok tt
validate_bridges declared (f ∷ rest) = do
  refuse (ltb 0 (length declared) && not (contains f.bridge declared)) bridge_undeclared
  validate_bridges declared rest

abbrev pub find_fabric : String → List Fabric → Option Fabric
find_fabric fid [] = none
find_fabric fid (f ∷ rest) = if str_eq f.fid fid then some f else find_fabric fid rest

-- `asn_owner.get(asn)`
abbrev pub owner_of : ℕ → List (ℕ × String) → Option String
owner_of asn [] = none
owner_of asn ((a, fleet) ∷ rest) = if a == asn then some fleet else owner_of asn rest

-- The locals that the loops change. A new key of a dictionary goes to its end.
pub record State : Type 0 where
  pub sessions : List Session
  pub containers : List Container
  pub host_cursor : List (String × ℕ)
  pub nlri_cursor : ℕ
  pub asn_owner : List (ℕ × String)

abbrev pub same_name : String × ℕ → String × ℕ → Bool
same_name (a, i) (b, j) = str_eq a b && i == j

-- `containers[cname].sessions.append(sess)`, behind the creation of a container that is missing.
unfoldable pub put_session : Container → Session → List Container → List Container
put_session new s [] = record new { sessions = s ∷ [] } ∷ []
put_session new s (c ∷ rest) =
    let others = put_session new s rest in
    if same_name c.name new.name
    then record c { sessions = c.sessions ++ s ∷ [] } ∷ rest
    else c ∷ others

abbrev pub per_container : Fleet → ℕ
per_container f = max 1 (elim f.per_container [ none ↦ 1 | some n ↦ n ])

abbrev pub has_afi : Fleet → String → Bool
has_afi f a = elim f.afi [ none ↦ true | some as' ↦ contains a as' ]

abbrev pub image : Fleet → String
image f = elim f.image [
  | none ↦
      if str_eq f.engine "gobgp" then "vyos-stress/gobgp:latest" else "vyos-stress/exabgp:latest"
  | some i ↦ i
]

-- `net.network_address + host`, if the family is wanted; the sum may be no address.
unfoldable pub address_of : ℕ → Bool → Network → ℕ → Result (Option ℕ)
address_of bits wanted net host =
    if not wanted
    then ok none
    else if leb (2 ^ bits) (net.address + host)
    then err address_value
    else ok (some (net.address + host))

abbrev pub or_default {ℓ} : {A : Type ℓ} → Option A → A → A
or_default none d = d
or_default (some a) d = a

abbrev pub new_container : Fleet → ℕ → Container
new_container f i = record {
  name = (f.id, i / per_container f);
  engine = f.engine;
  fabric = f.fabric;
  image = image f;
  memory = f.memory;
  cpu = f.cpu;
  sessions = [];
}

abbrev pub new_session : Fleet → ℕ → ℕ → Option ℕ → Option ℕ → ℕ → Session
new_session f i asn v4 v6 slot = record {
  sid = (f.id, i);
  fleet = f.id;
  fabric = f.fabric;
  engine = f.engine;
  role = or_default f.role "bilateral";
  asn = asn;
  v4 = v4;
  v6 = v6;
  container = (f.id, i / per_container f);
  api_port = if str_eq f.engine "gobgp" then 50051 + i % per_container f else 0;
  dut_pg4 = f.dut_peer_group4;
  dut_pg6 = f.dut_peer_group6;
  max_prefix4 = f.max_prefix4;
  max_prefix6 = f.max_prefix6;
  prefixes_v4 = or_default f.prefixes_v4 0;
  prefixes_v6 = or_default f.prefixes_v6 0;
  paths_per_prefix = or_default f.paths_per_prefix 1;
  passive = or_default f.passive false;
  timers = or_default f.timers [];
  flappable = or_default f.flappable true;
  mrt = f.mrt;
  nlri_slot = slot;
  transparent_as_path = f.transparent_as_path;
}

-- One round of the loop over the peers of a fleet; `asn` is the local of that name.
unfoldable pub add_peer : ℕ → Fleet → Fabric → ℕ → ℕ → State → Result (ℕ × State)
add_peer dut f fab i asn s = do
  host ← or_raise (lookup f.fabric s.host_cursor) key_error
  refuse (leb (num_addresses fab.v4_net - 1) host) net_exhausted
  v4 ← address_of 32 (has_afi f "ipv4") fab.v4_net host
  v6 ← address_of 128 (has_afi f "ipv6") fab.v6_net host
  refuse (is_some (owner_of asn s.asn_owner)) asn_claimed
  refuse (asn == dut) dut_asn_allocated
  next ← or_raise (next_safe_asn (asn + 1)) out_of_fuel
  let session = new_session f i asn v4 v6 s.nlri_cursor
  ok (
    next,
    record {
      sessions = s.sessions ++ session ∷ [];
      containers = put_session (new_container f i) session s.containers;
      host_cursor = insert f.fabric (host + 1) s.host_cursor;
      nlri_cursor = s.nlri_cursor + 1;
      asn_owner = s.asn_owner ++ (asn, f.id) ∷ [];
    },
  )

-- The loop: how many peers are left, and the next `i`.
unfoldable pub add_peers : ℕ → Fleet → Fabric → ℕ → ℕ → ℕ → State → Result State
add_peers dut f fab zero i asn s = ok s
add_peers dut f fab (suc n) i asn s = do
  (next, s') ← add_peer dut f fab i asn s
  add_peers dut f fab n (i + 1) next s'

unfoldable pub add_fleet : ℕ → List Fabric → Fleet → State → Result State
add_fleet dut fabrics f s = do
  fab ← or_raise (find_fabric f.fabric fabrics) unknown_fabric
  refuse (not (str_eq f.engine "gobgp" || str_eq f.engine "exabgp")) unknown_engine
  asn ← or_raise (next_safe_asn f.asn_base) out_of_fuel
  add_peers dut f fab f.peers 0 asn s

unfoldable pub add_fleets : ℕ → List Fabric → List Fleet → State → Result State
add_fleets dut fabrics [] s = ok s
add_fleets dut fabrics (f ∷ rest) s = do
  s' ← add_fleet dut fabrics f s
  add_fleets dut fabrics rest s'

abbrev pub initial : List Fabric → State
initial fabrics = record {
  sessions = [];
  containers = [];
  host_cursor = map (λ f. (f.fid, f.peer_host_base)) fabrics;
  nlri_cursor = 0;
  asn_owner = [];
}

unfoldable pub build_inventory : (String → Option ℕ) → Profile → Result Inventory
build_inventory eth_number p = do
  validate_dut p
  validate_fabrics eth_number [] p.fabrics
  validate_bridges p.bridges p.fabrics
  s ← add_fleets p.dut_asn p.fabrics p.fleets (initial p.fabrics)
  refuse (length s.sessions == 0) no_sessions
  ok (record { profile = p; fabrics = p.fabrics; sessions = s.sessions; containers = s.containers })
