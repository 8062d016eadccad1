-- ===== src/Inventory/Examples.antt =====
-- A profile with two fleets on one fabric, and the theorems of the inventory at this input.
use vyos_ixp_bgp_stress.Prelude.{ℕ, ◌≡◌, refl, String, Option, none, some, [], ◌∷◌}
use vyos_ixp_bgp_stress.Prelude.Dict.{lookup, insert, contains}
use vyos_ixp_bgp_stress.Inventory.Asn.{
  bogon_asn_ranges, in_ranges, asn_is_bogon, pass, advance, next_safe_asn, IsNext,
  next_safe_asn-IsNext,
}
use vyos_ixp_bgp_stress.Inventory.Profile.{Result, ok, err, Fabric, Fleet, Profile, Inventory}
use vyos_ixp_bgp_stress.Inventory.Build.{
  validate_dut, validate_iface, validate_fabrics, validate_bridges, put_session, address_of,
  add_peer, add_peers, add_fleet, add_fleets, build_inventory,
}
use vyos_ixp_bgp_stress.Inventory.Usable.{asns, IsSound, build_inventory-IsSound}

jumps_over_ranges : next_safe_asn 64495 ≡ some 64495
unfolding next_safe_asn advance pass in_ranges
jumps_over_ranges = refl

next_safe_asn-IsNext_example :
    (next : ℕ) × (next_safe_asn 64496 ≡ some next) × IsNext bogon_asn_ranges 64496 next
next_safe_asn-IsNext_example = next_safe_asn-IsNext 64496

abbrev lan : Fabric
lan = record {
  fid = "ixp1";
  bridge = "br-ixp1";
  vlan = none;
  v4_net = record { address = 3325256704; prefixlen = 22 };
  v6_net = record { address = 42540488161975842760550356425300246528; prefixlen = 64 };
  dut_host = 1;
  dut_iface = "eth1";
  peer_host_base = 10;
}

abbrev fleet : String → ℕ → ℕ → Fleet
fleet id peers asn_base = record {
  id = id;
  fabric = "ixp1";
  engine = "gobgp";
  peers = peers;
  per_container = some 2;
  asn_base = asn_base;
  afi = none;
  image = none;
  memory = none;
  cpu = none;
  role = none;
  dut_peer_group4 = none;
  dut_peer_group6 = none;
  max_prefix4 = none;
  max_prefix6 = none;
  prefixes_v4 = some 100;
  prefixes_v6 = some 20;
  paths_per_prefix = none;
  passive = none;
  timers = none;
  flappable = none;
  mrt = none;
  transparent_as_path = none;
}

abbrev profile : Profile
profile = record {
  dut_asn = 64000;
  fabrics = lan ∷ [];
  bridges = [];
  fleets = fleet "a" 3 64494 ∷ fleet "b" 1 200000 ∷ [];
}

abbrev eth_number : String → Option ℕ
eth_number name = some 1

abbrev or_no_sessions : Result Inventory → Inventory
or_no_sessions (ok inv) = inv
or_no_sessions (err e) = record { profile = profile; fabrics = []; sessions = []; containers = [] }

abbrev built : Inventory
unfolding build_inventory validate_dut validate_iface validate_fabrics validate_bridges asn_is_bogon
    in_ranges add_fleets add_fleet add_peers add_peer put_session address_of next_safe_asn advance
    pass lookup insert contains
built = or_no_sessions (build_inventory eth_number profile)

built-build_inventory : build_inventory eth_number profile ≡ ok built
unfolding built
built-build_inventory = refl

-- The third peer of the first fleet jumps over the ranges from 64496 on.
built_asns : asns built.sessions ≡ 64494 ∷ 64495 ∷ 131072 ∷ 200000 ∷ []
unfolding built
built_asns = refl

build_inventory-IsSound_example : IsSound profile built
build_inventory-IsSound_example =
    build_inventory-IsSound eth_number profile built built-build_inventory
