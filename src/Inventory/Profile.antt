-- ===== src/Inventory/Profile.antt =====
-- The profile and the records of harness/model.py: `ProfileError`, `Fabric`, `Session`, `Container`,
-- `Inventory`. The profile is what the YAML loader yields, its keys with a default being options and
-- its texts where a number is meant already converted. An address is a number. The names that the
-- code formats from a fleet's id and an index are these two.
use vyos_ixp_bgp_stress.Prelude.{
  ℕ, String, Bool, true, false, Option, none, some, List, [], ◌∷◌, ◌+◌, ◌*◌, ◌^◌, ◌-◌, max, str_eq,
  length, ◌≡◌, refl,
}

-- One constructor for each `raise`, then the errors of Python.
pub data ProfileError : Type 0 where
  dut_asn_bogon iface_not_eth iface_range iface_used bridge_undeclared : ProfileError
  unknown_fabric unknown_engine net_exhausted asn_claimed dut_asn_allocated no_sessions :
      ProfileError
  session_unknown key_error address_value out_of_fuel : ProfileError

pub data Result (A : Type 0) : Type 0 where
  ok : A → Result A
  err : ProfileError → Result A

infixl 5 ◌>>=◌ ◌>>◌
abbrev pub ◌>>=◌ : {A B : Type 0} → Result A → (A → Result B) → Result B
ok a >>= f = f a
err e >>= f = err e

abbrev pub ◌>>◌ : {B : Type 0} → Result (Unit {0}) → Result B → Result B
m >> k = m >>= λ _. k

-- `if b: raise e`
abbrev pub refuse : Bool → ProfileError → Result (Unit {0})
refuse true e = err e
refuse false e = ok tt

abbrev pub or_raise : {A : Type 0} → Option A → ProfileError → Result A
or_raise none e = err e
or_raise (some a) e = ok a

pub >>=-eq-ok :
    {A B : Type 0} (first : Result A) (next : A → Result B) {last : B}
    → (first >>= next) ≡ ok last
    → (mid : A) × (first ≡ ok mid) × (next mid ≡ ok last)
>>=-eq-ok (err e) next h = cc
>>=-eq-ok (ok mid) next h = (mid, refl, h)

pub refuse-then :
    {B : Type 0} (b : Bool) (e : ProfileError) (k : Result B) {x : B}
    → (refuse b e >> k) ≡ ok x
    → (b ≡ false) × (k ≡ ok x)
refuse-then true e k h = cc
refuse-then false e k h = (refl, h)

pub or_raise-then :
    {A B : Type 0} (o : Option A) (e : ProfileError) (k : A → Result B) {x : B}
    → (or_raise o e >>= k) ≡ ok x
    → (a : A) × (o ≡ some a) × (k a ≡ ok x)
or_raise-then none e k h = cc
or_raise-then (some a) e k h = (a, refl, h)

-- `IPv4Network` and `IPv6Network`: the network address and the prefix length.
pub record Network : Type 0 where
  pub address : ℕ
  pub prefixlen : ℕ

-- `num_addresses` of an `IPv4Network`.
abbrev pub num_addresses : Network → ℕ
num_addresses n = 2 ^ (32 - n.prefixlen)

pub record Fabric : Type 0 where
  pub fid : String
  pub bridge : String
  pub vlan : Option ℕ
  pub v4_net : Network
  pub v6_net : Network
  pub dut_host : ℕ
  pub dut_iface : String
  pub peer_host_base : ℕ

-- An entry of `prof["fleets"]`.
pub record Fleet : Type 0 where
  pub id : String
  pub fabric : String
  pub engine : String
  pub peers : ℕ
  pub per_container : Option ℕ
  pub asn_base : ℕ
  pub afi : Option (List String)
  pub image : Option String
  pub memory : Option String
  pub cpu : Option String
  pub role : Option String
  pub dut_peer_group4 : Option String
  pub dut_peer_group6 : Option String
  pub max_prefix4 : Option ℕ
  pub max_prefix6 : Option ℕ
  pub prefixes_v4 : Option ℕ
  pub prefixes_v6 : Option ℕ
  pub paths_per_prefix : Option ℕ
  pub passive : Option Bool
  pub timers : Option (List (String × ℕ))
  pub flappable : Option Bool
  pub mrt : Option String
  pub transparent_as_path : Option Bool

-- The keys of the profile that `build_inventory` reads; `fabrics` in the order of the mapping.
pub record Profile : Type 0 where
  pub dut_asn : ℕ
  pub fabrics : List Fabric
  pub bridges : List String
  pub fleets : List Fleet

-- `sid` and `container` are the fleet's id with the index.
pub record Session : Type 0 where
  pub sid : String × ℕ
  pub fleet : String
  pub fabric : String
  pub engine : String
  pub role : String
  pub asn : ℕ
  pub v4 : Option ℕ
  pub v6 : Option ℕ
  pub container : String × ℕ
  pub api_port : ℕ
  pub dut_pg4 : Option String
  pub dut_pg6 : Option String
  pub max_prefix4 : Option ℕ
  pub max_prefix6 : Option ℕ
  pub prefixes_v4 : ℕ
  pub prefixes_v6 : ℕ
  pub paths_per_prefix : ℕ
  pub passive : Bool
  pub timers : List (String × ℕ)
  pub flappable : Bool
  pub mrt : Option String
  pub nlri_slot : ℕ
  pub transparent_as_path : Option Bool

abbrev pub transparent : Session → Bool
transparent s = elim s.transparent_as_path [ none ↦ str_eq s.role "route-server" | some b ↦ b ]

pub record Container : Type 0 where
  pub name : String × ℕ
  pub engine : String
  pub fabric : String
  pub image : String
  pub memory : Option String
  pub cpu : Option String
  pub sessions : List Session

pub record Inventory : Type 0 where
  pub profile : Profile
  pub fabrics : List Fabric
  pub sessions : List Session
  pub containers : List Container

-- The sums of `totals`.
pub record Totals : Type 0 where
  pub sessions : ℕ
  pub containers : ℕ
  pub paths_v4 : ℕ
  pub paths_v6 : ℕ
  pub paths_total : ℕ

unfoldable pub paths_of : (Session → ℕ) → List Session → ℕ
paths_of prefixes [] = 0
paths_of prefixes (s ∷ rest) = prefixes s * max 1 s.paths_per_prefix + paths_of prefixes rest

unfoldable pub totals : Inventory → Totals
unfolding paths_of
totals inv =
    let v4 = paths_of (λ s. s.prefixes_v4) inv.sessions in
    let v6 = paths_of (λ s. s.prefixes_v6) inv.sessions in
    record {
      sessions = length inv.sessions;
      containers = length inv.containers;
      paths_v4 = v4;
      paths_v6 = v6;
      paths_total = v4 + v6;
    }
