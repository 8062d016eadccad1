-- ===== src/Prefixes.antt =====
-- `PrefixPlan` of harness/routegen.py: which prefixes a session announces. `none` is an exception.
-- A prefix is its address and its length: the texts are left out. `int(count *
-- self.contested_fraction)` is a float product, so it is a function of the plan.
pub mod Session
pub mod Slots
pub mod Equal
pub mod Batches
mod Examples
use Prim.Native.Nat.{bit_or}
use vyos_ixp_bgp_stress.Prelude.{
  ℕ, zero, suc, ◌+◌, ◌-◌, ◌*◌, ◌/◌, ◌%◌, ◌^◌, Bool, true, false, not, ◌&&◌, ◌||◌, Option, none,
  some, List, [], ◌∷◌, ◌++◌, length, get_elem?, ltb, leb, ◌==◌, if◌then◌else◌, max, min, map,
}
use vyos_ixp_bgp_stress.Mrt.Bytes.{◌>>=◌, ◌>>◌}
use vyos_ixp_bgp_stress.Mrt.Attrs.{Address, ip4, ip6}
use vyos_ixp_bgp_stress.Mrt.Writer.{Prefix}

-- `v6_address` and `v6_prefixlen` are those of `_v6_net`.
pub record PrefixPlan : Type 0 where
  pub v4_first_octets : List ℕ
  pub v4_len : ℕ
  pub v6_address : ℕ
  pub v6_prefixlen : ℕ
  pub v6_len : ℕ
  pub contested : ℕ → ℕ
  pub contested_pool_v4 : ℕ
  pub contested_pool_v6 : ℕ

abbrev pub refuse : Bool → Option (Unit {0})
refuse true = none
refuse false = some tt

-- `__post_init__`: whether the plan is accepted.
unfoldable pub post_init : PrefixPlan → Option (Unit {0})
post_init p = do
  refuse (not (leb 8 p.v4_len && leb p.v4_len 24))
  refuse (not (leb 12 p.v6_len && leb p.v6_len 48))
  refuse (ltb p.v6_len p.v6_prefixlen)

abbrev pub per_octet_v4 : PrefixPlan → ℕ
per_octet_v4 p = 2 ^ (p.v4_len - 8)

abbrev pub capacity_v4 : PrefixPlan → ℕ
capacity_v4 p = length p.v4_first_octets * per_octet_v4 p

abbrev pub capacity_v6 : PrefixPlan → ℕ
capacity_v6 p = 2 ^ (p.v6_len - p.v6_prefixlen)

-- `ipaddress.IPv4Address(addr)` and `IPv6Address(addr)` with the length behind.
abbrev pub v4_prefix : ℕ → ℕ → Option Prefix
v4_prefix addr len =
    if ltb addr (2 ^ 32) then some (record { address = ip4 addr; len = len }) else none

abbrev pub v6_prefix : ℕ → ℕ → Option Prefix
v6_prefix addr len =
    if ltb addr (2 ^ 128) then some (record { address = ip6 addr; len = len }) else none

-- Without octets Python divides by zero.
unfoldable pub v4_at : PrefixPlan → ℕ → Option Prefix
v4_at p n = do
  refuse (capacity_v4 p == 0)
  let index = n % capacity_v4 p
  octet ← get_elem? p.v4_first_octets (index / per_octet_v4 p)
  let within = index % per_octet_v4 p
  v4_prefix (bit_or (octet * 2 ^ 24) (within * 2 ^ (32 - p.v4_len))) p.v4_len

unfoldable pub v6_at : PrefixPlan → ℕ → Option Prefix
v6_at p n =
    let index = n % capacity_v6 p in
    let step = 2 ^ (128 - p.v6_len) in v6_prefix (p.v6_address + index * step) p.v6_len

-- The number of exclusive and of contested prefixes.
abbrev pub split : PrefixPlan → ℕ → ℕ × ℕ
split p count = (count - p.contested count, p.contested count)

-- `f(0), f(1), …, f(n - 1)`
unfoldable pub generate : (ℕ → ℕ) → ℕ → List ℕ
generate f zero = []
generate f (suc n) = f 0 ∷ generate (λ i. f (suc i)) n

unfoldable pub contested_indices : ℕ → ℕ → ℕ → List ℕ
contested_indices slot cont pool =
    if cont == 0 || pool == 0
    then []
    else (let width = min cont pool in
        let rotate = max 1 (width / 4) in
        let base = slot * rotate % pool in generate (λ i. (base + i) % pool) width)

-- Where the exclusive window of a session starts.
abbrev pub window_base : ℕ → ℕ → ℕ → ℕ → ℕ
window_base pool slot excl offset = pool + slot * max excl 1 + offset

-- The indices that `session_v4` and `session_v6` walk, with the contested pool of the family.
unfoldable pub session_indices : PrefixPlan → ℕ → ℕ → ℕ → ℕ → List ℕ
session_indices p pool slot count offset =
    if count == 0
    then []
    else (let (excl, cont) = split p count in
        generate (λ i. window_base pool slot excl offset + i) excl
        ++ contested_indices slot cont pool)

unfoldable pub all_at : (ℕ → Option Prefix) → List ℕ → Option (List Prefix)
all_at at' [] = some []
all_at at' (i ∷ rest) = at' i >>= λ p. all_at at' rest >>= λ ps. some (p ∷ ps)

unfoldable pub session_v4 : PrefixPlan → ℕ → ℕ → ℕ → Option (List Prefix)
session_v4 p slot count offset =
    all_at (v4_at p) (session_indices p p.contested_pool_v4 slot count offset)

unfoldable pub session_v6 : PrefixPlan → ℕ → ℕ → ℕ → Option (List Prefix)
session_v6 p slot count offset =
    all_at (v6_at p) (session_indices p p.contested_pool_v6 slot count offset)

-- `check_capacity` on the prefix counts of the sessions, one family at a time.
unfoldable pub worst_contested : PrefixPlan → List ℕ → ℕ
worst_contested p [] = 0
worst_contested p (count ∷ rest) = max (p.contested count) (worst_contested p rest)

unfoldable pub exclusive_total : PrefixPlan → List ℕ → ℕ
exclusive_total p [] = 0
exclusive_total p (count ∷ rest) = max 1 (count - p.contested count) + exclusive_total p rest

-- Both pools are looked at before the space of either family.
unfoldable pub check_capacity : PrefixPlan → List (ℕ × ℕ) → Option (Unit {0})
unfolding worst_contested exclusive_total
check_capacity p sessions =
    let v4 = map (λ s. s.0) sessions in
    let v6 = map (λ s. s.1) sessions in
    do
      refuse (ltb p.contested_pool_v4 (worst_contested p v4))
      refuse (ltb p.contested_pool_v6 (worst_contested p v6))
      refuse (ltb (capacity_v4 p) (p.contested_pool_v4 + exclusive_total p v4))
      refuse (ltb (capacity_v6 p) (p.contested_pool_v6 + exclusive_total p v6))
