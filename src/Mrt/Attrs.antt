-- ===== src/Mrt/Attrs.antt =====
-- Path attributes of harness/routegen.py: `_attr`, the `enc_…` functions and `PathAttrs.encode`.
-- An address is its family and its number: the parsing of address texts by `ipaddress` is left out.
-- `none` is an exception: an address of the wrong family, or a number that `struct.pack` refuses.
use Prim.Native.Nat.{bit_or}
use vyos_ixp_bgp_stress.Prelude.{
  ℕ, Bool, true, false, Option, none, some, List, [], ◌∷◌, ◌++◌, length, ltb, if◌then◌else◌,
}
use vyos_ixp_bgp_stress.Mrt.Bytes.{Bytes, ◌>>=◌, be, pack_b, pack_h, pack_i, join}

-- `IPv4Address` and `IPv6Address`.
pub data Address : Type 0 where
  ip4 ip6 : ℕ → Address

abbrev pub flag_optional : ℕ
flag_optional = 0x80

abbrev pub flag_transitive : ℕ
flag_transitive = 0x40

abbrev pub flag_ext_len : ℕ
flag_ext_len = 0x10

abbrev pub as_sequence : ℕ
as_sequence = 2

abbrev pub as_set_segment : ℕ
as_set_segment = 1

-- `_attr`; the codes and flags are constants of the module, below 256.
unfoldable pub attr : ℕ → ℕ → Bytes → Option Bytes
attr code flags value =
    if ltb 255 (length value)
    then (do
      size ← pack_h (length value)
      some (bit_or flags flag_ext_len ∷ code ∷ (size ++ value)))
    else some (flags ∷ code ∷ length value ∷ value)

unfoldable pub enc_origin : ℕ → Option Bytes
enc_origin origin = do body ← pack_b origin; attr 1 flag_transitive body

-- One segment of an AS_PATH; no segment for no ASN.
unfoldable pub segment : ℕ → List ℕ → Option Bytes
segment type [] = some []
segment type (asn ∷ asns) = do
  size ← pack_b (length (asn ∷ asns))
  body ← join pack_i (asn ∷ asns)
  some (type ∷ (size ++ body))

unfoldable pub enc_as_path : List ℕ → List ℕ → Option Bytes
enc_as_path asns as_set = do
  sequence ← segment as_sequence asns
  set ← segment as_set_segment as_set
  attr 2 flag_transitive (sequence ++ set)

unfoldable pub enc_next_hop_v4 : Address → Option Bytes
enc_next_hop_v4 (ip4 n) = attr 3 flag_transitive (be 4 n)
enc_next_hop_v4 (ip6 n) = none

unfoldable pub enc_med : ℕ → Option Bytes
enc_med med = do body ← pack_i med; attr 4 flag_optional body

unfoldable pub pack_community : ℕ × ℕ → Option Bytes
pack_community (a, b) = do x ← pack_h a; y ← pack_h b; some (x ++ y)

unfoldable pub enc_communities : List (ℕ × ℕ) → Option Bytes
enc_communities comms = do
  body ← join pack_community comms
  attr 8 (bit_or flag_optional flag_transitive) body

unfoldable pub pack_large : ℕ × ℕ × ℕ → Option Bytes
pack_large (a, b, c) = do x ← pack_i a; y ← pack_i b; z ← pack_i c; some (x ++ (y ++ z))

unfoldable pub enc_large_communities : List (ℕ × ℕ × ℕ) → Option Bytes
enc_large_communities comms = do
  body ← join pack_large comms
  attr 32 (bit_or flag_optional flag_transitive) body

abbrev pub packed_v6 : Address → Option Bytes
packed_v6 (ip4 n) = none
packed_v6 (ip6 n) = some (be 16 n)

abbrev pub packed_link_local : Option Address → Option Bytes
packed_link_local none = some []
packed_link_local (some a) = packed_v6 a

unfoldable pub enc_mp_reach_v6_nexthop : Address → Option Address → Option Bytes
enc_mp_reach_v6_nexthop nexthop link_local = do
  global ← packed_v6 nexthop
  local ← packed_link_local link_local
  size ← pack_b (length (global ++ local))
  attr 14 flag_optional (size ++ (global ++ local))

pub record PathAttrs : Type 0 where
  pub as_path : List ℕ
  pub next_hop : Address
  pub med : Option ℕ
  pub origin : ℕ
  pub communities : List (ℕ × ℕ)
  pub large_communities : List (ℕ × ℕ × ℕ)
  pub as_set : List ℕ

abbrev pub encode_med : Option ℕ → Option Bytes
encode_med none = some []
encode_med (some med) = enc_med med

abbrev pub encode_communities : List (ℕ × ℕ) → Option Bytes
encode_communities [] = some []
encode_communities (c ∷ cs) = enc_communities (c ∷ cs)

abbrev pub encode_large : List (ℕ × ℕ × ℕ) → Option Bytes
encode_large [] = some []
encode_large (c ∷ cs) = enc_large_communities (c ∷ cs)

abbrev pub encode_next_hop : Bool → Address → Option Bytes
encode_next_hop true a = enc_mp_reach_v6_nexthop a none
encode_next_hop false a = enc_next_hop_v4 a

-- `PathAttrs.encode`; the Boolean is `v6`.
unfoldable pub encode : Bool → PathAttrs → Option Bytes
encode is_v6 a = do
  origin ← enc_origin a.origin
  path ← enc_as_path a.as_path a.as_set
  next_hop ← encode_next_hop is_v6 a.next_hop
  med ← encode_med a.med
  communities ← encode_communities a.communities
  large ← encode_large a.large_communities
  some (origin ++ (path ++ (next_hop ++ (med ++ (communities ++ large)))))
