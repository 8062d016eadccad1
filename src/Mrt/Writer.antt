-- ===== src/Mrt/Writer.antt =====
-- The streaming writer of harness/routegen.py: `_mrt_msg`, `_pack_prefix`, `MrtPeer.encode` and
-- `MrtWriter`. The file is the bytes written so far. `none` is an exception, after which the `with`
-- block is left.
use vyos_ixp_bgp_stress.Prelude.{
  ℕ, ◌+◌, ◌-◌, ◌*◌, ◌/◌, ◌^◌, Bool, true, false, Option, none, some, List, [], ◌∷◌, ◌++◌, length,
  take, ltb, if◌then◌else◌,
}
use vyos_ixp_bgp_stress.Mrt.Bytes.{Bytes, ◌>>=◌, be, two_bytes, pack_b, pack_h, pack_i, join}
use vyos_ixp_bgp_stress.Mrt.Attrs.{Address, ip4, ip6, PathAttrs, encode}

abbrev pub table_dump_v2 : ℕ
table_dump_v2 = 13

abbrev pub sub_peer_index_table : ℕ
sub_peer_index_table = 1

abbrev pub sub_rib_ipv4_unicast : ℕ
sub_rib_ipv4_unicast = 2

abbrev pub sub_rib_ipv6_unicast : ℕ
sub_rib_ipv6_unicast = 4

-- Type and subtype are constants of the module.
unfoldable pub mrt_msg : ℕ → Bytes → ℕ → Option Bytes
mrt_msg subtype body timestamp = do
  time ← pack_i timestamp
  size ← pack_i (length body)
  some (time ++ (two_bytes table_dump_v2 ++ (two_bytes subtype ++ (size ++ body))))

-- A prefix as it is written: the address may have host bits.
pub record Prefix : Type 0 where
  pub address : Address
  pub len : ℕ

abbrev pub mask : ℕ → ℕ → ℕ
mask bits n = n / 2 ^ bits * 2 ^ bits

-- `net.network_address.packed`; `ip_network` refuses a length over the address width.
abbrev pub network : Prefix → Address → Option Bytes
network p (ip4 n) = if ltb 32 p.len then none else some (be 4 (mask (32 - p.len) n))
network p (ip6 n) = if ltb 128 p.len then none else some (be 16 (mask (128 - p.len) n))

unfoldable pub pack_prefix : Prefix → Option (ℕ × Bytes)
pack_prefix p = do packed ← network p p.address; some (p.len, take ((p.len + 7) / 8) packed)

pub record MrtPeer : Type 0 where
  pub ip : Address
  pub asn : ℕ
  pub bgp_id : ℕ

abbrev pub peer_type : Address → ℕ
peer_type (ip4 n) = 0x02
peer_type (ip6 n) = 0x03

abbrev pub packed : Address → Bytes
packed (ip4 n) = be 4 n
packed (ip6 n) = be 16 n

unfoldable pub encode_peer : MrtPeer → Option Bytes
encode_peer p = do
  asn ← pack_i p.asn
  some (peer_type p.ip ∷ (be 4 p.bgp_id ++ (packed p.ip ++ asn)))

pub record MrtWriter : Type 0 where
  pub peers : List MrtPeer
  pub timestamp : ℕ
  pub view_name : Bytes
  pub seq : ℕ
  pub file : Bytes

-- `MrtWriter(path, peers)` with its default timestamp and view name.
unfoldable pub new_writer : List MrtPeer → MrtWriter
new_writer peers = record {
  peers = peers;
  timestamp = 1700000000;
  view_name = [];
  seq = 0;
  file = [];
}

unfoldable pub peer_table : MrtWriter → Option Bytes
peer_table w = do
  name_size ← pack_h (length w.view_name)
  count ← pack_h (length w.peers)
  peers ← join encode_peer w.peers
  some (be 4 0 ++ (name_size ++ (w.view_name ++ (count ++ peers))))

unfoldable pub open_writer : MrtWriter → Option MrtWriter
open_writer w = do
  body ← peer_table w
  message ← mrt_msg sub_peer_index_table body w.timestamp
  some (record w { file = message })

-- One RIB entry: the index of the peer, the attributes.
abbrev pub Entry : Type 0
Entry = ℕ × PathAttrs

unfoldable pub entry_bytes : Bool → ℕ → Entry → Option Bytes
entry_bytes is_v6 timestamp (peer, attrs) = do
  enc ← encode is_v6 attrs
  index ← pack_h peer
  time ← pack_i timestamp
  size ← pack_h (length enc)
  some (index ++ (time ++ (size ++ enc)))

unfoldable pub rib_body : Bool → MrtWriter → Prefix → List Entry → Option Bytes
rib_body is_v6 w prefix entries = do
  (plen, praw) ← pack_prefix prefix
  seq ← pack_i w.seq
  len ← pack_b plen
  count ← pack_h (length entries)
  body ← join (entry_bytes is_v6 w.timestamp) entries
  some (seq ++ (len ++ (praw ++ (count ++ body))))

abbrev pub rib_subtype : Bool → ℕ
rib_subtype true = sub_rib_ipv6_unicast
rib_subtype false = sub_rib_ipv4_unicast

-- `_add`, and with it `add_v4` (false) and `add_v6` (true).
unfoldable pub add : Bool → MrtWriter → Prefix → List Entry → Option MrtWriter
add is_v6 w prefix entries = do
  body ← rib_body is_v6 w prefix entries
  message ← mrt_msg (rib_subtype is_v6) body w.timestamp
  some (record w { seq = w.seq + 1; file = w.file ++ message })

-- One call of `add_v4` or `add_v6`.
pub record Addition : Type 0 where
  pub is_v6 : Bool
  pub prefix : Prefix
  pub entries : List Entry

unfoldable pub add_all : MrtWriter → List Addition → Option MrtWriter
add_all w [] = some w
add_all w (a ∷ rest) = do w' ← add a.is_v6 w a.prefix a.entries; add_all w' rest

-- A `with MrtWriter(path, peers) as w:` block that makes these calls: the file that it leaves.
unfoldable pub write_file : List MrtPeer → List Addition → Option Bytes
write_file peers additions = do
  w ← open_writer (new_writer peers)
  w' ← add_all w additions
  some w'.file
