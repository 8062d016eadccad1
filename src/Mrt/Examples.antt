-- ===== src/Mrt/Examples.antt =====
-- A small file with two peers and a prefix of each family, and the theorems at this input.
use vyos_ixp_bgp_stress.Prelude.{
  ℕ, ◌≡◌, refl, true, false, Option, none, some, List, [], ◌∷◌, map, arith,
}
use vyos_ixp_bgp_stress.Mrt.Bytes.{Bytes, be, pack_b, pack_h, pack_i, join}
use vyos_ixp_bgp_stress.Mrt.Attrs.{
  ip4, ip6, PathAttrs, attr, enc_origin, segment, enc_as_path, enc_next_hop_v4, enc_med,
  pack_community, enc_communities, pack_large, enc_large_communities, enc_mp_reach_v6_nexthop,
  encode,
}
use vyos_ixp_bgp_stress.Mrt.Walk.{ok, walk_attributes}
use vyos_ixp_bgp_stress.Mrt.Writer.{
  MrtPeer, Addition, mrt_msg, pack_prefix, encode_peer, new_writer, peer_table, open_writer,
  entry_bytes, rib_body, add, add_all, write_file,
}
use vyos_ixp_bgp_stress.Mrt.Check.{Summary, has_code, check_file}
use vyos_ixp_bgp_stress.Mrt.Accept.Paths.{walk_attributes-encode}
use vyos_ixp_bgp_stress.Mrt.Accept.Peers.{peer_entry, peer_family}
use vyos_ixp_bgp_stress.Mrt.Accept.Files.{CanAddAll}
use vyos_ixp_bgp_stress.Mrt.Accept.Whole.{check_file-write_file}
use vyos_ixp_bgp_stress.Mrt.Fuel.{ran_out}
use vyos_ixp_bgp_stress.Mrt.Fuel.File.{check_file-fuel}

abbrev attrs_v4 : PathAttrs
attrs_v4 = record {
  as_path = 64496 ∷ 64497 ∷ [];
  next_hop = ip4 3232235521;
  med = some 5;
  origin = 0;
  communities = (64496, 100) ∷ [];
  large_communities = (64496, 1, 2) ∷ [];
  as_set = [];
}

abbrev attrs_v6 : PathAttrs
attrs_v6 = record attrs_v4 { next_hop = ip6 42540766411282592856903984951653826561; med = none }

abbrev or_empty : Option Bytes → Bytes
or_empty none = []
or_empty (some b) = b

abbrev block_v6 : Bytes
unfolding encode enc_origin enc_as_path segment enc_mp_reach_v6_nexthop enc_communities
    pack_community enc_large_communities pack_large attr join pack_b pack_h pack_i be
block_v6 = or_empty (encode true attrs_v6)

block_v6-encode : encode true attrs_v6 ≡ some block_v6
unfolding block_v6
block_v6-encode = refl

walk_attributes-encode_example :
    (codes : List ℕ) × (walk_attributes true block_v6 ≡ ok codes) × (has_code 14 codes ≡ true)
walk_attributes-encode_example = walk_attributes-encode true attrs_v6 block_v6 block_v6-encode

abbrev peers : List MrtPeer
peers =
    record { ip = ip4 3232235521; asn = 64496; bgp_id = 167772161 }
    ∷ record {
      ip = ip6 42540766411282592856903984951653826561;
      asn = 4200000000;
      bgp_id = 167772162;
    }
    ∷ []

abbrev additions : List Addition
additions =
    record {
      is_v6 = false;
      prefix = record { address = ip4 3405803776; len = 24 };
      entries = (0, attrs_v4) ∷ [];
    }
    ∷ record {
      is_v6 = true;
      prefix = record { address = ip6 42540766411282592856903984951653826560; len = 48 };
      entries = (1, attrs_v6) ∷ [];
    }
    ∷ []

abbrev file : Bytes
unfolding write_file open_writer new_writer peer_table encode_peer add_all add rib_body entry_bytes
    pack_prefix mrt_msg encode enc_origin enc_as_path segment enc_next_hop_v4 enc_med
    enc_mp_reach_v6_nexthop enc_communities pack_community enc_large_communities pack_large attr
    join pack_b pack_h pack_i be
file = or_empty (write_file peers additions)

file-write_file : write_file peers additions ≡ some file
unfolding file
file-write_file = refl

can_add : CanAddAll 2 (map peer_family peers) additions
can_add = (
  record { family = refl; some_entries = omega arith; known = ((omega arith, refl), tt) },
  (record { family = refl; some_entries = omega arith; known = ((omega arith, refl), tt) }, tt),
)

check_file-write_file_example :
    (s : Summary) × (check_file file (some 1) (some 1) ≡ ok s)
    × (s.peers ≡ map peer_entry peers)
    × (s.records ≡ 3)
    × (s.rib_entries ≡ 2)
check_file-write_file_example =
    check_file-write_file peers additions file file-write_file (omega arith) can_add

check_file-fuel_example : ran_out (check_file (0 ∷ 0 ∷ 0 ∷ 0 ∷ 0 ∷ 13 ∷ []) (some 1) none) ≡ false
check_file-fuel_example = check_file-fuel (0 ∷ 0 ∷ 0 ∷ 0 ∷ 0 ∷ 13 ∷ []) (some 1) none
