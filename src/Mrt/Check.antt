-- ===== src/Mrt/Check.antt =====
-- `check_file` of tests/mrtcheck.py. The offset into the file is the list of the bytes that are left.
-- In the summary an address is its packed bytes and a set of codes is a list.
use Prim.Native.Nat.{bit_and}
use vyos_ixp_bgp_stress.Prelude.{
  ℕ, zero, suc, ◌+◌, ◌-◌, ◌/◌, Bool, true, false, not, ◌&&◌, ◌||◌, Option, none, some, List, [],
  ◌∷◌, ◌++◌, length, drop, get_elem?, ltb, leb, ◌==◌, if◌then◌else◌, max,
}
use vyos_ixp_bgp_stress.Mrt.Bytes.{Bytes, u16, u32}
use vyos_ixp_bgp_stress.Mrt.Walk.{
  Result, ok, err, MrtError, ◌>>=◌, ◌>>◌, refuse, slice, walk_attributes, file_empty,
  mrt_header_truncated, record_truncated, mrt_type, first_subtype, peer_table_short,
  peer_count_truncated, peer_type_truncated, peer_truncated, peer_table_excess, rib_short,
  prefix_length, prefix_truncated, entry_count_truncated, entry_count_zero, entry_header_truncated,
  peer_index, peer_family, attributes_truncated, no_mp_reach, no_next_hop, entries_excess,
  subtype_unexpected, no_peers, wrong_count_v4, wrong_count_v6, index_error, out_of_fuel,
}

-- `MrtSummary` with the two locals that go with it, `peer_afi` (true is IPv6) and `peer_count`.
pub record Summary : Type 0 where
  pub records : ℕ
  pub peers : List (Bytes × ℕ)
  pub prefixes_v4 : ℕ
  pub prefixes_v6 : ℕ
  pub rib_entries : ℕ
  pub attr_codes : List ℕ
  pub max_entries_per_prefix : ℕ
  pub first_prefix_v4 : Option (Bytes × ℕ)
  pub first_prefix_v6 : Option (Bytes × ℕ)
  pub peer_afi : List Bool
  pub peer_count : ℕ

abbrev pub empty : Summary
empty = record {
  records = 0;
  peers = [];
  prefixes_v4 = 0;
  prefixes_v6 = 0;
  rib_entries = 0;
  attr_codes = [];
  max_entries_per_prefix = 0;
  first_prefix_v4 = none;
  first_prefix_v6 = none;
  peer_afi = [];
  peer_count = 0;
}

abbrev pub bit_set : ℕ → ℕ → Bool
bit_set flags bit = not (bit_and flags bit == 0)

-- A 4-byte or a 2-byte ASN.
unfoldable pub read_asn : Bool → Bytes → Result (ℕ × Bytes)
read_asn true (a ∷ b ∷ c ∷ d ∷ rest) = ok (u32 a b c d, rest)
read_asn false (a ∷ b ∷ rest) = ok (u16 a b, rest)
read_asn _ _ = err peer_truncated

-- One peer of the table: its family, its address and its ASN. The BGP id is skipped.
unfoldable pub read_peer : Bytes → Result ((Bool × Bytes × ℕ) × Bytes)
read_peer [] = err peer_type_truncated
read_peer (ptype ∷ rest) =
    let is6 = bit_set ptype 0x01 in
    let as4 = bit_set ptype 0x02 in
    do
      (raw, more) ← slice (if is6 then 16 else 4) (drop 4 rest) peer_truncated
      (asn, left) ← read_asn as4 more
      ok ((is6, raw, asn), left)

unfoldable pub read_peers : ℕ → Bytes → Summary → Result (Summary × Bytes)
read_peers zero p s = ok (s, p)
read_peers (suc n) p s = do
  ((is6, raw, asn), rest) ← read_peer p
  read_peers n rest
      (record s { peers = s.peers ++ (raw, asn) ∷ []; peer_afi = s.peer_afi ++ is6 ∷ [] })

abbrev pub take_u16 : Bytes → MrtError → Result (ℕ × Bytes)
take_u16 (a ∷ b ∷ rest) e = ok (u16 a b, rest)
take_u16 _ e = err e

abbrev pub nothing_left : Bytes → MrtError → Result (Unit {0})
nothing_left [] e = ok tt
nothing_left (x ∷ xs) e = err e

-- A PEER_INDEX_TABLE record.
unfoldable pub check_peer_table : Bytes → Summary → Result Summary
check_peer_table body s = do
  refuse (ltb (length body) 6) peer_table_short
  (vlen, p) ← take_u16 (drop 4 body) peer_table_short
  (count, peers) ← take_u16 (drop vlen p) peer_count_truncated
  (s', left) ← read_peers count peers (record s { peer_count = count })
  nothing_left left peer_table_excess
  ok s'

abbrev pub has_code : ℕ → List ℕ → Bool
has_code c [] = false
has_code c (x ∷ xs) = x == c || has_code c xs

unfoldable pub afi_of : List Bool → ℕ → Result Bool
afi_of afi i = elim (get_elem? afi i) [ none ↦ err index_error | some b ↦ ok b ]

abbrev pub differs : Bool → Bool → Bool
differs true b = not b
differs false b = b

-- The header of a RIB entry: peer index and attribute length; the time is skipped.
unfoldable pub entry_header : Bytes → Result ((ℕ × ℕ) × Bytes)
entry_header (i ∷ j ∷ _ ∷ _ ∷ _ ∷ _ ∷ m ∷ n ∷ rest) = ok ((u16 i j, u16 m n), rest)
entry_header _ = err entry_header_truncated

unfoldable pub check_entry : Bool → Bytes → Summary → Result (Summary × Bytes)
check_entry v6 p s = do
  ((pidx, alen), rest) ← entry_header p
  refuse (leb s.peer_count pidx) peer_index
  afi ← afi_of s.peer_afi pidx
  refuse (differs v6 afi) peer_family
  (attrs, more) ← slice alen rest attributes_truncated
  codes ← walk_attributes v6 attrs
  refuse (v6 && not (has_code 14 codes)) no_mp_reach
  refuse (not v6 && not (has_code 3 codes)) no_next_hop
  ok (record s { attr_codes = codes ++ s.attr_codes; rib_entries = s.rib_entries + 1 }, more)

unfoldable pub check_entries : Bool → ℕ → Bytes → Summary → Result (Summary × Bytes)
check_entries v6 zero p s = ok (s, p)
check_entries v6 (suc n) p s = do (s', rest) ← check_entry v6 p s; check_entries v6 n rest s'

abbrev pub zeros : ℕ → Bytes
zeros zero = []
zeros (suc n) = 0 ∷ zeros n

abbrev pub or_first : Option (Bytes × ℕ) → Bytes × ℕ → Option (Bytes × ℕ)
or_first none p = some p
or_first (some q) p = some q

abbrev pub count_prefix : Bool → Bytes → ℕ → Summary → Summary
count_prefix true padded plen s = record s {
  prefixes_v6 = s.prefixes_v6 + 1;
  first_prefix_v6 = or_first s.first_prefix_v6 (padded, plen);
}
count_prefix false padded plen s = record s {
  prefixes_v4 = s.prefixes_v4 + 1;
  first_prefix_v4 = or_first s.first_prefix_v4 (padded, plen);
}

abbrev pub take_u8 : Bytes → MrtError → Result (ℕ × Bytes)
take_u8 (a ∷ rest) e = ok (a, rest)
take_u8 _ e = err e

-- A RIB_IPV4_UNICAST or RIB_IPV6_UNICAST record.
unfoldable pub check_rib : Bool → Bytes → Summary → Result Summary
check_rib v6 body s = do
  refuse (ltb (length body) 7) rib_short
  (plen, p) ← take_u8 (drop 4 body) rib_short
  refuse (ltb (if v6 then 128 else 32) plen) prefix_length
  (praw, rest) ← slice ((plen + 7) / 8) p prefix_truncated
  let padded = praw ++ zeros ((if v6 then 16 else 4) - (plen + 7) / 8)
  let s1 = count_prefix v6 padded plen s
  (ecount, entries) ← take_u16 rest entry_count_truncated
  refuse (ecount == 0) entry_count_zero
  (s2, left) ←
      check_entries v6 ecount entries
        (record s1 { max_entries_per_prefix = max s1.max_entries_per_prefix ecount })
  nothing_left left entries_excess
  ok s2

-- The MRT header: type, subtype and length of the body; the time is skipped.
unfoldable pub mrt_header : Bytes → Result ((ℕ × ℕ × ℕ) × Bytes)
mrt_header (_ ∷ _ ∷ _ ∷ _ ∷ ta ∷ tb ∷ sa ∷ sb ∷ a ∷ b ∷ c ∷ d ∷ rest) =
    ok ((u16 ta tb, u16 sa sb, u32 a b c d), rest)
mrt_header _ = err mrt_header_truncated

unfoldable pub check_body : ℕ → Bytes → Summary → Result Summary
check_body subtype body s =
    if subtype == 1
    then check_peer_table body s
    else if subtype == 2
    then check_rib false body s
    else if subtype == 4
    then check_rib true body s
    else err subtype_unexpected

-- One round of the loop over the records; the Boolean is `first`.
unfoldable pub check_record : Bool → Bytes → Summary → Result (Summary × Bytes)
check_record first buf s = do
  ((rtype, subtype, size), rest) ← mrt_header buf
  (body, more) ← slice size rest record_truncated
  refuse (not (rtype == 13)) mrt_type
  refuse (first && not (subtype == 1)) first_subtype
  s' ← check_body subtype body s
  ok (record s' { records = s'.records + 1 }, more)

unfoldable pub check_records : ℕ → Bool → Bytes → Summary → Result Summary
check_records fuel first [] s = ok s
check_records zero first (x ∷ buf) s = err out_of_fuel
check_records (suc f) first (x ∷ buf) s = do
  (s', rest) ← check_record first (x ∷ buf) s
  check_records f false rest s'

abbrev pub expect : Option ℕ → ℕ → MrtError → Result (Unit {0})
expect none n e = ok tt
expect (some m) n e = refuse (not (n == m)) e

abbrev pub has_peers : List (Bytes × ℕ) → Result (Unit {0})
has_peers [] = err no_peers
has_peers (p ∷ ps) = ok tt

unfoldable pub check_file : Bytes → Option ℕ → Option ℕ → Result Summary
check_file buf expect_v4 expect_v6 = do
  refuse (length buf == 0) file_empty
  s ← check_records (length buf) true buf empty
  has_peers s.peers
  expect expect_v4 s.prefixes_v4 wrong_count_v4
  expect expect_v6 s.prefixes_v6 wrong_count_v6
  ok s
