-- ===== src/Mrt/Accept/Entries.antt =====
-- RIB entries: the checker reads back what `entry_bytes` wrote.
use vyos_ixp_bgp_stress.Prelude.{
  ℕ, suc, ◌+◌, ◌<◌, ◌≡◌, refl, ◌∙◌, Bool, true, false, not, ◌&&◌, some, List, [], ◌∷◌, ◌++◌,
  append_assoc, length, get_elem?, All, arith, leb,
}
use vyos_ixp_bgp_stress.Mrt.Bytes.{
  Bytes, >>=-eq-some, pack_h, pack_i, pack_h-eq, pack_i-eq, join, two_bytes, four_bytes,
  u16-two_bytes,
}
use vyos_ixp_bgp_stress.Mrt.Attrs.{PathAttrs, encode}
use vyos_ixp_bgp_stress.Mrt.Walk.{ok, slice-append, walk_attributes}
use vyos_ixp_bgp_stress.Mrt.Writer.{Entry, entry_bytes}
use vyos_ixp_bgp_stress.Mrt.Check.{
  Summary, entry_header, check_entry, check_entries, has_code, afi_of, differs,
}
use vyos_ixp_bgp_stress.Mrt.Accept.Paths.{next_hop_code, walk_attributes-encode}

-- `s'` has `n` more entries than `s`, and the same counters otherwise.
pub record Grown (n : ℕ) (s s' : Summary) : Type 0 where
  pub records : s'.records ≡ s.records
  pub peers : s'.peers ≡ s.peers
  pub peer_afi : s'.peer_afi ≡ s.peer_afi
  pub peer_count : s'.peer_count ≡ s.peer_count
  pub prefixes_v4 : s'.prefixes_v4 ≡ s.prefixes_v4
  pub prefixes_v6 : s'.prefixes_v6 ≡ s.prefixes_v6
  pub rib_entries : s'.rib_entries ≡ s.rib_entries + n

-- The entry names a peer of the table whose address is of the family of the record.
abbrev pub NamesPeer : Bool → ℕ → List Bool → Entry → Type 0
NamesPeer is_v6 count afi e = (e.0 < count) × (get_elem? afi e.0 ≡ some is_v6)

entry_shape :
    (is_v6 : Bool) (ts peer : ℕ) (attrs : PathAttrs) (block : Bytes)
    → entry_bytes is_v6 ts (peer, attrs) ≡ some block
    → (enc : Bytes) × (encode is_v6 attrs ≡ some enc)
      × (block ≡ two_bytes peer ++ (four_bytes ts ++ (two_bytes (length enc) ++ enc)))
unfolding entry_bytes
entry_shape is_v6 ts peer attrs block h =
    let (enc, e1, h1) = >>=-eq-some (encode is_v6 attrs) _ h in
    let (index, e2, h2) = >>=-eq-some (pack_h peer) _ h1 in
    let (time, e3, h3) = >>=-eq-some (pack_i ts) _ h2 in
    let (size, e4, h4) = >>=-eq-some (pack_h (length enc)) _ h3 in
    let (_, i) = pack_h-eq peer index e2 in
    let (_, t) = pack_i-eq ts time e3 in
    let (_, z) = pack_h-eq (length enc) size e4 in (enc, e1, cc)

differs_self : (b : Bool) → differs b b ≡ false
differs_self true = refl
differs_self false = refl

-- The two tests for the attribute with the next hop.
next_hop_found :
    (is_v6 : Bool) (codes : List ℕ)
    → has_code (next_hop_code is_v6) codes ≡ true
    → ((is_v6 && not (has_code 14 codes)) ≡ false) × ((not is_v6 && not (has_code 3 codes)) ≡ false)
next_hop_found true codes h = ground arith
next_hop_found false codes h = ground arith

afi_of-some : (afi : List Bool) (i : ℕ) (b : Bool) → get_elem? afi i ≡ some b → afi_of afi i ≡ ok b
unfolding afi_of
afi_of-some afi i b h = ground arith

check_entry-shape :
    (is_v6 : Bool) (ts peer : ℕ) (enc rest : Bytes) (codes : List ℕ) (s : Summary)
    → walk_attributes is_v6 enc ≡ ok codes
    → has_code (next_hop_code is_v6) codes ≡ true
    → peer < s.peer_count
    → get_elem? s.peer_afi peer ≡ some is_v6
    → check_entry is_v6
        (two_bytes peer ++ (four_bytes ts ++ (two_bytes (length enc) ++ (enc ++ rest))))
        s
      ≡ ok (record s { attr_codes = codes ++ s.attr_codes; rib_entries = s.rib_entries + 1 }, rest)
unfolding check_entry entry_header
check_entry-shape is_v6 ts peer enc rest codes s walked found known afi =
    let in_table : leb s.peer_count peer ≡ false = ground arith in
    let (a, b) = next_hop_found is_v6 codes found in
    simp (
      u16-two_bytes,
      in_table,
      afi_of-some s.peer_afi peer is_v6 afi,
      differs_self,
      slice-append,
      walked,
      a,
      b,
    )

pub check_entry-entry_bytes :
    (is_v6 : Bool) (ts : ℕ) (e : Entry) (block rest : Bytes) (s : Summary)
    → entry_bytes is_v6 ts e ≡ some block
    → NamesPeer is_v6 s.peer_count s.peer_afi e
    → (s' : Summary) × (check_entry is_v6 (block ++ rest) s ≡ ok (s', rest)) × Grown 1 s s'
check_entry-entry_bytes is_v6 ts (peer, attrs) block rest s h (known, afi) =
    let (enc, encoded, shape) = entry_shape is_v6 ts peer attrs block h in
    let (codes, walked, found) = walk_attributes-encode is_v6 attrs enc encoded in
    (
      record s { attr_codes = codes ++ s.attr_codes; rib_entries = s.rib_entries + 1 },
      rw shape (check_entry-shape is_v6 ts peer enc rest codes s walked found known afi),
      record {
        records = refl;
        peers = refl;
        peer_afi = refl;
        peer_count = refl;
        prefixes_v4 = refl;
        prefixes_v6 = refl;
        rib_entries = refl;
      },
    )

Grown-trans :
    (m n k : ℕ) (s s' s'' : Summary) → m + n ≡ k → Grown m s s' → Grown n s' s'' → Grown k s s''
Grown-trans m n k s s' s'' e a b = record {
  records = b.records ∙ a.records;
  peers = b.peers ∙ a.peers;
  peer_afi = b.peer_afi ∙ a.peer_afi;
  peer_count = b.peer_count ∙ a.peer_count;
  prefixes_v4 = b.prefixes_v4 ∙ a.prefixes_v4;
  prefixes_v6 = b.prefixes_v6 ∙ a.prefixes_v6;
  rib_entries = omega (arith, a.rib_entries, b.rib_entries);
}

-- All entries of one record.
pub check_entries-join :
    (is_v6 : Bool) (ts : ℕ) (entries : List Entry) (body rest : Bytes) (s : Summary)
    → join (entry_bytes is_v6 ts) entries ≡ some body
    → All (NamesPeer is_v6 s.peer_count s.peer_afi) entries
    → (s' : Summary) × (check_entries is_v6 (length entries) (body ++ rest) s ≡ ok (s', rest))
      × Grown (length entries) s s'
unfolding join check_entries
check_entries-join is_v6 ts [] body rest s h known = (
  s,
  ground arith,
  record {
    records = refl;
    peers = refl;
    peer_afi = refl;
    peer_count = refl;
    prefixes_v4 = refl;
    prefixes_v6 = refl;
    rib_entries = omega arith;
  },
)
check_entries-join is_v6 ts (e ∷ es) body rest s h known =
    let (block, first, h1) = >>=-eq-some (entry_bytes is_v6 ts e) _ h in
    let (tail, later, h2) = >>=-eq-some (join (entry_bytes is_v6 ts) es) _ h1 in
    let (s1, checked, g1) =
      check_entry-entry_bytes is_v6 ts e block (tail ++ rest) s first known.0 in
    let (s2, checked_all, g2) =
      check_entries-join is_v6 ts es tail rest s1 later (rw (g1.peer_count, g1.peer_afi) known.1) in
    let shape : body ++ rest ≡ block ++ (tail ++ rest) = cc (append_assoc block tail rest) in
    (
      s2,
      rw (shape, checked) checked_all,
      Grown-trans 1 (length es) (suc (length es)) s s1 s2 (omega arith) g1 g2,
    )
