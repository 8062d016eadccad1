-- ===== src/Mrt/Accept/Ribs.antt =====
-- RIB records: the checker reads back what `MrtWriter._add` wrote.
use vyos_ixp_bgp_stress.Prelude.{
  ℕ, zero, suc, ◌+◌, ◌-◌, ◌/◌, ◌≤◌, ◌<◌, ◌≡◌, refl, subst, ap, Bool, true, false, some, List, [],
  ◌∷◌, ◌++◌, append-nil, length, length-append, take, All, arith, ltb, ◌==◌, if◌then◌else◌, max,
}
use vyos_ixp_bgp_stress.Mrt.Bytes.{
  Bytes, >>=-eq-some, length-be, pack_b, pack_h, pack_i, pack_b-eq, pack_h-eq, pack_i-eq, join,
  two_bytes, four_bytes, u16-two_bytes,
}
use vyos_ixp_bgp_stress.Mrt.Attrs.{Address, ip4, ip6}
use vyos_ixp_bgp_stress.Mrt.Walk.{ok, slice-exact, prefix_truncated}
use vyos_ixp_bgp_stress.Mrt.Writer.{
  Prefix, network, mask, pack_prefix, Entry, entry_bytes, MrtWriter, rib_body,
}
use vyos_ixp_bgp_stress.Mrt.Check.{Summary, check_entries, check_rib, count_prefix, zeros}
use vyos_ixp_bgp_stress.Mrt.Accept.Entries.{Grown, NamesPeer, check_entries-join}

-- `s'` has one prefix and `n` entries more than `s`.
pub record Added (is_v6 : Bool) (n : ℕ) (s s' : Summary) : Type 0 where
  pub records : s'.records ≡ s.records
  pub peers : s'.peers ≡ s.peers
  pub peer_afi : s'.peer_afi ≡ s.peer_afi
  pub peer_count : s'.peer_count ≡ s.peer_count
  pub prefixes_v4 : s'.prefixes_v4 ≡ s.prefixes_v4 + (if is_v6 then 0 else 1)
  pub prefixes_v6 : s'.prefixes_v6 ≡ s.prefixes_v6 + (if is_v6 then 1 else 0)
  pub rib_entries : s'.rib_entries ≡ s.rib_entries + n

abbrev pub is_ip6 : Address → Bool
is_ip6 (ip4 n) = false
is_ip6 (ip6 n) = true

length-take : (n : ℕ) (xs : Bytes) → n ≤ length xs → length (take n xs) ≡ n
length-take zero xs h = refl
length-take (suc n) [] h = elim h [ ]
length-take (suc n) (x ∷ xs) h = ap suc (length-take n xs (omega arith))

abbrev width : Bool → ℕ
width is_v6 = if is_v6 then 128 else 32

network_fits :
    (p : Prefix) (a : Address) (packed : Bytes)
    → network p a ≡ some packed
    → (p.len ≤ width (is_ip6 a)) × ((p.len + 7) / 8 ≤ length packed)
network_fits p (ip4 n) packed h = ground (arith, length-be 4 (mask (32 - p.len) n))
network_fits p (ip6 n) packed h = ground (arith, length-be 16 (mask (128 - p.len) n))

pack_prefix_fits :
    (p : Prefix) (plen : ℕ) (praw : Bytes)
    → pack_prefix p ≡ some (plen, praw)
    → (plen ≤ width (is_ip6 p.address)) × (length praw ≡ (plen + 7) / 8)
unfolding pack_prefix
pack_prefix_fits p plen praw h =
    let (packed, e, h1) = >>=-eq-some (network p p.address) _ h in
    let (low, room) = network_fits p p.address packed e in
    ground (arith, length-take ((p.len + 7) / 8) packed room, low, h1)

rib_shape :
    (is_v6 : Bool) (w : MrtWriter) (p : Prefix) (entries : List Entry) (body : Bytes)
    → rib_body is_v6 w p entries ≡ some body
    → (plen : ℕ) × (praw : Bytes) × (tail : Bytes) × (pack_prefix p ≡ some (plen, praw))
      × (join (entry_bytes is_v6 w.timestamp) entries ≡ some tail)
      × (body ≡ four_bytes w.seq ++ (plen ∷ (praw ++ (two_bytes (length entries) ++ tail))))
unfolding rib_body
rib_shape is_v6 w p entries body h =
    let (pair, e0, h0) = >>=-eq-some (pack_prefix p) _ h in
    let (seq, e1, h1) = >>=-eq-some (pack_i w.seq) _ h0 in
    let (len, e2, h2) = >>=-eq-some (pack_b pair.0) _ h1 in
    let (count, e3, h3) = >>=-eq-some (pack_h (length entries)) _ h2 in
    let (tail, e4, h4) = >>=-eq-some (join (entry_bytes is_v6 w.timestamp) entries) _ h3 in
    let (_, q) = pack_i-eq w.seq seq e1 in
    let (_, l) = pack_b-eq pair.0 len e2 in
    let (_, c) = pack_h-eq (length entries) count e3 in (pair.0, pair.1, tail, e0, e4, cc)

check_rib-shape :
    (is_v6 : Bool) (seq plen n : ℕ) (praw tail : Bytes) (s s' : Summary)
    → plen ≤ width is_v6
    → length praw ≡ (plen + 7) / 8
    → 0 < n
    → check_entries is_v6 n tail
        (record (count_prefix is_v6
          (praw ++ zeros ((if is_v6 then 16 else 4) - (plen + 7) / 8))
          plen
          s) {
            max_entries_per_prefix =
                max
                  (count_prefix is_v6
                    (praw ++ zeros ((if is_v6 then 16 else 4) - (plen + 7) / 8))
                    plen
                    s).max_entries_per_prefix
                  n;
          })
      ≡ ok (s', [])
    → check_rib is_v6 (four_bytes seq ++ (plen ∷ (praw ++ (two_bytes n ++ tail)))) s ≡ ok s'
unfolding check_rib
check_rib-shape is_v6 seq plen n praw tail s s' fits size some_entries checked =
    let long : ltb (length (four_bytes seq ++ (plen ∷ (praw ++ (two_bytes n ++ tail))))) 7 ≡ false =
      ground (arith, length-append praw (two_bytes n ++ tail)) in
    let short : ltb (if is_v6 then 128 else 32) plen ≡ false = ground arith in
    let positive : (n == 0) ≡ false = ground arith in
    simp (
      long,
      short,
      slice-exact ((plen + 7) / 8) praw (two_bytes n ++ tail) prefix_truncated size,
      u16-two_bytes,
      positive,
      checked,
    )

Added-Grown :
    (is_v6 : Bool) (padded : Bytes) (plen m n : ℕ) (s s' : Summary)
    → Grown n (record (count_prefix is_v6 padded plen s) { max_entries_per_prefix = m }) s'
    → Added is_v6 n s s'
Added-Grown true padded plen m n s s' g = record {
  records = g.records;
  peers = g.peers;
  peer_afi = g.peer_afi;
  peer_count = g.peer_count;
  prefixes_v4 = omega (arith, g.prefixes_v4);
  prefixes_v6 = g.prefixes_v6;
  rib_entries = g.rib_entries;
}
Added-Grown false padded plen m n s s' g = record {
  records = g.records;
  peers = g.peers;
  peer_afi = g.peer_afi;
  peer_count = g.peer_count;
  prefixes_v4 = g.prefixes_v4;
  prefixes_v6 = omega (arith, g.prefixes_v6);
  rib_entries = g.rib_entries;
}

peers-count_prefix :
    (is_v6 : Bool) (padded : Bytes) (plen : ℕ) (s : Summary)
    → ((count_prefix is_v6 padded plen s).peer_count ≡ s.peer_count)
      × ((count_prefix is_v6 padded plen s).peer_afi ≡ s.peer_afi)
peers-count_prefix true padded plen s = (refl, refl)
peers-count_prefix false padded plen s = (refl, refl)

-- A prefix of the family of the record, and entries that name peers of that family.
pub record CanAdd (is_v6 : Bool) (count : ℕ) (afi : List Bool) (p : Prefix) (entries : List Entry)
    : Type 0 where
  pub family : is_ip6 p.address ≡ is_v6
  pub some_entries : 0 < length entries
  pub known : All (NamesPeer is_v6 count afi) entries

-- The checker accepts the body of a RIB record that the writer put together without an exception.
pub check_rib-rib_body :
    (is_v6 : Bool) (w : MrtWriter) (p : Prefix) (entries : List Entry) (body : Bytes) (s : Summary)
    → rib_body is_v6 w p entries ≡ some body
    → CanAdd is_v6 s.peer_count s.peer_afi p entries
    → (s' : Summary) × (check_rib is_v6 body s ≡ ok s') × Added is_v6 (length entries) s s'
check_rib-rib_body is_v6 w p entries body s h can =
    let (plen, praw, tail, packed, joined, shape) = rib_shape is_v6 w p entries body h in
    let (fits, size) = pack_prefix_fits p plen praw packed in
    let padded = praw ++ zeros ((if is_v6 then 16 else 4) - (plen + 7) / 8) in
    let c = count_prefix is_v6 padded plen s in
    let m = max c.max_entries_per_prefix (length entries) in
    let s1 : Summary = record c { max_entries_per_prefix = m } in
    let (count_eq, afi_eq) = peers-count_prefix is_v6 padded plen s in
    let (s2, checked, g) =
      check_entries-join is_v6 w.timestamp entries tail [] s1 joined
        (rw (count_eq, afi_eq) can.known) in
    (
      s2,
      rw shape (
          check_rib-shape is_v6 w.seq plen (length entries) praw tail s s2
            (subst (λ b. plen ≤ width b) can.family fits) size can.some_entries
            (rw (append-nil tail) at checked)),
      Added-Grown is_v6 padded plen m (length entries) s s2 g,
    )
