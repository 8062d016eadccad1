-- ===== src/Mrt/Accept/Peers.antt =====
-- The PEER_INDEX_TABLE: the checker reads back the peers that the writer was given.
use vyos_ixp_bgp_stress.Prelude.{
  ℕ, ◌≡◌, refl, ◌∙◌, ap, Bool, true, false, some, List, [], ◌∷◌, ◌++◌, map, append_assoc,
  append-nil, length, length-append, drop, arith, ltb,
}
use vyos_ixp_bgp_stress.Mrt.Bytes.{
  Bytes, >>=-eq-some, be, length-be, pack_h, pack_i, pack_h-eq, pack_i-eq, join, two_bytes,
  four_bytes, u16-two_bytes, u32-four_bytes,
}
use vyos_ixp_bgp_stress.Mrt.Attrs.{Address, ip4, ip6}
use vyos_ixp_bgp_stress.Mrt.Walk.{ok, slice-exact, peer_truncated}
use vyos_ixp_bgp_stress.Mrt.Writer.{MrtPeer, packed, peer_type, encode_peer, MrtWriter, peer_table}
use vyos_ixp_bgp_stress.Mrt.Check.{Summary, read_asn, read_peer, read_peers, check_peer_table}
use vyos_ixp_bgp_stress.Mrt.Accept.Ribs.{is_ip6}

read_asn-four_bytes :
    (asn : ℕ) (rest : Bytes) → read_asn true (four_bytes asn ++ rest) ≡ ok (asn, rest)
unfolding read_asn
read_asn-four_bytes asn rest = rw (u32-four_bytes asn)

drop_four : (n : ℕ) (rest : Bytes) → drop 4 (be 4 n ++ rest) ≡ rest
unfolding be
drop_four n rest = refl

read_peer-shape :
    (ip : Address) (id asn : ℕ) (rest : Bytes)
    → read_peer (peer_type ip ∷ (be 4 id ++ (packed ip ++ (four_bytes asn ++ rest))))
      ≡ ok ((is_ip6 ip, packed ip, asn), rest)
unfolding read_peer
read_peer-shape (ip4 n) id asn rest = simp (
  drop_four,
  slice-exact 4 (be 4 n) (four_bytes asn ++ rest) peer_truncated (length-be 4 n),
  read_asn-four_bytes,
)
read_peer-shape (ip6 n) id asn rest = simp (
  drop_four,
  slice-exact 16 (be 16 n) (four_bytes asn ++ rest) peer_truncated (length-be 16 n),
  read_asn-four_bytes,
)

-- What the checker keeps of a peer.
abbrev pub peer_entry : MrtPeer → Bytes × ℕ
peer_entry p = (packed p.ip, p.asn)

abbrev pub peer_family : MrtPeer → Bool
peer_family p = is_ip6 p.ip

read_peer-encode_peer :
    (p : MrtPeer) (block rest : Bytes)
    → encode_peer p ≡ some block
    → read_peer (block ++ rest) ≡ ok ((peer_family p, packed p.ip, p.asn), rest)
unfolding encode_peer
read_peer-encode_peer p block rest h =
    let (asn, e, h1) = >>=-eq-some (pack_i p.asn) _ h in
    let (_, four) = pack_i-eq p.asn asn e in
    let shape : block ++ rest
        ≡ peer_type p.ip ∷ (be 4 p.bgp_id ++ (packed p.ip ++ (four_bytes p.asn ++ rest))) =
      cc (
        four,
        h1,
        append_assoc (be 4 p.bgp_id) (packed p.ip ++ asn) rest,
        append_assoc (packed p.ip) asn rest,
      ) in
    rw shape (read_peer-shape p.ip p.bgp_id p.asn rest)

-- All peers of the table.
abbrev pub with_peers : Summary → List MrtPeer → Summary
with_peers s ps = record s {
  peers = s.peers ++ map peer_entry ps;
  peer_afi = s.peer_afi ++ map peer_family ps;
}

read_peers-join :
    (ps : List MrtPeer) (body rest : Bytes) (s : Summary)
    → join encode_peer ps ≡ some body
    → read_peers (length ps) (body ++ rest) s ≡ ok (with_peers s ps, rest)
unfolding join read_peers
read_peers-join [] body rest s h = ground (arith, append-nil s.peers, append-nil s.peer_afi)
read_peers-join (p ∷ ps) body rest s h =
    let (block, first, h1) = >>=-eq-some (encode_peer p) _ h in
    let (tail, later, h2) = >>=-eq-some (join encode_peer ps) _ h1 in
    let shape : body ++ rest ≡ block ++ (tail ++ rest) = cc (append_assoc block tail rest) in
    let s1 : Summary = record s {
      peers = s.peers ++ peer_entry p ∷ [];
      peer_afi = s.peer_afi ++ peer_family p ∷ [];
    } in
    rw (shape, read_peer-encode_peer p block (tail ++ rest) first)
      (read_peers-join ps tail rest s1 later ∙ ap (λ t. ok (t, rest)) (regroup p ps s))
  where
    regroup :
        (q : MrtPeer) (qs : List MrtPeer) (t : Summary)
        → with_peers
            (record t {
              peers = t.peers ++ peer_entry q ∷ [];
              peer_afi = t.peer_afi ++ peer_family q ∷ [];
            })
            qs
          ≡ with_peers t (q ∷ qs)
    regroup q qs t = cc (
      append_assoc t.peers (peer_entry q ∷ []) (map peer_entry qs),
      append_assoc t.peer_afi (peer_family q ∷ []) (map peer_family qs),
    )

table_shape :
    (w : MrtWriter) (body : Bytes)
    → peer_table w ≡ some body
    → (tail : Bytes) × (join encode_peer w.peers ≡ some tail)
      × (body
          ≡ be 4 0
            ++ (two_bytes (length w.view_name)
                ++ (w.view_name ++ (two_bytes (length w.peers) ++ tail))))
unfolding peer_table
table_shape w body h =
    let (name_size, e1, h1) = >>=-eq-some (pack_h (length w.view_name)) _ h in
    let (count, e2, h2) = >>=-eq-some (pack_h (length w.peers)) _ h1 in
    let (tail, e3, h3) = >>=-eq-some (join encode_peer w.peers) _ h2 in
    let (_, n) = pack_h-eq (length w.view_name) name_size e1 in
    let (_, c) = pack_h-eq (length w.peers) count e2 in (tail, e3, cc)

drop-append : (xs ys : Bytes) → drop (length xs) (xs ++ ys) ≡ ys
drop-append [] ys = refl
drop-append (x ∷ xs) ys = drop-append xs ys

check_peer_table-shape :
    (name tail : Bytes) (n : ℕ) (s s' : Summary)
    → read_peers n tail (record s { peer_count = n }) ≡ ok (s', [])
    → check_peer_table (be 4 0 ++ (two_bytes (length name) ++ (name ++ (two_bytes n ++ tail)))) s
      ≡ ok s'
unfolding check_peer_table
check_peer_table-shape name tail n s s' checked =
    let long : ltb (length (be 4 0 ++ (two_bytes (length name) ++ (name ++ (two_bytes n ++ tail)))))
          6
        ≡ false =
      ground (
        arith,
        length-append (be 4 0) (two_bytes (length name) ++ (name ++ (two_bytes n ++ tail))),
        length-be 4 0,
      ) in
    simp (long, drop_four, u16-two_bytes, drop-append, checked)

-- The checker accepts the table that the writer put together, and keeps its peers in order.
pub check_peer_table-peer_table :
    (w : MrtWriter) (body : Bytes) (s : Summary)
    → peer_table w ≡ some body
    → check_peer_table body s ≡ ok (with_peers (record s { peer_count = length w.peers }) w.peers)
check_peer_table-peer_table w body s h =
    let (tail, joined, shape) = table_shape w body h in
    let s0 : Summary = record s { peer_count = length w.peers } in
    rw shape (
      check_peer_table-shape w.view_name tail (length w.peers) s (with_peers s0 w.peers)
        (rw (append-nil tail) at (read_peers-join w.peers tail [] s0 joined)))
