-- ===== src/Mrt/Accept/Whole.antt =====
-- A whole file: the checker accepts what `with MrtWriter(path, peers)` leaves, and counts it right.
use vyos_ixp_bgp_stress.Prelude.{
  ℕ, zero, suc, ◌+◌, ◌≤◌, ◌<◌, ◌≡◌, refl, ◌∙◌, ap, true, false, some, List, [], ◌∷◌, ◌++◌, map,
  length, length-append, arith, ◌==◌,
}
use vyos_ixp_bgp_stress.Mrt.Bytes.{Bytes, >>=-eq-some}
use vyos_ixp_bgp_stress.Mrt.Walk.{ok}
use vyos_ixp_bgp_stress.Mrt.Writer.{
  MrtPeer, MrtWriter, mrt_msg, new_writer, peer_table, open_writer, Addition, add_all, write_file,
}
use vyos_ixp_bgp_stress.Mrt.Check.{
  Summary, empty, check_body, check_records, has_peers, expect, check_file,
}
use vyos_ixp_bgp_stress.Mrt.Accept.Peers.{
  peer_entry, peer_family, with_peers, check_peer_table-peer_table,
}
use vyos_ixp_bgp_stress.Mrt.Accept.Files.{
  message, mrt_msg-eq, check_records-message, count_v4, count_v6, count_entries, CanAddAll,
  add_all-accepted,
}

open_writer-file :
    (peers : List MrtPeer) (w : MrtWriter)
    → open_writer (new_writer peers) ≡ some w
    → (body : Bytes) × (peer_table (new_writer peers) ≡ some body)
      × (w.file ≡ message 1700000000 1 body)
unfolding open_writer new_writer
open_writer-file peers w h =
    let (body, e1, h1) = >>=-eq-some (peer_table (new_writer peers)) _ h in
    let (block, e2, h2) = >>=-eq-some (mrt_msg 1 body 1700000000) _ h1 in
    (body, e1, cc (h2, mrt_msg-eq 1 1700000000 body block e2))

-- The state of the checker behind the peer table.
abbrev opened : List MrtPeer → Summary
opened peers = with_peers (record empty { peer_count = length peers; records = 1 }) peers

check_records-file :
    (peers : List MrtPeer) (body tail : Bytes) (s : Summary) (f : ℕ)
    → peer_table (new_writer peers) ≡ some body
    → ((g : ℕ) → length tail ≤ g → check_records g false tail (opened peers) ≡ ok s)
    → length (message 1700000000 1 body ++ tail) ≤ f
    → check_records f true (message 1700000000 1 body ++ tail) empty ≡ ok s
unfolding new_writer check_body
check_records-file peers body tail s zero e accepted room = absurd (omega arith)
check_records-file peers body tail s (suc f) e accepted room =
    let s1 = with_peers (record empty { peer_count = length peers }) peers in
    check_records-message f true 1700000000 1 body tail empty s1 refl
      (check_peer_table-peer_table (new_writer peers) body empty e)
    ∙ accepted f (omega (arith, length-append body tail))

has_peers-map : (peers : List MrtPeer) → 0 < length peers → has_peers (map peer_entry peers) ≡ ok tt
has_peers-map [] h = absurd (omega arith)
has_peers-map (p ∷ ps) h = refl

expect_self : (n m : ℕ) (e : _) → n ≡ m → expect (some m) n e ≡ ok tt
expect_self n m e h = ground arith

check_file-accepts :
    (buf : Bytes) (v4 v6 : ℕ) (s : Summary)
    → 0 < length buf
    → check_records (length buf) true buf empty ≡ ok s
    → has_peers s.peers ≡ ok tt
    → s.prefixes_v4 ≡ v4
    → s.prefixes_v6 ≡ v6
    → check_file buf (some v4) (some v6) ≡ ok s
unfolding check_file
check_file-accepts buf v4 v6 s long checked here e4 e6 =
    let full : (length buf == 0) ≡ false = ground arith in
    simp (full, checked, here, expect_self s.prefixes_v4 v4 _ e4, expect_self s.prefixes_v6 v6 _ e6)

-- A file that the writer leaves without an exception, with at least one peer, where every prefix is
-- of the family of its record and has entries, which name peers of that family by their index. The
-- checker accepts it, the expected prefix counts included, and reports the peers that the writer was
-- given in their order, one record for each addition and one for the peers, and all entries.
pub check_file-write_file :
    (peers : List MrtPeer) (additions : List Addition) (file : Bytes)
    → write_file peers additions ≡ some file
    → 0 < length peers
    → CanAddAll (length peers) (map peer_family peers) additions
    → (s : Summary) × (check_file file (some (count_v4 additions)) (some (count_v6 additions))
        ≡ ok s)
      × (s.peers ≡ map peer_entry peers)
      × (s.records ≡ 1 + length additions)
      × (s.rib_entries ≡ count_entries additions)
unfolding write_file
check_file-write_file peers additions file h some_peers can =
    let (w, e1, h1) = >>=-eq-some (open_writer (new_writer peers)) _ h in
    let (w', e2, h2) = >>=-eq-some (add_all w additions) _ h1 in
    let (body, table, opening) = open_writer-file peers w e1 in
    let (tail, s, grown, all, accepted) = add_all-accepted w w' additions (opened peers) e2 can in
    let shape : file ≡ message 1700000000 1 body ++ tail = cc in
    (
      s,
      rw shape (
          check_file-accepts (message 1700000000 1 body ++ tail) (count_v4 additions)
            (count_v6 additions) s (omega arith)
            (check_records-file peers body tail s _ table accepted (omega arith))
            (ap has_peers all.peers ∙ has_peers-map peers some_peers)
            (omega (arith, all.prefixes_v4)) (omega (arith, all.prefixes_v6))),
      all.peers,
      all.records,
      omega (arith, all.rib_entries),
    )
