-- ===== src/Mrt/Accept/Attrs.antt =====
-- Each `enc_…` function yields an attribute that the checker consumes, and so does `encode`.
use vyos_ixp_bgp_stress.Prelude.{ℕ, ◌*◌, ◌≡◌, refl, Bool, some, List, [], ◌∷◌, length, arith}
use vyos_ixp_bgp_stress.Mrt.Bytes.{
  Bytes, be, length-be, >>=-eq-some, pack_b, pack_h, pack_i, pack_b-eq, pack_i-eq, join,
  length-join,
}
use vyos_ixp_bgp_stress.Mrt.Attrs.{
  Address, ip4, ip6, attr, enc_origin, enc_next_hop_v4, enc_med, pack_community, enc_communities,
  pack_large, enc_large_communities,
}
use vyos_ixp_bgp_stress.Mrt.Walk.{ok, check_value, check_mp_reach}
use vyos_ixp_bgp_stress.Mrt.Accept.Blocks.{Walks, Walks-attr}

check_origin : (v6 : Bool) (x : ℕ) → check_value v6 1 (x ∷ []) ≡ ok tt
unfolding check_value
check_origin v6 x = refl

check_next_hop : (v6 : Bool) (value : Bytes) → length value ≡ 4 → check_value v6 3 value ≡ ok tt
unfolding check_value
check_next_hop v6 value h = ground arith

check_med : (v6 : Bool) (value : Bytes) → length value ≡ 4 → check_value v6 4 value ≡ ok tt
unfolding check_value
check_med v6 value h = ground arith

check_communities :
    (v6 : Bool) (n : ℕ) (value : Bytes) → length value ≡ n * 4 → check_value v6 8 value ≡ ok tt
unfolding check_value
check_communities v6 n value h = ground arith

check_large :
    (v6 : Bool) (n : ℕ) (value : Bytes) → length value ≡ n * 12 → check_value v6 32 value ≡ ok tt
unfolding check_value
check_large v6 n value h = ground arith

pub check_next_hop_v6 :
    (v6 : Bool) (nh : Bytes) → length nh ≡ 16 → check_value v6 14 (length nh ∷ nh) ≡ ok tt
unfolding check_value check_mp_reach
check_next_hop_v6 v6 nh h = ground arith

pub Walks-enc_origin :
    (v6 : Bool) (origin : ℕ) (block : Bytes)
    → enc_origin origin ≡ some block
    → Walks v6 block (1 ∷ [])
unfolding enc_origin
Walks-enc_origin v6 origin block h =
    let (body, packed, e) = >>=-eq-some (pack_b origin) (attr 1 0x40) h in
    let (_, one) = pack_b-eq origin body packed in
    Walks-attr v6 1 0x40 body block refl refl (rw one (check_origin v6 origin)) e

pub Walks-enc_next_hop_v4 :
    (is_v6 : Bool) (a : Address) (block : Bytes)
    → enc_next_hop_v4 a ≡ some block
    → Walks is_v6 block (3 ∷ [])
unfolding enc_next_hop_v4
Walks-enc_next_hop_v4 is_v6 (ip4 n) block h =
    Walks-attr is_v6 3 0x40 (be 4 n) block refl refl (check_next_hop is_v6 (be 4 n) (length-be 4 n))
      h
Walks-enc_next_hop_v4 is_v6 (ip6 n) block h = cc

pub Walks-enc_med :
    (v6 : Bool) (med : ℕ) (block : Bytes) → enc_med med ≡ some block → Walks v6 block (4 ∷ [])
unfolding enc_med
Walks-enc_med v6 med block h =
    let (body, packed, e) = >>=-eq-some (pack_i med) (attr 4 0x80) h in
    let (_, four) = pack_i-eq med body packed in
    Walks-attr v6 4 0x80 body block refl refl (check_med v6 body (rw four refl)) e

length-pack_community : (c : ℕ × ℕ) (b : Bytes) → pack_community c ≡ some b → length b ≡ 4
unfolding pack_community pack_h
length-pack_community (x, y) b h = ground arith

length-pack_large : (c : ℕ × ℕ × ℕ) (b : Bytes) → pack_large c ≡ some b → length b ≡ 12
unfolding pack_large pack_i
length-pack_large (x, y, z) b h = ground arith

pub Walks-enc_communities :
    (v6 : Bool) (cs : List (ℕ × ℕ)) (block : Bytes)
    → enc_communities cs ≡ some block
    → Walks v6 block (8 ∷ [])
unfolding enc_communities
Walks-enc_communities v6 cs block h =
    let (body, packed, e) = >>=-eq-some (join pack_community cs) (attr 8 0xC0) h in
    Walks-attr v6 8 0xC0 body block refl refl
      (check_communities v6 (length cs) body
        (length-join 4 pack_community length-pack_community cs body packed))
      e

pub Walks-enc_large :
    (v6 : Bool) (cs : List (ℕ × ℕ × ℕ)) (block : Bytes)
    → enc_large_communities cs ≡ some block
    → Walks v6 block (32 ∷ [])
unfolding enc_large_communities
Walks-enc_large v6 cs block h =
    let (body, packed, e) = >>=-eq-some (join pack_large cs) (attr 32 0xC0) h in
    Walks-attr v6 32 0xC0 body block refl refl
      (check_large v6 (length cs) body (length-join 12 pack_large length-pack_large cs body packed))
      e
