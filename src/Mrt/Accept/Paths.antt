-- ===== src/Mrt/Accept/Paths.antt =====
-- AS_PATH and MP_REACH_NLRI, and all attributes of `encode` together.
use vyos_ixp_bgp_stress.Prelude.{
  ℕ, zero, suc, ◌*◌, ◌≤◌, ◌<◌, ◌≡◌, refl, sym, subst, ◌∙◌, Bool, true, false, Option, none, some,
  List, [], ◌∷◌, ◌++◌, append_assoc, append-nil, length, length-append, arith, if◌then◌else◌,
}
use vyos_ixp_bgp_stress.Mrt.Bytes.{
  Bytes, be, length-be, ◌>>=◌, >>=-eq-some, pack_b, pack_i, pack_b-eq, pack_i-eq, join, length-join,
}
use vyos_ixp_bgp_stress.Mrt.Attrs.{
  Address, ip4, ip6, attr, segment, enc_as_path, enc_mp_reach_v6_nexthop, PathAttrs, encode_med,
  encode_communities, encode_large, encode_next_hop, encode, enc_origin,
}
use vyos_ixp_bgp_stress.Mrt.Walk.{
  ok, slice-exact, check_value, walk_segments, walk, walk_attributes,
}
use vyos_ixp_bgp_stress.Mrt.Check.{has_code}
use vyos_ixp_bgp_stress.Mrt.Accept.Blocks.{Walks, Walks-nil, Walks-append, Walks-attr}
use vyos_ixp_bgp_stress.Mrt.Accept.Attrs.{
  check_next_hop_v6, Walks-enc_origin, Walks-enc_next_hop_v4, Walks-enc_med, Walks-enc_communities,
  Walks-enc_large,
}

-- A block that the loop over the segments consumes whole.
abbrev Segments : Bytes → Type 0
Segments block =
    (f : ℕ) (rest : Bytes)
    → length (block ++ rest) ≤ f
    → (g : ℕ) × (length rest ≤ g) × (walk_segments f (block ++ rest) ≡ walk_segments g rest)

Segments-append : (a b : Bytes) → Segments a → Segments b → Segments (a ++ b)
Segments-append a b sa sb f rest h =
    let (g, room, e) = sa f (b ++ rest) (rw (← append_assoc a b rest) h) in
    let (k, room', e') = sb g rest room in (k, room', rw (append_assoc a b rest) (e ∙ e'))

Segments-cons :
    (type n : ℕ) (body : Bytes)
    → 0 < type
    → type ≤ 4
    → length body ≡ n * 4
    → Segments (type ∷ n ∷ body)
unfolding walk_segments
Segments-cons type n body low high size zero rest h = absurd (omega arith)
Segments-cons type n body low high size (suc f) rest h = (
  f,
  omega (arith, length-append body rest),
  simp (slice-exact (n * 4) body rest _ size) (ground arith),
)

length-pack_i : (n : ℕ) (b : Bytes) → pack_i n ≡ some b → length b ≡ 4
length-pack_i n b h = rw (pack_i-eq n b h).1 refl

Segments-nil : (block : Bytes) → block ≡ [] → Segments block
Segments-nil block e f rest h = (f, rw e at h, rw e refl)

Segments-segment :
    (type : ℕ) (asns : List ℕ) (block : Bytes)
    → 0 < type
    → type ≤ 4
    → segment type asns ≡ some block
    → Segments block
unfolding segment
Segments-segment type [] block low high h = Segments-nil block (cc)
Segments-segment type (asn ∷ asns) block low high h =
    let items = asn ∷ asns in
    let (size, sized, more) =
      >>=-eq-some (pack_b (length items))
        (λ size. join pack_i items >>= λ body. some (type ∷ (size ++ body))) h in
    let (body, joined, done) =
      >>=-eq-some (join pack_i items) (λ body. some (type ∷ (size ++ body))) more in
    let (_, one) = pack_b-eq (length items) size sized in
    let shape : block ≡ type ∷ length items ∷ body = cc (one, done) in
    rw shape (
      Segments-cons type (length items) body low high
        (length-join 4 pack_i length-pack_i items body joined))

check_as_path : (is_v6 : Bool) (value : Bytes) → Segments value → check_value is_v6 2 value ≡ ok tt
unfolding check_value walk_segments
check_as_path is_v6 value seg =
    let (g, room, e) = seg (length value) [] (rw (append-nil value) (omega arith)) in
    rw (append-nil value) at e

Walks-enc_as_path :
    (is_v6 : Bool) (asns set : List ℕ) (block : Bytes)
    → enc_as_path asns set ≡ some block
    → Walks is_v6 block (2 ∷ [])
unfolding enc_as_path
Walks-enc_as_path is_v6 asns set block h =
    let (a, first, more) =
      >>=-eq-some (segment 2 asns) (λ a. segment 1 set >>= λ b. attr 2 0x40 (a ++ b)) h in
    let (b, second, e) = >>=-eq-some (segment 1 set) (λ b. attr 2 0x40 (a ++ b)) more in
    let whole =
      Segments-append a b (Segments-segment 2 asns a (omega arith) (omega arith) first)
        (Segments-segment 1 set b (omega arith) (omega arith) second) in
    Walks-attr is_v6 2 0x40 (a ++ b) block refl refl (check_as_path is_v6 (a ++ b) whole) e

Walks-enc_mp_reach :
    (is_v6 : Bool) (a : Address) (block : Bytes)
    → enc_mp_reach_v6_nexthop a none ≡ some block
    → Walks is_v6 block (14 ∷ [])
unfolding enc_mp_reach_v6_nexthop
Walks-enc_mp_reach is_v6 (ip4 n) block h = cc
Walks-enc_mp_reach is_v6 (ip6 n) block h =
    let nh = be 16 n ++ [] in
    let (size, sized, e) = >>=-eq-some (pack_b (length nh)) (λ size. attr 14 0x80 (size ++ nh)) h in
    let (_, one) = pack_b-eq (length nh) size sized in
    Walks-attr is_v6 14 0x80 (length nh ∷ nh) block refl refl
      (check_next_hop_v6 is_v6 nh (rw (append-nil (be 16 n)) (length-be 16 n))) (rw one at e)

-- The block is consumed whole, with some codes.
abbrev Consumed : Bool → Bytes → Type 0
Consumed is_v6 block = (codes : List ℕ) × Walks is_v6 block codes

Consumed-nil : (is_v6 : Bool) (block : Bytes) → block ≡ [] → Consumed is_v6 block
Consumed-nil is_v6 block e = ([], rw e (Walks-nil is_v6))

Consumed-encode_med :
    (is_v6 : Bool) (o : Option ℕ) (block : Bytes) → encode_med o ≡ some block → Consumed is_v6 block
Consumed-encode_med is_v6 none block h = Consumed-nil is_v6 block (cc)
Consumed-encode_med is_v6 (some med) block h = (4 ∷ [], Walks-enc_med is_v6 med block h)

Consumed-encode_communities :
    (is_v6 : Bool) (cs : List (ℕ × ℕ)) (block : Bytes)
    → encode_communities cs ≡ some block
    → Consumed is_v6 block
Consumed-encode_communities is_v6 [] block h = Consumed-nil is_v6 block (cc)
Consumed-encode_communities is_v6 (c ∷ cs) block h =
    (8 ∷ [], Walks-enc_communities is_v6 (c ∷ cs) block h)

Consumed-encode_large :
    (is_v6 : Bool) (cs : List (ℕ × ℕ × ℕ)) (block : Bytes)
    → encode_large cs ≡ some block
    → Consumed is_v6 block
Consumed-encode_large is_v6 [] block h = Consumed-nil is_v6 block (cc)
Consumed-encode_large is_v6 (c ∷ cs) block h = (32 ∷ [], Walks-enc_large is_v6 (c ∷ cs) block h)

-- The attribute that carries the next hop.
abbrev pub next_hop_code : Bool → ℕ
next_hop_code is_v6 = if is_v6 then 14 else 3

Walks-encode_next_hop :
    (is_v6 : Bool) (a : Address) (block : Bytes)
    → encode_next_hop is_v6 a ≡ some block
    → Walks is_v6 block (next_hop_code is_v6 ∷ [])
Walks-encode_next_hop true a block h = Walks-enc_mp_reach true a block h
Walks-encode_next_hop false a block h = Walks-enc_next_hop_v4 false a block h

has_code-append : (c : ℕ) (xs ys : List ℕ) → has_code c ys ≡ true → has_code c (xs ++ ys) ≡ true
has_code-append c [] ys h = h
has_code-append c (x ∷ xs) ys h = ground (arith, has_code-append c xs ys h)

-- Everything that `encode` concatenates.
record Parts (is_v6 : Bool) (a : PathAttrs) (block : Bytes) : Type 0 where
  origin : Bytes
  path : Bytes
  next_hop : Bytes
  med : Bytes
  communities : Bytes
  large : Bytes
  origin_eq : enc_origin a.origin ≡ some origin
  path_eq : enc_as_path a.as_path a.as_set ≡ some path
  next_hop_eq : encode_next_hop is_v6 a.next_hop ≡ some next_hop
  med_eq : encode_med a.med ≡ some med
  communities_eq : encode_communities a.communities ≡ some communities
  large_eq : encode_large a.large_communities ≡ some large
  whole : block ≡ origin ++ (path ++ (next_hop ++ (med ++ (communities ++ large))))

Parts-encode :
    (is_v6 : Bool) (a : PathAttrs) (block : Bytes)
    → encode is_v6 a ≡ some block
    → Parts is_v6 a block
unfolding encode
Parts-encode is_v6 a block h =
    let (origin, e1, h1) = >>=-eq-some (enc_origin a.origin) _ h in
    let (path, e2, h2) = >>=-eq-some (enc_as_path a.as_path a.as_set) _ h1 in
    let (next_hop, e3, h3) = >>=-eq-some (encode_next_hop is_v6 a.next_hop) _ h2 in
    let (med, e4, h4) = >>=-eq-some (encode_med a.med) _ h3 in
    let (communities, e5, h5) = >>=-eq-some (encode_communities a.communities) _ h4 in
    let (large, e6, h6) = >>=-eq-some (encode_large a.large_communities) _ h5 in
    record {
      origin = origin;
      path = path;
      next_hop = next_hop;
      med = med;
      communities = communities;
      large = large;
      origin_eq = e1;
      path_eq = e2;
      next_hop_eq = e3;
      med_eq = e4;
      communities_eq = e5;
      large_eq = e6;
      whole = cc;
    }

has_code-left : (c : ℕ) (xs ys : List ℕ) → has_code c xs ≡ true → has_code c (xs ++ ys) ≡ true
has_code-left c [] ys h = cc
has_code-left c (x ∷ xs) ys h = ground (arith, has_code-left c xs ys)

Walks-encode :
    (is_v6 : Bool) (a : PathAttrs) (block : Bytes)
    → encode is_v6 a ≡ some block
    → (codes : List ℕ) × Walks is_v6 block codes × (has_code (next_hop_code is_v6) codes ≡ true)
Walks-encode is_v6 a block h =
    let p = Parts-encode is_v6 a block h in
    let (m, wm) = Consumed-encode_med is_v6 a.med p.med p.med_eq in
    let (c, wc) = Consumed-encode_communities is_v6 a.communities p.communities p.communities_eq in
    let (l, wl) = Consumed-encode_large is_v6 a.large_communities p.large p.large_eq in
    let nh = next_hop_code is_v6 ∷ [] in
    let w1 = Walks-append is_v6 p.communities p.large c l wc wl in
    let w2 = Walks-append is_v6 p.med _ m (l ++ c) wm w1 in
    let w3 =
      Walks-append is_v6 p.next_hop _ nh ((l ++ c) ++ m)
        (Walks-encode_next_hop is_v6 a.next_hop p.next_hop p.next_hop_eq) w2 in
    let x = ((l ++ c) ++ m) ++ nh in
    let w4 =
      Walks-append is_v6 p.path _ (2 ∷ []) x
        (Walks-enc_as_path is_v6 a.as_path a.as_set p.path p.path_eq) w3 in
    let w5 =
      Walks-append is_v6 p.origin _ (1 ∷ []) (x ++ (2 ∷ []))
        (Walks-enc_origin is_v6 a.origin p.origin p.origin_eq) w4 in
    (
      (x ++ (2 ∷ [])) ++ (1 ∷ []),
      subst (λ b. Walks is_v6 b ((x ++ (2 ∷ [])) ++ (1 ∷ []))) (sym p.whole) w5,
      has_code-left (next_hop_code is_v6) (x ++ (2 ∷ [])) (1 ∷ []) (
          has_code-left (next_hop_code is_v6) x (2 ∷ []) (
            has_code-append (next_hop_code is_v6) ((l ++ c) ++ m) nh
              (unit_code (next_hop_code is_v6)))),
    )
  where
    unit_code : (n : ℕ) → has_code n (n ∷ []) ≡ true
    unit_code n = ground arith

-- Whatever `PathAttrs.encode` yields without an exception, the checker walks it whole, finds no
-- fault in any attribute, and finds the attribute that carries the next hop: MP_REACH_NLRI of the
-- reduced form for IPv6 and NEXT_HOP for IPv4.
pub walk_attributes-encode :
    (is_v6 : Bool) (a : PathAttrs) (block : Bytes)
    → encode is_v6 a ≡ some block
    → (codes : List ℕ) × (walk_attributes is_v6 block ≡ ok codes)
      × (has_code (next_hop_code is_v6) codes ≡ true)
unfolding walk_attributes walk
walk_attributes-encode is_v6 a block h =
    let (codes, w, found) = Walks-encode is_v6 a block h in
    let (g, room, e) = w (length block) [] [] (rw (append-nil block) (omega arith)) in
    (codes, (rw (append-nil block, append-nil codes) at e), found)
