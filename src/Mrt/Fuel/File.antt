-- ===== src/Mrt/Fuel/File.antt =====
-- The loop of `check_file` over the records has fuel enough.
use vyos_ixp_bgp_stress.Prelude.{
  ℕ, zero, suc, ◌+◌, ◌/◌, ◌≤◌, ◌<◌, ◌≡◌, refl, Bool, true, false, not, ◌&&◌, Option, none, some,
  List, [], ◌∷◌, length, drop, arith, ltb, leb, ◌==◌, if◌then◌else◌,
}
use vyos_ixp_bgp_stress.Mrt.Bytes.{Bytes, split_at}
use vyos_ixp_bgp_stress.Mrt.Walk.{
  MrtError, Result, ok, err, ◌>>=◌, ◌>>◌, refuse, slice, file_empty, record_truncated, mrt_type,
  first_subtype, peer_table_short, peer_count_truncated, peer_truncated, peer_table_excess,
  rib_short, prefix_length, prefix_truncated, entry_count_truncated, entry_count_zero, peer_index,
  peer_family, attributes_truncated, no_mp_reach, no_next_hop, entries_excess, wrong_count_v4,
  wrong_count_v6,
}
use vyos_ixp_bgp_stress.Mrt.Check.{
  Summary, empty, read_asn, read_peer, read_peers, take_u16, take_u8, nothing_left,
  check_peer_table, afi_of, entry_header, check_entry, check_entries, has_code, differs, check_rib,
  mrt_header, check_body, check_record, check_records, expect, has_peers, check_file,
}
use vyos_ixp_bgp_stress.Mrt.Fuel.{
  is_out, ran_out, refuse-fuel, slice-fuel, split_at-length, walk_attributes-fuel,
}

bind-fuel :
    {A B : Type 0} (m : Result A) (k : A → Result B)
    → ran_out m ≡ false
    → ((a : A) → ran_out (k a) ≡ false)
    → ran_out (m >>= k) ≡ false
bind-fuel (ok a) k h each = each a
bind-fuel (err e) k h each = h

cut-fuel : (n : ℕ) (xs : Bytes) (e : MrtError) → is_out e ≡ false → ran_out (slice n xs e) ≡ false
cut-fuel n xs e h = rw (← unit (slice n xs e)) (slice-fuel n xs e (λ p. ok p) h (λ a b l. refl))
  where
    unit : (m : Result (Bytes × Bytes)) → (m >>= λ p. ok p) ≡ m
    unit (ok p) = refl
    unit (err e) = refl

take_u16-fuel : (xs : Bytes) (e : MrtError) → is_out e ≡ false → ran_out (take_u16 xs e) ≡ false
take_u16-fuel [] e h = h
take_u16-fuel (a ∷ []) e h = h
take_u16-fuel (a ∷ b ∷ rest) e h = refl

take_u8-fuel : (xs : Bytes) (e : MrtError) → is_out e ≡ false → ran_out (take_u8 xs e) ≡ false
take_u8-fuel [] e h = h
take_u8-fuel (a ∷ rest) e h = refl

nothing_left-fuel :
    (xs : Bytes) (e : MrtError) → is_out e ≡ false → ran_out (nothing_left xs e) ≡ false
nothing_left-fuel [] e h = refl
nothing_left-fuel (a ∷ rest) e h = h

read_asn-fuel : (four : Bool) (xs : Bytes) → ran_out (read_asn four xs) ≡ false
unfolding read_asn
read_asn-fuel true [] = refl
read_asn-fuel true (a ∷ []) = refl
read_asn-fuel true (a ∷ b ∷ []) = refl
read_asn-fuel true (a ∷ b ∷ c ∷ []) = refl
read_asn-fuel true (a ∷ b ∷ c ∷ d ∷ rest) = refl
read_asn-fuel false [] = refl
read_asn-fuel false (a ∷ []) = refl
read_asn-fuel false (a ∷ b ∷ rest) = refl

read_peer-fuel : (xs : Bytes) → ran_out (read_peer xs) ≡ false
unfolding read_peer
read_peer-fuel [] = refl
read_peer-fuel (t ∷ rest) =
    bind-fuel _ _ (cut-fuel _ (drop 4 rest) peer_truncated refl)
      (λ p. bind-fuel _ _ (read_asn-fuel _ p.1) (λ q. refl))

read_peers-fuel : (n : ℕ) (xs : Bytes) (s : Summary) → ran_out (read_peers n xs s) ≡ false
unfolding read_peers
read_peers-fuel zero xs s = refl
read_peers-fuel (suc n) xs s =
    bind-fuel (read_peer xs) _ (read_peer-fuel xs) (λ p. read_peers-fuel n p.1 _)

check_peer_table-fuel : (body : Bytes) (s : Summary) → ran_out (check_peer_table body s) ≡ false
unfolding check_peer_table
check_peer_table-fuel body s = refuse-fuel _ peer_table_short _ refl (
    bind-fuel _ _ (take_u16-fuel (drop 4 body) peer_table_short refl) (λ v.
      bind-fuel _ _ (take_u16-fuel (drop v.0 v.1) peer_count_truncated refl) (λ c.
        bind-fuel _ _ (read_peers-fuel c.0 c.1 _)
          (λ r. bind-fuel _ _ (nothing_left-fuel r.1 peer_table_excess refl) (λ u. refl)))))

afi_of-fuel : (afi : List Bool) (i : ℕ) → ran_out (afi_of afi i) ≡ false
unfolding afi_of
afi_of-fuel [] i = refl
afi_of-fuel (b ∷ rest) zero = refl
afi_of-fuel (b ∷ rest) (suc i) = afi_of-fuel rest i

entry_header-fuel : (xs : Bytes) → ran_out (entry_header xs) ≡ false
unfolding entry_header
entry_header-fuel [] = refl
entry_header-fuel (a ∷ []) = refl
entry_header-fuel (a ∷ b ∷ []) = refl
entry_header-fuel (a ∷ b ∷ c ∷ []) = refl
entry_header-fuel (a ∷ b ∷ c ∷ d ∷ []) = refl
entry_header-fuel (a ∷ b ∷ c ∷ d ∷ e ∷ []) = refl
entry_header-fuel (a ∷ b ∷ c ∷ d ∷ e ∷ f ∷ []) = refl
entry_header-fuel (a ∷ b ∷ c ∷ d ∷ e ∷ f ∷ g ∷ []) = refl
entry_header-fuel (a ∷ b ∷ c ∷ d ∷ e ∷ f ∷ g ∷ h ∷ rest) = refl

check_entry-fuel : (v6 : Bool) (xs : Bytes) (s : Summary) → ran_out (check_entry v6 xs s) ≡ false
unfolding check_entry
check_entry-fuel v6 xs s = bind-fuel _ _ (entry_header-fuel xs) (λ h.
    refuse-fuel (leb s.peer_count h.0.0) peer_index _ refl (
      bind-fuel _ _ (afi_of-fuel s.peer_afi h.0.0) (λ afi.
        refuse-fuel (differs v6 afi) peer_family _ refl (
          bind-fuel _ _ (cut-fuel h.0.1 h.1 attributes_truncated refl) (λ a.
            bind-fuel _ _ (walk_attributes-fuel v6 a.0) (λ codes.
              refuse-fuel {B = Summary × Bytes} (v6 && not (has_code 14 codes)) no_mp_reach _ refl (
                refuse-fuel {B = Summary × Bytes} (not v6 && not (has_code 3 codes)) no_next_hop _
                  refl refl)))))))

check_entries-fuel :
    (v6 : Bool) (n : ℕ) (xs : Bytes) (s : Summary) → ran_out (check_entries v6 n xs s) ≡ false
unfolding check_entries
check_entries-fuel v6 zero xs s = refl
check_entries-fuel v6 (suc n) xs s =
    bind-fuel _ _ (check_entry-fuel v6 xs s) (λ r. check_entries-fuel v6 n r.1 r.0)

check_rib-fuel : (v6 : Bool) (body : Bytes) (s : Summary) → ran_out (check_rib v6 body s) ≡ false
unfolding check_rib
check_rib-fuel v6 body s = refuse-fuel (ltb (length body) 7) rib_short _ refl (
    bind-fuel _ _ (take_u8-fuel (drop 4 body) rib_short refl) (λ l.
      refuse-fuel (ltb (if v6 then 128 else 32) l.0) prefix_length _ refl (
        bind-fuel _ _ (cut-fuel ((l.0 + 7) / 8) l.1 prefix_truncated refl) (λ p.
          bind-fuel _ _ (take_u16-fuel p.1 entry_count_truncated refl) (λ c.
            refuse-fuel (c.0 == 0) entry_count_zero _ refl (
              bind-fuel _ _ (check_entries-fuel v6 c.0 c.1 _)
                (λ r. bind-fuel _ _ (nothing_left-fuel r.1 entries_excess refl) (λ u. refl))))))))

check_body-fuel :
    (subtype : ℕ) (body : Bytes) (s : Summary) → ran_out (check_body subtype body s) ≡ false
unfolding check_body
check_body-fuel subtype body s =
    ground
      (arith, check_peer_table-fuel body s, check_rib-fuel false body s, check_rib-fuel true body s)

-- The fuel is not gone, and `P` holds of what is returned.
abbrev Safe : {A : Type 0} → (A → Type 0) → Result A → Type 0
Safe P (ok a) = P a
Safe P (err e) = is_out e ≡ false

Safe-bind :
    {A B : Type 0} (P : A → Type 0) (Q : B → Type 0) (m : Result A) (k : A → Result B)
    → Safe P m
    → ((a : A) → P a → Safe Q (k a))
    → Safe Q (m >>= k)
Safe-bind P Q (ok a) k h each = each a h
Safe-bind P Q (err e) k h each = h

Safe-refuse :
    {B : Type 0} (Q : B → Type 0) (b : Bool) (e : MrtError) (k : Result B)
    → is_out e ≡ false
    → Safe Q k
    → Safe Q (refuse b e >> k)
Safe-refuse Q true e k h h' = h
Safe-refuse Q false e k h h' = h'

Safe-any : {A : Type 0} (m : Result A) → ran_out m ≡ false → Safe (λ a. Unit {0}) m
Safe-any (ok a) h = tt
Safe-any (err e) h = h

ran_out-Safe :
    {A B : Type 0} (P : A → Type 0) (m : Result A) (k : A → Result B)
    → Safe P m
    → ((a : A) → P a → ran_out (k a) ≡ false)
    → ran_out (m >>= k) ≡ false
ran_out-Safe P (ok a) k h each = each a h
ran_out-Safe P (err e) k h each = h

Safe-split :
    (o : Option (Bytes × Bytes)) (e : MrtError) (size : ℕ)
    → is_out e ≡ false
    → ((a b : Bytes) → o ≡ some (a, b) → length b ≤ size)
    → Safe (λ p. length p.1 ≤ size) (elim o [ none ↦ err e | some p ↦ ok p ])
Safe-split none e size h each = h
Safe-split (some (a, b)) e size h each = each a b refl

Safe-slice :
    (n : ℕ) (xs : Bytes) (e : MrtError)
    → is_out e ≡ false
    → Safe (λ p. length p.1 ≤ length xs) (slice n xs e)
unfolding slice
Safe-slice n xs e h =
    Safe-split (split_at n xs) e (length xs) h (λ a b found. split_at-length n xs a b found)

Safe-mrt_header : (buf : Bytes) → Safe (λ p. length p.1 < length buf) (mrt_header buf)
unfolding mrt_header
Safe-mrt_header [] = refl
Safe-mrt_header (a ∷ []) = refl
Safe-mrt_header (a ∷ b ∷ []) = refl
Safe-mrt_header (a ∷ b ∷ c ∷ []) = refl
Safe-mrt_header (a ∷ b ∷ c ∷ d ∷ []) = refl
Safe-mrt_header (a ∷ b ∷ c ∷ d ∷ e ∷ []) = refl
Safe-mrt_header (a ∷ b ∷ c ∷ d ∷ e ∷ f ∷ []) = refl
Safe-mrt_header (a ∷ b ∷ c ∷ d ∷ e ∷ f ∷ g ∷ []) = refl
Safe-mrt_header (a ∷ b ∷ c ∷ d ∷ e ∷ f ∷ g ∷ h ∷ []) = refl
Safe-mrt_header (a ∷ b ∷ c ∷ d ∷ e ∷ f ∷ g ∷ h ∷ i ∷ []) = refl
Safe-mrt_header (a ∷ b ∷ c ∷ d ∷ e ∷ f ∷ g ∷ h ∷ i ∷ j ∷ []) = refl
Safe-mrt_header (a ∷ b ∷ c ∷ d ∷ e ∷ f ∷ g ∷ h ∷ i ∷ j ∷ m ∷ []) = refl
Safe-mrt_header (a ∷ b ∷ c ∷ d ∷ e ∷ f ∷ g ∷ h ∷ i ∷ j ∷ m ∷ n ∷ rest) = omega arith

-- A record takes bytes away: its header alone is twelve.
Safe-check_record :
    (first : Bool) (buf : Bytes) (s : Summary)
    → Safe (λ p. length p.1 < length buf) (check_record first buf s)
unfolding check_record
Safe-check_record first buf s =
    let less : Summary × Bytes → Type 0 = λ p. length p.1 < length buf in
    Safe-bind (λ p. length p.1 < length buf) less (mrt_header buf) _ (Safe-mrt_header buf)
      (λ h shorter.
        Safe-bind (λ p. length p.1 ≤ length h.1) less (slice h.0.2 h.1 record_truncated) _
          (Safe-slice h.0.2 h.1 record_truncated refl)
          (λ b smaller. Safe-refuse less (not (h.0.0 == 13)) mrt_type _ refl (
            Safe-refuse less (first && not (h.0.1 == 1)) first_subtype _ refl (
              Safe-bind (λ t. Unit {0}) less (check_body h.0.1 b.0 s) _
                (Safe-any (check_body h.0.1 b.0 s) (check_body-fuel h.0.1 b.0 s))
                (λ t u. omega (arith, shorter, smaller))))))

check_records-fuel :
    (f : ℕ) (first : Bool) (buf : Bytes) (s : Summary)
    → length buf ≤ f
    → ran_out (check_records f first buf s) ≡ false
unfolding check_records
check_records-fuel f first [] s h = refl
check_records-fuel zero first (x ∷ buf) s h = absurd (omega arith)
check_records-fuel (suc f) first (x ∷ buf) s h =
    ran_out-Safe (λ p. length p.1 < length (x ∷ buf)) (check_record first (x ∷ buf) s) _
      (Safe-check_record first (x ∷ buf) s)
      (λ p shorter. check_records-fuel f false p.1 p.0 (omega arith))

has_peers-fuel : (ps : List (Bytes × ℕ)) → ran_out (has_peers ps) ≡ false
has_peers-fuel [] = refl
has_peers-fuel (p ∷ ps) = refl

expect-fuel :
    (o : Option ℕ) (n : ℕ) (e : MrtError) → is_out e ≡ false → ran_out (expect o n e) ≡ false
expect-fuel none n e h = refl
expect-fuel (some m) n e h = ground (arith, h)

-- On any bytes, whatever counts are expected, the checker ends with a summary or with an error of the
-- code: none of its loops runs out of fuel.
pub check_file-fuel : (buf : Bytes) (v4 v6 : Option ℕ) → ran_out (check_file buf v4 v6) ≡ false
unfolding check_file
check_file-fuel buf v4 v6 = refuse-fuel (length buf == 0) file_empty _ refl (
    bind-fuel (check_records (length buf) true buf empty) _
      (check_records-fuel (length buf) true buf empty (omega arith))
      (λ s. bind-fuel (has_peers s.peers) _ (has_peers-fuel s.peers) (λ a.
        bind-fuel (expect v4 s.prefixes_v4 wrong_count_v4) _
          (expect-fuel v4 s.prefixes_v4 wrong_count_v4 refl)
          (λ b.
            bind-fuel (expect v6 s.prefixes_v6 wrong_count_v6) _
              (expect-fuel v6 s.prefixes_v6 wrong_count_v6 refl) (λ c. refl)))))
