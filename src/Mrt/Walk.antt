-- ===== src/Mrt/Walk.antt =====
-- `_walk_attributes` of tests/mrtcheck.py. The offset into the body is the list of the bytes that are
-- left, and the `while` loops take fuel; offsets and texts of the errors are left out.
use Prim.Native.Nat.{bit_and}
use vyos_ixp_bgp_stress.Prelude.{
  ℕ, zero, suc, ◌+◌, ◌*◌, ◌%◌, ◌≡◌, Bool, true, false, not, ◌&&◌, ◌||◌, none, some, List, [], ◌∷◌,
  ◌++◌, length, ltb, ◌==◌, if◌then◌else◌,
}
use vyos_ixp_bgp_stress.Mrt.Bytes.{Bytes, split_at, split_at-append, u16}

-- `MrtStructureError`, one constructor for each `raise`; `index_error` is Python's `IndexError`.
pub data MrtError : Type 0 where
  header_truncated ext_length_truncated length_truncated attribute_overrun : MrtError
  origin_length next_hop_length med_length large_community_length community_length : MrtError
  mp_reach_empty mp_reach_nhlen mp_reach_length mp_reach_v4 : MrtError
  segment_truncated segment_type segment_overrun : MrtError
  file_empty mrt_header_truncated record_truncated mrt_type first_subtype : MrtError
  peer_table_short peer_count_truncated peer_type_truncated peer_truncated peer_table_excess :
      MrtError
  rib_short prefix_length prefix_truncated entry_count_truncated entry_count_zero : MrtError
  entry_header_truncated peer_index peer_family attributes_truncated : MrtError
  no_mp_reach no_next_hop entries_excess subtype_unexpected no_peers : MrtError
  wrong_count_v4 wrong_count_v6 index_error out_of_fuel : MrtError

pub data Result (A : Type 0) : Type 0 where
  ok : A → Result A
  err : MrtError → Result A

infixl 5 ◌>>=◌ ◌>>◌
abbrev pub ◌>>=◌ : {A B : Type 0} → Result A → (A → Result B) → Result B
ok a >>= f = f a
err e >>= f = err e

abbrev pub ◌>>◌ : {B : Type 0} → Result (Unit {0}) → Result B → Result B
m >> k = m >>= λ _. k

-- `if b: raise e`
abbrev pub refuse : Bool → MrtError → Result (Unit {0})
refuse true e = err e
refuse false e = ok tt

unfoldable pub slice : ℕ → Bytes → MrtError → Result (Bytes × Bytes)
slice n xs e = elim (split_at n xs) [ none ↦ err e | some p ↦ ok p ]

pub slice-append : (xs ys : Bytes) (e : MrtError) → slice (length xs) (xs ++ ys) e ≡ ok (xs, ys)
unfolding slice
slice-append xs ys e = rw (split_at-append xs ys, slice)

pub slice-exact :
    (n : ℕ) (xs ys : Bytes) (e : MrtError) → length xs ≡ n → slice n (xs ++ ys) e ≡ ok (xs, ys)
slice-exact n xs ys e h = rw (← h) (slice-append xs ys e)

-- The length field behind the attribute's code, and what follows it.
unfoldable pub attr_length : ℕ → Bytes → Result (ℕ × Bytes)
attr_length flags rest =
    if bit_and flags 0x10 == 0
    then elim rest [ [] ↦ err length_truncated | n ∷ body ↦ ok (n, body) ]
    else elim rest [
      | [] ↦ err ext_length_truncated
      | a ∷ more ↦ elim more [ [] ↦ err ext_length_truncated | b ∷ body ↦ ok (u16 a b, body) ]
    ]

-- The loop over the segments of an AS_PATH.
unfoldable pub walk_segments : ℕ → Bytes → Result (Unit {0})
walk_segments fuel [] = ok tt
walk_segments zero (t ∷ rest) = err out_of_fuel
walk_segments (suc f) (t ∷ []) = err segment_truncated
walk_segments (suc f) (t ∷ n ∷ rest) = do
  refuse (ltb t 1 || ltb 4 t) segment_type
  (asns, more) ← slice (n * 4) rest segment_overrun
  walk_segments f more

abbrev pub is_nhlen : ℕ → Bool
is_nhlen n = n == 4 || n == 16 || n == 32

unfoldable pub check_mp_reach : Bool → Bytes → Result (Unit {0})
check_mp_reach v6 [] = err mp_reach_empty
check_mp_reach v6 (nhlen ∷ nh) = do
  refuse (not (is_nhlen nhlen)) mp_reach_nhlen
  refuse (not (length (nhlen ∷ nh) == 1 + nhlen)) mp_reach_length
  refuse (v6 && nhlen == 4) mp_reach_v4

-- The sanity checks on one attribute value.
unfoldable pub check_value : Bool → ℕ → Bytes → Result (Unit {0})
check_value v6 code value = do
  refuse (code == 1 && not (length value == 1)) origin_length
  refuse (code == 3 && not (length value == 4)) next_hop_length
  refuse (code == 4 && not (length value == 4)) med_length
  refuse (code == 32 && not (length value % 12 == 0)) large_community_length
  refuse (code == 8 && not (length value % 4 == 0)) community_length
  (if code == 14 then check_mp_reach v6 value else ok tt)
  (if code == 2 then walk_segments (length value) value else ok tt)

-- The codes so far stand newest first.
unfoldable pub walk : Bool → ℕ → Bytes → List ℕ → Result (List ℕ)
walk v6 fuel [] codes = ok codes
walk v6 zero (flags ∷ rest) codes = err out_of_fuel
walk v6 (suc f) (flags ∷ []) codes = err header_truncated
walk v6 (suc f) (flags ∷ code ∷ rest) codes = do
  (alen, body) ← attr_length flags rest
  (value, more) ← slice alen body attribute_overrun
  check_value v6 code value
  walk v6 f more (code ∷ codes)

unfoldable pub walk_attributes : Bool → Bytes → Result (List ℕ)
walk_attributes v6 body = walk v6 (length body) body []
