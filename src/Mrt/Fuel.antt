-- ===== src/Mrt/Fuel.antt =====
-- The loops of `_walk_attributes` have fuel enough: no input exhausts it.
pub mod File
use vyos_ixp_bgp_stress.Prelude.{
  ℕ, zero, suc, ◌+◌, ◌*◌, ◌%◌, ◌≤◌, ◌≡◌, refl, Bool, true, false, not, ◌&&◌, ◌||◌, Option, none,
  some, List, [], ◌∷◌, length, arith, ltb, ◌==◌, if◌then◌else◌, Option-cases, inl, inr,
}
use vyos_ixp_bgp_stress.Mrt.Bytes.{Bytes, split_at, u16}
use vyos_ixp_bgp_stress.Mrt.Walk.{
  MrtError, Result, ok, err, ◌>>=◌, ◌>>◌, refuse, slice, attr_length, walk_segments, is_nhlen,
  check_mp_reach, check_value, walk, walk_attributes, out_of_fuel, segment_type, segment_overrun,
  attribute_overrun, origin_length, next_hop_length, med_length, large_community_length,
  community_length, mp_reach_nhlen, mp_reach_length, mp_reach_v4,
}

abbrev pub is_out : MrtError → Bool
is_out out_of_fuel = true
is_out _ = false

-- The result is not that the fuel is gone.
abbrev pub ran_out : {A : Type 0} → Result A → Bool
ran_out (ok a) = false
ran_out (err e) = is_out e

pub refuse-fuel :
    {B : Type 0} (b : Bool) (e : MrtError) (k : Result B)
    → is_out e ≡ false
    → ran_out k ≡ false
    → ran_out (refuse b e >> k) ≡ false
refuse-fuel true e k h h' = h
refuse-fuel false e k h h' = h'

pub split_at-length : (n : ℕ) (xs a b : Bytes) → split_at n xs ≡ some (a, b) → length b ≤ length xs
unfolding split_at
split_at-length zero xs a b h = ground arith
split_at-length (suc n) [] a b h = cc
split_at-length (suc n) (x ∷ xs) a b h = elim (Option-cases (split_at n xs)) [
  | inl e ↦ cc (rw e at h)
  | inr ((c, d), e) ↦ let rest = split_at-length n xs c d e in ground (arith, rest, rw e at h)
]

after_split :
    {B : Type 0} (o : Option (Bytes × Bytes)) (e : MrtError) (k : Bytes × Bytes → Result B)
    → is_out e ≡ false
    → ((a b : Bytes) → o ≡ some (a, b) → ran_out (k (a, b)) ≡ false)
    → ran_out (elim o [ none ↦ err e | some p ↦ ok p ] >>= k) ≡ false
after_split none e k h each = h
after_split (some (a, b)) e k h each = each a b refl

-- A slice and a continuation that is fine on every shorter rest.
pub slice-fuel :
    {B : Type 0} (n : ℕ) (xs : Bytes) (e : MrtError) (k : Bytes × Bytes → Result B)
    → is_out e ≡ false
    → ((a b : Bytes) → length b ≤ length xs → ran_out (k (a, b)) ≡ false)
    → ran_out (slice n xs e >>= k) ≡ false
unfolding slice
slice-fuel n xs e k h each =
    after_split (split_at n xs) e k h (λ a b found. each a b (split_at-length n xs a b found))

walk_segments-fuel : (f : ℕ) (xs : Bytes) → length xs ≤ f → ran_out (walk_segments f xs) ≡ false
unfolding walk_segments
walk_segments-fuel f [] h = refl
walk_segments-fuel zero (t ∷ rest) h = absurd (omega arith)
walk_segments-fuel (suc f) (t ∷ []) h = refl
walk_segments-fuel (suc f) (t ∷ n ∷ rest) h = refuse-fuel (ltb t 1 || ltb 4 t) segment_type _ refl (
    slice-fuel (n * 4) rest segment_overrun (λ p. walk_segments f p.1) refl
      (λ a b shorter. walk_segments-fuel f b (omega arith)))

check_mp_reach-fuel : (v6 : Bool) (value : Bytes) → ran_out (check_mp_reach v6 value) ≡ false
unfolding check_mp_reach
check_mp_reach-fuel v6 [] = refl
check_mp_reach-fuel v6 (nhlen ∷ nh) = refuse-fuel (not (is_nhlen nhlen)) mp_reach_nhlen _ refl (
    refuse-fuel (not (length (nhlen ∷ nh) == 1 + nhlen)) mp_reach_length _ refl
      (last (v6 && nhlen == 4)))
  where
    last : (b : Bool) → ran_out (refuse b mp_reach_v4) ≡ false
    last true = refl
    last false = refl

then-fuel :
    {B : Type 0} (m : Result (Unit {0})) (k : Result B)
    → ran_out m ≡ false
    → ran_out k ≡ false
    → ran_out (m >> k) ≡ false
then-fuel (ok u) k h h' = h'
then-fuel (err e) k h h' = h

if-fuel :
    (b : Bool) (m : Result (Unit {0}))
    → ran_out m ≡ false
    → ran_out (if b then m else ok tt) ≡ false
if-fuel true m h = h
if-fuel false m h = refl

check_value-fuel :
    (v6 : Bool) (code : ℕ) (value : Bytes) → ran_out (check_value v6 code value) ≡ false
unfolding check_value
check_value-fuel v6 code value =
    refuse-fuel (code == 1 && not (length value == 1)) origin_length _ refl (
      refuse-fuel (code == 3 && not (length value == 4)) next_hop_length _ refl (
        refuse-fuel (code == 4 && not (length value == 4)) med_length _ refl (
          refuse-fuel (code == 32 && not (length value % 12 == 0)) large_community_length _ refl (
            refuse-fuel (code == 8 && not (length value % 4 == 0)) community_length _ refl (
              then-fuel (if code == 14 then check_mp_reach v6 value else ok tt) _
                (if-fuel (code == 14) (check_mp_reach v6 value) (check_mp_reach-fuel v6 value))
                (if-fuel (code == 2) (walk_segments (length value) value)
                  (walk_segments-fuel (length value) value (omega arith))))))))

attr_length-fuel :
    {B : Type 0} (flags : ℕ) (xs : Bytes) (k : ℕ × Bytes → Result B)
    → ((n : ℕ) (b : Bytes) → length b ≤ length xs → ran_out (k (n, b)) ≡ false)
    → ran_out (attr_length flags xs >>= k) ≡ false
unfolding attr_length
attr_length-fuel flags [] k each = ground arith
attr_length-fuel flags (x ∷ []) k each = ground (arith, each x [])
attr_length-fuel flags (x ∷ y ∷ rest) k each =
    ground (arith, each x (y ∷ rest), each (u16 x y) rest)

walk-fuel :
    (v6 : Bool) (f : ℕ) (xs : Bytes) (codes : List ℕ)
    → length xs ≤ f
    → ran_out (walk v6 f xs codes) ≡ false
unfolding walk
walk-fuel v6 f [] codes h = refl
walk-fuel v6 zero (x ∷ rest) codes h = absurd (omega arith)
walk-fuel v6 (suc f) (x ∷ []) codes h = refl
walk-fuel v6 (suc f) (x ∷ code ∷ rest) codes h = attr_length-fuel x rest _ (λ n b shorter.
    slice-fuel n b attribute_overrun _ refl (λ value more less.
      then-fuel (check_value v6 code value) _ (check_value-fuel v6 code value)
        (walk-fuel v6 f more (code ∷ codes) (omega arith))))

-- On any bytes the walk over the attributes ends with the codes or with an error of the code: its two
-- loops never run out of fuel.
pub walk_attributes-fuel : (v6 : Bool) (body : Bytes) → ran_out (walk_attributes v6 body) ≡ false
unfolding walk_attributes
walk_attributes-fuel v6 body = walk-fuel v6 (length body) body [] (omega arith)
