-- ===== src/Inventory/Asn.antt =====
-- `BOGON_ASN_RANGES`, `asn_is_bogon` and `next_safe_asn` of harness/model.py. The `while` loop takes
-- one unit of fuel a round; ten are given, one for each range.
use vyos_ixp_bgp_stress.Prelude.{
  ℕ, zero, suc, ◌+◌, ◌≤◌, ◌<◌, ◌≡◌, refl, Bool, true, false, ◌&&◌, ◌||◌, Option, none, some, List,
  [], ◌∷◌, length, arith, leb, if◌then◌else◌, Bool-cases, inl, inr,
}

pub record Range : Type 0 where
  pub lo : ℕ
  pub hi : ℕ

abbrev range : ℕ → ℕ → Range
range lo hi = record { lo = lo; hi = hi }

abbrev pub bogon_asn_ranges : List Range
bogon_asn_ranges =
    range 0 0
    ∷ range 23456 23456
    ∷ range 64496 64511
    ∷ range 64512 65535
    ∷ range 65536 65551
    ∷ range 65552 65999
    ∷ range 66000 69999
    ∷ range 70000 130999
    ∷ range 131000 131071
    ∷ range 4200000000 4294967294
    ∷ []

-- `lo <= asn <= hi`
abbrev pub holds : Range → ℕ → Bool
holds r asn = leb r.lo asn && leb asn r.hi

unfoldable pub in_ranges : List Range → ℕ → Bool
in_ranges [] asn = false
in_ranges (r ∷ rs) asn = holds r asn || in_ranges rs asn

unfoldable pub asn_is_bogon : ℕ → Bool
asn_is_bogon asn = in_ranges bogon_asn_ranges asn

-- The `for` loop with its `break`.
unfoldable pub pass : List Range → ℕ → ℕ
pass [] asn = asn
pass (r ∷ rs) asn = if holds r asn then r.hi + 1 else pass rs asn

-- The `while` loop; `none` is out of fuel.
unfoldable pub advance : List Range → ℕ → ℕ → Option ℕ
advance ranges zero asn = if in_ranges ranges asn then none else some asn
advance ranges (suc f) asn =
    let further = advance ranges f (pass ranges asn) in
    if in_ranges ranges asn then further else some asn

unfoldable pub next_safe_asn : ℕ → Option ℕ
next_safe_asn asn = advance bogon_asn_ranges 10 asn

-- How many ranges end at `asn` or above. A round of the loop lowers it.
unfoldable ending_from : List Range → ℕ → ℕ
ending_from [] asn = 0
ending_from (r ∷ rs) asn = (if leb asn r.hi then 1 else 0) + ending_from rs asn

ending_from-length : (rs : List Range) (asn : ℕ) → ending_from rs asn ≤ length rs
unfolding ending_from
ending_from-length [] asn = omega arith
ending_from-length (r ∷ rs) asn = ground (arith, ending_from-length rs asn)

ending_from_mono : (rs : List Range) (a b : ℕ) → a ≤ b → ending_from rs b ≤ ending_from rs a
unfolding ending_from
ending_from_mono [] a b h = omega arith
ending_from_mono (r ∷ rs) a b h = ground (arith, ending_from_mono rs a b h)

pass-rises : (rs : List Range) (asn : ℕ) → in_ranges rs asn ≡ true → asn < pass rs asn
unfolding in_ranges pass
pass-rises [] asn h = cc
pass-rises (r ∷ rs) asn h = ground (arith, pass-rises rs asn)

pass-ending_from :
    (rs : List Range) (asn : ℕ)
    → in_ranges rs asn ≡ true
    → ending_from rs (pass rs asn) < ending_from rs asn
unfolding in_ranges pass ending_from
pass-ending_from [] asn h = cc
pass-ending_from (r ∷ rs) asn h =
    ground (arith, pass-ending_from rs asn, pass-rises rs asn, ending_from_mono rs asn (r.hi + 1))

-- Everything that a round jumps over is in the ranges.
pass-skips : (rs : List Range) (asn k : ℕ) → asn ≤ k → k < pass rs asn → in_ranges rs k ≡ true
unfolding in_ranges pass
pass-skips [] asn k h h' = absurd (omega arith)
pass-skips (r ∷ rs) asn k h h' = ground (arith, pass-skips rs asn k h)

-- The least number from `asn` on that is in no range.
pub record IsNext (rs : List Range) (asn next : ℕ) : Type 0 where
  pub above : asn ≤ next
  pub safe : in_ranges rs next ≡ false
  pub least : (k : ℕ) → asn ≤ k → k < next → in_ranges rs k ≡ true

IsNext-here : (rs : List Range) (asn : ℕ) → in_ranges rs asn ≡ false → IsNext rs asn asn
IsNext-here rs asn h = record {
  above = omega arith;
  safe = h;
  least = λ k low high. absurd (omega arith);
}

IsNext-pass :
    (rs : List Range) (asn next : ℕ)
    → in_ranges rs asn ≡ true
    → IsNext rs (pass rs asn) next
    → IsNext rs asn next
IsNext-pass rs asn next h n = record {
  above = omega (arith, n.above, pass-rises rs asn h);
  safe = n.safe;
  least = λ k low high. ground (arith, pass-skips rs asn k low, n.least k);
}

advance-IsNext :
    (rs : List Range) (f asn : ℕ)
    → ending_from rs asn ≤ f
    → (next : ℕ) × (advance rs f asn ≡ some next) × IsNext rs asn next
unfolding advance
advance-IsNext rs zero asn room = elim (Bool-cases (in_ranges rs asn)) [
  | inr out ↦ (asn, rw out refl, IsNext-here rs asn out)
  | inl inside ↦ absurd (omega (arith, pass-ending_from rs asn inside))
]
advance-IsNext rs (suc f) asn room = elim (Bool-cases (in_ranges rs asn)) [
  | inr out ↦ (asn, rw out refl, IsNext-here rs asn out)
  | inl inside ↦
      let (next, found, least) =
        advance-IsNext rs f (pass rs asn) (omega (arith, pass-ending_from rs asn inside)) in
      (next, rw (inside, found) refl, IsNext-pass rs asn next inside least)
]

-- `next_safe_asn` always returns, and what it returns is the least number from its argument on that
-- is in none of the bogon ranges.
pub next_safe_asn-IsNext :
    (asn : ℕ) → (next : ℕ) × (next_safe_asn asn ≡ some next) × IsNext bogon_asn_ranges asn next
unfolding next_safe_asn
next_safe_asn-IsNext asn =
    advance-IsNext bogon_asn_ranges 10 asn (ending_from-length bogon_asn_ranges asn)
