-- ===== src/Analysis/Metrics/Ranks.antt =====
-- The ranks of the values that `pct` of analysis/analyze.py interpolates between.
use vyos_ixp_bgp_stress.Prelude.{
  ℕ, zero, suc, ◌+◌, ◌-◌, ◌*◌, ◌/◌, ◌%◌, ◌≤◌, ◌<◌, min, ◌≡◌, ◌∙◌, refl, ap, subst, some, List, [],
  ◌∷◌, arith, leb, ltb, if◌then◌else◌, length, get_elem?, All, Bool-cases, inl, inr,
}
use vyos_ixp_bgp_stress.Analysis.Metrics.{sorted, insert_in, pct, pct_sorted, interpolate}
use vyos_ixp_bgp_stress.Analysis.Metrics.Percentile.{length-sorted, lower_index, pct-sorted}

-- How many of the values are less than `a`, and how many are no more than it.
unfoldable pub less_than : ℕ → List ℕ → ℕ
less_than a [] = 0
less_than a (x ∷ xs) = let rest = less_than a xs in if ltb x a then suc rest else rest

unfoldable pub at_most : ℕ → List ℕ → ℕ
at_most a [] = 0
at_most a (x ∷ xs) = let rest = at_most a xs in if leb x a then suc rest else rest

-- `a` is the value of rank `i`, however the values stand: no more than `i` are less than it, and more
-- than `i` are no more than it.
abbrev pub HasRank : List ℕ → ℕ → ℕ → Type 0
HasRank xs i a = (less_than a xs ≤ i) × (i < at_most a xs)

-- `v / den` lies `top / den` of the way from rank 0 to the last rank: between the value of the rank
-- below that place and the value of the next rank, by the fraction that is left.
pub record IsPercentile (xs : List ℕ) (top den v : ℕ) : Type 0 where
  pub last : ℕ
  pub last_eq : suc last ≡ length xs
  pub low : ℕ
  pub high : ℕ
  pub low_rank : HasRank xs (last * top / den) low
  pub high_rank : HasRank xs (min (suc (last * top / den)) last) high
  pub value : v ≡ low * den + (high - low) * (last * top % den)

less_than-insert_in : (a x : ℕ) (s : List ℕ) → less_than a (insert_in x s) ≡ less_than a (x ∷ s)
unfolding less_than insert_in
less_than-insert_in a x [] = refl
less_than-insert_in a x (y ∷ s) = ground (arith, less_than-insert_in a x s)

at_most-insert_in : (a x : ℕ) (s : List ℕ) → at_most a (insert_in x s) ≡ at_most a (x ∷ s)
unfolding at_most insert_in
at_most-insert_in a x [] = refl
at_most-insert_in a x (y ∷ s) = ground (arith, at_most-insert_in a x s)

less_than-sorted : (a : ℕ) (xs : List ℕ) → less_than a (sorted xs) ≡ less_than a xs
unfolding less_than sorted
less_than-sorted a [] = refl
less_than-sorted a (x ∷ xs) =
    less_than-insert_in a x (sorted xs)
    ∙ ap (λ n. if ltb x a then suc n else n) (less_than-sorted a xs)

at_most-sorted : (a : ℕ) (xs : List ℕ) → at_most a (sorted xs) ≡ at_most a xs
unfolding at_most sorted
at_most-sorted a [] = refl
at_most-sorted a (x ∷ xs) =
    at_most-insert_in a x (sorted xs) ∙ ap (λ n. if leb x a then suc n else n) (at_most-sorted a xs)

abbrev Ascends : List ℕ → Type 0
Ascends [] = Unit
Ascends (x ∷ s) = All (λ y. x ≤ y) s × Ascends s

All-below : (x y : ℕ) (s : List ℕ) → x ≤ y → All (λ z. y ≤ z) s → All (λ z. x ≤ z) s
All-below x y [] le h = tt
All-below x y (z ∷ s) le h = (omega arith, All-below x y s le h.1)

All-insert_in :
    (w x : ℕ) (s : List ℕ) → w ≤ x → All (λ z. w ≤ z) s → All (λ z. w ≤ z) (insert_in x s)
unfolding insert_in
All-insert_in w x [] le h = (le, tt)
All-insert_in w x (y ∷ s) le h = elim (Bool-cases (leb x y)) [
  | inl here ↦ rw here (le, h)
  | inr later ↦ rw later (h.0, All-insert_in w x s le h.1)
]

Ascends-insert_in : (x : ℕ) (s : List ℕ) → Ascends s → Ascends (insert_in x s)
unfolding insert_in
Ascends-insert_in x [] h = (tt, tt)
Ascends-insert_in x (y ∷ s) h = elim (Bool-cases (leb x y)) [
  | inl here ↦ let le : x ≤ y = ground arith in rw here ((le, All-below x y s le h.0), h)
  | inr later ↦
      let le : y ≤ x = ground arith in
      rw later (All-insert_in y x s le h.0, Ascends-insert_in x s h.1)
]

Ascends-sorted : (xs : List ℕ) → Ascends (sorted xs)
unfolding sorted
Ascends-sorted [] = tt
Ascends-sorted (x ∷ xs) = Ascends-insert_in x (sorted xs) (Ascends-sorted xs)

none_less : (x : ℕ) (s : List ℕ) → All (λ y. x ≤ y) s → less_than x s ≡ 0
unfolding less_than
none_less x [] h = refl
none_less x (y ∷ s) h = ground (arith, none_less x s h.1, h.0)

-- The element `i` of an ascending list that has one.
record Ranked (s : List ℕ) (i : ℕ) : Type 0 where
  element : ℕ
  found : get_elem? s i ≡ some element
  rank : HasRank s i element

element_of : (s : List ℕ) (i : ℕ) → Ascends s → i < length s → Ranked s i
unfolding less_than at_most
element_of [] i h lt = absurd (omega arith)
element_of (x ∷ s) zero h lt = record {
  element = x;
  found = refl;
  rank = (ground (arith, none_less x s h.0), ground arith);
}
element_of (x ∷ s) (suc i) h lt =
    let e = element_of s i h.1 (omega arith) in
    let le : x ≤ e.element = element_above x s i e.element h.0 e.found in
    record {
      element = e.element;
      found = e.found;
      rank = (ground (arith, e.rank), ground (arith, e.rank, le));
    }
  where
    element_above :
        (w : ℕ) (t : List ℕ) (j a : ℕ) → All (λ y. w ≤ y) t → get_elem? t j ≡ some a → w ≤ a
    element_above w [] j a h e = cc
    element_above w (y ∷ t) zero a h e = subst (λ z. w ≤ z) (cc) h.0
    element_above w (y ∷ t) (suc j) a h e = element_above w t j a h.1 e

pct_sorted-IsPercentile :
    (s : List ℕ) (top den : ℕ)
    → Ascends s
    → 0 < length s
    → 0 < den
    → top ≤ den
    → (v : ℕ) × (pct_sorted s top den ≡ some v) × IsPercentile s top den v
unfolding pct_sorted interpolate less_than at_most
pct_sorted-IsPercentile [] top den h some_value pos le = absurd (omega arith)
pct_sorted-IsPercentile (x ∷ []) top den h some_value pos le =
    let i = lower_index 0 top den pos le in
    (
      _,
      refl,
      record {
        last = 0;
        last_eq = refl;
        low = x;
        high = x;
        low_rank = (ground arith, ground (arith, i));
        high_rank = (ground arith, ground arith);
        value = same_ends x (0 * top % den);
      },
    )
  where
    same_ends : (a f : ℕ) → a * den ≡ a * den + (a - a) * f
    same_ends a f = let nothing : a - a ≡ 0 = omega arith in rw nothing (omega arith)
pct_sorted-IsPercentile (x ∷ y ∷ zs) top den h some_value pos le =
    let last : ℕ = suc (length zs) in
    let i = lower_index last top den pos le in
    let low : Ranked (x ∷ y ∷ zs) (last * top / den) =
      element_of (x ∷ y ∷ zs) (last * top / den) h (omega (arith, i)) in
    let high : Ranked (x ∷ y ∷ zs) (min (suc (last * top / den)) last) =
      element_of (x ∷ y ∷ zs) (min (suc (last * top / den)) last) h (omega (arith, i)) in
    rw (low.found, high.found)
      (
        _,
        refl,
        record {
          last = last;
          last_eq = refl;
          low = low.element;
          high = high.element;
          low_rank = low.rank;
          high_rank = high.rank;
          value = refl;
        },
      )

HasRank-sorted : (xs : List ℕ) (i a : ℕ) → HasRank (sorted xs) i a → HasRank xs i a
HasRank-sorted xs i a h =
    (omega (arith, h, less_than-sorted a xs), omega (arith, h, at_most-sorted a xs))

-- A percentile of a list with values exists. It is the value at `top / den` of the way from rank 0 to
-- the last rank: between the value of the rank below that place and the one of the next rank, in
-- proportion to the fraction that is left. The rank of a value is told by how many values are less
-- than it and how many are no more than it.
pub pct-IsPercentile :
    (x : ℕ) (xs : List ℕ) (top den : ℕ)
    → 0 < den
    → top ≤ den
    → (v : ℕ) × (pct (x ∷ xs) top den ≡ some v) × IsPercentile (x ∷ xs) top den v
pct-IsPercentile x xs top den pos le =
    let (v, e, p) =
      pct_sorted-IsPercentile (sorted (x ∷ xs)) top den (Ascends-sorted (x ∷ xs))
        (omega (arith, length-sorted (x ∷ xs))) pos le in
    (
      v,
      pct-sorted (x ∷ xs) top den ∙ e,
      record {
        last = p.last;
        last_eq = p.last_eq ∙ length-sorted (x ∷ xs);
        low = p.low;
        high = p.high;
        low_rank = HasRank-sorted (x ∷ xs) _ p.low p.low_rank;
        high_rank = HasRank-sorted (x ∷ xs) _ p.high p.high_rank;
        value = p.value;
      },
    )
