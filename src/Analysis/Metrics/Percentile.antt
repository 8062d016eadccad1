-- ===== src/Analysis/Metrics/Percentile.antt =====
-- `pct` and the least and the greatest of its values.
use native.Mathlib.Nat.{
  add-mul, mul-le-mul_left, mul-le-mul_right, le_of_mul-le-mul_right, div-mul-le_self, mod-lt,
}
use vyos_ixp_bgp_stress.Prelude.{
  ℕ, zero, suc, ◌+◌, ◌-◌, ◌*◌, ◌/◌, ◌%◌, ◌≤◌, ◌<◌, min, ◌≡◌, refl, some, List, [], ◌∷◌, arith, leb,
  length, get_elem?, All, Bool-cases, inl, inr,
}
use vyos_ixp_bgp_stress.Analysis.Metrics.{
  sorted, insert_in, pct, pct_sorted, greatest, least, interpolate,
}

length-insert_in : (x : ℕ) (s : List ℕ) → length (insert_in x s) ≡ suc (length s)
unfolding insert_in
length-insert_in x [] = refl
length-insert_in x (y ∷ s) = ground (arith, length-insert_in x s)

pub length-sorted : (xs : List ℕ) → length (sorted xs) ≡ length xs
unfolding sorted
length-sorted [] = refl
length-sorted (x ∷ xs) = omega (arith, length-insert_in x (sorted xs), length-sorted xs)

abbrev Within : ℕ → ℕ → ℕ → Type 0
Within lo hi x = (lo ≤ x) × (x ≤ hi)

Within-insert_in :
    (lo hi x : ℕ) (s : List ℕ)
    → Within lo hi x
    → All (Within lo hi) s
    → All (Within lo hi) (insert_in x s)
unfolding insert_in
Within-insert_in lo hi x [] w ws = (w, tt)
Within-insert_in lo hi x (y ∷ s) w ws = elim (Bool-cases (leb x y)) [
  | inl le ↦ rw le (w, ws)
  | inr gt ↦ rw gt (ws.0, Within-insert_in lo hi x s w ws.1)
]

Within-sorted : (lo hi : ℕ) (xs : List ℕ) → All (Within lo hi) xs → All (Within lo hi) (sorted xs)
unfolding sorted
Within-sorted lo hi [] ws = tt
Within-sorted lo hi (x ∷ xs) ws =
    Within-insert_in lo hi x (sorted xs) ws.0 (Within-sorted lo hi xs ws.1)

Within-wider :
    {lo hi lo' hi' : ℕ} (xs : List ℕ)
    → lo' ≤ lo
    → hi ≤ hi'
    → All (Within lo hi) xs
    → All (Within lo' hi') xs
Within-wider [] a b ws = tt
Within-wider (x ∷ xs) a b ws = ((omega arith, omega arith), Within-wider xs a b ws.1)

pub Within-ends : (x : ℕ) (xs : List ℕ) → All (λ y. (least x xs ≤ y) × (y ≤ greatest x xs)) (x ∷ xs)
unfolding least greatest
Within-ends x [] = ((omega arith, omega arith), tt)
Within-ends x (y ∷ ys) = (
  (omega arith, omega arith),
  Within-wider (y ∷ ys) (omega arith) (omega arith) (Within-ends y ys),
)

get_elem-Within :
    (lo hi : ℕ) (s : List ℕ) (i : ℕ)
    → All (Within lo hi) s
    → i < length s
    → (a : ℕ) × (get_elem? s i ≡ some a) × Within lo hi a
get_elem-Within lo hi [] i ws h = absurd (omega arith)
get_elem-Within lo hi (x ∷ s) zero ws h = (x, refl, ws.0)
get_elem-Within lo hi (x ∷ s) (suc i) ws h = get_elem-Within lo hi s i ws.1 (omega arith)

pub pct-sorted : (xs : List ℕ) (top den : ℕ) → pct xs top den ≡ pct_sorted (sorted xs) top den
unfolding pct sorted pct_sorted
pct-sorted [] top den = refl
pct-sorted (x ∷ xs) top den = refl

interpolate_between :
    (lo hi k den a b : ℕ)
    → 0 < den
    → Within lo hi a
    → Within lo hi b
    → (v : ℕ) × (interpolate k den (some a) (some b) ≡ some v) × Within (lo * den) (hi * den) v
unfolding interpolate
interpolate_between lo hi k den a b pos wa wb =
    let near : k % den ≤ den = omega (arith, mod-lt k pos) in
    let inside : a + (b - a) ≤ hi = omega arith in
    let above : a * den + (b - a) * (k % den) ≤ hi * den =
      omega
        (arith, mul-le-mul_left (b - a) near, add-mul a (b - a) den, mul-le-mul_right den inside) in
    (_, refl, (omega (arith, mul-le-mul_right den wa.0), above))

pub lower_index : (last top den : ℕ) → 0 < den → top ≤ den → last * top / den ≤ last
lower_index last top den pos le =
    let scaled : last * top / den * den ≤ last * den =
      omega (arith, div-mul-le_self (last * top) den, mul-le-mul_left last le) in
    le_of_mul-le-mul_right scaled pos

pct_sorted_between :
    (lo hi : ℕ) (s : List ℕ) (top den : ℕ)
    → 0 < den
    → top ≤ den
    → 0 < length s
    → All (Within lo hi) s
    → (v : ℕ) × (pct_sorted s top den ≡ some v) × Within (lo * den) (hi * den) v
unfolding pct_sorted
pct_sorted_between lo hi [] top den pos le some_value ws = absurd (omega arith)
pct_sorted_between lo hi (x ∷ []) top den pos le some_value ws =
    (_, refl, (mul-le-mul_right den ws.0.0, mul-le-mul_right den ws.0.1))
pct_sorted_between lo hi (x ∷ y ∷ zs) top den pos le some_value ws =
    let i = lower_index (suc (length zs)) top den pos le in
    let first =
      get_elem-Within lo hi (x ∷ y ∷ zs) (suc (length zs) * top / den) ws (omega (arith, i)) in
    let second =
      get_elem-Within lo hi (x ∷ y ∷ zs) (min (suc (suc (length zs) * top / den)) (suc (length zs)))
        ws (omega (arith, i)) in
    rw (first.1, second.1)
      (interpolate_between lo hi (suc (length zs) * top) den first.0 second.0 pos first.2 second.2)

-- a percentile of a list with values exists and lies between the least and the greatest of them
pub pct-between :
    (x : ℕ) (xs : List ℕ) (top den : ℕ)
    → 0 < den
    → top ≤ den
    → (v : ℕ) × (pct (x ∷ xs) top den ≡ some v)
      × ((least x xs * den ≤ v) × (v ≤ greatest x xs * den))
pct-between x xs top den pos le = rw (pct-sorted (x ∷ xs) top den) (
    pct_sorted_between (least x xs) (greatest x xs) (sorted (x ∷ xs)) top den pos le
      (omega (arith, length-sorted (x ∷ xs)))
      (Within-sorted (least x xs) (greatest x xs) (x ∷ xs) (Within-ends x xs)))
