-- ===== src/Prefixes/Equal.antt =====
-- Sessions of equal size: `check_capacity` keeps their windows within the space and apart.
use native.Mathlib.Decide.{ℕ_discrete}
use native.Mathlib.Nat.{mul-le-mul_right, suc-mul}
use vyos_ixp_bgp_stress.Prelude.{
  ℕ, zero, suc, ◌+◌, ◌-◌, ◌*◌, ◌≤◌, ◌<◌, ◌≡◌, ◌≢◌, refl, Bool, true, false, Option, some, List, [],
  ◌∷◌, arith, tests, ltb, max, map, inl, inr, Bool-cases,
}
use vyos_ixp_bgp_stress.Prelude.Keys.{mem}
use vyos_ixp_bgp_stress.Mrt.Bytes.{◌>>◌}
use vyos_ixp_bgp_stress.Prefixes.{
  PrefixPlan, refuse, capacity_v4, capacity_v6, session_indices, worst_contested, exclusive_total,
  check_capacity,
}
use vyos_ixp_bgp_stress.Prefixes.Slots.{index_cases}

abbrev pub copies {ℓ} : {A : Type ℓ} → ℕ → A → List A
copies zero a = []
copies (suc n) a = a ∷ copies n a

exclusive_total-copies :
    (p : PrefixPlan) (f : ℕ × ℕ → ℕ) (n : ℕ) (s : ℕ × ℕ)
    → exclusive_total p (map f (copies n s)) ≡ n * max 1 (f s - p.contested (f s))
unfolding exclusive_total
exclusive_total-copies p f zero s = omega arith
exclusive_total-copies p f (suc n) s =
    omega (arith, exclusive_total-copies p f n s, suc-mul n (max 1 (f s - p.contested (f s))))

refused :
    (b : Bool) (k : Option (Unit {0})) → (refuse b >> k) ≡ some tt → (b ≡ false) × (k ≡ some tt)
refused true k h = cc
refused false k h = (refl, h)

last_refused : (b : Bool) → refuse b ≡ some tt → b ≡ false
last_refused true h = cc
last_refused false h = refl

le_of_test : (a b : ℕ) → ltb a b ≡ false → b ≤ a
le_of_test a b h = ground arith

capacity_checked :
    (p : PrefixPlan) (sessions : List (ℕ × ℕ))
    → check_capacity p sessions ≡ some tt
    → (p.contested_pool_v4 + exclusive_total p (map (λ s. s.0) sessions) ≤ capacity_v4 p)
      × (p.contested_pool_v6 + exclusive_total p (map (λ s. s.1) sessions) ≤ capacity_v6 p)
unfolding check_capacity
capacity_checked p sessions h =
    let v4 = map (λ s. s.0) sessions in
    let v6 = map (λ s. s.1) sessions in
    let (_, h1) = refused (ltb p.contested_pool_v4 (worst_contested p v4)) _ h in
    let (_, h2) = refused (ltb p.contested_pool_v6 (worst_contested p v6)) _ h1 in
    let (e4, h3) =
      refused (ltb (capacity_v4 p) (p.contested_pool_v4 + exclusive_total p v4)) _ h2 in
    (le_of_test (capacity_v4 p) _ e4, le_of_test (capacity_v6 p) _ (last_refused _ h3))

-- An index of one of `n` windows of equal width lies within their sum.
window_fits :
    (p : PrefixPlan) (pool n slot count x : ℕ)
    → slot < n
    → mem ℕ_discrete x (session_indices p pool slot count 0) ≡ true
    → x < pool + n * max 1 (count - p.contested count)
window_fits p pool n slot count x in_range h =
    let m = max 1 (count - p.contested count) in
    elim (index_cases p pool slot count 0 x h) [
      | inr low ↦ omega (arith, low)
      | inl (i, inside, e) ↦
          let same_width : max (count - p.contested count) 1 ≡ m = omega arith in
          omega (
            arith,
            inside,
            rw same_width at e,
            suc-mul slot m,
            mul-le-mul_right {m = suc slot} {n = n} m (omega arith),
          )
    ]

-- If `check_capacity` accepts `n` sessions with the same two prefix counts, no index of a session of
-- these, in a slot below `n` and without offset, is wrapped by `v4_at` or `v6_at`: each is below the
-- capacity of its family.
pub equal_sessions_fit :
    (p : PrefixPlan) (n slot v4 v6 x : ℕ)
    → check_capacity p (copies n (v4, v6)) ≡ some tt
    → slot < n
    → (mem ℕ_discrete x (session_indices p p.contested_pool_v4 slot v4 0) ≡ true
        → x < capacity_v4 p)
      × (mem ℕ_discrete x (session_indices p p.contested_pool_v6 slot v6 0) ≡ true
          → x < capacity_v6 p)
equal_sessions_fit p n slot v4 v6 x accepted in_range =
    let (fits4, fits6) = capacity_checked p (copies n (v4, v6)) accepted in
    (
      λ h. omega (
        arith,
        fits4,
        exclusive_total-copies p (λ s. s.0) n (v4, v6),
        window_fits p p.contested_pool_v4 n slot v4 x in_range h,
      ),
      λ h. omega (
        arith,
        fits6,
        exclusive_total-copies p (λ s. s.1) n (v4, v6),
        window_fits p p.contested_pool_v6 n slot v6 x in_range h,
      ),
    )

apart : (m a b i j : ℕ) → i < m → j < m → a * m + i ≡ b * m + j → a < b → ⊥
apart m a b i j low low' e less =
    absurd (omega (arith, suc-mul a m, mul-le-mul_right {m = suc a} {n = b} m (omega arith)))

same_slot :
    (p : PrefixPlan) (pool a b count offset x : ℕ)
    → pool ≤ x
    → mem ℕ_discrete x (session_indices p pool a count offset) ≡ true
    → mem ℕ_discrete x (session_indices p pool b count offset) ≡ true
    → a ≡ b
same_slot p pool a b count offset x high ha hb = elim (index_cases p pool a count offset x ha) [
  | inr low ↦ absurd (omega arith)
  | inl (i, li, ei) ↦ elim (index_cases p pool b count offset x hb) [
    | inr low ↦ absurd (omega arith)
    | inl (j, lj, ej) ↦
        let m = max (count - p.contested count) 1 in
        elim (Bool-cases (ltb a b)) [
          | inl less ↦
              absurd
                (apart m a b i j (omega arith) (omega arith) (omega arith) (omega (tests, less)))
          | inr rest ↦ elim (Bool-cases (ltb b a)) [
            | inl less ↦
                absurd
                  (apart m b a j i (omega arith) (omega arith) (omega arith) (omega (tests, less)))
            | inr rest' ↦ ground arith
          ]
        ]
  ]
]

-- Two sessions in different slots with the same prefix count and offset share no index from the
-- contested pool on.
pub equal_windows_apart :
    (p : PrefixPlan) (pool a b count offset x : ℕ)
    → a ≢ b
    → pool ≤ x
    → mem ℕ_discrete x (session_indices p pool a count offset) ≡ true
    → mem ℕ_discrete x (session_indices p pool b count offset) ≡ false
equal_windows_apart p pool a b count offset x different high h =
    elim (Bool-cases (mem ℕ_discrete x (session_indices p pool b count offset))) [
      | inr absent ↦ absent
      | inl found ↦ absurd (different (same_slot p pool a b count offset x high h found))
    ]
