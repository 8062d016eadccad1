-- ===== src/Prefixes/Session.antt =====
-- One session: no index twice, and as many as the profile asks for.
use native.Mathlib.Decide.{ℕ_discrete}
use native.Mathlib.Nat.{mod-lt, mod-eq_of_lt, mod-eq-sub-mod}
use vyos_ixp_bgp_stress.Prelude.{
  ℕ, zero, suc, ◌+◌, ◌-◌, ◌*◌, ◌/◌, ◌%◌, ◌≤◌, ◌<◌, ◌≡◌, ◌≢◌, refl, sym, subst, ◌∙◌, ap, true, false,
  ◌||◌, List, length, length-append, arith, ltb, ◌==◌, if◌then◌else◌, max, min, Bool-cases, inl,
  inr, tests,
}
use vyos_ixp_bgp_stress.Prelude.Keys.{mem, same, same-eq, Distinct, Distinct-append}
use vyos_ixp_bgp_stress.Prefixes.{
  PrefixPlan, generate, contested_indices, window_base, session_indices,
}

length-generate : (f : ℕ → ℕ) (n : ℕ) → length (generate f n) ≡ n
unfolding generate
length-generate f zero = refl
length-generate f (suc n) = ap suc (length-generate (λ i. f (suc i)) n)

-- A member of a generated list is one of the values.
pub mem-generate :
    (a : ℕ) (f : ℕ → ℕ) (n : ℕ)
    → mem ℕ_discrete a (generate f n) ≡ true
    → (i : ℕ) × (i < n) × (a ≡ f i)
unfolding generate mem
mem-generate a f zero h = cc
mem-generate a f (suc n) h = elim (Bool-cases (same ℕ_discrete a (f 0))) [
  | inl here ↦ (0, omega arith, same-eq ℕ_discrete a (f 0) here)
  | inr there ↦
      let (i, low, e) = mem-generate a (λ i. f (suc i)) n (rw there at h) in (suc i, omega arith, e)
]

-- The values are apart if the function is injective below the bound.
Distinct-generate :
    (f : ℕ → ℕ) (n : ℕ)
    → ((i j : ℕ) → i < j → j < n → f i ≢ f j)
    → Distinct ℕ_discrete (generate f n)
unfolding generate
Distinct-generate f zero apart = tt
Distinct-generate f (suc n) apart = (
  elim (Bool-cases (mem ℕ_discrete (f 0) (generate (λ i. f (suc i)) n))) [
    | inl found ↦
        let (i, low, e) = mem-generate (f 0) (λ i. f (suc i)) n found in
        absurd (apart 0 (suc i) (omega arith) (omega arith) e)
    | inr absent ↦ absent
  ],
  Distinct-generate (λ i. f (suc i)) n
      (λ i j low high. apart (suc i) (suc j) (omega arith) (omega arith)),
)

below_mod : (n m : ℕ) → n < m → n % m ≡ n
below_mod n m h = mod-eq_of_lt h

once_mod : (n m : ℕ) → m ≤ n → n < m + m → n % m ≡ n - m
once_mod n m low high = mod-eq-sub-mod low ∙ mod-eq_of_lt (omega arith)

-- Rotating by a base below the modulus keeps numbers below it apart.
rotated_apart :
    (base pool i j : ℕ) → base < pool → i < j → j < pool → (base + i) % pool ≢ (base + j) % pool
rotated_apart base pool i j b low high e = elim (Bool-cases (ltb (base + i) pool)) [
  | inl x ↦ elim (Bool-cases (ltb (base + j) pool)) [
    | inl y ↦ absurd (
        omega
          (tests, below_mod (base + i) pool (omega tests), below_mod (base + j) pool (omega tests)))
    | inr y ↦
        let past : pool ≤ base + j = ground arith in
        absurd (
          omega (
            tests,
            below_mod (base + i) pool (omega tests),
            once_mod (base + j) pool past (omega arith),
          ))
  ]
  | inr x ↦
      let past : pool ≤ base + i = ground arith in
      absurd (
        omega (
          arith,
          once_mod (base + i) pool past (omega arith),
          once_mod (base + j) pool (omega arith) (omega arith),
        ))
]

-- The three facts of the contested window.
pub record IsWindow (cont pool : ℕ) (xs : List ℕ) : Type 0 where
  pub distinct : Distinct ℕ_discrete xs
  pub below : (a : ℕ) → mem ℕ_discrete a xs ≡ true → a < pool
  pub size : length xs ≡ min cont pool

pub contested_indices-IsWindow :
    (slot cont pool : ℕ) → IsWindow cont pool (contested_indices slot cont pool)
unfolding contested_indices mem
contested_indices-IsWindow slot cont pool = elim (Bool-cases (cont == 0 || pool == 0)) [
  | inl none' ↦ rw none' (record { distinct = tt; below = λ a h. cc; size = ground arith })
  | inr some' ↦
      let positive : 0 < pool = ground arith in
      let width = min cont pool in
      let base = slot * max 1 (width / 4) % pool in
      rw some' (record {
        distinct =
            Distinct-generate (λ i. (base + i) % pool) width
              (λ i j low high. rotated_apart base pool i j (mod-lt _ positive) low (omega arith));
        below = λ a h.
            let (i, low, e) = mem-generate a (λ i. (base + i) % pool) width h in
            subst (λ z. z < pool) (sym e) (mod-lt _ positive);
        size = length-generate (λ i. (base + i) % pool) width;
      })
]

-- If the contested share is within the prefix count, a session announces no index twice, whatever its
-- slot and offset, and it announces as many as its count, less what the share has over the pool.
pub session_indices-Distinct :
    (p : PrefixPlan) (pool slot count offset : ℕ)
    → p.contested count ≤ count
    → Distinct ℕ_discrete (session_indices p pool slot count offset)
      × (length (session_indices p pool slot count offset)
          ≡ (if count == 0 then 0 else count - p.contested count + min (p.contested count) pool))
unfolding session_indices
session_indices-Distinct p pool slot count offset within = elim (Bool-cases (count == 0)) [
  | inl zero' ↦ rw zero' (tt, refl)
  | inr more ↦
      let excl = count - p.contested count in
      let first = generate (λ i. window_base pool slot excl offset + i) excl in
      let w = contested_indices-IsWindow slot (p.contested count) pool in
      rw more (
        Distinct-append ℕ_discrete first (contested_indices slot (p.contested count) pool)
            (Distinct-generate (λ i. window_base pool slot excl offset + i) excl
              (λ i j low high. λ e. absurd (omega arith)))
            w.distinct (λ a h. above p pool slot count offset a h w.below),
        length-append first (contested_indices slot (p.contested count) pool)
            ∙ omega
                (arith, length-generate (λ i. window_base pool slot excl offset + i) excl, w.size),
      )
]
  where
    above :
        (q : PrefixPlan) (pl sl ct off a : ℕ)
        → mem ℕ_discrete a
            (generate (λ i. window_base pl sl (ct - q.contested ct) off + i) (ct - q.contested ct))
          ≡ true
        → ((b : ℕ) → mem ℕ_discrete b (contested_indices sl (q.contested ct) pl) ≡ true → b < pl)
        → mem ℕ_discrete a (contested_indices sl (q.contested ct) pl) ≡ false
    above q pl sl ct off a h below =
        elim (Bool-cases (mem ℕ_discrete a (contested_indices sl (q.contested ct) pl))) [
          | inr absent ↦ absent
          | inl found ↦
              let (i, low, e) =
                mem-generate a (λ i. window_base pl sl (ct - q.contested ct) off + i)
                  (ct - q.contested ct) h in
              absurd (omega (arith, below a found))
        ]
