-- ===== src/Prefixes/Slots.antt =====
-- Several sessions: windows that keep within the space, and windows that fall together.
use native.Mathlib.Decide.{ℕ_discrete}
use native.Mathlib.Nat.{mul-le-mul_left, mul_comm, mul_assoc}
use vyos_ixp_bgp_stress.Prelude.{
  ℕ, zero, suc, ◌+◌, ◌-◌, ◌*◌, ◌≤◌, ◌<◌, ◌≡◌, refl, sym, subst, ◌∙◌, ap, Bool, true, false, ◌||◌,
  ◌⊎◌, arith, ◌==◌, max, Bool-cases, inl, inr,
}
use vyos_ixp_bgp_stress.Prelude.Keys.{mem, mem_head, mem_tail, mem-append}
use vyos_ixp_bgp_stress.Prefixes.{
  PrefixPlan, generate, contested_indices, window_base, session_indices,
}
use vyos_ixp_bgp_stress.Prefixes.Session.{mem-generate, contested_indices-IsWindow}

generate-mem : (f : ℕ → ℕ) (n i : ℕ) → i < n → mem ℕ_discrete (f i) (generate f n) ≡ true
unfolding generate
generate-mem f zero i h = absurd (omega arith)
generate-mem f (suc n) zero h = mem_head ℕ_discrete (f 0) (generate (λ i. f (suc i)) n)
generate-mem f (suc n) (suc i) h =
    mem_tail ℕ_discrete (f (suc i)) (f 0) (generate (λ j. f (suc j)) n)
      (generate-mem (λ j. f (suc j)) n i (omega arith))

or-cases : (a b : Bool) → (a || b) ≡ true → (a ≡ false) → b ≡ true
or-cases true b h e = cc
or-cases false b h e = h

-- An index of a session is in its exclusive window or below the pool.
pub index_cases :
    (p : PrefixPlan) (pool slot count offset x : ℕ)
    → mem ℕ_discrete x (session_indices p pool slot count offset) ≡ true
    → ((i : ℕ) × (i < count - p.contested count)
        × (x ≡ window_base pool slot (count - p.contested count) offset + i))
      ⊎ (x < pool)
unfolding session_indices mem
index_cases p pool slot count offset x h = elim (Bool-cases (count == 0)) [
  | inl e ↦ absurd (ground (arith, rw e at h))
  | inr e ↦
      let excl = count - p.contested count in
      let f : ℕ → ℕ = λ i. window_base pool slot excl offset + i in
      elim (Bool-cases (mem ℕ_discrete x (generate f excl))) [
        | inl here ↦ inl (mem-generate x f excl here)
        | inr there ↦ inr (
            (contested_indices-IsWindow slot (p.contested count) pool).below x (
              or-cases (mem ℕ_discrete x (generate f excl)) _
                (rw
                  (
                    e,
                    mem-append ℕ_discrete x (generate f excl)
                        (contested_indices slot (p.contested count) pool),
                  )
                  at h)
                there))
      ]
]

window-mem :
    (p : PrefixPlan) (pool slot count offset i : ℕ)
    → i < count - p.contested count
    → mem ℕ_discrete
        (window_base pool slot (count - p.contested count) offset + i)
        (session_indices p pool slot count offset)
      ≡ true
unfolding session_indices
window-mem p pool slot count offset i h =
    let excl = count - p.contested count in
    let f : ℕ → ℕ = λ j. window_base pool slot excl offset + j in
    let more : (count == 0) ≡ false = ground arith in
    rw
      (
        more,
        mem-append ℕ_discrete (f i) (generate f excl)
            (contested_indices slot (p.contested count) pool),
        generate-mem f excl i h,
      )
      refl

-- Exclusive windows are not exclusive across sessions of different sizes: the start of a window is
-- the slot times the window's own width. If the exclusive shares of two sessions are `k * b` in slot
-- `a` and `k * a` in a later slot `b`, every index that the second announces from the contested pool
-- on is announced by the first too.
pub windows_fall_together :
    (p : PrefixPlan) (pool a b k count_a count_b : ℕ)
    → 0 < a
    → a < b
    → count_a - p.contested count_a ≡ k * b
    → count_b - p.contested count_b ≡ k * a
    → (x : ℕ) → pool ≤ x
    → mem ℕ_discrete x (session_indices p pool b count_b 0) ≡ true
    → mem ℕ_discrete x (session_indices p pool a count_a 0) ≡ true
windows_fall_together p pool a b k count_a count_b first later ea eb x high h =
    elim (index_cases p pool b count_b 0 x h) [
      | inr low ↦ absurd (omega arith)
      | inl (i, inside, e) ↦
          let wider : k * a ≤ k * b = mul-le-mul_left k (omega arith) in
          let ra : max (count_a - p.contested count_a) 1 ≡ k * b =
            omega (arith, inside, ea, eb, wider) in
          let rb : max (count_b - p.contested count_b) 1 ≡ k * a = omega (arith, inside, eb) in
          let same_base : b * (k * a) ≡ a * (k * b) =
            mul_comm b (k * a)
            ∙ (mul_assoc k a b
                ∙ (ap (λ z. k * z) (mul_comm a b)
                    ∙ (sym (mul_assoc k b a) ∙ mul_comm (k * b) a))) in
          let here : window_base pool a (count_a - p.contested count_a) 0 + i ≡ x =
            rw (ra) (sym (rw (rb, same_base) at e)) in
          subst (λ z. mem ℕ_discrete z (session_indices p pool a count_a 0) ≡ true) here
            (window-mem p pool a count_a 0 i (omega (arith, inside, ea, eb, wider)))
    ]
