-- ===== src/Prelude/Keys.antt =====
-- Membership and distinctness by a decision on equality, in a form that runs.
use mathlib.Core.Bool.{Bool, true, false, ◌||◌}
use mathlib.Core.List.{List, [], ◌∷◌, ◌++◌}
use mathlib.Core.Path.{◌≡◌, refl, sym, subst}
use native.Mathlib.Omega.{arith}
use Prim.Native.String.{String}
use text.Mathlib.Text.{◌==◌}
use text.Mathlib.TextEquality.{eq_iff}
use vyos_ixp_bgp_stress.Prelude.Tests.{if◌then◌else◌}

decide_text : (a b : String) (t : Bool) → (a == b) ≡ t → Dec (a ≡ b)
decide_text a b true e = yes ((eq_iff a b).0 e)
decide_text a b false e = no (λ p. ground (arith, (eq_iff a b).1 p))

unfoldable pub string_discrete : Discrete String
unfolding decide_text
string_discrete a b = decide_text a b (a == b) refl

module _ {ℓ} {A : Type ℓ} (d : Discrete A) where
  unfoldable pub same : A → A → Bool
  same a b = elim (d a b) [ yes p ↦ true | no p ↦ false ]

  unfoldable pub mem : A → List A → Bool
  unfolding same
  mem a [] = false
  mem a (x ∷ xs) = if same a x then true else mem a xs

  abbrev pub Distinct : List A → Type 0
  Distinct [] = Unit
  Distinct (x ∷ xs) = (mem x xs ≡ false) × Distinct xs

module _ {ℓ} {A : Type ℓ} (d : Discrete A) where
  same_true : (a b : A) (e : Dec (a ≡ b)) → a ≡ b → (elim e [ yes p ↦ true | no p ↦ false ]) ≡ true
  same_true a b (yes p) q = refl
  same_true a b (no p) q = absurd (p q)

  pub same_refl : (a : A) → same d a a ≡ true
  unfolding same
  same_refl a = same_true a a (d a a) refl

  from_true : (a b : A) (e : Dec (a ≡ b)) → (elim e [ yes p ↦ true | no p ↦ false ]) ≡ true → a ≡ b
  from_true a b (yes p) q = p
  from_true a b (no p) q = cc

  pub same-eq : (a b : A) → same d a b ≡ true → a ≡ b
  unfolding same
  same-eq a b = from_true a b (d a b)

  pub mem-append : (a : A) (xs ys : List A) → mem d a (xs ++ ys) ≡ (mem d a xs || mem d a ys)
  unfolding mem
  mem-append a [] ys = refl
  mem-append a (x ∷ xs) ys = ground (arith, mem-append a xs ys)

module _ {ℓ} {A : Type ℓ} (d : Discrete A) where
  pub mem_head : (a : A) (xs : List A) → mem d a (a ∷ xs) ≡ true
  unfolding mem
  mem_head a xs = rw (same_refl d a)

  pub mem_tail : (a x : A) (xs : List A) → mem d a xs ≡ true → mem d a (x ∷ xs) ≡ true
  unfolding mem
  mem_tail a x xs h = ground arith

  pub Distinct-append :
      (xs ys : List A)
      → Distinct d xs
      → Distinct d ys
      → ((a : A) → mem d a xs ≡ true → mem d a ys ≡ false)
      → Distinct d (xs ++ ys)
  Distinct-append [] ys hx hy apart = hy
  Distinct-append (x ∷ xs) ys hx hy apart = (
    rw (mem-append d x xs ys, hx.0, apart x (mem_head x xs)) refl,
    Distinct-append xs ys hx.1 hy (λ a h. apart a (mem_tail a x xs h)),
  )

  pub same-mem : (a x : A) (xs : List A) → same d a x ≡ true → mem d x xs ≡ true → mem d a xs ≡ true
  same-mem a x xs e h = subst (λ z. mem d z xs ≡ true) (sym (same-eq d a x e)) h

  -- Both sides of `same` are members, or neither is.
  pub mem-same : (a x : A) (xs : List A) → same d a x ≡ true → mem d a xs ≡ true → mem d x xs ≡ true
  mem-same a x xs e h = subst (λ z. mem d z xs ≡ true) (same-eq d a x e) h

decide_text-true :
    (a b : String) (t : Bool) (e : (a == b) ≡ t)
    → (elim (decide_text a b t e) [ yes p ↦ true | no p ↦ false ]) ≡ t
unfolding decide_text
decide_text-true a b true e = refl
decide_text-true a b false e = refl

pub same-text : (a b : String) → same string_discrete a b ≡ (a == b)
unfolding same string_discrete
same-text a b = decide_text-true a b (a == b) refl
