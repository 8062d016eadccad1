-- ===== src/Prelude/Dict.antt =====
-- A Python dictionary or set with text keys, as an association list in insertion order.
use mathlib.Core.Bool.{Bool, true, false}
use mathlib.Core.List.{List, [], ◌∷◌}
use mathlib.Core.Option.{Option, none, some}
use mathlib.Core.Path.{◌≡◌, refl}
use native.Mathlib.Omega.{arith}
use Prim.Native.String.{String}
use text.Mathlib.Text.{◌==◌}
use text.Mathlib.TextEquality.{eq_iff}
use vyos_ixp_bgp_stress.Prelude.Tests.{if◌then◌else◌, Bool-cases}
use mathlib.Core.Logic.{inl, inr}

-- `d.get(k)` and `d[k] = v`.
module _ {ℓ} {V : Type ℓ} where
  unfoldable pub lookup : String → List (String × V) → Option V
  lookup name [] = none
  lookup name ((first, here) ∷ rest) = if first == name then some here else lookup name rest

  unfoldable pub insert : String → V → List (String × V) → List (String × V)
  insert name new [] = (name, new) ∷ []
  insert name new ((first, here) ∷ rest) =
      if first == name then (first, new) ∷ rest else (first, here) ∷ insert name new rest

  pub lookup-insert :
      (name asked : String) (new : V) (dict : List (String × V))
      → lookup asked (insert name new dict)
        ≡ (if name == asked then some new else lookup asked dict)
  unfolding lookup insert
  lookup-insert name asked new [] = refl
  lookup-insert name asked new ((first, here) ∷ rest) = ground (
    arith,
    lookup-insert name asked new rest,
    eq_iff first name,
    eq_iff first asked,
    eq_iff name asked,
  )

-- `d.pop(k, None)`, without its result.
module _ {ℓ} {V : Type ℓ} where
  unfoldable pub remove : String → List (String × V) → List (String × V)
  remove name [] = []
  remove name ((k, v) ∷ dict) =
      let rest = remove name dict in if k == name then rest else (k, v) ∷ rest

  pub lookup-remove :
      (name asked : String) (dict : List (String × V))
      → lookup asked (remove name dict) ≡ (if name == asked then none else lookup asked dict)
  unfolding lookup remove
  lookup-remove name asked [] = ground arith
  lookup-remove name asked ((k, v) ∷ dict) =
      ground
        (arith, lookup-remove name asked dict, eq_iff k name, eq_iff k asked, eq_iff name asked)

-- No key stands twice.
module _ {V : Type 0} where
  abbrev pub IsDict : List (String × V) → Type 0
  IsDict [] = Unit
  IsDict ((k, v) ∷ dict) = (lookup k dict ≡ none) × IsDict dict

  pub IsDict-insert :
      (name : String) (new : V) (dict : List (String × V))
      → IsDict dict
      → IsDict (insert name new dict)
  unfolding lookup insert
  IsDict-insert name new [] d = (refl, tt)
  IsDict-insert name new ((k, v) ∷ rest) d = elim (Bool-cases (k == name)) [
    | inl same ↦ rw same d
    | inr other ↦ rw other (fresh other, IsDict-insert name new rest d.1)
  ]
    where
      fresh : (k == name) ≡ false → lookup k (insert name new rest) ≡ none
      fresh other = ground (arith, lookup-insert name k new rest, d.0, eq_iff k name, eq_iff name k)

-- `k in s`, `s.add(k)`, `s.discard(k)` on a set.
unfoldable pub contains : String → List String → Bool
contains k [] = false
contains k (j ∷ s) = if j == k then true else contains k s

unfoldable pub add : String → List String → List String
unfolding contains
add k s = if contains k s then s else k ∷ s

unfoldable pub discard : String → List String → List String
discard k [] = []
discard k (j ∷ s) = let rest = discard k s in if j == k then rest else j ∷ rest

pub contains-discard :
    (k j : String) (s : List String)
    → contains j (discard k s) ≡ (if k == j then false else contains j s)
unfolding contains discard
contains-discard k j [] = ground arith
contains-discard k j (i ∷ s) =
    ground (arith, eq_iff k j, eq_iff i k, eq_iff i j, contains-discard k j s)

pub contains-add :
    (k j : String) (s : List String)
    → contains j (add k s) ≡ (if k == j then true else contains j s)
unfolding contains add
contains-add k j s = ground (arith, eq_iff k j)
