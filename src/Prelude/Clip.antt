-- ===== src/Prelude/Clip.antt =====
-- Parts of a text, in characters.
use Prim.Native.Nat.{ℕ, zero, suc}
use Prim.Native.String.{String, [], ◌∷◌}
use mathlib.Core.Option.{Option, none, some}
use text.Mathlib.Text.{starts_with}
use vyos_ixp_bgp_stress.Prelude.Tests.{if◌then◌else◌}

-- `text[:n]`, `text[n:]` and `len(text)`.
unfoldable pub clip : ℕ → String → String
clip zero text = []
clip (suc n) [] = []
clip (suc n) (c ∷ text) = c ∷ clip n text

unfoldable pub skip : ℕ → String → String
skip zero text = text
skip (suc n) [] = []
skip (suc n) (c ∷ text) = skip n text

unfoldable pub char_count : String → ℕ
char_count [] = 0
char_count (c ∷ text) = suc (char_count text)

-- The two parts of `text.split(": ", 1)`, if there are two.
unfoldable pub split_colon : String → Option (String × String)
split_colon [] = none
split_colon (c ∷ text) =
    let rest = split_colon text in
    if starts_with (c ∷ text) ": "
    then some ([], skip 1 text)
    else elim rest [ none ↦ none | some (front, back) ↦ some (c ∷ front, back) ]
