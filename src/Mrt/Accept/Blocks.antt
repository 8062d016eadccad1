-- ===== src/Mrt/Accept/Blocks.antt =====
-- Blocks of bytes that `walk` consumes whole.
use Prim.Native.Nat.{bit_and, bit_or}
use vyos_ixp_bgp_stress.Prelude.{
  ℕ, zero, suc, ◌≤◌, ◌≡◌, refl, ◌∙◌, Bool, true, false, some, List, [], ◌∷◌, ◌++◌, append_assoc,
  length, length-append, arith, ◌==◌, inl, inr, ◌⊎◌,
}
use vyos_ixp_bgp_stress.Mrt.Bytes.{Bytes, pack_h, two_bytes, u16-two_bytes}
use vyos_ixp_bgp_stress.Mrt.Attrs.{attr}
use vyos_ixp_bgp_stress.Mrt.Walk.{ok, slice-append, check_value, attr_length, walk}

-- With fuel for the whole input `walk` consumes the block, adds the codes, and has fuel for the rest.
abbrev pub Walks : Bool → Bytes → List ℕ → Type 0
Walks v6 block codes =
    (f : ℕ) (rest : Bytes) (acc : List ℕ)
    → length (block ++ rest) ≤ f
    → (g : ℕ) × (length rest ≤ g) × (walk v6 f (block ++ rest) acc ≡ walk v6 g rest (codes ++ acc))

pub Walks-nil : (v6 : Bool) → Walks v6 [] []
Walks-nil v6 f rest acc h = (f, h, refl)

pub Walks-append :
    (v6 : Bool) (a b : Bytes) (cs ds : List ℕ)
    → Walks v6 a cs
    → Walks v6 b ds
    → Walks v6 (a ++ b) (ds ++ cs)
Walks-append v6 a b cs ds wa wb f rest acc h =
    let (g, room, e) = wa f (b ++ rest) acc (rw (← append_assoc a b rest) h) in
    let (k, room', e') = wb g rest (cs ++ acc) room in
    (k, room', rw (append_assoc a b rest, append_assoc ds cs acc) (e ∙ e'))

walk_short :
    (v6 : Bool) (f flags code : ℕ) (value rest : Bytes) (acc : List ℕ)
    → (bit_and flags 0x10 == 0) ≡ true
    → check_value v6 code value ≡ ok tt
    → walk v6 (suc f) (flags ∷ code ∷ length value ∷ (value ++ rest)) acc
      ≡ walk v6 f rest (code ∷ acc)
unfolding walk attr_length
walk_short v6 f flags code value rest acc plain good = simp (plain, slice-append value rest, good)

walk_long :
    (v6 : Bool) (f flags code : ℕ) (value rest : Bytes) (acc : List ℕ)
    → (bit_and flags 0x10 == 0) ≡ false
    → check_value v6 code value ≡ ok tt
    → walk v6 (suc f) (flags ∷ code ∷ (two_bytes (length value) ++ (value ++ rest))) acc
      ≡ walk v6 f rest (code ∷ acc)
unfolding walk attr_length
walk_long v6 f flags code value rest acc extended good =
    simp (extended, u16-two_bytes, slice-append, good)

-- What `attr` yields.
attr_cases :
    (code flags : ℕ) (value block : Bytes)
    → attr code flags value ≡ some block
    → (block ≡ flags ∷ code ∷ length value ∷ value)
      ⊎ (block ≡ bit_or flags 0x10 ∷ code ∷ (two_bytes (length value) ++ value))
unfolding attr pack_h
attr_cases code flags value block e = ground arith

-- The block of an attribute whose value passes the checks.
pub Walks-attr :
    (v6 : Bool) (code flags : ℕ) (value block : Bytes)
    → (bit_and flags 0x10 == 0) ≡ true
    → (bit_and (bit_or flags 0x10) 0x10 == 0) ≡ false
    → check_value v6 code value ≡ ok tt
    → attr code flags value ≡ some block
    → Walks v6 block (code ∷ [])
Walks-attr v6 code flags value block plain extended good e zero rest acc h =
    elim (attr_cases code flags value block e) [
      | inl short ↦ absurd (omega (arith, rw short at h))
      | inr long ↦ absurd (omega (arith, rw long at h))
    ]
Walks-attr v6 code flags value block plain extended good e (suc f) rest acc h =
    elim (attr_cases code flags value block e) [
      | inl short ↦ (
        f,
        omega (arith, rw short at h, length-append value rest),
        rw short (walk_short v6 f flags code value rest acc plain good),
      )
      | inr long ↦ (
        f,
        omega (arith, rw long at h, length-append value rest),
        rw long (walk_long v6 f (bit_or flags 0x10) code value rest acc extended good),
      )
    ]
