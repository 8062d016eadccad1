-- ===== src/Prefixes/Batches/Contents.antt =====
-- The batches hold the prefixes that were given, in their order, and no batch is too long.
use vyos_ixp_bgp_stress.Prelude.{
  ℕ, ◌≤◌, ◌<◌, ◌≡◌, ◌∙◌, refl, sym, ap, subst, Bool, true, false, Option, List, [], ◌∷◌, ◌++◌,
  arith, leb, length, length-append, append-nil, append_assoc, Bool-cases, inl, inr, All,
  if◌then◌else◌,
}
use vyos_ixp_bgp_stress.Mrt.Writer.{Prefix}
use vyos_ixp_bgp_stress.Prefixes.Batches.{
  Scope, Attributes, Line, withdraw_route, announce, scope_of, withdraw_all, withdraw_loop,
  announce_loop, exabgp_announce_batches,
}

-- The prefixes that lines announce, and those that they withdraw.
unfoldable pub announced : List Line → List Prefix
announced [] = []
announced (withdraw_route scope q ∷ lines) = announced lines
announced (announce scope attrs nlri ∷ lines) = nlri ++ announced lines

unfoldable pub withdrawn : List Line → List Prefix
withdrawn [] = []
withdrawn (withdraw_route scope q ∷ lines) = q ∷ withdrawn lines
withdrawn (announce scope attrs nlri ∷ lines) = withdrawn lines

-- A withdrawal of one prefix, or an announcement of at least one and at most `batch` with the
-- attributes; both for the given neighbours.
abbrev pub IsLine : Scope → Attributes → ℕ → Bool → Line → Type 0
IsLine scope attrs batch down (withdraw_route scope' q) = (down ≡ true) × (scope' ≡ scope)
IsLine scope attrs batch down (announce scope' attrs' nlri) =
    (down ≡ false) × (scope' ≡ scope) × (attrs' ≡ attrs) × (0 < length nlri) × (length nlri ≤ batch)

module _ (scope : Scope) (attrs : Attributes) (batch : ℕ) where
  moved :
      (buf : List Prefix) (p : Prefix) (prefixes : List Prefix)
      → (buf ++ p ∷ []) ++ prefixes ≡ buf ++ p ∷ prefixes
  moved buf p prefixes = append_assoc buf (p ∷ []) prefixes

  withdrawn_all :
      (buf : List Prefix) (lines : List Line)
      → withdrawn (withdraw_all scope buf ++ lines) ≡ buf ++ withdrawn lines
  unfolding withdrawn withdraw_all
  withdrawn_all [] lines = refl
  withdrawn_all (q ∷ buf) lines = ap (◌∷◌ q) (withdrawn_all buf lines)

  lines_all :
      (buf : List Prefix) (lines : List Line)
      → All (IsLine scope attrs batch true) lines
      → All (IsLine scope attrs batch true) (withdraw_all scope buf ++ lines)
  unfolding withdraw_all
  lines_all [] lines h = h
  lines_all (q ∷ buf) lines h = ((refl, refl), lines_all buf lines h)

  withdraw_loop_lem :
      (buf prefixes : List Prefix)
      → (withdrawn (withdraw_loop scope batch buf prefixes) ≡ buf ++ prefixes)
        × All (IsLine scope attrs batch true) (withdraw_loop scope batch buf prefixes)
  unfolding withdraw_loop withdrawn
  withdraw_loop_lem buf [] = (
    ap withdrawn (sym (append-nil (withdraw_all scope buf))) ∙ withdrawn_all buf [],
    subst (All (IsLine scope attrs batch true)) (append-nil _) (lines_all buf [] tt),
  )
  withdraw_loop_lem buf (p ∷ prefixes) = elim (Bool-cases (leb batch (length (buf ++ p ∷ [])))) [
    | inl full ↦ rw full (
        let rest = withdraw_loop_lem [] prefixes in
        (
          withdrawn_all (buf ++ p ∷ []) _ ∙ ap (◌++◌ (buf ++ p ∷ [])) rest.0 ∙ moved buf p prefixes,
          lines_all (buf ++ p ∷ []) _ rest.1,
        ))
    | inr short ↦ rw short (
        let rest = withdraw_loop_lem (buf ++ p ∷ []) prefixes in
        (rest.0 ∙ moved buf p prefixes, rest.1))
  ]

  announce_loop_lem :
      (buf prefixes : List Prefix)
      → 0 < batch
      → length buf < batch
      → (announced (announce_loop scope attrs batch buf prefixes) ≡ buf ++ prefixes)
        × All (IsLine scope attrs batch false) (announce_loop scope attrs batch buf prefixes)
  unfolding announce_loop announced
  announce_loop_lem [] [] pos room = (refl, tt)
  announce_loop_lem (q ∷ buf) [] pos room =
      (refl, ((refl, refl, refl, omega arith, omega arith), tt))
  announce_loop_lem buf (p ∷ prefixes) pos room =
      elim (Bool-cases (leb batch (length (buf ++ p ∷ [])))) [
        | inl full ↦ rw full (
            let rest = announce_loop_lem [] prefixes pos pos in
            let long = length-append buf (p ∷ []) in
            (
              ap (◌++◌ (buf ++ p ∷ [])) rest.0 ∙ moved buf p prefixes,
              ((refl, refl, refl, omega (arith, long), omega (arith, long)), rest.1),
            ))
        | inr short ↦ rw short (
            let rest = announce_loop_lem (buf ++ p ∷ []) prefixes pos (ground (arith, short)) in
            (rest.0 ∙ moved buf p prefixes, rest.1))
      ]

-- The lines hold exactly the prefixes that were given, in their order: withdrawn one by one, or
-- announced with the given attributes by lines of at least one and at most `batch` prefixes, if
-- `batch` is positive; and each line names the given neighbours.
pub exabgp_announce_batches-IsLine :
    (prefixes : List Prefix) (attrs : Attributes) (batch : ℕ) (n local_ip : Option ℕ) (down : Bool)
    → 0 < batch
    → ((if down then withdrawn else announced)
          (exabgp_announce_batches prefixes attrs batch n local_ip down)
        ≡ prefixes)
      × All
          (IsLine (scope_of n local_ip) attrs batch down)
          (exabgp_announce_batches prefixes attrs batch n local_ip down)
unfolding exabgp_announce_batches
exabgp_announce_batches-IsLine prefixes attrs batch n local_ip true pos =
    withdraw_loop_lem (scope_of n local_ip) attrs batch [] prefixes
exabgp_announce_batches-IsLine prefixes attrs batch n local_ip false pos =
    announce_loop_lem (scope_of n local_ip) attrs batch [] prefixes pos pos
