-- ===== src/Analysis/Signatures/Suspects.antt =====
-- A report is suspect when some signature has the same counter in every window that counts it.
use vyos_ixp_bgp_stress.Prelude.{
  ℕ, ◌≤◌, ◌≡◌, ◌↔◌, ◌∙◌, refl, sym, ap, String, true, false, ◌&&◌, Option, none, some, List, [],
  ◌∷◌, ◌++◌, arith, ltb, leb, ◌==◌, if◌then◌else◌, eq_iff, str_eq, inl, inr, Bool-cases, All,
  length,
}
use vyos_ixp_bgp_stress.Prelude.Dict.{lookup, lookup-insert, IsDict, IsDict-insert}
use vyos_ixp_bgp_stress.Analysis.Signatures.{
  Window, Seen, counted, holds, include, or_empty, add_seen, window_seen, all_seen, windows_with,
  any_suspect, log_totals,
}

-- The counters of a signature that are not 0, in the order of the timeline.
unfoldable pub shown : Option ℕ → List ℕ → List ℕ
shown none rest = rest
shown (some v) rest = if ltb 0 v then v ∷ rest else rest

unfoldable pub values_in : String → Window → List ℕ
values_in name [] = []
values_in name ((k, v) ∷ logs) =
    let rest = values_in name logs in if str_eq k name then shown (counted k v) rest else rest

unfoldable pub values : String → List Window → List ℕ
values name [] = []
values name (logs ∷ records) = values_in name logs ++ values name records

-- There is a counter, and all the others are the same.
abbrev pub IsConstant : List ℕ → Type 0
IsConstant [] = ⊥
IsConstant (v ∷ vals) = All (λ w. w ≡ v) vals

collect : List ℕ → List ℕ → List ℕ
collect s [] = s
collect s (v ∷ vals) = collect (include v s) vals

collect-append : (s xs ys : List ℕ) → collect s (xs ++ ys) ≡ collect (collect s xs) ys
unfolding collect
collect-append s [] ys = refl
collect-append s (x ∷ xs) ys = collect-append (include x s) xs ys

contents : String → Seen → List ℕ
contents name seen = or_empty (lookup name seen)

contents-add_seen :
    (name k : String) (v : Option ℕ) (seen : Seen)
    → contents name (add_seen k v seen)
      ≡ (if str_eq k name then collect (contents name seen) (shown v []) else contents name seen)
unfolding contents add_seen shown collect
contents-add_seen name k none seen = ground arith
contents-add_seen name k (some v) seen =
    ground (arith, lookup-insert k name (include v (or_empty (lookup k seen))) seen, eq_iff k name)

shown-append : (v : Option ℕ) (rest : List ℕ) → shown v rest ≡ shown v [] ++ rest
unfolding shown
shown-append none rest = refl
shown-append (some v) rest = ground arith

contents-window_seen :
    (name : String) (logs : Window) (seen : Seen)
    → contents name (window_seen logs seen) ≡ collect (contents name seen) (values_in name logs)
unfolding window_seen values_in collect
contents-window_seen name [] seen = refl
contents-window_seen name ((k, v) ∷ logs) seen = elim (Bool-cases (str_eq k name)) [
  | inl same ↦
      rw
        (
          contents-window_seen name logs (add_seen k (counted k v) seen),
          contents-add_seen name k (counted k v) seen,
          same,
          shown-append (counted k v) (values_in name logs),
          collect-append (contents name seen) (shown (counted k v) []) (values_in name logs),
        )
        refl
  | inr other ↦
      rw
        (
          contents-window_seen name logs (add_seen k (counted k v) seen),
          contents-add_seen name k (counted k v) seen,
          other,
        )
        refl
]

contents-all_seen :
    (name : String) (records : List Window) (seen : Seen)
    → contents name (all_seen records seen) ≡ collect (contents name seen) (values name records)
unfolding all_seen values collect
contents-all_seen name [] seen = refl
contents-all_seen name (logs ∷ records) seen =
    contents-all_seen name records (window_seen logs seen)
    ∙ ap (λ s. collect s (values name records)) (contents-window_seen name logs seen)
    ∙ sym (collect-append (contents name seen) (values_in name logs) (values name records))

collect_more : (s vals : List ℕ) → length s ≤ length (collect s vals)
unfolding collect include
collect_more s [] = omega arith
collect_more s (v ∷ vals) = ground (arith, collect_more s vals, collect_more (v ∷ s) vals)

collect_one : (a : ℕ) (vals : List ℕ) → (length (collect (a ∷ []) vals) ≡ 1) ↔ All (λ w. w ≡ a) vals
unfolding collect include holds
collect_one a [] = (λ e. tt, λ e. refl)
collect_one a (v ∷ vals) = elim (Bool-cases (a == v)) [
  | inl same ↦
      rw same ((λ e. (ground arith, (collect_one a vals).0 e)), λ w. (collect_one a vals).1 w.1)
  | inr other ↦ rw other (
    (λ e. absurd (omega (arith, collect_more (v ∷ a ∷ []) vals, e))),
    λ w. absurd (differs other w.0),
  )
]
  where
    differs : (a == v) ≡ false → v ≡ a → ⊥
    differs other e = ground arith

collect_nil : (vals : List ℕ) → (length (collect [] vals) ≡ 1) ↔ IsConstant vals
unfolding collect include holds
collect_nil [] = (λ e. omega (arith, e), λ e. absurd e)
collect_nil (v ∷ vals) = collect_one v vals

IsDict-add_seen :
    (k : String) (v : Option ℕ) (seen : Seen) → IsDict seen → IsDict (add_seen k v seen)
unfolding add_seen
IsDict-add_seen k none seen d = d
IsDict-add_seen k (some n) seen d = elim (Bool-cases (ltb 0 n)) [
  | inl positive ↦ rw positive (IsDict-insert k _ seen d)
  | inr nothing ↦ rw nothing d
]

IsDict-window_seen : (logs : Window) (seen : Seen) → IsDict seen → IsDict (window_seen logs seen)
unfolding window_seen
IsDict-window_seen [] seen d = d
IsDict-window_seen ((k, v) ∷ logs) seen d =
    IsDict-window_seen logs _ (IsDict-add_seen k (counted k v) seen d)

IsDict-all_seen :
    (records : List Window) (seen : Seen) → IsDict seen → IsDict (all_seen records seen)
unfolding all_seen
IsDict-all_seen [] seen d = d
IsDict-all_seen (logs ∷ records) seen d =
    IsDict-all_seen records (window_seen logs seen) (IsDict-window_seen logs seen d)

-- A key of `seen` that makes the report suspect.
abbrev Accused : List Window → Seen → String → Type 0
Accused records seen name = (length (contents name seen) ≡ 1) × (5 ≤ windows_with name records)

contents_head : (k : String) (vals : List ℕ) (seen : Seen) → contents k ((k, vals) ∷ seen) ≡ vals
unfolding contents lookup
contents_head k vals seen = ground (arith, eq_iff k k)

contents_tail :
    (k name : String) (vals : List ℕ) (seen : Seen)
    → lookup k seen ≡ none
    → length (contents name seen) ≡ 1
    → contents name ((k, vals) ∷ seen) ≡ contents name seen
unfolding contents lookup
contents_tail k name vals seen fresh one = elim (Bool-cases (str_eq k name)) [
  | inl same ↦ absurd (clash ((eq_iff k name).0 same))
  | inr other ↦ rw other refl
]
  where
    clash : k ≡ name → ⊥
    clash e = cc

any_suspect-find :
    (records : List Window) (seen : Seen)
    → IsDict seen
    → any_suspect records seen ≡ true
    → (name : String) × Accused records seen name
unfolding any_suspect contents lookup
any_suspect-find records [] d e = cc
any_suspect-find records ((k, vals) ∷ seen) d e =
    elim (Bool-cases (length vals == 1 && leb 5 (windows_with k records))) [
      | inl here ↦ (k, (rw (contents_head k vals seen) (ground arith), ground arith))
      | inr elsewhere ↦
          let found = any_suspect-find records seen d.1 (rw elsewhere at e) in
          (found.0, (rw (contents_tail k found.0 vals seen d.0 found.1.0) found.1.0, found.1.1))
    ]

any_suspect-of :
    (records : List Window) (seen : Seen) (name : String)
    → Accused records seen name
    → any_suspect records seen ≡ true
unfolding any_suspect contents lookup
any_suspect-of records [] name a = ground arith
any_suspect-of records ((k, vals) ∷ seen) name a =
    ground (arith, any_suspect-of records seen name, eq_iff k name)

contents-values :
    (name : String) (records : List Window)
    → contents name (all_seen records []) ≡ collect [] (values name records)
unfolding contents lookup
contents-values name records = contents-all_seen name records []

-- The report is suspect exactly when some signature has the same counter, which is not 0, in every
-- window that counts it at all, and 5 windows or more have a value for it.
pub suspect_exactly_when :
    (records : List Window)
    → ((log_totals records).suspect ≡ true)
      ↔ ((name : String) × IsConstant (values name records) × (5 ≤ windows_with name records))
unfolding log_totals
suspect_exactly_when records = (
  (λ e.
      let found =
        any_suspect-find records (all_seen records []) (IsDict-all_seen records [] tt) e in
      (
        found.0,
        (collect_nil (values found.0 records)).0
            (rw (contents-values found.0 records) at found.1.0),
        found.1.1,
      )),
  λ a.
      any_suspect-of records (all_seen records []) a.0
        (rw (contents-values a.0 records) ((collect_nil (values a.0 records)).1 a.1), a.2),
)
