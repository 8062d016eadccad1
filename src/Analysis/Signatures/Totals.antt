-- ===== src/Analysis/Signatures/Totals.antt =====
-- The reported totals of the signatures.
use text.Mathlib.Text.{starts_with}
use vyos_ixp_bgp_stress.Prelude.{
  ℕ, ◌+◌, ◌≡◌, refl, String, Option, none, some, List, [], ◌∷◌, arith, ltb, or_zero, if◌then◌else◌,
  eq_iff, str_eq, Bool, true, false, sym, subst, Bool-cases, inl, inr,
}
use vyos_ixp_bgp_stress.Prelude.Dict.{lookup, lookup-insert, IsDict, IsDict-insert}
use vyos_ixp_bgp_stress.Analysis.Signatures.{
  Value, number, boolean, other, number_of, Window, Totals, counted, add_total, window_totals,
  all_totals, positive, log_totals,
}

-- What a value adds to a sum: a number itself, and a Boolean as 0 or 1.
abbrev pub amount : Value → ℕ
amount (number n) = n
amount (boolean true) = 1
amount (boolean false) = 0
amount (other b) = 0

-- The sum of the values of a key in one window and in all of them.
unfoldable pub in_window : String → Window → ℕ
in_window name [] = 0
in_window name ((k, v) ∷ logs) =
    let rest = in_window name logs in if str_eq k name then amount v + rest else rest

unfoldable pub in_windows : String → List Window → ℕ
in_windows name [] = 0
in_windows name (logs ∷ records) = in_window name logs + in_windows name records

-- What the loop counts of a key.
counted_in : String → Window → ℕ
counted_in name [] = 0
counted_in name ((k, v) ∷ logs) =
    let rest = counted_in name logs in if str_eq k name then or_zero (counted k v) + rest else rest

counted_in_all : String → List Window → ℕ
counted_in_all name [] = 0
counted_in_all name (logs ∷ records) = counted_in name logs + counted_in_all name records

-- A sum that is not taken for a key with an underscore.
abbrev unless_hidden : String → ℕ → ℕ
unless_hidden name n = if starts_with name "_" then 0 else n

counted-amount :
    (name : String) (v : Value) → or_zero (counted name v) ≡ unless_hidden name (amount v)
unfolding counted
counted-amount name (number n) = elim (Bool-cases (starts_with name "_")) [
  | inl hidden ↦ rw hidden refl
  | inr open_to_all ↦ rw open_to_all refl
]
counted-amount name (boolean b) = elim (Bool-cases (starts_with name "_")) [
  | inl hidden ↦ rw hidden refl
  | inr open_to_all ↦ rw open_to_all (as_number b)
]
  where
    as_number : (c : Bool) → number_of c ≡ amount (boolean c)
    as_number true = refl
    as_number false = refl
counted-amount name (other b) = elim (Bool-cases (starts_with name "_")) [
  | inl hidden ↦ rw hidden refl
  | inr open_to_all ↦ rw open_to_all refl
]

counted_in_lem :
    (name : String) (logs : Window)
    → counted_in name logs ≡ unless_hidden name (in_window name logs)
unfolding counted_in in_window
counted_in_lem name [] = ground arith
counted_in_lem name ((k, v) ∷ logs) = elim (Bool-cases (str_eq k name)) [
  | inl same ↦
      let here : or_zero (counted k v) ≡ unless_hidden name (amount v) =
        subst (λ z. or_zero (counted z v) ≡ unless_hidden name (amount v))
          (sym ((eq_iff k name).0 same)) (counted-amount name v) in
      rw (same, here, counted_in_lem name logs) (ground arith)
  | inr differ ↦ rw differ (counted_in_lem name logs)
]

counted_in_all_lem :
    (name : String) (records : List Window)
    → counted_in_all name records ≡ unless_hidden name (in_windows name records)
unfolding counted_in_all in_windows
counted_in_all_lem name [] = ground arith
counted_in_all_lem name (logs ∷ records) =
    rw (counted_in_lem name logs, counted_in_all_lem name records) (ground arith)

get-add_total :
    (name k : String) (v : Option ℕ) (totals : Totals)
    → or_zero (lookup name (add_total k v totals))
      ≡ or_zero (lookup name totals) + (if str_eq k name then or_zero v else 0)
unfolding add_total
get-add_total name k none totals = ground arith
get-add_total name k (some n) totals =
    ground (arith, lookup-insert k name (or_zero (lookup k totals) + n) totals, eq_iff k name)

get-window_totals :
    (name : String) (logs : Window) (totals : Totals)
    → or_zero (lookup name (window_totals logs totals))
      ≡ or_zero (lookup name totals) + counted_in name logs
unfolding window_totals counted_in
get-window_totals name [] totals = omega arith
get-window_totals name ((k, v) ∷ logs) totals = ground (
  arith,
  get-window_totals name logs (add_total k (counted k v) totals),
  get-add_total name k (counted k v) totals,
)

get-all_totals :
    (name : String) (records : List Window) (totals : Totals)
    → or_zero (lookup name (all_totals records totals))
      ≡ or_zero (lookup name totals) + counted_in_all name records
unfolding all_totals counted_in_all
get-all_totals name [] totals = omega arith
get-all_totals name (logs ∷ records) totals = omega (
  arith,
  get-all_totals name records (window_totals logs totals),
  get-window_totals name logs totals,
)

IsDict-add_total :
    (k : String) (v : Option ℕ) (totals : Totals) → IsDict totals → IsDict (add_total k v totals)
unfolding add_total
IsDict-add_total k none totals d = d
IsDict-add_total k (some n) totals d = IsDict-insert k _ totals d

IsDict-window_totals :
    (logs : Window) (totals : Totals) → IsDict totals → IsDict (window_totals logs totals)
unfolding window_totals
IsDict-window_totals [] totals d = d
IsDict-window_totals ((k, v) ∷ logs) totals d =
    IsDict-window_totals logs _ (IsDict-add_total k (counted k v) totals d)

IsDict-all_totals :
    (records : List Window) (totals : Totals) → IsDict totals → IsDict (all_totals records totals)
unfolding all_totals
IsDict-all_totals [] totals d = d
IsDict-all_totals (logs ∷ records) totals d =
    IsDict-all_totals records (window_totals logs totals) (IsDict-window_totals logs totals d)

if_positive : ℕ → Option ℕ
if_positive n = if ltb 0 n then some n else none

lookup-positive :
    (name : String) (totals : Totals)
    → IsDict totals
    → lookup name (positive totals) ≡ if_positive (or_zero (lookup name totals))
unfolding positive lookup if_positive
lookup-positive name [] d = refl
lookup-positive name ((k, v) ∷ totals) d =
    ground (arith, lookup-positive name totals d.1, d.0, eq_iff k name)

-- Of each key that does not start with an underscore the report holds the sum of its values over all
-- windows, numbers as they are, Booleans as 0 or 1 and anything else as 0, and nothing when the sum is
-- 0; of a key that does start so it holds nothing.
pub totals_are_sums :
    (name : String) (records : List Window)
    → lookup name (log_totals records).totals ≡ (
        if starts_with name "_"
        then none
        else (if ltb 0 (in_windows name records) then some (in_windows name records) else none))
unfolding log_totals if_positive lookup
totals_are_sums name records =
    let sum : or_zero (lookup name (all_totals records []))
        ≡ unless_hidden name (in_windows name records) =
      omega (arith, get-all_totals name records [], counted_in_all_lem name records) in
    rw (lookup-positive name (all_totals records []) (IsDict-all_totals records [] tt), sum)
      (ground arith)
