-- ===== src/Analysis/Signatures.antt =====
-- `log_totals` of analysis/analyze.py: how often each failure signature occurred in a run, and
-- whether a counter looks like a stale read. A dictionary's values are counters, Booleans, which are
-- numbers for Python, or something else, of which only the truth value is read. The order of the result's keys is not modelled.
pub mod Totals
pub mod Suspects
use text.Mathlib.Text.{starts_with}
use vyos_ixp_bgp_stress.Prelude.{
  ℕ, suc, ◌+◌, String, Bool, true, false, ◌&&◌, ◌||◌, not, Option, none, some, List, [], ◌∷◌, leb,
  ltb, ◌==◌, or_zero, if◌then◌else◌, length,
}
use vyos_ixp_bgp_stress.Prelude.Dict.{lookup, insert}

pub data Value : Type 0 where
  number : ℕ → Value
  boolean : Bool → Value
  other : Bool → Value

-- `rec.get("logs") or {}`
abbrev pub Window : Type 0
Window = List (String × Value)

-- The truth value of `logs.get(k)`.
unfoldable pub truthy : Option Value → Bool
truthy none = false
truthy (some (number n)) = ltb 0 n
truthy (some (boolean b)) = b
truthy (some (other b)) = b

-- A Boolean that is added to a number.
abbrev pub number_of : Bool → ℕ
number_of true = 1
number_of false = 0

-- What is added to `totals[k]` and put into `seen[k]` for one entry of a window.
unfoldable pub counted : String → Value → Option ℕ
counted k (other b) = none
counted k (boolean b) = if starts_with k "_" then none else some (number_of b)
counted k (number n) = if starts_with k "_" then none else some n

-- `s.add(v)`
unfoldable pub holds : ℕ → List ℕ → Bool
holds v [] = false
holds v (w ∷ s) = if w == v then true else holds v s

unfoldable pub include : ℕ → List ℕ → List ℕ
unfolding holds
include v s = if holds v s then s else v ∷ s

abbrev pub or_empty : Option (List ℕ) → List ℕ
or_empty none = []
or_empty (some s) = s

abbrev pub Totals : Type 0
Totals = List (String × ℕ)

abbrev pub Seen : Type 0
Seen = List (String × List ℕ)

unfoldable pub add_total : String → Option ℕ → Totals → Totals
add_total k none totals = totals
add_total k (some v) totals = insert k (or_zero (lookup k totals) + v) totals

unfoldable pub add_seen : String → Option ℕ → Seen → Seen
add_seen k none seen = seen
add_seen k (some v) seen =
    if ltb 0 v then insert k (include v (or_empty (lookup k seen))) seen else seen

unfoldable pub window_totals : Window → Totals → Totals
window_totals [] totals = totals
window_totals ((k, v) ∷ logs) totals = window_totals logs (add_total k (counted k v) totals)

unfoldable pub window_seen : Window → Seen → Seen
window_seen [] seen = seen
window_seen ((k, v) ∷ logs) seen = window_seen logs (add_seen k (counted k v) seen)

unfoldable pub all_totals : List Window → Totals → Totals
all_totals [] totals = totals
all_totals (logs ∷ records) totals = all_totals records (window_totals logs totals)

unfoldable pub all_seen : List Window → Seen → Seen
all_seen [] seen = seen
all_seen (logs ∷ records) seen = all_seen records (window_seen logs seen)

-- `sum(1 for r in records if (r.get("logs") or {}).get(k))`
unfoldable pub windows_with : String → List Window → ℕ
windows_with k [] = 0
windows_with k (logs ∷ records) =
    let rest = windows_with k records in if truthy (lookup k logs) then suc rest else rest

unfoldable pub any_suspect : List Window → Seen → Bool
any_suspect records [] = false
any_suspect records ((k, vals) ∷ seen) =
    (length vals == 1 && leb 5 (windows_with k records)) || any_suspect records seen

-- `any(logs.get("_window_unbounded") for ...)`
unfoldable pub any_unbounded : List Window → Bool
any_unbounded [] = false
any_unbounded (logs ∷ records) = truthy (lookup "_window_unbounded" logs) || any_unbounded records

-- `{k: v for k, v in ... if v}`
unfoldable pub positive : Totals → Totals
positive [] = []
positive ((k, v) ∷ totals) = let rest = positive totals in if ltb 0 v then (k, v) ∷ rest else rest

pub record Report : Type 0 where
  pub totals : Totals
  pub unbounded : Bool
  pub suspect : Bool

unfoldable pub log_totals : List Window → Report
log_totals records = record {
  totals = positive (all_totals records []);
  unbounded = any_unbounded records;
  suspect = any_suspect records (all_seen records []);
}
