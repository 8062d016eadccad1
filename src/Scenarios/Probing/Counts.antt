-- ===== src/Scenarios/Probing/Counts.antt =====
-- The lines of a log sample.
use vyos_ixp_bgp_stress.Prelude.{
  ℕ, suc, ◌+◌, ◌≡◌, ◌∙◌, refl, sym, ap, String, Bool, true, false, List, [], ◌∷◌, ◌++◌, map, arith,
  str_eq, eq_iff, append_assoc, append-nil, if◌then◌else◌, take, or_zero, is_some, Bool-cases, inl,
  inr,
}
use vyos_ixp_bgp_stress.Prelude.Dict.{lookup, insert, lookup-insert, contains}
use vyos_ixp_bgp_stress.Prelude.Clip.{clip}
use vyos_ixp_bgp_stress.Scenarios.Probing.{count_line, count_lines, with_count, keys_of, dedup_log}

-- How often a key occurs.
unfoldable pub occurrences : String → List String → ℕ
occurrences key [] = 0
occurrences key (k ∷ keys) =
    let rest = occurrences key keys in if str_eq k key then suc rest else rest

-- The keys that are not in `known`, each where it occurs first.
unfoldable pub first_of_each : List String → List String → List String
first_of_each known [] = []
first_of_each known (k ∷ keys) =
    let old = first_of_each known keys in
    let new = first_of_each (k ∷ known) keys in if contains k known then old else k ∷ new

-- A line of the sample.
unfoldable pub line_of : List String → String → String × ℕ
line_of keys key = (clip 400 key, occurrences key keys)

abbrev Counter : Type 0
Counter = List (String × ℕ) × List String

count-count_line :
    (key k : String) (st : Counter)
    → or_zero (lookup key (count_line k st).0)
      ≡ or_zero (lookup key st.0) + (if str_eq k key then 1 else 0)
unfolding count_line
count-count_line key k (counts, order) =
    ground (arith, lookup-insert k key (or_zero (lookup k counts) + 1) counts, eq_iff k key)

count-count_lines :
    (key : String) (keys : List String) (st : Counter)
    → or_zero (lookup key (count_lines keys st).0)
      ≡ or_zero (lookup key st.0) + occurrences key keys
unfolding count_lines occurrences
count-count_lines key [] st = omega arith
count-count_lines key (k ∷ keys) st =
    ground (arith, count-count_lines key keys (count_line k st), count-count_line key k st)

known_key :
    (key k : String) (n : ℕ) (counts : List (String × ℕ)) (b : Bool)
    → is_some (lookup k counts) ≡ true
    → b ≡ is_some (lookup key counts)
    → b ≡ is_some (lookup key (insert k n counts))
known_key key k n counts b known same = ground (arith, lookup-insert k key n counts, eq_iff k key)

new_key :
    (key k : String) (n : ℕ) (counts : List (String × ℕ)) (b : Bool)
    → b ≡ is_some (lookup key counts)
    → (if str_eq k key then true else b) ≡ is_some (lookup key (insert k n counts))
new_key key k n counts b same = ground (arith, lookup-insert k key n counts, eq_iff k key)

more : String → List (String × ℕ) → List (String × ℕ)
more k counts = insert k (or_zero (lookup k counts) + 1) counts

count_line-known :
    (k : String) (counts : List (String × ℕ)) (order : List String)
    → is_some (lookup k counts) ≡ true
    → count_line k (counts, order) ≡ (more k counts, order)
unfolding count_line more
count_line-known k counts order found = rw found refl

count_line-new :
    (k : String) (counts : List (String × ℕ)) (order : List String)
    → is_some (lookup k counts) ≡ false
    → count_line k (counts, order) ≡ (more k counts, order ++ k ∷ [])
unfolding count_line more
count_line-new k counts order missing = rw missing refl

order-count_lines :
    (keys known : List String) (counts : List (String × ℕ)) (order : List String)
    → ((key : String) → contains key known ≡ is_some (lookup key counts))
    → (count_lines keys (counts, order)).1 ≡ order ++ first_of_each known keys
unfolding count_lines more first_of_each contains
order-count_lines [] known counts order same = sym (append-nil order)
order-count_lines (k ∷ keys) known counts order same = elim (Bool-cases (contains k known)) [
  | inl old ↦
      let found : is_some (lookup k counts) ≡ true = sym (same k) ∙ old in
      rw old (
        ap (λ st. (count_lines keys st).1) (count_line-known k counts order found)
        ∙ order-count_lines keys known _ order (λ key. known_key key k _ counts _ found (same key)))
  | inr new ↦
      let missing : is_some (lookup k counts) ≡ false = sym (same k) ∙ new in
      rw new (
        ap (λ st. (count_lines keys st).1) (count_line-new k counts order missing)
        ∙ order-count_lines keys (k ∷ known) _ (order ++ k ∷ [])
            (λ key. new_key key k _ counts _ (same key))
        ∙ append_assoc order (k ∷ []) (first_of_each (k ∷ known) keys))
]

with_count_lem :
    (keys : List String) (counts : List (String × ℕ)) (order : List String)
    → ((key : String) → or_zero (lookup key counts) ≡ occurrences key keys)
    → with_count counts order ≡ map (line_of keys) order
unfolding with_count line_of
with_count_lem keys counts [] h = refl
with_count_lem keys counts (key ∷ order) h = rw (h key, with_count_lem keys counts order h) refl

-- The sample is made of the first `limit` different keys of the lines, in the order in which they
-- occur first: each is cut to 400 characters and has the number of its occurrences among the keys of
-- all lines.
pub dedup_log-first_of_each :
    (strip : String → String) (lines : List String) (limit : ℕ)
    → dedup_log strip lines limit
      ≡ map (line_of (keys_of strip lines)) (take limit (first_of_each [] (keys_of strip lines)))
unfolding dedup_log lookup contains
dedup_log-first_of_each strip lines limit =
    let keys = keys_of strip lines in
    let counts : List (String × ℕ) = (count_lines keys ([], [])).0 in
    with_count_lem keys counts (take limit (count_lines keys ([], [])).1)
      (λ key. omega (arith, count-count_lines key keys ([], [])))
    ∙ ap (λ order. map (line_of keys) (take limit order))
        (order-count_lines keys [] [] [] (λ key. refl))
