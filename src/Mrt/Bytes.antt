-- ===== src/Mrt/Bytes.antt =====
-- Byte strings as lists of numbers, and `struct.pack` in network order. `none` is `struct.error`.
use vyos_ixp_bgp_stress.Prelude.{
  ℕ, zero, suc, ◌+◌, ◌*◌, ◌/◌, ◌%◌, ◌^◌, ◌<◌, ◌≡◌, refl, ap, Option, none, some, List, [], ◌∷◌,
  ◌++◌, length, length-append, arith, ltb, lt→ltb, if◌then◌else◌,
}

abbrev pub Bytes : Type 0
Bytes = List ℕ

-- The Option monad.
infixl 5 ◌>>=◌ ◌>>◌
abbrev pub ◌>>=◌ : {A B : Type 0} → Option A → (A → Option B) → Option B
none >>= f = none
some a >>= f = f a

abbrev pub ◌>>◌ : {A B : Type 0} → Option A → Option B → Option B
m >> n = m >>= λ _. n

-- The big-endian bytes of a number: the `packed` form of an address.
unfoldable pub be : ℕ → ℕ → Bytes
be zero n = []
be (suc k) n = (n / 256 ^ k % 256) ∷ be k n

abbrev pub two_bytes : ℕ → Bytes
two_bytes n = (n / 256) ∷ (n % 256) ∷ []

abbrev pub four_bytes : ℕ → Bytes
four_bytes n = (n / 16777216) ∷ (n / 65536 % 256) ∷ (n / 256 % 256) ∷ (n % 256) ∷ []

-- `struct.pack` of "!B", "!H" and "!I".
unfoldable pub pack_b : ℕ → Option Bytes
pack_b n = if ltb n 256 then some (n ∷ []) else none

unfoldable pub pack_h : ℕ → Option Bytes
pack_h n = if ltb n 65536 then some (two_bytes n) else none

unfoldable pub pack_i : ℕ → Option Bytes
pack_i n = if ltb n 4294967296 then some (four_bytes n) else none

-- `b"".join(f(a) for a in items)`
unfoldable pub join {ℓ} : {A : Type ℓ} → (A → Option Bytes) → List A → Option Bytes
join f [] = some []
join f (a ∷ as') = do head ← f a; rest ← join f as'; some (head ++ rest)

-- The first `n` bytes and the others; `none` if there are fewer.
unfoldable pub split_at : ℕ → Bytes → Option (Bytes × Bytes)
split_at zero xs = some ([], xs)
split_at (suc n) [] = none
split_at (suc n) (x ∷ xs) = elim (split_at n xs) [ none ↦ none | some (a, b) ↦ some (x ∷ a, b) ]

-- The numbers that `struct.unpack_from` reads.
abbrev pub u16 : ℕ → ℕ → ℕ
u16 a b = a * 256 + b

abbrev pub u32 : ℕ → ℕ → ℕ → ℕ → ℕ
u32 a b c d = ((a * 256 + b) * 256 + c) * 256 + d

pub pack_b-some : (n : ℕ) → n < 256 → pack_b n ≡ some (n ∷ [])
unfolding pack_b
pack_b-some n h = rw (lt→ltb n 256 h)

pub pack_h-some : (n : ℕ) → n < 65536 → pack_h n ≡ some (two_bytes n)
unfolding pack_h
pack_h-some n h = rw (lt→ltb n 65536 h)

pub pack_i-some : (n : ℕ) → n < 4294967296 → pack_i n ≡ some (four_bytes n)
unfolding pack_i
pack_i-some n h = rw (lt→ltb n 4294967296 h)

pub u16-two_bytes : (n : ℕ) → u16 (n / 256) (n % 256) ≡ n
u16-two_bytes n = omega arith

pub u32-four_bytes : (n : ℕ) → u32 (n / 16777216) (n / 65536 % 256) (n / 256 % 256) (n % 256) ≡ n
u32-four_bytes n = omega arith

pub length-be : (k n : ℕ) → length (be k n) ≡ k
unfolding be
length-be zero n = refl
length-be (suc k) n = ap suc (length-be k n)

pub split_at-append : (xs ys : Bytes) → split_at (length xs) (xs ++ ys) ≡ some (xs, ys)
unfolding split_at
split_at-append [] ys = refl
split_at-append (x ∷ xs) ys = rw (split_at-append xs ys)

-- Where the length is known as a number.
pub split_at-exact : (n : ℕ) (xs ys : Bytes) → length xs ≡ n → split_at n (xs ++ ys) ≡ some (xs, ys)
split_at-exact n xs ys e = rw (← e) (split_at-append xs ys)

-- Inversion: of a bind, and of the packing functions by the length of what they yield.
pub >>=-eq-some :
    {A B : Type 0} (m : Option A) (f : A → Option B) {b : B}
    → (m >>= f) ≡ some b
    → (a : A) × (m ≡ some a) × (f a ≡ some b)
>>=-eq-some none f h = cc
>>=-eq-some (some a) f h = (a, refl, h)

pub pack_b-eq : (n : ℕ) (b : Bytes) → pack_b n ≡ some b → (n < 256) × (b ≡ n ∷ [])
unfolding pack_b
pack_b-eq n b h = ground arith

pub pack_h-eq : (n : ℕ) (b : Bytes) → pack_h n ≡ some b → (n < 65536) × (b ≡ two_bytes n)
unfolding pack_h
pack_h-eq n b h = ground arith

pub pack_i-eq : (n : ℕ) (b : Bytes) → pack_i n ≡ some b → (n < 4294967296) × (b ≡ four_bytes n)
unfolding pack_i
pack_i-eq n b h = ground arith

-- If every item yields `k` bytes, the joined items have `k` bytes each.
pub length-join {ℓ} :
    {A : Type ℓ} (k : ℕ) (f : A → Option Bytes)
    → ((a : A) (b : Bytes) → f a ≡ some b → length b ≡ k)
    → (items : List A) (body : Bytes) → join f items ≡ some body
    → length body ≡ length items * k
unfolding join
length-join k f each [] body h = ground arith
length-join k f each (a ∷ as') body h =
    let (head, first, more) = >>=-eq-some (f a) (λ x. join f as' >>= λ rest. some (x ++ rest)) h in
    let (rest, later, done) = >>=-eq-some (join f as') (λ rest. some (head ++ rest)) more in
    ground
      (arith, done, each a head first, length-join k f each as' rest later, length-append head rest)
