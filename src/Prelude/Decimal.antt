-- ===== src/Prelude/Decimal.antt =====
-- Go strings and byte slices as lists of bytes, and strconv's ParseUint and FormatUint in base 10.
use Prim.Native.Nat.{ℕ, zero, suc, ◌+◌, ◌-◌, ◌*◌, ◌/◌, ◌%◌, ◌^◌, ◌≤◌, ◌<◌}
use mathlib.Core.Path.{◌≡◌, refl, ap, subst}
use mathlib.Core.Logic.{inl, inr}
use mathlib.Core.Bool.{Bool, true, false, ◌&&◌}
use mathlib.Core.List.{List, [], ◌∷◌, ◌++◌, append_assoc, append-nil}
use native.Mathlib.Omega.{arith}
use mezon_go_sdk_turbo.Prelude.Lists.{length}
use mezon_go_sdk_turbo.Prelude.Tests.{◌==◌, ltb, leb, if◌then◌else◌, Bool-cases}

-- Each byte is below 256.
abbrev pub Bytes : Type 0
Bytes = List ℕ

-- `v == ""`
abbrev pub is_empty : Bytes → Bool
is_empty [] = true
is_empty (x ∷ xs) = false

abbrev pub bytes_eq : Bytes → Bytes → Bool
bytes_eq [] [] = true
bytes_eq [] (y ∷ ys) = false
bytes_eq (x ∷ xs) [] = false
bytes_eq (x ∷ xs) (y ∷ ys) = x == y && bytes_eq xs ys

pub bytes_eq-eq : (xs ys : Bytes) → bytes_eq xs ys ≡ true → xs ≡ ys
bytes_eq-eq [] [] h = refl
bytes_eq-eq [] (y ∷ ys) h = ground arith
bytes_eq-eq (x ∷ xs) [] h = ground arith
bytes_eq-eq (x ∷ xs) (y ∷ ys) h =
    let heads : x ≡ y = ground (arith, h) in
    let tails : bytes_eq xs ys ≡ true = ground (arith, h) in
    rw (heads, bytes_eq-eq xs ys tails) refl

pub bytes_eq_self : (xs : Bytes) → bytes_eq xs xs ≡ true
bytes_eq_self [] = refl
bytes_eq_self (x ∷ xs) = ground (arith, bytes_eq_self xs)

-- `b[n:]`, for an `n` in range.
abbrev pub drop {ℓ} : {A : Type ℓ} → ℕ → List A → List A
drop zero xs = xs
drop (suc n) [] = []
drop (suc n) (x ∷ xs) = drop n xs

pub drop-append {ℓ} : {A : Type ℓ} (xs ys : List A) → drop (length xs) (xs ++ ys) ≡ ys
drop-append [] ys = refl
drop-append (x ∷ xs) ys = drop-append xs ys

pub length-drop {ℓ} : {A : Type ℓ} (n : ℕ) (xs : List A) → length (drop n xs) ≡ length xs - n
length-drop zero xs = omega arith
length-drop (suc n) [] = omega arith
length-drop (suc n) (x ∷ xs) = omega (arith, length-drop n xs)

-- A uint64.
abbrev pub IsU64 : ℕ → Type 0
IsU64 v = v < 2 ^ 64

-- What ParseUint(s, 10, 64) answers: a number, or 0 and a syntax error, or the largest uint64 and a
-- range error.
pub data Parsed : Type 0 where
  parsed : ℕ → Parsed
  syntax_error range_error : Parsed

abbrev is_digit : ℕ → Bool
is_digit c = leb 48 c && leb c 57

parse_digits : ℕ → Bytes → Parsed
parse_digits n [] = parsed n
parse_digits n (c ∷ cs) =
    let v = n * 10 + (c - 48) in
    let rest = parse_digits v cs in
    if is_digit c then (if ltb v (2 ^ 64) then rest else range_error) else syntax_error

unfoldable pub parse_uint : Bytes → Parsed
unfolding parse_digits
parse_uint [] = syntax_error
parse_uint (c ∷ cs) = parse_digits 0 (c ∷ cs)

-- `v, _ := strconv.ParseUint(s, 10, 64)`
abbrev pub value_of : Parsed → ℕ
value_of (parsed v) = v
value_of syntax_error = 0
value_of range_error = 2 ^ 64 - 1

digits : ℕ → ℕ → Bytes
digits zero v = []
digits (suc fuel) v =
    let front = digits fuel (v / 10) in
    if ltb v 10 then (48 + v) ∷ [] else front ++ ((48 + v % 10) ∷ [])

-- A uint64 has at most 20 digits.
unfoldable pub format_uint : ℕ → Bytes
unfolding digits
format_uint v = digits 20 v

parse_digits-digit :
    (n d : ℕ) (cs : Bytes)
    → d < 10
    → IsU64 (n * 10 + d)
    → parse_digits n ((48 + d) ∷ cs) ≡ parse_digits (n * 10 + d) cs
unfolding parse_digits
parse_digits-digit n d cs h u = ground arith

one_digit : (v : ℕ) (cs : Bytes) → v < 10 → parse_digits 0 ((48 + v) ∷ cs) ≡ parse_digits v cs
unfolding parse_digits
one_digit v cs h = ground arith

digits_small : (k v : ℕ) → v < 10 → digits (suc k) v ≡ (48 + v) ∷ []
unfolding digits
digits_small k v h = ground arith

digits_big : (k v : ℕ) → 10 ≤ v → digits (suc k) v ≡ digits k (v / 10) ++ ((48 + v % 10) ∷ [])
unfolding digits
digits_big k v h = ground arith

parse_digits-digits :
    (k v : ℕ) (cs : Bytes)
    → v < 10 ^ suc k
    → IsU64 v
    → parse_digits 0 (digits (suc k) v ++ cs) ≡ parse_digits v cs
parse_digits-digits zero v cs h u = rw (digits_small 0 v h) (one_digit v cs h)
parse_digits-digits (suc k) v cs h u = elim (Bool-cases (ltb v 10)) [
  | inl small ↦
      let few : v < 10 = ground (arith, small) in
      rw (digits_small (suc k) v few) (one_digit v cs few)
  | inr big ↦
      rw
        (
          digits_big (suc k) v (ground (arith, big)),
          append_assoc (digits (suc k) (v / 10)) ((48 + v % 10) ∷ []) cs,
          parse_digits-digits k (v / 10) ((48 + v % 10) ∷ cs) (omega arith) (omega arith),
          parse_digits-digit (v / 10) (v % 10) cs (omega arith) (omega arith),
        )
        (ap (λ n. parse_digits n cs) (omega arith))
]

parse_uint-snoc :
    (ys : Bytes) (c : ℕ) → parse_uint (ys ++ (c ∷ [])) ≡ parse_digits 0 (ys ++ (c ∷ []))
unfolding parse_uint
parse_uint-snoc [] c = refl
parse_uint-snoc (y ∷ ys) c = refl

parse_uint-digits : (k v : ℕ) → parse_uint (digits (suc k) v) ≡ parse_digits 0 (digits (suc k) v)
parse_uint-digits k v = elim (Bool-cases (ltb v 10)) [
  | inl small ↦ rw (digits_small k v (ground (arith, small))) (parse_uint-snoc [] (48 + v))
  | inr big ↦
      rw (digits_big k v (ground (arith, big))) (parse_uint-snoc (digits k (v / 10)) (48 + v % 10))
]

format_uint-digits : (v : ℕ) → format_uint v ≡ digits (suc 19) v
unfolding format_uint
format_uint-digits v = refl

-- ParseUint reads back any uint64 that FormatUint printed.
pub parse_uint-format_uint : (v : ℕ) → IsU64 v → parse_uint (format_uint v) ≡ parsed v
unfolding parse_digits
parse_uint-format_uint v u =
    rw (format_uint-digits v, parse_uint-digits 19 v)
      (subst (λ t. parse_digits 0 t ≡ parsed v) (append-nil (digits 20 v))
        (parse_digits-digits 19 v [] (omega arith) u))

parse_digits-IsU64 : (n : ℕ) (cs : Bytes) → IsU64 n → IsU64 (value_of (parse_digits n cs))
unfolding parse_digits
parse_digits-IsU64 n [] h = h
parse_digits-IsU64 n (c ∷ cs) h = ground (arith, parse_digits-IsU64 (n * 10 + (c - 48)) cs)

pub parse_uint-IsU64 : (s : Bytes) → IsU64 (value_of (parse_uint s))
unfolding parse_uint
parse_uint-IsU64 [] = omega arith
parse_uint-IsU64 (c ∷ cs) = parse_digits-IsU64 0 (c ∷ cs) (omega arith)
