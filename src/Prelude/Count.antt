-- ===== src/Prelude/Count.antt =====
-- How many elements of a list pass a test: a view of a list that forgets its order.
use Prim.Native.Nat.{ℕ, ◌+◌, ◌≤◌}
use mathlib.Core.Path.{◌≡◌, refl, ap, ◌∙◌}
use mathlib.Core.Bool.{Bool, true, false, not, ◌&&◌, ◌||◌}
use mathlib.Core.List.{List, [], ◌∷◌, ◌++◌, Perm, Permᴰ}
use mathlib.Core.Logic.{∥∥₁_elim}
use native.Mathlib.Nat.{ℕ_set}
use native.Mathlib.Omega.{arith}
use mezon_go_sdk_turbo.Prelude.Tests.{one_if}
use mezon_go_sdk_turbo.Prelude.Lists.{All, All-mono}

module _ {ℓ} {A : Type ℓ} where
  abbrev pub count_if : (A → Bool) → List A → ℕ
  count_if p [] = 0
  count_if p (x ∷ xs) = one_if (p x) + count_if p xs

  pub count_if-append :
      (p : A → Bool) (xs ys : List A) → count_if p (xs ++ ys) ≡ count_if p xs + count_if p ys
  count_if-append p [] ys = omega arith
  count_if-append p (x ∷ xs) ys = omega (arith, count_if-append p xs ys)

  -- What the tests of `p` imply of each element bounds the counts.
  pub count_if_mono :
      (p q : A → Bool) (xs : List A)
      → All (λ x. p x ≡ true → q x ≡ true) xs
      → count_if p xs ≤ count_if q xs
  count_if_mono p q [] h = omega arith
  count_if_mono p q (x ∷ xs) h = ground (arith, count_if_mono p q xs h.1)

  pub count_if_same :
      (p q : A → Bool) (xs : List A) → All (λ x. p x ≡ q x) xs → count_if p xs ≡ count_if q xs
  count_if_same p q [] all = refl
  count_if_same p q (x ∷ xs) all = rw (all.0, count_if_same p q xs all.1) refl

  pub count_if-or :
      (p q : A → Bool) (xs : List A) → count_if (λ x. p x || q x) xs ≤ count_if p xs + count_if q xs
  count_if-or p q [] = omega arith
  count_if-or p q (x ∷ xs) = ground (arith, count_if-or p q xs)

  count_if-permᴰ : (p : A → Bool) {xs ys : List A} → Permᴰ xs ys → count_if p xs ≡ count_if p ys
  count_if-permᴰ p Permᴰ.nil = refl
  count_if-permᴰ p (Permᴰ.cons {b = b} e d) =
      rw e (ap (λ (n : ℕ). one_if (p b) + n) (count_if-permᴰ p d))
  count_if-permᴰ p (Permᴰ.swap e f) = rw (e, f) (omega arith)
  count_if-permᴰ p (Permᴰ.trans d d') = count_if-permᴰ p d ∙ count_if-permᴰ p d'

  pub count_if-perm : (p : A → Bool) {xs ys : List A} → Perm xs ys → count_if p xs ≡ count_if p ys
  count_if-perm p d = ∥∥₁_elim d (ℕ_set _ _) (count_if-permᴰ p)

  -- A test that fails on every element counts none, and one that counts none fails on each.
  pub count_if-zero : (p : A → Bool) (xs : List A) → All (λ x. p x ≡ false) xs → count_if p xs ≡ 0
  count_if-zero p [] h = refl
  count_if-zero p (x ∷ xs) h = ground (arith, count_if-zero p xs h.1)

  pub All-of_zero : (p : A → Bool) (xs : List A) → count_if p xs ≡ 0 → All (λ x. p x ≡ false) xs
  All-of_zero p [] h = tt
  All-of_zero p (x ∷ xs) h = (ground arith, All-of_zero p xs (omega arith))

  pub All-of_every {κ} : (P : A → Type κ) → ((x : A) → P x) → (xs : List A) → All P xs
  All-of_every P h [] = tt
  All-of_every P h (x ∷ xs) = (h x, All-of_every P h xs)

  pub count_if-split :
      (p q : A → Bool) (xs : List A)
      → count_if p xs ≡ count_if (λ x. q x && p x) xs + count_if (λ x. not (q x) && p x) xs
  count_if-split p q [] = omega arith
  count_if-split p q (x ∷ xs) = ground (arith, count_if-split p q xs)

  -- An element of a list is counted by every test that it passes.
  abbrev pub Among : List A → A → Type ℓ
  Among xs x = (p : A → Bool) → one_if (p x) ≤ count_if p xs

  pub All-Among : (xs : List A) → All (Among xs) xs
  All-Among [] = tt
  All-Among (x ∷ xs) = (
    λ p. omega arith,
    All-mono (Among xs) (Among (x ∷ xs)) (λ y h p. omega (arith, h p)) xs (All-Among xs),
  )

  pub count_if-or_disjoint :
      (p q : A → Bool) (xs : List A)
      → All (λ x. p x ≡ true → q x ≡ false) xs
      → count_if (λ x. p x || q x) xs ≡ count_if p xs + count_if q xs
  count_if-or_disjoint p q [] h = omega arith
  count_if-or_disjoint p q (x ∷ xs) h = ground (arith, count_if-or_disjoint p q xs h.1)

  -- Tests that agree on every element count alike.
  pub count_if-eq :
      (p q : A → Bool) (xs : List A) → All (λ x. p x ≡ q x) xs → count_if p xs ≡ count_if q xs
  count_if-eq p q [] h = refl
  count_if-eq p q (x ∷ xs) h = ground (arith, count_if-eq p q xs h.1)

  -- What a test says of every element does not depend on their order.
  pub All-of_perm :
      (p : A → Bool) {xs ys : List A}
      → Perm xs ys
      → All (λ x. p x ≡ true) ys
      → All (λ x. p x ≡ true) xs
  All-of_perm p {xs} {ys} perm all =
      let missed = λ (x : A). not (p x) in
      let none_left : count_if missed ys ≡ 0 =
        count_if-zero missed ys
          (All-mono (λ x. p x ≡ true) (λ x. missed x ≡ false) (λ x h. rw h) ys all) in
      All-mono (λ x. missed x ≡ false) (λ x. p x ≡ true) (λ x h. ground arith) xs
        (All-of_zero missed xs (omega (arith, none_left, count_if-perm missed perm)))
