-- ===== src/Heap/Content.antt =====
-- The heap operations keep the elements: only their order changes.
use mezon_go_sdk_turbo.Prelude.{
  ℕ, zero, suc, ◌+◌, ◌*◌, ◌/◌, ◌≡◌, refl, inl, inr, Bool, List, [], ◌∷◌, ◌++◌, Option, some, arith,
  ap, ◌∙◌, length, length-append, get_elem?, set, length-set, All, count_if-append, All-set,
  All-get, count_if, one_if, Bool-cases, Option-cases, leb,
}
use mezon_go_sdk_turbo.Heap.{
  swap, swap_of, pop_last, cons_fst, child, less_at, down, init_loop, init, pop,
}

module _ {ℓ} {A : Type ℓ} where
  count_if-set :
      (p : A → Bool) (xs : List A) (i : ℕ) (a v : A)
      → get_elem? xs i ≡ some a
      → count_if p (set xs i v) + one_if (p a) ≡ count_if p xs + one_if (p v)
  count_if-set p [] i a v e = cc
  count_if-set p (x ∷ xs) zero a v e = let e' : x ≡ a = cc in rw e' (omega arith)
  count_if-set p (x ∷ xs) (suc i) a v e = omega (arith, count_if-set p xs i a v e)

  -- After the first half of an exchange the second place still reads as before.
  get_elem?-set :
      (xs : List A) (i j : ℕ) (a b : A)
      → get_elem? xs i ≡ some a
      → get_elem? xs j ≡ some b
      → get_elem? (set xs i b) j ≡ some b
  get_elem?-set [] i j a b e f = cc
  get_elem?-set (x ∷ xs) zero zero a b e f = refl
  get_elem?-set (x ∷ xs) zero (suc j) a b e f = f
  get_elem?-set (x ∷ xs) (suc i) zero a b e f = f
  get_elem?-set (x ∷ xs) (suc i) (suc j) a b e f = get_elem?-set xs i j a b e f

  count_if-swap : (p : A → Bool) (h : List A) (i j : ℕ) → count_if p (swap h i j) ≡ count_if p h
  unfolding swap
  count_if-swap p h i j = elim (Option-cases (get_elem? h i)) [
    | inl e ↦ rw (e, swap_of)
    | inr (a, e) ↦ elim (Option-cases (get_elem? h j)) [
      | inl f ↦ rw (e, f, swap_of)
      | inr (b, f) ↦
          rw (e, f, swap_of)
            (omega (
              arith,
              count_if-set p h i a b e,
              count_if-set p (set h i b) j b a (get_elem?-set h i j a b e f),
            ))
    ]
  ]

  length-swap : (h : List A) (i j : ℕ) → length (swap h i j) ≡ length h
  unfolding swap
  length-swap h i j = elim (Option-cases (get_elem? h i)) [
    | inl e ↦ rw (e, swap_of)
    | inr (a, e) ↦ elim (Option-cases (get_elem? h j)) [
      | inl f ↦ rw (e, f, swap_of)
      | inr (b, f) ↦ rw (e, f, swap_of) (length-set (set h i b) j a ∙ length-set h i b)
    ]
  ]

  All-swap {κ} : (P : A → Type κ) (h : List A) (i j : ℕ) → All P h → All P (swap h i j)
  unfolding swap
  All-swap P h i j all = elim (Option-cases (get_elem? h i)) [
    | inl e ↦ rw (e, swap_of) all
    | inr (a, e) ↦ elim (Option-cases (get_elem? h j)) [
      | inl f ↦ rw (e, f, swap_of) all
      | inr (b, f) ↦
          rw (e, f, swap_of)
            (All-set P (set h i b) j a (All-get P h i a all e)
              (All-set P h i b (All-get P h j b all f) all))
    ]
  ]

  pop_last-cons : (x : A) (xs : List A) → (e : A) × (r : List A) × (pop_last (x ∷ xs) ≡ some (e, r))
  unfolding pop_last
  pop_last-cons x [] = (x, [], refl)
  pop_last-cons x (y ∷ ys) = let (e, r, q) = pop_last-cons y ys in (e, x ∷ r, rw (q, cons_fst))

  pub pop_last-append :
      (h : List A) {e : A} {r : List A} → pop_last h ≡ some (e, r) → h ≡ r ++ (e ∷ [])
  unfolding pop_last
  pop_last-append [] q = cc
  pop_last-append (x ∷ []) {e} {r} q =
      let p : ◌≡◌ {A = Option (A × List A)} (some (x, [])) (some (e, r)) = q in cc
  pop_last-append (x ∷ y ∷ ys) {e} {r} q =
      let (a, s, n) = pop_last-cons y ys in
      let p : ◌≡◌ {A = Option (A × List A)} (some (a, x ∷ s)) (some (e, r)) =
        rw (n, cons_fst) at q in
      let front : y ∷ ys ≡ s ++ (a ∷ []) = pop_last-append (y ∷ ys) n in cc

module _ {ℓ} {A : Type ℓ} (less : A → A → Bool) where
  count_if-down :
      (p : A → Bool) (f : ℕ) (h : List A) (i n : ℕ) → count_if p (down less f h i n) ≡ count_if p h
  unfolding down
  count_if-down p zero h i n = refl
  count_if-down p (suc f) h i n = ground (
    arith,
    count_if-down p f (swap h i (child less h i n)) (child less h i n) n,
    count_if-swap p h i (child less h i n),
  )

  length-down : (f : ℕ) (h : List A) (i n : ℕ) → length (down less f h i n) ≡ length h
  unfolding down
  length-down zero h i n = refl
  length-down (suc f) h i n = ground (
    arith,
    length-down f (swap h i (child less h i n)) (child less h i n) n,
    length-swap h i (child less h i n),
  )

  All-down {κ} :
      (P : A → Type κ) (f : ℕ) (h : List A) (i n : ℕ) → All P h → All P (down less f h i n)
  unfolding down
  All-down P zero h i n all = all
  All-down P (suc f) h i n all =
      let j = child less h i n in
      let rest = All-down P f (swap h i j) j n (All-swap P h i j all) in
      elim (Bool-cases (leb n (2 * i + 1))) [
        | inl leaf ↦ rw leaf all
        | inr inner ↦ rw inner (elim (Bool-cases (less_at less h j i)) [
          | inl lower ↦ rw lower rest
          | inr settled ↦ rw settled all
        ])
      ]

  count_if-init_loop :
      (p : A → Bool) (i : ℕ) (h : List A) (n : ℕ) → count_if p (init_loop less i h n) ≡ count_if p h
  unfolding init_loop
  count_if-init_loop p zero h n = refl
  count_if-init_loop p (suc i) h n =
      count_if-init_loop p i (down less n h i n) n ∙ count_if-down p n h i n

  All-init_loop {κ} :
      (P : A → Type κ) (i : ℕ) (h : List A) (n : ℕ) → All P h → All P (init_loop less i h n)
  unfolding init_loop
  All-init_loop P zero h n all = all
  All-init_loop P (suc i) h n all = All-init_loop P i (down less n h i n) n (All-down P n h i n all)

  -- `heap.Init` keeps every element as often as it stands in the slice.
  pub count_if-init : (p : A → Bool) (h : List A) → count_if p (init less h) ≡ count_if p h
  unfolding init
  count_if-init p h = count_if-init_loop p (length h / 2) h (length h)

  pub All-init {κ} : (P : A → Type κ) (h : List A) → All P h → All P (init less h)
  unfolding init
  All-init P h all = All-init_loop P (length h / 2) h (length h) all

  -- What `heap.Pop` takes out and what it leaves are the elements of the heap.
  pub count_if-pop :
      (p : A → Bool) (h : List A) {e : A} {r : List A}
      → pop less h ≡ some (e, r)
      → count_if p h ≡ one_if (p e) + count_if p r
  unfolding pop
  count_if-pop p [] q = cc
  count_if-pop p (x ∷ xs) {e} {r} q =
      let n = length xs in
      let h = swap (x ∷ xs) 0 n in
      omega (
        arith,
        count_if-swap p (x ∷ xs) 0 n,
        count_if-down p n h 0 n,
        ap (count_if p) (pop_last-append (down less n h 0 n) q),
        count_if-append p r (e ∷ []),
      )

  pub length-pop :
      (h : List A) {e : A} {r : List A} → pop less h ≡ some (e, r) → length h ≡ suc (length r)
  unfolding pop
  length-pop [] q = cc
  length-pop (x ∷ xs) {e} {r} q =
      let n = length xs in
      let h = swap (x ∷ xs) 0 n in
      omega (
        arith,
        length-swap (x ∷ xs) 0 n,
        length-down n h 0 n,
        ap length (pop_last-append (down less n h 0 n) q),
        length-append r (e ∷ []),
      )

  All-snoc {κ} : (P : A → Type κ) (r : List A) {e : A} → All P (r ++ (e ∷ [])) → P e × All P r
  All-snoc P [] all = (all.0, tt)
  All-snoc P (x ∷ xs) all = let (p, rest) = All-snoc P xs all.1 in (p, (all.0, rest))

  pub All-pop {κ} :
      (P : A → Type κ) (h : List A) {e : A} {r : List A}
      → pop less h ≡ some (e, r)
      → All P h
      → P e × All P r
  unfolding pop
  All-pop P [] q all = cc
  All-pop P (x ∷ xs) {e} {r} q all =
      let n = length xs in
      let h = swap (x ∷ xs) 0 n in
      All-snoc P r (
        rw (pop_last-append (down less n h 0 n) q) at
          (All-down P n h 0 n (All-swap P (x ∷ xs) 0 n all)))
