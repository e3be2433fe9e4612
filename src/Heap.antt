-- ===== src/Heap.antt =====
-- lib/tier/pq.go with the functions of container/heap that use it. A heap is the slice; `less`
-- is the slice's Less on elements. An index out of range panics in Go: the `none` cases of
-- `less_of` and `swap_of`, which no call from `init` or `pop` reaches.
pub mod Content
use mezon_go_sdk_turbo.Prelude.{
  ℕ, zero, suc, ◌+◌, ◌-◌, ◌*◌, ◌/◌, Bool, false, not, ◌&&◌, List, [], ◌∷◌, ◌++◌, Option, none, some,
  length, get_elem?, set, ltb, leb, if◌then◌else◌,
}

module _ {ℓ} {A : Type ℓ} where
  -- `*h = append(*h, x)`
  unfoldable pub push : List A → A → List A
  push h x = h ++ (x ∷ [])

  swap_of : List A → ℕ → ℕ → Option A → Option A → List A
  swap_of h i j (some a) (some b) = set (set h i b) j a
  swap_of h i j _ _ = h

  -- `h[i], h[j] = h[j], h[i]`
  unfoldable pub swap : List A → ℕ → ℕ → List A
  unfolding swap_of
  swap h i j = swap_of h i j (get_elem? h i) (get_elem? h j)

  cons_fst : A → Option (A × List A) → Option (A × List A)
  cons_fst x none = some (x, [])
  cons_fst x (some (e, rest)) = some (e, x ∷ rest)

  -- The slice's own Pop: the last element, and the slice without it.
  unfoldable pub pop_last : List A → Option (A × List A)
  unfolding cons_fst
  pop_last [] = none
  pop_last (x ∷ xs) = cons_fst x (pop_last xs)

module _ {ℓ} {A : Type ℓ} (less : A → A → Bool) where
  less_of : Option A → Option A → Bool
  less_of (some a) (some b) = less a b
  less_of _ _ = false

  -- `h.Less(i, j)`
  unfoldable pub less_at : List A → ℕ → ℕ → Bool
  unfolding less_of
  less_at h i j = less_of (get_elem? h i) (get_elem? h j)

  -- The child of `i` to compare with: `j1`, or `j2` where it exists and is less.
  unfoldable pub child : List A → ℕ → ℕ → ℕ
  unfolding less_at
  child h i n =
      if ltb (2 * i + 2) n && less_at h (2 * i + 2) (2 * i + 1) then 2 * i + 2 else 2 * i + 1

  -- The loop of `down(h, i, n)`; a round moves `i` to a child below `n`, so `n` rounds are enough.
  unfoldable pub down : ℕ → List A → ℕ → ℕ → List A
  unfolding child less_at swap
  down zero h i n = h
  down (suc fuel) h i n =
      let j = child h i n in
      let rest = down fuel (swap h i j) j n in
      if leb n (2 * i + 1) then h else if not (less_at h j i) then h else rest

  -- `for i := n/2 - 1; i >= 0; i--`: the argument is `i + 1`.
  init_loop : ℕ → List A → ℕ → List A
  unfolding down
  init_loop zero h n = h
  init_loop (suc i) h n = init_loop i (down n h i n) n

  unfoldable pub init : List A → List A
  unfolding init_loop
  init h = init_loop (length h / 2) h (length h)

  -- `heap.Pop`; `none` is the panic on an empty heap.
  unfoldable pub pop : List A → Option (A × List A)
  unfolding pop_last swap down
  pop [] = none
  pop (x ∷ xs) = let n = length xs in let h = swap (x ∷ xs) 0 n in pop_last (down n h 0 n)
