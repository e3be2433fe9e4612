-- ===== src/Float.antt =====
-- The float64 operations that lib/tier uses. Go's floats are a parameter: `Float` is the type and
-- an instance of `FloatOps` its arithmetic and order.
use mezon_go_sdk_turbo.Prelude.{ℕ, Bool, ◌≡◌, true, false}
use mezon_go_sdk_turbo.Prelude.Int.{ℤ}

pub record FloatOps (Float : Type 0) : Type 0 where
  pub add : Float → Float → Float
  pub sub : Float → Float → Float
  pub mul : Float → Float → Float
  pub div : Float → Float → Float
  -- `a < b`
  pub less : Float → Float → Bool
  -- `n / 10`, the literals of the program: 0, 1, 2, 3, 10, 100, 0.7, 0.9.
  pub tenths : ℕ → Float
  -- `(time.Duration).Seconds` of a number of nanoseconds.
  pub seconds : ℤ → Float

-- What IEEE comparison keeps on values that are not NaN: `<` is a strict order, and a value that
-- is not below another is not above a third that the other is not above.
pub record IsOrdered {Float : Type 0} (f : FloatOps Float) : Type 0 where
  pub asymm : (a b : Float) → f.less a b ≡ true → f.less b a ≡ false
  pub trans : (a b c : Float) → f.less a b ≡ false → f.less b c ≡ false → f.less a c ≡ false
