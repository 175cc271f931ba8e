-- ===== src/Prelude/Floats.antt =====
-- What the program uses of `float`: a parameter of the components that compute with scores.
use Prim.Native.Nat.{ℕ}
use mathlib.Core.Path.{◌≡◌}
use mathlib.Core.Bool.{Bool, true, false}

-- Finite numbers with their arithmetic. The laws are those of the order only: rounding makes no
-- algebraic law of `add` and `mul` safe to assume.
pub record Floats : Type 1 where
  pub Float : Type 0
  pub nil : Float
  pub unit : Float
  pub add : Float → Float → Float
  pub sub : Float → Float → Float
  pub mul : Float → Float → Float
  pub div : Float → Float → Float
  pub sqrt : Float → Float
  pub of_ℕ : ℕ → Float
  pub is_nil : Float → Bool
  pub leb : Float → Float → Bool
  pub leb_refl : (x : Float) → leb x x ≡ true
  pub leb_trans : (x y z : Float) → leb x y ≡ true → leb y z ≡ true → leb x z ≡ true
  pub leb_total : (x y : Float) → leb x y ≡ false → leb y x ≡ true
