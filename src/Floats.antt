-- ===== src/Floats.antt =====
-- Go's float64 as an interface: the type, its operations, and the facts about numbers other than NaN
-- that a theorem takes as hypotheses. The development never looks inside a value.
pub mod Fixed
use infermesh.Prelude.{ℕ, ◌≡◌, Bool, true, false, ℤ}

pub record Float64 : Type 1 where
  pub Val : Type 0
  -- The literal n * 10^-k.
  pub dec : ℕ → ℕ → Val
  -- The conversion `float64(n)` of an int.
  pub of_int : ℤ → Val
  pub add : Val → Val → Val
  pub sub : Val → Val → Val
  pub mul : Val → Val → Val
  pub div : Val → Val → Val
  -- `math.Min`
  pub min : Val → Val → Val
  -- The tests `x < y`, `x <= y` and `x == y`.
  pub ltb : Val → Val → Bool
  pub leb : Val → Val → Bool
  pub eqb : Val → Val → Bool

module _ (fl : Float64) where
  open fl use {Val, dec, ltb}

  -- On numbers, values other than NaN, `<` is the strict part of a total preorder.
  pub record Ordered (Num : Val → Type 0) : Type 0 where
    pub asym : (a b : Val) → Num a → Num b → ltb a b ≡ true → ltb b a ≡ false
    pub trans :
        (a b c : Val) → Num a → Num b → Num c → ltb b a ≡ false → ltb c b ≡ false → ltb c a ≡ false

  -- The tests of the two literals 0.0 and 1.0 against each other and themselves.
  pub record Units : Type 0 where
    pub zero_zero : ltb (dec 0 0) (dec 0 0) ≡ false
    pub one_zero : ltb (dec 1 0) (dec 0 0) ≡ false
    pub one_one : ltb (dec 1 0) (dec 1 0) ≡ false
