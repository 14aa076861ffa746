-- ===== src/Scheduler/Quantization.antt =====
-- pkg/scheduler/scheduler.go: which quantizations may stand in for a requested one.
use infermesh.Prelude.{
  ℕ, ◌-◌, ◌≤◌, ◌<◌, ◌≡◌, refl, ◌≢◌, ◌⊎◌, String, Bool, true, false, ◌||◌, arith, str_eq, ltb, leb,
  ◌==◌, if◌then◌else◌, pos,
}
use text.Mathlib.TextEquality.{eq_iff}
use infermesh.Floats.{Float64}

-- The map `quantCapability`; a missing key reads as 0.
unfoldable pub quant_capability : String → ℕ
quant_capability q =
    if str_eq q "FP16"
    then 5
    else if str_eq q "Q8"
    then 4
    else if str_eq q "Q6"
    then 3
    else if str_eq q "Q5"
    then 2
    else if str_eq q "Q4"
    then 1
    else 0

unfoldable pub is_quantization_compatible : String → String → Bool
is_quantization_compatible requested actual =
    if str_eq requested ""
    then true
    else if str_eq requested actual
    then true
    else if quant_capability requested == 0 || quant_capability actual == 0
    then false
    else leb (quant_capability requested) (quant_capability actual)

-- Any quantization serves itself.
is_quantization_compatible_refl : (q : String) → is_quantization_compatible q q ≡ true
unfolding is_quantization_compatible
is_quantization_compatible_refl q = ground (arith, eq_iff q q)

quant_capability-empty : quant_capability "" ≡ 0
unfolding quant_capability
quant_capability-empty = refl

quant_capability-le : (q : String) → quant_capability q ≤ 5
unfolding quant_capability
quant_capability-le q = ground arith

-- Compatibility is transitive: what can stand in for a stand-in can stand in for the request.
is_quantization_compatible_trans :
    (a b c : String)
    → is_quantization_compatible a b ≡ true
    → is_quantization_compatible b c ≡ true
    → is_quantization_compatible a c ≡ true
unfolding is_quantization_compatible
is_quantization_compatible_trans a b c h k =
    ground
      (arith, eq_iff a "", eq_iff a b, eq_iff b "", eq_iff b c, eq_iff a c, quant_capability-empty)

-- The cells of the map tell the known quantizations apart.
quant_capability-injective :
    (a b : String) → quant_capability a ≢ 0 → quant_capability a ≡ quant_capability b → a ≡ b
unfolding quant_capability
quant_capability-injective a b h e = ground (
  arith,
  eq_iff a "FP16",
  eq_iff b "FP16",
  eq_iff a "Q8",
  eq_iff b "Q8",
  eq_iff a "Q6",
  eq_iff b "Q6",
  eq_iff a "Q5",
  eq_iff b "Q5",
  eq_iff a "Q4",
  eq_iff b "Q4",
)

module _ (fl : Float64) where
  open fl use {Val, dec, of_int, mul, min}

  unfoldable pub quantization_compatibility_score : String → String → Val
  quantization_compatibility_score requested actual =
      let req_cap = quant_capability requested in
      let act_cap = quant_capability actual in
      if str_eq requested actual
      then dec 1 0
      else if req_cap == 0 || act_cap == 0
      then dec 0 0
      else if ltb req_cap act_cap
      then min (dec 8 1) (mul (of_int (pos (act_cap - req_cap))) (dec 2 1))
      else dec 0 0

  -- For a request of some other quantization, compatibility holds exactly when the worker's is a
  -- known one strictly above a known request, by one to four levels, and then the score is the
  -- smaller of 0.8 and 0.2 for each level; in every other case the score is zero.
  is_quantization_compatible_score :
      (requested actual : String)
      → requested ≢ ""
      → requested ≢ actual
      → let gap = quant_capability actual - quant_capability requested in
        ((is_quantization_compatible requested actual ≡ true)
          × (quant_capability requested < quant_capability actual)
          × (gap ≤ 4)
          × (quantization_compatibility_score requested actual
              ≡ min (dec 8 1) (mul (of_int (pos gap)) (dec 2 1))))
        ⊎ ((is_quantization_compatible requested actual ≡ false)
            × (quantization_compatibility_score requested actual ≡ dec 0 0))
  unfolding is_quantization_compatible quantization_compatibility_score
  is_quantization_compatible_score requested actual h k = ground (
    arith,
    eq_iff requested "",
    eq_iff requested actual,
    quant_capability-le actual,
    quant_capability-injective requested actual,
  )
