-- ===== src/Routing/Classifier/Monotone.antt =====
-- pkg/router/classifier.go: how the tier depends on the tokens and on the adjustment.
use infermesh.Prelude.{
  ℕ, zero, suc, ◌≤◌, ◌≡◌, ◌≢◌, refl, arith, ◌==◌, ==_iff, Bool, true, false, if◌then◌else◌, ℤ, pos,
  ◌+ℤ◌, ◌≤ℤ◌,
}
use infermesh.Routing.{
  ComplexityTier, tier_simple, tier_medium, tier_hard, tier_hardest, AutoRoutingConfig,
}
use infermesh.Routing.Classifier.{
  Text, Patterns, ChatRequest, classify_by_tokens, ladder, index_of, clamp, at_place, climbed,
  climb, tokens_of, adjustment_of, classify,
}

-- The tiers by rising demand.
abbrev pub rank : ComplexityTier → ℕ
rank tier_simple = 0
rank tier_medium = 1
rank tier_hard = 2
rank tier_hardest = 3

classify_by_tokens-monotone :
    (c : AutoRoutingConfig) (m n : ℕ)
    → m ≤ n
    → rank (classify_by_tokens c m) ≤ rank (classify_by_tokens c n)
unfolding classify_by_tokens
classify_by_tokens-monotone c m n h = ground arith

clamp-monotone : (n : ℕ) (i j : ℤ) → i ≤ℤ j → clamp n i ≤ clamp n j
clamp-monotone n i j h = ground arith

clamp_bound : (n : ℕ) (i : ℤ) → clamp (suc n) i ≤ n
clamp_bound n i = ground arith

add_monotone : (m n : ℕ) (a b : ℤ) → m ≤ n → a ≤ℤ b → (pos m +ℤ a) ≤ℤ (pos n +ℤ b)
add_monotone m n a b h k = ground arith

-- The demand of a step of each ladder.
abbrev demand : Bool → ℕ → ℕ
demand true i = i
demand false i = if i == 2 then 3 else i

rank-at_place_four : (t : ComplexityTier) (i : ℕ) → i ≤ 3 → rank (at_place (ladder true) t i) ≡ i
unfolding at_place
rank-at_place_four t zero h = refl
rank-at_place_four t (suc zero) h = refl
rank-at_place_four t (suc (suc zero)) h = refl
rank-at_place_four t (suc (suc (suc zero))) h = refl
rank-at_place_four t (suc (suc (suc (suc i)))) h = absurd (omega (arith, h))

rank-at_place_three :
    (t : ComplexityTier) (i : ℕ) → i ≤ 2 → rank (at_place (ladder false) t i) ≡ demand false i
unfolding at_place
rank-at_place_three t zero h = refl
rank-at_place_three t (suc zero) h = refl
rank-at_place_three t (suc (suc zero)) h = refl
rank-at_place_three t (suc (suc (suc i))) h = absurd (omega (arith, h))

-- How far the ladder of the mode goes, and where a token count stands on it.
abbrev top : Bool → ℕ
top true = 3
top false = 2

abbrev place : Bool → ComplexityTier → ℕ
place four tier_simple = 0
place four tier_medium = 1
place four tier_hard = 2
place four tier_hardest = top four

-- A tier that a token count gives.
abbrev IsBaseline : ComplexityTier → Type 0
IsBaseline t = rank t ≢ 2

climbed-place :
    (four : Bool) (t : ComplexityTier) (a : ℤ)
    → IsBaseline t
    → rank (climbed (ladder four) t a (index_of t (ladder four)))
      ≡ demand four (clamp (suc (top four)) (pos (place four t) +ℤ a))
unfolding climbed index_of
climbed-place true tier_simple a b = rank-at_place_four tier_simple _ (clamp_bound 3 (pos 0 +ℤ a))
climbed-place true tier_medium a b = rank-at_place_four tier_medium _ (clamp_bound 3 (pos 1 +ℤ a))
climbed-place true tier_hardest a b = rank-at_place_four tier_hardest _ (clamp_bound 3 (pos 3 +ℤ a))
climbed-place false tier_simple a b = rank-at_place_three tier_simple _ (clamp_bound 2 (pos 0 +ℤ a))
climbed-place false tier_medium a b = rank-at_place_three tier_medium _ (clamp_bound 2 (pos 1 +ℤ a))
climbed-place false tier_hardest a b =
    rank-at_place_three tier_hardest _ (clamp_bound 2 (pos 2 +ℤ a))
climbed-place four tier_hard a b = absurd (b refl)

classify_by_tokens-IsBaseline :
    (c : AutoRoutingConfig) (n : ℕ) → IsBaseline (classify_by_tokens c n)
unfolding classify_by_tokens
classify_by_tokens-IsBaseline c n = ground arith

place-monotone :
    (four : Bool) (s t : ComplexityTier)
    → IsBaseline s
    → IsBaseline t
    → rank s ≤ rank t
    → place four s ≤ place four t
place-monotone four tier_simple t a b h = omega arith
place-monotone true tier_medium tier_medium a b h = omega arith
place-monotone false tier_medium tier_medium a b h = omega arith
place-monotone true tier_medium tier_hardest a b h = omega arith
place-monotone false tier_medium tier_hardest a b h = omega arith
place-monotone true tier_hardest tier_hardest a b h = omega arith
place-monotone false tier_hardest tier_hardest a b h = omega arith
place-monotone four tier_medium tier_simple a b h = absurd (omega (arith, h))
place-monotone four tier_hardest tier_simple a b h = absurd (omega (arith, h))
place-monotone four tier_hardest tier_medium a b h = absurd (omega (arith, h))
place-monotone four s tier_hard a b h = absurd (b refl)
place-monotone four tier_hard t a b h = absurd (a refl)

demand-monotone : (four : Bool) (i j : ℕ) → j ≤ top four → i ≤ j → demand four i ≤ demand four j
demand-monotone true i j b h = h
demand-monotone false i j b h = ground (arith, ==_iff i 2, ==_iff j 2)

climbed-monotone :
    (four : Bool) (s t : ComplexityTier) (a b : ℤ)
    → IsBaseline s
    → IsBaseline t
    → rank s ≤ rank t
    → a ≤ℤ b
    → rank (climbed (ladder four) s a (index_of s (ladder four)))
      ≤ rank (climbed (ladder four) t b (index_of t (ladder four)))
climbed-monotone four s t a b p q h k =
    let from : ℤ = pos (place four s) +ℤ a in
    let to : ℤ = pos (place four t) +ℤ b in
    rw (climbed-place four s a p, climbed-place four t b q)
      (demand-monotone four (clamp (suc (top four)) from) (clamp (suc (top four)) to)
        (clamp_bound (top four) to)
        (clamp-monotone (suc (top four)) from to
          (add_monotone (place four s) (place four t) a b (place-monotone four s t p q h) k)))

-- The tier of a request does not fall when its estimated tokens and its adjustment rise, in either
-- mode and with any thresholds.
pub classify-monotone :
    (text : Text) (pats : Patterns) (c : AutoRoutingConfig) (lighter heavier : ChatRequest)
    → tokens_of text lighter ≤ tokens_of text heavier
    → adjustment_of text pats c lighter ≤ℤ adjustment_of text pats c heavier
    → rank (classify text pats c lighter) ≤ rank (classify text pats c heavier)
unfolding classify climb
classify-monotone text pats c lighter heavier t a =
    climbed-monotone c.use_four_tier_mode (classify_by_tokens c (tokens_of text lighter))
      (classify_by_tokens c (tokens_of text heavier)) (adjustment_of text pats c lighter)
      (adjustment_of text pats c heavier) (classify_by_tokens-IsBaseline c (tokens_of text lighter))
      (classify_by_tokens-IsBaseline c (tokens_of text heavier))
      (classify_by_tokens-monotone c (tokens_of text lighter) (tokens_of text heavier) t) a
