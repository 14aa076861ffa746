-- ===== src/QueueStats/Percentiles.antt =====
-- The percentiles of pkg/router/queue_stats.go.
use native.Mathlib.Nat.{le_trans}
use infermesh.Prelude.{
  ℕ, zero, suc, ◌≤◌, ◌<◌, ◌≡◌, refl, List, [], ◌∷◌, arith, length, Memᴰ, All, All-Memᴰ,
}
use infermesh.QueueStats.{new_reservoir, idx, at, percentiles_of, percentiles, run}
use infermesh.QueueStats.Sampling.{waits_of, held, Samples, run-new_reservoir-Samples}

abbrev pub Ascending : List ℕ → Type 0
Ascending [] = Unit
Ascending (x ∷ []) = Unit
Ascending (x ∷ y ∷ ys) = (x ≤ y) × Ascending (y ∷ ys)

-- What sort.Slice does: the result is ascending, and has the length and the elements of the list.
pub record Sorts (sort : List ℕ → List ℕ) : Type 0 where
  pub ascending : (xs : List ℕ) → Ascending (sort xs)
  pub same_length : (xs : List ℕ) → length (sort xs) ≡ length xs
  pub from : (xs : List ℕ) (x : ℕ) → Memᴰ x (sort xs) → Memᴰ x xs

first-le-at :
    (x : ℕ) (xs : List ℕ) (j : ℕ) → Ascending (x ∷ xs) → j < suc (length xs) → x ≤ at (x ∷ xs) j
unfolding at
first-le-at x xs zero s h = omega arith
first-le-at x [] (suc j) s h = absurd (omega (arith, h))
first-le-at x (y ∷ ys) (suc j) s h = le_trans s.0 (first-le-at y ys j s.1 (omega (arith, h)))

at-monotone : (xs : List ℕ) (i j : ℕ) → Ascending xs → i ≤ j → j < length xs → at xs i ≤ at xs j
unfolding at
at-monotone [] i j s h l = absurd (omega (arith, l))
at-monotone (x ∷ xs) zero j s h l = first-le-at x xs j s l
at-monotone (x ∷ xs) (suc i) zero s h l = absurd (omega (arith, h))
at-monotone (x ∷ []) (suc i) (suc j) s h l = absurd (omega (arith, l))
at-monotone (x ∷ y ∷ ys) (suc i) (suc j) s h l =
    at-monotone (y ∷ ys) i j s.1 (omega (arith, h)) (omega (arith, l))

Memᴰ-at : (xs : List ℕ) (i : ℕ) → i < length xs → Memᴰ (at xs i) xs
unfolding at
Memᴰ-at [] i l = absurd (omega (arith, l))
Memᴰ-at (x ∷ xs) zero l = Memᴰ.head refl
Memᴰ-at (x ∷ xs) (suc i) l = Memᴰ.tail (Memᴰ-at xs i (omega (arith, l)))

idx-bound : (n p : ℕ) → 0 < n → idx n p < n
unfolding idx
idx-bound n p h = ground (arith, h)

idx-50-95 : (n : ℕ) → idx n 50 ≤ idx n 95
unfolding idx
idx-50-95 n = ground arith

idx-95-99 : (n : ℕ) → idx n 95 ≤ idx n 99
unfolding idx
idx-95-99 n = ground arith

-- The three percentiles are in order, and each is one of the waits.
abbrev pub AreOf : List ℕ → ℕ × ℕ × ℕ → Type 0
AreOf waits (p50, p95, p99) =
    ((p50 ≤ p95) × (p95 ≤ p99)) × (Memᴰ p50 waits × Memᴰ p95 waits × Memᴰ p99 waits)

nothing_held : (n : ℕ) → 0 ≡ held (suc n) → ⊥
nothing_held n e = absurd (ground (arith, e))

percentiles_of-AreOf :
    (sort : List ℕ → List ℕ) (x : ℕ) (xs waits : List ℕ)
    → Sorts sort
    → All (λ d. Memᴰ d waits) (x ∷ xs)
    → AreOf waits (percentiles_of sort (x ∷ xs))
unfolding percentiles_of
percentiles_of-AreOf sort x xs waits k h =
    let sorted = sort (x ∷ xs) in
    let n = length sorted in
    let asc = k.ascending (x ∷ xs) in
    let some_there : 0 < n = omega (arith, k.same_length (x ∷ xs)) in
    let among : (p : ℕ) → Memᴰ (at sorted (idx n p)) waits = λ p.
      All-Memᴰ (λ d. Memᴰ d waits) (x ∷ xs) (at sorted (idx n p)) h
        (k.from (x ∷ xs) (at sorted (idx n p))
          (Memᴰ-at sorted (idx n p) (idx-bound n p some_there))) in
    (
      (
        at-monotone sorted (idx n 50) (idx n 95) asc (idx-50-95 n) (idx-bound n 95 some_there),
        at-monotone sorted (idx n 95) (idx n 99) asc (idx-95-99 n) (idx-bound n 99 some_there),
      ),
      (among 50, among 95, among 99),
    )

-- After any number of waits, one at least, whatever the draws, the reported percentiles are in order
-- (the 50th at most the 95th, and that at most the 99th), and each is one of the waits that were
-- recorded: no index is out of bounds. The sort is ascending and keeps the elements.
pub percentiles-AreOf :
    (sort : List ℕ → List ℕ) (d draw : ℕ) (waits : List (ℕ × ℕ))
    → Sorts sort
    → AreOf
        (waits_of ((d, draw) ∷ waits))
        (percentiles sort (run new_reservoir ((d, draw) ∷ waits)))
unfolding percentiles
percentiles-AreOf sort d draw waits k =
    go (run new_reservoir ((d, draw) ∷ waits)).samples v.sized v.recorded
  where
    all : List ℕ
    all = waits_of ((d, draw) ∷ waits)

    v : Samples all (run new_reservoir ((d, draw) ∷ waits))
    v = run-new_reservoir-Samples ((d, draw) ∷ waits)

    go :
        (xs : List ℕ)
        → length xs ≡ held (length all)
        → All (λ x. Memᴰ x all) xs
        → AreOf all (percentiles_of sort xs)
    go [] e h = absurd (nothing_held (length (waits_of waits)) e)
    go (x ∷ xs) e h = percentiles_of-AreOf sort x xs all k h
