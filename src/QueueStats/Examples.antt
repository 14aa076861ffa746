-- ===== src/QueueStats/Examples.antt =====
-- A reservoir with three waits, and its theorems at that run.
use infermesh.Prelude.{
  ℕ, ◌≤◌, ◌≡◌, refl, List, [], ◌∷◌, arith, leb, if◌then◌else◌, length, Memᴰ, Bool-cases, Bool, true,
  false, inl, inr, suc,
}
use infermesh.QueueStats.{new_reservoir, record_wait, idx, at, percentiles_of, percentiles, run}
use infermesh.QueueStats.Sampling.{waits_of, Samples, run-new_reservoir-Samples}
use infermesh.QueueStats.Percentiles.{Ascending, AreOf, percentiles-AreOf}

-- Each wait with a draw that is not asked for.
abbrev waits : List (ℕ × ℕ)
waits = (30, 0) ∷ (10, 0) ∷ (20, 0) ∷ []

run-new_reservoir-Samples_example : Samples (waits_of waits) (run new_reservoir waits)
run-new_reservoir-Samples_example = run-new_reservoir-Samples waits

-- Insertion into an ascending list, and the sort by it.
abbrev put : ℕ → List ℕ → List ℕ
put x [] = x ∷ []
put x (y ∷ ys) = let rest = put x ys in if leb x y then x ∷ y ∷ ys else y ∷ rest

abbrev sort : List ℕ → List ℕ
sort [] = []
sort (x ∷ xs) = put x (sort xs)

middle : percentiles sort (run new_reservoir waits) ≡ (20, 30, 30)
unfolding percentiles run record_wait new_reservoir percentiles_of idx at
middle = refl

put_head :
    (x y : ℕ) (ys : List ℕ)
    → y ≤ x
    → Ascending (y ∷ ys)
    → Ascending (put x ys)
    → Ascending (y ∷ put x ys)
put_head x y [] h s t = (h, tt)
put_head x y (z ∷ zs) h s t = elim (Bool-cases (leb x z)) [
  | inl e ↦ rw (e, put) (h, rw (e, put) at t)
  | inr e ↦ rw (e, put) (s.0, rw (e, put) at t)
]

put-Ascending : (x : ℕ) (xs : List ℕ) → Ascending xs → Ascending (put x xs)
put-Ascending x [] s = tt
put-Ascending x (y ∷ ys) s = elim (Bool-cases (leb x y)) [
  | inl e ↦ rw (e, put) (ground (arith, e), s)
  | inr e ↦ rw (e, put) (put_head x y ys (ground (arith, e)) s (put-Ascending x ys (tail y ys s)))
]
  where
    tail : (y : ℕ) (ys : List ℕ) → Ascending (y ∷ ys) → Ascending ys
    tail y [] s = tt
    tail y (z ∷ zs) s = s.1

sort-Ascending : (xs : List ℕ) → Ascending (sort xs)
sort-Ascending [] = tt
sort-Ascending (x ∷ xs) = put-Ascending x (sort xs) (sort-Ascending xs)

length-put : (x : ℕ) (xs : List ℕ) → length (put x xs) ≡ suc (length xs)
length-put x [] = refl
length-put x (y ∷ ys) = ground (arith, length-put x ys)

length-sort : (xs : List ℕ) → length (sort xs) ≡ length xs
length-sort [] = refl
length-sort (x ∷ xs) = omega (arith, length-put x (sort xs), length-sort xs)

swap : (x y z : ℕ) (ys : List ℕ) → Memᴰ z (x ∷ ys) → Memᴰ z (x ∷ y ∷ ys)
swap x y z ys (Memᴰ.head q) = Memᴰ.head q
swap x y z ys (Memᴰ.tail m) = Memᴰ.tail (Memᴰ.tail m)

later :
    (x y z : ℕ) (ys zs : List ℕ)
    → (Memᴰ z zs → Memᴰ z (x ∷ ys))
    → Memᴰ z (y ∷ zs)
    → Memᴰ z (x ∷ y ∷ ys)
later x y z ys zs f (Memᴰ.head q) = Memᴰ.tail (Memᴰ.head q)
later x y z ys zs f (Memᴰ.tail m) = swap x y z ys (f m)

placed :
    (b : Bool) (x y z : ℕ) (ys zs : List ℕ)
    → (Memᴰ z zs → Memᴰ z (x ∷ ys))
    → Memᴰ z (if b then x ∷ y ∷ ys else y ∷ zs)
    → Memᴰ z (x ∷ y ∷ ys)
placed true x y z ys zs f h = h
placed false x y z ys zs f h = later x y z ys zs f h

Memᴰ-put : (x z : ℕ) (xs : List ℕ) → Memᴰ z (put x xs) → Memᴰ z (x ∷ xs)
Memᴰ-put x z [] h = h
Memᴰ-put x z (y ∷ ys) h = placed (leb x y) x y z ys (put x ys) (Memᴰ-put x z ys) h

onto : (x z : ℕ) (xs ys : List ℕ) → (Memᴰ z xs → Memᴰ z ys) → Memᴰ z (x ∷ xs) → Memᴰ z (x ∷ ys)
onto x z xs ys f (Memᴰ.head q) = Memᴰ.head q
onto x z xs ys f (Memᴰ.tail m) = Memᴰ.tail (f m)

Memᴰ-sort : (xs : List ℕ) (z : ℕ) → Memᴰ z (sort xs) → Memᴰ z xs
Memᴰ-sort [] z h = h
Memᴰ-sort (x ∷ xs) z h = onto x z (sort xs) xs (Memᴰ-sort xs z) (Memᴰ-put x z (sort xs) h)

percentiles-AreOf_example : AreOf (waits_of waits) (percentiles sort (run new_reservoir waits))
percentiles-AreOf_example =
    percentiles-AreOf sort 30 0 ((10, 0) ∷ (20, 0) ∷ [])
      (record { ascending = sort-Ascending; same_length = length-sort; from = Memᴰ-sort })
