-- ===== src/Prelude/Lists.antt =====
-- Lists over the native numbers: length, slices, filters by a Boolean test, predicates.
use Prim.Native.Nat.{ℕ, zero, suc, ◌+◌, ◌-◌, ◌≤◌}
use mathlib.Core.Path.{◌≡◌, refl}
use mathlib.Core.Bool.{Bool, true, false}
use mathlib.Core.List.{List, [], ◌∷◌, ◌++◌, Memᴰ}
use native.Mathlib.Omega.{arith}
use mathlib.Core.Logic.{inl, inr}
use infermesh.Prelude.Tests.{if◌then◌else◌, Bool-cases}

module _ {ℓ} {A : Type ℓ} where
  abbrev pub length : List A → ℕ
  length [] = 0
  length (x ∷ xs) = suc (length xs)

  abbrev pub take : ℕ → List A → List A
  take zero xs = []
  take (suc n) [] = []
  take (suc n) (x ∷ xs) = x ∷ take n xs

  abbrev pub drop : ℕ → List A → List A
  drop zero xs = xs
  drop (suc n) [] = []
  drop (suc n) (x ∷ xs) = drop n xs

  abbrev pub filter_by : (A → Bool) → List A → List A
  filter_by p [] = []
  filter_by p (x ∷ xs) = let rest = filter_by p xs in if p x then x ∷ rest else rest

  pub length-append : (xs ys : List A) → length (xs ++ ys) ≡ length xs + length ys
  length-append [] ys = omega arith
  length-append (x ∷ xs) ys = omega (arith, length-append xs ys)

  pub length-take-le : (n : ℕ) (xs : List A) → length (take n xs) ≤ n
  length-take-le zero xs = omega arith
  length-take-le (suc n) [] = omega arith
  length-take-le (suc n) (x ∷ xs) = omega (arith, length-take-le n xs)

  pub length-take-le_length : (n : ℕ) (xs : List A) → length (take n xs) ≤ length xs
  length-take-le_length zero xs = omega arith
  length-take-le_length (suc n) [] = omega arith
  length-take-le_length (suc n) (x ∷ xs) = omega (arith, length-take-le_length n xs)

  pub length-drop : (n : ℕ) (xs : List A) → length (drop n xs) ≡ length xs - n
  length-drop zero xs = omega arith
  length-drop (suc n) [] = omega arith
  length-drop (suc n) (x ∷ xs) = omega (arith, length-drop n xs)

  pub length-filter_by-le : (p : A → Bool) (xs : List A) → length (filter_by p xs) ≤ length xs
  length-filter_by-le p [] = omega arith
  length-filter_by-le p (x ∷ xs) = ground (arith, length-filter_by-le p xs)

  pub filter_by-append :
      (p : A → Bool) (xs ys : List A) → filter_by p (xs ++ ys) ≡ filter_by p xs ++ filter_by p ys
  filter_by-append p [] ys = refl
  filter_by-append p (x ∷ xs) ys = ground (arith, filter_by-append p xs ys)

  abbrev pub All {κ} : (A → Type κ) → List A → Type κ
  All P [] = Unit
  All P (x ∷ xs) = P x × All P xs

  -- What a filter keeps was in the list and passes the test.
  filter_by-sound_step :
      (p : A → Bool) (y : A) (ys : List A) {x : A} (b : Bool)
      → p y ≡ b
      → (Memᴰ x (filter_by p ys) → Memᴰ x ys × (p x ≡ true))
      → Memᴰ x (if b then y ∷ filter_by p ys else filter_by p ys)
      → Memᴰ x (y ∷ ys) × (p x ≡ true)
  filter_by-sound_step p y ys true e ih (Memᴰ.head q) = (Memᴰ.head q, rw q e)
  filter_by-sound_step p y ys true e ih (Memᴰ.tail m) = (Memᴰ.tail (ih m).0, (ih m).1)
  filter_by-sound_step p y ys false e ih m = (Memᴰ.tail (ih m).0, (ih m).1)

  pub filter_by_sound :
      (p : A → Bool) (xs : List A) {x : A} → Memᴰ x (filter_by p xs) → Memᴰ x xs × (p x ≡ true)
  filter_by_sound p [] m = elim m [ ]
  filter_by_sound p (y ∷ ys) m = filter_by-sound_step p y ys (p y) refl (filter_by_sound p ys) m

  pub filter_by_complete :
      (p : A → Bool) (xs : List A) {x : A} → Memᴰ x xs → p x ≡ true → Memᴰ x (filter_by p xs)
  filter_by_complete p [] m e = elim m [ ]
  filter_by_complete p (y ∷ ys) (Memᴰ.head q) e = rw (← q) (rw e (Memᴰ.head refl))
  filter_by_complete p (y ∷ ys) (Memᴰ.tail m) e = elim (Bool-cases (p y)) [
    | inl h ↦ rw h (Memᴰ.tail (filter_by_complete p ys m e))
    | inr h ↦ rw h (filter_by_complete p ys m e)
  ]

  pub All-append {κ} : (P : A → Type κ) (xs ys : List A) → All P xs → All P ys → All P (xs ++ ys)
  All-append P [] ys h k = k
  All-append P (x ∷ xs) ys h k = (h.0, All-append P xs ys h.1 k)

  pub All-map {κ μ} :
      {P : A → Type κ} {Q : A → Type μ} (f : (x : A) → P x → Q x) (xs : List A)
      → All P xs
      → All Q xs
  All-map f [] h = tt
  All-map f (x ∷ xs) h = (f x h.0, All-map f xs h.1)

  pub All-Memᴰ {κ} : (P : A → Type κ) (xs : List A) (x : A) → All P xs → Memᴰ x xs → P x
  All-Memᴰ P [] x h m = elim m [ ]
  All-Memᴰ P (y ∷ ys) x h (Memᴰ.head q) = rw q h.0
  All-Memᴰ P (y ∷ ys) x h (Memᴰ.tail m) = All-Memᴰ P ys x h.1 m

  pub not-Memᴰ-nil : {x : A} → ¬ Memᴰ x []
  not-Memᴰ-nil m = elim m [ ]
