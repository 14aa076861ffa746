-- ===== src/Prelude/Heap.antt =====
-- A store of objects: a list, in which a reference is a place. A new object goes to the end.
use Prim.Native.Nat.{ℕ, zero, suc, ◌<◌}
use mathlib.Core.Path.{◌≡◌, refl, sym, ◌∙◌}
use mathlib.Core.Logic.{◌⊎◌, inl, inr}
use mathlib.Core.Bool.{true, false}
use mathlib.Core.Option.{Option, none, some, some_inj, none-ne-some}
use mathlib.Core.List.{List, [], ◌∷◌, ◌++◌}
use native.Mathlib.Omega.{arith}
use infermesh.Prelude.Tests.{if◌then◌else◌, ◌==◌, Bool-cases}
use infermesh.Prelude.Lists.{length}

module _ {ℓ} {A : Type ℓ} where
  abbrev pub get_elem? : List A → ℕ → Option A
  get_elem? [] i = none
  get_elem? (x ∷ xs) zero = some x
  get_elem? (x ∷ xs) (suc i) = get_elem? xs i

  -- A write out of bounds changes nothing.
  abbrev pub set : List A → ℕ → A → List A
  set [] i v = []
  set (x ∷ xs) zero v = v ∷ xs
  set (x ∷ xs) (suc i) v = x ∷ set xs i v

  pub length-set : (xs : List A) (i : ℕ) (v : A) → length (set xs i v) ≡ length xs
  length-set [] i v = refl
  length-set (x ∷ xs) zero v = refl
  length-set (x ∷ xs) (suc i) v = omega (arith, length-set xs i v)

  -- Where something stands at `i`, a write at `i` is read at `i` and nowhere else.
  pub get_elem?-set :
      (xs : List A) (i j : ℕ) (v w : A)
      → get_elem? xs i ≡ some w
      → get_elem? (set xs i v) j ≡ (if j == i then some v else get_elem? xs j)
  get_elem?-set [] i j v w h = absurd (none-ne-some w h)
  get_elem?-set (x ∷ xs) zero zero v w h = refl
  get_elem?-set (x ∷ xs) zero (suc j) v w h = ground arith
  get_elem?-set (x ∷ xs) (suc i) zero v w h = ground arith
  get_elem?-set (x ∷ xs) (suc i) (suc j) v w h = ground (arith, get_elem?-set xs i j v w h)

  pub get_elem?-append :
      (xs : List A) (v : A) (j : ℕ)
      → get_elem? (xs ++ v ∷ []) j ≡ (if j == length xs then some v else get_elem? xs j)
  get_elem?-append [] v zero = refl
  get_elem?-append [] v (suc j) = ground arith
  get_elem?-append (x ∷ xs) v zero = ground arith
  get_elem?-append (x ∷ xs) v (suc j) = ground (arith, get_elem?-append xs v j)

  pub get_elem?_bound : (xs : List A) (j : ℕ) (v : A) → get_elem? xs j ≡ some v → j < length xs
  get_elem?_bound [] j v h = absurd (none-ne-some v h)
  get_elem?_bound (x ∷ xs) zero v h = omega arith
  get_elem?_bound (x ∷ xs) (suc j) v h = omega (arith, get_elem?_bound xs j v h)

  pub get_elem?-append_new : (xs : List A) (v : A) → get_elem? (xs ++ v ∷ []) (length xs) ≡ some v
  get_elem?-append_new [] v = refl
  get_elem?-append_new (x ∷ xs) v = get_elem?-append_new xs v

  pub get_elem?-append_old :
      (xs : List A) (v w : A) (j : ℕ)
      → get_elem? xs j ≡ some w
      → get_elem? (xs ++ v ∷ []) j ≡ some w
  get_elem?-append_old [] v w j h = absurd (none-ne-some w h)
  get_elem?-append_old (x ∷ xs) v w zero h = h
  get_elem?-append_old (x ∷ xs) v w (suc j) h = get_elem?-append_old xs v w j h

  -- What is read after a write: what was written, or what was there elsewhere.
  pub get_elem?-set_cases :
      (xs : List A) (i j : ℕ) (v w u : A)
      → get_elem? xs i ≡ some w
      → get_elem? (set xs i v) j ≡ some u
      → (((j == i) ≡ true) × (v ≡ u)) ⊎ (((j == i) ≡ false) × (get_elem? xs j ≡ some u))
  get_elem?-set_cases xs i j v w u h g = elim (Bool-cases (j == i)) [
    | inl e ↦ inl (e, some_inj.0 (sym (get_elem?-set xs i j v w h ∙ rw e refl) ∙ g))
    | inr e ↦ inr (e, sym (get_elem?-set xs i j v w h ∙ rw e refl) ∙ g)
  ]

  pub get_elem?-append_cases :
      (xs : List A) (v u : A) (j : ℕ)
      → get_elem? (xs ++ v ∷ []) j ≡ some u
      → (((j == length xs) ≡ true) × (v ≡ u))
        ⊎ (((j == length xs) ≡ false) × (get_elem? xs j ≡ some u))
  get_elem?-append_cases xs v u j g = elim (Bool-cases (j == length xs)) [
    | inl e ↦ inl (e, some_inj.0 (sym (get_elem?-append xs v j ∙ rw e refl) ∙ g))
    | inr e ↦ inr (e, sym (get_elem?-append xs v j ∙ rw e refl) ∙ g)
  ]
