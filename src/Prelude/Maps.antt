-- ===== src/Prelude/Maps.antt =====
-- A Go map with string keys, as an association list. Go leaves the order of iteration open; a
-- loop over a map is modelled over the list, in its order.
use Prim.Native.String.{String}
use Prim.Native.Nat.{ℕ, zero, suc}
use mathlib.Core.Path.{◌≡◌, refl, sym, subst}
use mathlib.Core.Logic.{inl, inr}
use mathlib.Core.Bool.{Bool, true, false}
use mathlib.Core.Option.{Option, none, some, none-ne-some, some_inj}
use mathlib.Core.List.{List, [], ◌∷◌}
use native.Mathlib.Omega.{arith}
use text.Mathlib.Text.{◌==◌ as text_eq}
use text.Mathlib.TextEquality.{eq_iff}
use text.Mathlib.TextPositions.{eq_refl}
use infermesh.Prelude.Tests.{if◌then◌else◌, Bool-cases}

-- Go's `==` on strings.
abbrev pub str_eq : String → String → Bool
str_eq s t = text_eq s t

pub str_eq_refl : (s : String) → str_eq s s ≡ true
str_eq_refl s = eq_refl s

pub str_eq_sound : (s t : String) → str_eq s t ≡ true → s ≡ t
str_eq_sound s t h = (eq_iff s t).0 h

abbrev pub Map {ℓ} : Type ℓ → Type ℓ
Map V = List (String × V)

-- What a map of positive counts holds for a count.
abbrev pub tally : ℕ → Option ℕ
tally zero = none
tally (suc n) = some (suc n)

module _ {ℓ} {V : Type ℓ} where
  unfoldable pub lookup : String → Map V → Option V
  lookup k [] = none
  lookup k ((j, v) ∷ m) = if str_eq j k then some v else lookup k m

  -- `m[k] = v`: a key that is there keeps its place.
  unfoldable pub insert : String → V → Map V → Map V
  insert k v [] = (k, v) ∷ []
  insert k v ((j, w) ∷ m) = if str_eq j k then (j, v) ∷ m else (j, w) ∷ insert k v m

  -- `delete(m, k)`
  unfoldable pub delete : String → Map V → Map V
  delete k [] = []
  delete k ((j, v) ∷ m) = let rest = delete k m in if str_eq j k then rest else (j, v) ∷ rest

  pub lookup-insert :
      (key asked : String) (value : V) (m : Map V)
      → lookup asked (insert key value m)
        ≡ (if str_eq key asked then some value else lookup asked m)
  unfolding insert lookup
  lookup-insert key asked value [] = refl
  lookup-insert key asked value ((first, held) ∷ rest) = ground (
    arith,
    lookup-insert key asked value rest,
    eq_iff first key,
    eq_iff first asked,
    eq_iff key asked,
  )

  pub lookup-delete :
      (k j : String) (m : Map V) → lookup j (delete k m) ≡ (if str_eq k j then none else lookup j m)
  unfolding lookup delete
  lookup-delete k j [] = ground arith
  lookup-delete k j ((i, v) ∷ m) =
      ground (arith, lookup-delete k j m, eq_iff i k, eq_iff i j, eq_iff k j)

  pub lookup-insert_self : (k : String) (v : V) (m : Map V) → lookup k (insert k v m) ≡ some v
  lookup-insert_self k v m = rw (lookup-insert, str_eq_refl)

  pub lookup-delete_self : (k : String) (m : Map V) → lookup k (delete k m) ≡ none
  lookup-delete_self k m = rw (lookup-delete, str_eq_refl)

  -- No key of the map is `k`.
  abbrev pub Fresh : String → Map V → Type 0
  Fresh k [] = Unit
  Fresh k ((j, v) ∷ m) = ((str_eq j k) ≡ false) × Fresh k m

  -- The keys are distinct, as in every Go map.
  abbrev pub Distinct : Map V → Type 0
  Distinct [] = Unit
  Distinct ((j, v) ∷ m) = Fresh j m × Distinct m

  pub lookup-Fresh : (k : String) (m : Map V) → Fresh k m → lookup k m ≡ none
  unfolding lookup
  lookup-Fresh k [] h = refl
  lookup-Fresh k ((j, v) ∷ m) h = ground (arith, lookup-Fresh k m h.1)

  pub insert-Fresh :
      (k j : String) (v : V) (m : Map V) → str_eq k j ≡ false → Fresh j m → Fresh j (insert k v m)
  unfolding insert
  insert-Fresh k j v [] d h = (d, tt)
  insert-Fresh k j v ((i, w) ∷ m) d h =
      ground (arith, insert-Fresh k j v m d h.1, eq_iff i k, eq_iff i j, eq_iff k j)

  pub delete-Fresh : (k j : String) (m : Map V) → Fresh j m → Fresh j (delete k m)
  unfolding delete
  delete-Fresh k j [] h = tt
  delete-Fresh k j ((i, w) ∷ m) h = ground (arith, delete-Fresh k j m h.1)

  pub insert-Distinct : (k : String) (v : V) (m : Map V) → Distinct m → Distinct (insert k v m)
  unfolding insert
  insert-Distinct k v [] h = (tt, tt)
  insert-Distinct k v ((i, w) ∷ m) h =
      ground (arith, insert-Distinct k v m h.1, insert-Fresh k i v m, eq_iff i k, eq_iff k i)

  pub delete-Distinct : (k : String) (m : Map V) → Distinct m → Distinct (delete k m)
  unfolding delete
  delete-Distinct k [] h = tt
  delete-Distinct k ((i, w) ∷ m) h = ground (arith, delete-Distinct k m h.1, delete-Fresh k i m h.0)

  -- `P` holds of every entry.
  abbrev pub Entries : (String → V → Type 0) → Map V → Type 0
  Entries P [] = Unit
  Entries P ((j, v) ∷ m) = P j v × Entries P m

  pub insert-Entries :
      (P : String → V → Type 0) (k : String) (v : V) (m : Map V)
      → P k v
      → Entries P m
      → Entries P (insert k v m)
  unfolding insert
  insert-Entries P k v [] p h = (p, tt)
  insert-Entries P k v ((j, w) ∷ m) p h = elim (Bool-cases (str_eq j k)) [
    | inl e ↦ rw e (subst (λ i. P i v) (sym (str_eq_sound j k e)) p, h.1)
    | inr e ↦ rw e (h.0, insert-Entries P k v m p h.1)
  ]

  pub delete-Entries :
      (P : String → V → Type 0) (k : String) (m : Map V) → Entries P m → Entries P (delete k m)
  unfolding delete
  delete-Entries P k [] h = tt
  delete-Entries P k ((j, w) ∷ m) h = elim (Bool-cases (str_eq j k)) [
    | inl e ↦ rw e (delete-Entries P k m h.1)
    | inr e ↦ rw e (h.0, delete-Entries P k m h.1)
  ]

  pub lookup-Entries :
      (P : String → V → Type 0) (k : String) (v : V) (m : Map V)
      → Entries P m
      → lookup k m ≡ some v
      → P k v
  unfolding lookup
  lookup-Entries P k v [] h e = absurd (none-ne-some v e)
  lookup-Entries P k v ((j, w) ∷ m) h e = elim (Bool-cases (str_eq j k)) [
    | inl same ↦
        subst (λ i. P i v) (str_eq_sound j k same)
          (subst (P j) (some_inj.0 (rw (same, lookup) at e)) h.0)
    | inr other ↦ lookup-Entries P k v m h.1 (rw (other, lookup) at e)
  ]
