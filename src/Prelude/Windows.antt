-- ===== src/Prelude/Windows.antt =====
-- Lists in order of time, and the rolling window of the last `w` units of time.
use Prim.Native.Nat.{ℕ, suc, ◌+◌, ◌≤◌}
use mathlib.Core.Path.{◌≡◌, refl}
use mathlib.Core.Bool.{Bool}
use mathlib.Core.Logic.{inl, inr}
use mathlib.Core.List.{List, [], ◌∷◌, ◌++◌}
use native.Mathlib.Omega.{arith}
use infermesh.Prelude.Tests.{ltb, leb, if◌then◌else◌, Bool-cases}
use infermesh.Prelude.Lists.{drop, filter_by, filter_by-append, All}

module _ {A : Type 0} (when : A → ℕ) where
  -- An element is in the window of length `w` that ends now.
  abbrev pub within_window : ℕ → ℕ → A → Bool
  within_window w now x = leb now (when x + w)

  -- The elements are in order of time, from `lo` on.
  abbrev pub OrderedFrom : ℕ → List A → Type 0
  OrderedFrom lo [] = Unit
  OrderedFrom lo (x ∷ xs) = (lo ≤ when x) × OrderedFrom (when x) xs

  -- How many elements at the front are older than the window.
  abbrev pub count_old : ℕ → ℕ → List A → ℕ
  count_old w now [] = 0
  count_old w now (x ∷ xs) =
      let rest = count_old w now xs in if ltb (when x + w) now then suc rest else 0

  pub all_within :
      (w now lo : ℕ) (xs : List A)
      → OrderedFrom lo xs
      → now ≤ lo + w
      → filter_by (within_window w now) xs ≡ xs
  all_within w now lo [] s h = refl
  all_within w now lo (x ∷ xs) s h = ground (arith, all_within w now (when x) xs s.1)

  -- Dropping the old elements of an earlier window leaves the window of now.
  pub drop-count_old :
      (w t now lo : ℕ) (xs : List A)
      → OrderedFrom lo xs
      → t ≤ now
      → drop (count_old w now (filter_by (within_window w t) xs)) (filter_by (within_window w t) xs)
        ≡ filter_by (within_window w now) xs
  drop-count_old w t now lo [] s h = refl
  drop-count_old w t now lo (x ∷ xs) s h = elim (Bool-cases (leb now (when x + w))) [
    | inl live ↦ ground (arith, all_within w t (when x) xs s.1, all_within w now (when x) xs s.1)
    | inr gone ↦ ground (arith, drop-count_old w t now (when x) xs s.1)
  ]

  pub OrderedFrom-append :
      (lo t : ℕ) (xs : List A) (x : A)
      → OrderedFrom lo xs
      → All (λ y. when y ≤ t) xs
      → lo ≤ when x
      → t ≤ when x
      → OrderedFrom lo (xs ++ x ∷ [])
  OrderedFrom-append lo t [] x s b h k = (h, tt)
  OrderedFrom-append lo t (y ∷ ys) x s b h k =
      (s.0, OrderedFrom-append (when y) t ys x s.1 b.1 (omega arith) k)

  pub within_window-append :
      (w t : ℕ) (xs kept : List A) (x : A)
      → t ≤ when x
      → kept ≡ filter_by (within_window w t) xs
      → kept ++ x ∷ [] ≡ filter_by (within_window w t) (xs ++ x ∷ [])
  within_window-append w t xs kept x h k =
      rw (filter_by-append (within_window w t) xs (x ∷ []), k) (ground arith)
