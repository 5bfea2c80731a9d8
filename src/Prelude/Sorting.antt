-- ===== src/Prelude/Sorting.antt =====
-- What the source relies on of sort.Slice, by a number that each element has, and a sort that keeps
-- to it.
use mathlib.Core.Path.{refl}
use mathlib.Core.Logic.{inl, inr}
use mathlib.Core.List.{List, [], ◌∷◌, Permᴰ}
use mathlib.Core.List.Permᴰ
use Prim.Native.Nat.{ℕ, ◌≤◌}
use native.Mathlib.Omega.{arith}
use sofar_hyd_diag.Prelude.Tests.{ltb, if◌then◌else◌, Bool-cases}

module _ {ℓ} {A : Type ℓ} (key : A → ℕ) where
  -- The numbers ascend, from `lo` on.
  abbrev pub Ascends : ℕ → List A → Type 0
  Ascends lo [] = Unit {0}
  Ascends lo (x ∷ xs) = (lo ≤ key x) × Ascends (key x) xs

  pub Ascends-mono : {lo lo' : ℕ} → lo ≤ lo' → (xs : List A) → Ascends lo' xs → Ascends lo xs
  Ascends-mono h [] asc = tt
  Ascends-mono h (x ∷ xs) asc = (omega arith, asc.1)

-- The documented behaviour of sort.Slice: a rearrangement, in the order asked for.
pub record Sort {ℓ} {A : Type ℓ} (key : A → ℕ) : Type ℓ where
  pub sort : List A → List A
  pub sort-perm : (xs : List A) → Permᴰ (sort xs) xs
  pub sort-Ascends : (xs : List A) → Ascends key 0 (sort xs)

module _ {ℓ} {A : Type ℓ} (key : A → ℕ) where
  unfoldable pub insert : A → List A → List A
  insert x [] = x ∷ []
  insert x (y ∷ ys) = let rest = y ∷ insert x ys in if ltb (key y) (key x) then rest else x ∷ y ∷ ys

  unfoldable pub insertion_sort : List A → List A
  unfolding insert
  insertion_sort [] = []
  insertion_sort (x ∷ xs) = insert x (insertion_sort xs)

  insert-perm : (x : A) (ys : List A) → Permᴰ (insert x ys) (x ∷ ys)
  unfolding insert
  insert-perm x [] = Permᴰ.refl (x ∷ [])
  insert-perm x (y ∷ ys) = elim (Bool-cases (ltb (key y) (key x))) [
    | inl later ↦ rw later (Permᴰ.trans (Permᴰ.cons refl (insert-perm x ys)) (Permᴰ.swap refl refl))
    | inr here ↦ rw here (Permᴰ.refl (x ∷ y ∷ ys))
  ]

  pub insertion_sort-perm : (xs : List A) → Permᴰ (insertion_sort xs) xs
  unfolding insertion_sort
  insertion_sort-perm [] = Permᴰ.nil
  insertion_sort-perm (x ∷ xs) =
      Permᴰ.trans (insert-perm x (insertion_sort xs)) (Permᴰ.cons refl (insertion_sort-perm xs))

  insert-Ascends :
      (lo : ℕ) (x : A) (ys : List A) → lo ≤ key x → Ascends key lo ys → Ascends key lo (insert x ys)
  unfolding insert
  insert-Ascends lo x [] h k = (h, tt)
  insert-Ascends lo x (y ∷ ys) h k = elim (Bool-cases (ltb (key y) (key x))) [
    | inl later ↦ rw later (k.0, insert-Ascends (key y) x ys (ground arith) k.1)
    | inr here ↦ rw here (h, (ground arith, k.1))
  ]

  pub insertion_sort-Ascends : (xs : List A) → Ascends key 0 (insertion_sort xs)
  unfolding insertion_sort
  insertion_sort-Ascends [] = tt
  insertion_sort-Ascends (x ∷ xs) =
      insert-Ascends 0 x (insertion_sort xs) (omega arith) (insertion_sort-Ascends xs)

  -- The contract can be met.
  abbrev pub by_insertion : Sort key
  by_insertion = record {
    sort = insertion_sort;
    sort-perm = insertion_sort-perm;
    sort-Ascends = insertion_sort-Ascends;
  }
