-- ===== src/Base/Keyed.antt =====
-- Lists of records that carry a key: find, write and erase by key, and the invariant that no key
-- occurs twice.
use Prim.Native.Nat.{ℕ, ◌≤◌}
use mathlib.Core.Path.{◌≡◌, refl}
use mathlib.Core.Logic.{◌≢◌}
use mathlib.Core.Bool.{Bool}
use mathlib.Core.List.{List, [], ◌∷◌}
use mathlib.Core.Option.{none, some}
use native.Mathlib.Omega.{arith}
use nfd.Base.Tests.{◌==◌}
use nfd.Base.Finding.{find_if, erase_if, count_if, update_if}

module _ {ℓ} {R : Type ℓ} (key : R → ℕ) where
  abbrev pub has_key : ℕ → R → Bool
  has_key k r = key r == k

  -- No key occurs twice.
  abbrev pub IsDistinct : List R → Type 0
  IsDistinct xs = (k : ℕ) → count_if (has_key k) xs ≤ 1

  pub find_absent :
      (k : ℕ) (xs : List R) → count_if (has_key k) xs ≡ 0 → find_if (has_key k) xs ≡ none
  find_absent k [] h = refl
  find_absent k (x ∷ xs) h = ground (arith, find_absent k xs)

  pub count_absent :
      (k : ℕ) (xs : List R) → find_if (has_key k) xs ≡ none → count_if (has_key k) xs ≡ 0
  count_absent k [] h = refl
  count_absent k (x ∷ xs) h = ground (arith, count_absent k xs)

  pub count-erase-le :
      (k j : ℕ) (xs : List R)
      → count_if (has_key j) (erase_if (has_key k) xs) ≤ count_if (has_key j) xs
  count-erase-le k j [] = omega arith
  count-erase-le k j (x ∷ xs) = ground (arith, count-erase-le k j xs)

  pub erase-IsDistinct :
      (k : ℕ) (xs : List R) → IsDistinct xs → IsDistinct (erase_if (has_key k) xs)
  erase-IsDistinct k xs d = λ j. omega (arith, count-erase-le k j xs, d j)

  -- An erased key is gone, if it occurred once.
  pub find-erase_self :
      (k : ℕ) (xs : List R)
      → count_if (has_key k) xs ≤ 1
      → find_if (has_key k) (erase_if (has_key k) xs) ≡ none
  find-erase_self k [] d = refl
  find-erase_self k (x ∷ xs) d = ground (arith, find-erase_self k xs, find_absent k xs)

  pub find-erase_ne :
      (k j : ℕ) (xs : List R)
      → j ≢ k
      → find_if (has_key j) (erase_if (has_key k) xs) ≡ find_if (has_key j) xs
  find-erase_ne k j [] ne = refl
  find-erase_ne k j (x ∷ xs) ne = ground (arith, find-erase_ne k j xs ne)

  pub find_key : (k : ℕ) (xs : List R) (r : R) → find_if (has_key k) xs ≡ some r → key r ≡ k
  find_key k [] r h = absurd (ground arith)
  find_key k (x ∷ xs) r h = ground (arith, find_key k xs r)

  module _ (upd : R → R) (keeps : (r : R) → key (upd r) ≡ key r) where
    pub count-update :
        (k j : ℕ) (xs : List R)
        → count_if (has_key j) (update_if (has_key k) upd xs) ≡ count_if (has_key j) xs
    count-update k j [] = refl
    count-update k j (x ∷ xs) = ground (arith, keeps x, count-update k j xs)

    pub find-update_self :
        (k : ℕ) (xs : List R) (r : R)
        → find_if (has_key k) xs ≡ some r
        → find_if (has_key k) (update_if (has_key k) upd xs) ≡ some (upd r)
    find-update_self k [] r h = absurd (ground arith)
    find-update_self k (x ∷ xs) r h = ground (arith, keeps x, find-update_self k xs r)

    pub find-update_ne :
        (k j : ℕ) (xs : List R)
        → j ≢ k
        → find_if (has_key j) (update_if (has_key k) upd xs) ≡ find_if (has_key j) xs
    find-update_ne k j [] ne = refl
    find-update_ne k j (x ∷ xs) ne = ground (arith, keeps x, find-update_ne k j xs ne)
