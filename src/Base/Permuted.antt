-- ===== src/Base/Permuted.antt =====
-- What a permutation of a list leaves alone: counts, and the element with a key that occurs once.
use mathlib.Core.List.{Perm, Permᴰ}
use mathlib.Core.Logic.{∥∥₁_elim}
use mathlib.Core.Path.{◌≡◌, refl, ap, ◌∙◌}
use mathlib.Core.Bool.{Bool, true}
use mathlib.Core.List.{List, [], ◌∷◌}
use mathlib.Core.Option
use mathlib.Core.Option.{some}
use native.Mathlib.Nat.{ℕ_set}
use native.Mathlib.Omega.{arith}
use Prim.Native.Nat.{ℕ, zero, suc, ◌≤◌}
use nfd.Base.Finding.{find_if, count_if}
use nfd.Base.Keyed.{has_key}
use nfd.Base.Lists.{get_elem?}

module _ {A : Type 0} (p : A → Bool) where
  count_permᴰ : {xs ys : List A} → Permᴰ xs ys → count_if p xs ≡ count_if p ys
  count_permᴰ Permᴰ.nil = refl
  count_permᴰ (Permᴰ.cons e q) = ground (arith, ap p e, count_permᴰ q)
  count_permᴰ (Permᴰ.swap e f) = ground (arith, ap p e, ap p f)
  count_permᴰ (Permᴰ.trans q r) = count_permᴰ q ∙ count_permᴰ r

  pub count-perm : {xs ys : List A} → Perm xs ys → count_if p xs ≡ count_if p ys
  count-perm q = ∥∥₁_elim q (ℕ_set _ _) count_permᴰ

  pub count-get_elem? :
      (xs : List A) (i : ℕ) (a : A) → get_elem? xs i ≡ some a → p a ≡ true → 1 ≤ count_if p xs
  count-get_elem? [] i a h t = absurd (ground arith)
  count-get_elem? (x ∷ xs) zero a h t = ground arith
  count-get_elem? (x ∷ xs) (suc i) a h t = ground (arith, count-get_elem? xs i a)

module _ {A : Type 0} (key : A → ℕ) (k : ℕ) where
  find_permᴰ :
      {xs ys : List A}
      → Permᴰ xs ys
      → count_if (has_key key k) xs ≤ 1
      → find_if (has_key key k) xs ≡ find_if (has_key key k) ys
  find_permᴰ Permᴰ.nil h = refl
  find_permᴰ (Permᴰ.cons {a = a} {b = b} e q) h = ground (arith, ap key e, find_permᴰ q)
  find_permᴰ (Permᴰ.swap e f) h = ground (arith, ap key e, ap key f)
  find_permᴰ (Permᴰ.trans {l₁ = xs} {l₂ = ys} q r) h =
      find_permᴰ q h ∙ find_permᴰ r (omega (arith, count_permᴰ (has_key key k) q))

  pub find-perm :
      IsSet A
      → {xs ys : List A} → Perm xs ys
      → count_if (has_key key k) xs ≤ 1
      → find_if (has_key key k) xs ≡ find_if (has_key key k) ys
  find-perm s q h = ∥∥₁_elim q (Option.is_set s _ _) (λ d. find_permᴰ d h)
