-- ===== src/Base/Finding.antt =====
-- `std::find_if` and erasure of the element found, over a list and a Boolean test.
use Prim.Native.Nat.{◌≤◌, ℕ, suc, ◌+◌}
use mathlib.Core.Path.{◌≡◌, refl}
use mathlib.Core.Bool.{Bool, true, false, ◌||◌}
use mathlib.Core.List.{List, [], ◌∷◌, ◌++◌}
use mathlib.Core.Option.{Option, none, some}
use native.Mathlib.Omega.{arith}
use nfd.Base.Tests.{if◌then◌else◌, ltb}
use nfd.Base.Lists.{length, IsOneOf}

module _ {ℓ} {A : Type ℓ} where
  -- The element that `std::find_if` stops at; `none` for the end iterator.
  abbrev pub find_if : (A → Bool) → List A → Option A
  find_if p [] = none
  find_if p (x ∷ xs) = if p x then some x else find_if p xs

  -- `erase` of the element that `std::find_if` stops at, if there is one.
  abbrev pub erase_if : (A → Bool) → List A → List A
  erase_if p [] = []
  erase_if p (x ∷ xs) = if p x then xs else x ∷ erase_if p xs

  -- `std::any_of`.
  abbrev pub any_of : (A → Bool) → List A → Bool
  any_of p [] = false
  any_of p (x ∷ xs) = p x || any_of p xs

  -- The elements that pass, counted.
  abbrev pub count_if : (A → Bool) → List A → ℕ
  count_if p [] = 0
  count_if p (x ∷ xs) = if p x then suc (count_if p xs) else count_if p xs

  -- A write through the iterator that `std::find_if` returns.
  abbrev pub update_if : (A → Bool) → (A → A) → List A → List A
  update_if p f [] = []
  update_if p f (x ∷ xs) = if p x then f x ∷ xs else x ∷ update_if p f xs

module _ {ℓ} {A : Type ℓ} (p : A → Bool) where
  pub find_if_holds : (xs : List A) (a : A) → find_if p xs ≡ some a → p a ≡ true
  find_if_holds [] a h = elim (some_ne_none h) [ ]
    where
      some_ne_none : none ≡ some a → ⊥
      some_ne_none e = cc
  find_if_holds (x ∷ xs) a h = ground (arith, find_if_holds xs a)

  pub count_if-append : (xs ys : List A) → count_if p (xs ++ ys) ≡ count_if p xs + count_if p ys
  count_if-append [] ys = omega arith
  count_if-append (x ∷ xs) ys = ground (arith, count_if-append xs ys)

module _ {ℓ} {A : Type ℓ} (p : A → Bool) where
  pub count_if-le-length : (xs : List A) → count_if p xs ≤ length xs
  count_if-le-length [] = omega arith
  count_if-le-length (x ∷ xs) = ground (arith, count_if-le-length xs)

  pub any_of-count : (xs : List A) → any_of p xs ≡ ltb 0 (count_if p xs)
  any_of-count [] = refl
  any_of-count (x ∷ xs) = ground (arith, any_of-count xs)

  pub find_if-any_of : (xs : List A) (a : A) → find_if p xs ≡ some a → any_of p xs ≡ true
  find_if-any_of [] a h = absurd (ground arith)
  find_if-any_of (x ∷ xs) a h = ground (arith, find_if-any_of xs a)

  pub find_if-any_of-none : (xs : List A) → find_if p xs ≡ none → any_of p xs ≡ false
  find_if-any_of-none [] h = refl
  find_if-any_of-none (x ∷ xs) h = ground (arith, find_if-any_of-none xs)

module _ {ℓ} {A : Type ℓ} (p q : A → Bool) where
  pub count_if-erase :
      (xs : List A) (a : A)
      → find_if q xs ≡ some a
      → count_if p (erase_if q xs) + (if p a then 1 else 0) ≡ count_if p xs
  count_if-erase [] a h = absurd (ground arith)
  count_if-erase (x ∷ xs) a h = ground (arith, count_if-erase xs a)

  pub count_if-replace :
      (xs : List A) (a b : A)
      → find_if q xs ≡ some a
      → count_if p (update_if q (λ _. b) xs) + (if p a then 1 else 0)
        ≡ count_if p xs + (if p b then 1 else 0)
  count_if-replace [] a b h = absurd (ground arith)
  count_if-replace (x ∷ xs) a b h = ground (arith, count_if-replace xs a b)

module _ {ℓ} {A : Type ℓ} (q : A → Bool) where
  pub length-erase_if :
      (xs : List A) (a : A) → find_if q xs ≡ some a → length (erase_if q xs) + 1 ≡ length xs
  length-erase_if [] a h = absurd (ground arith)
  length-erase_if (x ∷ xs) a h = ground (arith, length-erase_if xs a)

  pub any_of-append_self : (xs : List A) (a : A) → q a ≡ true → any_of q (xs ++ a ∷ []) ≡ true
  any_of-append_self [] a h = rw h refl
  any_of-append_self (x ∷ xs) a h = ground (arith, any_of-append_self xs a)

-- What `std::find_if` stops at is an element.
pub find_if-IsOneOf :
    {A : Type 0} (p : A → Bool) (xs : List A) (a : A) → find_if p xs ≡ some a → IsOneOf a xs
find_if-IsOneOf p [] a h = absurd (ground arith)
find_if-IsOneOf p (x ∷ xs) a h = ground (arith, find_if-IsOneOf p xs a)
