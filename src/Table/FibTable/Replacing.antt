-- ===== src/Table/FibTable/Replacing.antt =====
-- The replacement of the first entry with a prefix, which every removal and update of the FIB is
-- (daemon/table/fib.cpp).
use mathlib.Core.Path.{subst, sym, ◌∙◌}
use nfd.Base.{
  ◌≡◌, ◌≤◌, ◌↔◌, refl, inl, inr, true, false, List, [], ◌∷◌, ◌++◌, Option, some, none, Bool-cases,
  Option-cases, arith, find_if, count_if, if◌then◌else◌, ap,
}
use nfd.Table.Fib.{Entry}
use nfd.Table.PitTable.{PitOps}
use nfd.Table.FibTable.{has_prefix}

module _ {Name : Type 0} (ops : PitOps Name) where
  -- Names compare equal exactly when they are equal.
  abbrev pub DecidesEquality : Type 0
  DecidesEquality = (a b : Name) → (ops.same_name a b ≡ true) ↔ (a ≡ b)

  -- No name has two entries.
  abbrev pub IsDistinct : List (Entry Name) → Type 0
  IsDistinct entries = (name : Name) → count_if (has_prefix ops name) entries ≤ 1

  abbrev pub put : Option (Entry Name) → List (Entry Name) → List (Entry Name)
  put none rest = rest
  put (some e) rest = e ∷ rest

  -- The first entry with the prefix becomes what `f` says.
  abbrev pub replace :
      Name → (Entry Name → Option (Entry Name)) → List (Entry Name) → List (Entry Name)
  replace prefix f [] = []
  replace prefix f (e ∷ rest) =
      let later = replace prefix f rest in
      if has_prefix ops prefix e then put (f e) rest else e ∷ later

  abbrev pub bind_entry :
      (Entry Name → Option (Entry Name)) → Option (Entry Name) → Option (Entry Name)
  bind_entry f none = none
  bind_entry f (some e) = f e

  absent :
      (name : Name) (entries : List (Entry Name))
      → count_if (has_prefix ops name) entries ≡ 0
      → find_if (has_prefix ops name) entries ≡ none
  absent name [] h = refl
  absent name (e ∷ rest) h = ground (arith, absent name rest)

  pub count_absent :
      (name : Name) (entries : List (Entry Name))
      → find_if (has_prefix ops name) entries ≡ none
      → count_if (has_prefix ops name) entries ≡ 0
  count_absent name [] h = refl
  count_absent name (e ∷ rest) h = ground (arith, count_absent name rest)

  module _ (decides : DecidesEquality) (prefix : Name) (f : Entry Name → Option (Entry Name))
      (keeps : (e e' : Entry Name) → f e ≡ some e' → e'.prefix ≡ e.prefix) where
    same_prefix :
        (e e' : Entry Name) (name : Name)
        → f e ≡ some e'
        → has_prefix ops name e' ≡ has_prefix ops name e
    same_prefix e e' name h = ap (λ p. ops.same_name p name) (keeps e e' h)

    other_name :
        (e : Entry Name) (name : Name)
        → has_prefix ops prefix e ≡ true
        → ops.same_name prefix name ≡ false
        → has_prefix ops name e ≡ false
    other_name e name hit other =
        subst (λ p. ops.same_name p name ≡ false) (sym ((decides e.prefix prefix).0 hit)) other

    pub find-replace_self :
        (entries : List (Entry Name))
        → count_if (has_prefix ops prefix) entries ≤ 1
        → find_if (has_prefix ops prefix) (replace prefix f entries)
          ≡ bind_entry f (find_if (has_prefix ops prefix) entries)
    find-replace_self [] d = refl
    find-replace_self (e ∷ rest) d = elim (Bool-cases (has_prefix ops prefix e)) [
      | inr miss ↦ ground (arith, find-replace_self rest)
      | inl hit ↦ elim (Option-cases (f e)) [
        | inl gone ↦ rw (hit, gone) (absent prefix rest (ground (arith, hit, d)))
        | inr (e', stays) ↦ rw (hit, stays) (rw (same_prefix e e' prefix stays ∙ hit) refl)
      ]
    ]

    pub find-replace_other :
        (name : Name) (entries : List (Entry Name))
        → ops.same_name prefix name ≡ false
        → find_if (has_prefix ops name) (replace prefix f entries)
          ≡ find_if (has_prefix ops name) entries
    find-replace_other name [] other = refl
    find-replace_other name (e ∷ rest) other = elim (Bool-cases (has_prefix ops prefix e)) [
      | inr miss ↦ ground (arith, find-replace_other name rest other)
      | inl hit ↦ elim (Option-cases (f e)) [
        | inl gone ↦ rw (hit, gone) (rw (other_name e name hit other) refl)
        | inr (e', stays) ↦
            rw (hit, stays) (rw (same_prefix e e' name stays, other_name e name hit other) refl)
      ]
    ]

    pub count-replace-le :
        (name : Name) (entries : List (Entry Name))
        → count_if (has_prefix ops name) (replace prefix f entries)
          ≤ count_if (has_prefix ops name) entries
    count-replace-le name [] = omega arith
    count-replace-le name (e ∷ rest) = elim (Bool-cases (has_prefix ops prefix e)) [
      | inr miss ↦ ground (arith, count-replace-le name rest)
      | inl hit ↦ elim (Option-cases (f e)) [
        | inl gone ↦ rw (hit, gone) (ground arith)
        | inr (e', stays) ↦ rw (hit, stays) (rw (same_prefix e e' name stays) (omega arith))
      ]
    ]

  pub find-append_hit :
      (name : Name) (entries : List (Entry Name)) (e : Entry Name)
      → find_if (has_prefix ops name) entries ≡ none
      → has_prefix ops name e ≡ true
      → find_if (has_prefix ops name) (entries ++ e ∷ []) ≡ some e
  find-append_hit name [] e absent hit = rw hit refl
  find-append_hit name (x ∷ rest) e absent hit =
      ground (arith, find-append_hit name rest e, absent, hit)

  pub find-append_miss :
      (name : Name) (entries : List (Entry Name)) (e : Entry Name)
      → has_prefix ops name e ≡ false
      → find_if (has_prefix ops name) (entries ++ e ∷ []) ≡ find_if (has_prefix ops name) entries
  find-append_miss name [] e miss = rw miss refl
  find-append_miss name (x ∷ rest) e miss = ground (arith, find-append_miss name rest e miss)
