-- ===== src/Table/FibTable/Removal.antt =====
-- Erasures and removals of next hops as replacements (daemon/table/fib.cpp).
use mathlib.Core.Path.{sym, ◌∙◌}
use nfd.Base.{
  ◌≡◌, refl, inl, inr, Bool, true, false, List, [], ◌∷◌, Option, some, none, Bool-cases, arith,
  erase_if, ap, some_inj,
}
use nfd.Packet.{Face}
use nfd.Table.Fib.{Entry, has_next_hops, has_next_hop, remove_next_hop as remove}
use nfd.Table.PitTable.{PitOps}
use nfd.Table.FibTable.{has_prefix, put_back, remove_entries}
use nfd.Table.FibTable.Replacing.{put, replace}

module _ {Name : Type 0} (ops : PitOps Name) where
  pub erase-replace :
      (prefix : Name) (entries : List (Entry Name))
      → erase_if (has_prefix ops prefix) entries ≡ replace ops prefix (λ e. none) entries
  erase-replace prefix [] = refl
  erase-replace prefix (e ∷ rest) = elim (Bool-cases (has_prefix ops prefix e)) [
    | inl hit ↦ rw hit refl
    | inr miss ↦ rw miss (ap (◌∷◌ e) (erase-replace prefix rest))
  ]

  -- What is left of an entry.
  abbrev pub left_of : Entry Name → Entry Name → Bool → Bool → Option (Entry Name)
  left_of e e' false is_left = some e
  left_of e e' true false = none
  left_of e e' true true = some e'

  abbrev pub keep : Face → Entry Name → Option (Entry Name)
  keep face e = left_of e (remove e face).0 (remove e face).1 (has_next_hops (remove e face).0)

  put_back-put :
      (e e' : Entry Name) (rest : List (Entry Name)) (is_removed is_left : Bool)
      → (put_back e e' rest is_removed is_left).0 ≡ put ops (left_of e e' is_removed is_left) rest
  put_back-put e e' rest false is_left = refl
  put_back-put e e' rest true false = refl
  put_back-put e e' rest true true = refl

  pub remove-replace :
      (prefix : Name) (face : Face) (entries : List (Entry Name))
      → (remove_entries ops entries prefix face).0 ≡ replace ops prefix (keep face) entries
  remove-replace prefix face [] = refl
  remove-replace prefix face (e ∷ rest) = elim (Bool-cases (has_prefix ops prefix e)) [
    | inl hit ↦
        rw hit (
          put_back-put e (remove e face).0 rest (remove e face).1 (has_next_hops (remove e face).0))
    | inr miss ↦ rw miss (ap (◌∷◌ e) (remove-replace prefix face rest))
  ]

  prefix-remove : (e : Entry Name) (face : Face) → (remove e face).0.prefix ≡ e.prefix
  unfolding remove
  prefix-remove e face = elim (Bool-cases (has_next_hop e face)) [
    | inl there ↦ rw (there, remove) refl
    | inr absent ↦ rw (absent, remove) refl
  ]

  pub prefix-keep : (face : Face) (e e' : Entry Name) → keep face e ≡ some e' → e'.prefix ≡ e.prefix
  prefix-keep face e e' h =
      left_prefix e (remove e face).0 e' (prefix-remove e face) (remove e face).1
        (has_next_hops (remove e face).0) h
    where
      left_prefix :
          (e r e' : Entry Name)
          → r.prefix ≡ e.prefix
          → (is_removed is_left : Bool) → left_of e r is_removed is_left ≡ some e'
          → e'.prefix ≡ e.prefix
      left_prefix e r e' same false is_left h = ap (λ x. x.prefix) (sym (some_inj h))
      left_prefix e r e' same true false h = absurd (ground (arith, h))
      left_prefix e r e' same true true h = ap (λ x. x.prefix) (sym (some_inj h)) ∙ same
