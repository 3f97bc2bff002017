-- ===== src/Table/FibTable/Meaning.antt =====
-- What a replacement of a FIB entry means for the map of next hops (daemon/table/fib.cpp).
use mathlib.Core.Path.{subst, sym}
use nfd.Base.{
  ℕ, ◌≡◌, refl, inl, inr, true, List, [], ◌∷◌, Option, some, none, Bool-cases, Option-cases,
  find_if, erase_if, if◌then◌else◌, is_empty, ap, find_if-any_of, find_if-any_of-none,
}
use nfd.Base.Keyed.{has_key}
use nfd.Packet.{Face}
use nfd.Table.Fib.NextHops.{has_next_hop_absent, has_next_hop_found}
use nfd.Table.FibTable.Replacing.{
  DecidesEquality, IsDistinct, replace, bind_entry, find-replace_self, find-replace_other,
}
use nfd.Table.Fib.{
  Entry, NextHop, hop_face, has_next_hops, has_next_hop, find_next_hop,
  add_or_update_next_hop as add_or_update, remove_next_hop as remove,
}
use nfd.Table.PitTable.{PitOps}
use nfd.Table.FibTable.Removal.{left_of, keep}
use nfd.Table.FibTable.{has_prefix, find_exact_match, update_entries}
use nfd.Table.FibTable.AsMap.{next_hops_of, meaning, write, removed}

module _ {Name : Type 0} (ops : PitOps Name) (sort : List NextHop → List NextHop) where
  pub update-replace :
      (prefix : Name) (face : Face) (cost : ℕ) (entries : List (Entry Name))
      → (update_entries ops sort entries prefix face cost).0
        ≡ replace ops prefix (λ e. some (add_or_update sort e face cost).0) entries
  update-replace prefix face cost [] = refl
  update-replace prefix face cost (e ∷ rest) = elim (Bool-cases (has_prefix ops prefix e)) [
    | inl hit ↦ rw hit refl
    | inr miss ↦ rw miss (ap (◌∷◌ e) (update-replace prefix face cost rest))
  ]

  pub prefix-add :
      (e : Entry Name) (face : Face) (cost : ℕ)
      → (add_or_update sort e face cost).0.prefix ≡ e.prefix
  unfolding add_or_update
  prefix-add e face cost = refl

  left-hops :
      (e : Entry Name) (hops : List NextHop)
      → let r : Entry Name = record e { next_hops = hops } in
        next_hops_of ops sort (left_of ops e r true (has_next_hops r))
        ≡ (if is_empty hops then none else some hops)
  unfolding has_next_hops
  left-hops e [] = refl
  left-hops e (h ∷ hops) = refl

  pub hops-keep :
      (face : Face) (e : Entry Name)
      → next_hops_of ops sort (keep ops face e) ≡ removed ops sort face (some e.next_hops)
  unfolding remove has_next_hop has_next_hops find_next_hop
  hops-keep face e = elim (Option-cases (find_if (has_key hop_face face.ref) e.next_hops)) [
    | inl absent ↦
        rw
          (
            has_next_hop_absent e face absent,
            find_if-any_of-none (has_key hop_face face.ref) e.next_hops absent,
            remove,
          )
          refl
    | inr (h, found) ↦
        rw
          (
            has_next_hop_found e face h found,
            find_if-any_of (has_key hop_face face.ref) e.next_hops h found,
            remove,
          )
          (left-hops e (erase_if (has_key hop_face face.ref) e.next_hops))
  ]

  -- The meaning after a replacement.
  pub meaning-replace :
      DecidesEquality ops
      → (entries : List (Entry Name)) (prefix : Name) (f : Entry Name → Option (Entry Name))
        (g : Option (List NextHop) → Option (List NextHop)) (n m : ℕ)
      → IsDistinct ops entries
      → ((e e' : Entry Name) → f e ≡ some e' → e'.prefix ≡ e.prefix)
      → g none ≡ none
      → ((e : Entry Name) → next_hops_of ops sort (f e) ≡ g (some e.next_hops))
      → (name : Name)
      → meaning ops sort (record { entries = replace ops prefix f entries; n_items = n }) name
        ≡ write ops sort prefix
            (g (meaning ops sort (record { entries = entries; n_items = m }) prefix))
            (meaning ops sort (record { entries = entries; n_items = m }))
            name
  unfolding find_exact_match
  meaning-replace decides entries prefix f g n m d keeps g_none g_some name =
      elim (Bool-cases (ops.same_name prefix name)) [
        | inr other ↦
            rw (other, find-replace_other ops decides prefix f keeps name entries other) refl
        | inl same ↦
            subst
              (λ n.
                next_hops_of ops sort (find_if (has_prefix ops n) (replace ops prefix f entries))
                ≡ (if ops.same_name prefix n
                    then g (next_hops_of ops sort (find_if (has_prefix ops prefix) entries))
                    else next_hops_of ops sort (find_if (has_prefix ops n) entries)))
              ((decides prefix name).0 same)
              (rw
                (
                  (decides prefix prefix).1 refl,
                  find-replace_self ops decides prefix f keeps entries (d prefix),
                )
                (bound (find_if (has_prefix ops prefix) entries)))
      ]
    where
      bound :
          (found : Option (Entry Name))
          → next_hops_of ops sort (bind_entry ops f found) ≡ g (next_hops_of ops sort found)
      bound none = sym g_none
      bound (some e) = g_some e
