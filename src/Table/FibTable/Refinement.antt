-- ===== src/Table/FibTable/Refinement.antt =====
-- The FIB refines a map from names to next hops (daemon/table/fib.cpp).
use mathlib.Core.Path.{subst, sym, ◌∙◌, fun_ext}
use nfd.Base.{
  ℕ, ◌≡◌, refl, inl, inr, List, [], ◌∷◌, Option, some, none, Bool-cases, Option-cases, arith,
  find_if, ap, some_inj, count_if-append,
}
use nfd.Packet.{Face}
use nfd.Table.FibTable.Replacing.{
  find-append_hit, find-append_miss, DecidesEquality, IsDistinct, replace, count-replace-le,
  count_absent,
}
use nfd.Table.Fib.{Entry, NextHop, add_or_update_next_hop as add_or_update}
use nfd.Table.PitTable.{PitOps}
use nfd.Table.FibTable.Removal.{erase-replace, keep, remove-replace, prefix-keep}
use nfd.Table.FibTable.{
  Fib, has_prefix, find_exact_match, insert, erase, add_or_update_next_hop, remove_next_hop,
}
use nfd.Table.FibTable.AsMap.{
  Call, inserts, erases, adds, removes, step, run, meaning, write, inserted, added, removed,
  map_step, map_run,
}
use nfd.Table.FibTable.Meaning.{update-replace, prefix-add, hops-keep, meaning-replace}

module _ {Name : Type 0} (ops : PitOps Name) (sort : List NextHop → List NextHop) where
  -- The table after a call means the map after the call, and no name has two entries.
  module _ (decides : DecidesEquality ops) where
    meaning-insert :
        (fib : Fib Name) (prefix name : Name)
        → meaning ops sort (insert ops fib prefix).0 name
          ≡ write ops sort prefix
              (inserted ops sort (meaning ops sort fib prefix))
              (meaning ops sort fib)
              name
    unfolding insert find_exact_match
    meaning-insert fib prefix name =
        elim (Option-cases (find_if (has_prefix ops prefix) fib.entries)) [
          | inl absent ↦ elim (Bool-cases (ops.same_name prefix name)) [
            | inr other ↦
                rw
                  (
                    absent,
                    other,
                    insert,
                    find-append_miss ops name fib.entries
                        (record { prefix = prefix; next_hops = [] }) other,
                  )
                  refl
            | inl same ↦
                rw
                  (
                    absent,
                    same,
                    insert,
                    find-append_hit ops name fib.entries
                        (record { prefix = prefix; next_hops = [] })
                        (subst (λ n. find_if (has_prefix ops n) fib.entries ≡ none)
                          ((decides prefix name).0 same) absent)
                        same,
                  )
                  refl
          ]
          | inr (e, found) ↦ elim (Bool-cases (ops.same_name prefix name)) [
            | inr other ↦ rw (found, other, insert) refl
            | inl same ↦
                rw
                  (
                    found,
                    same,
                    insert,
                    subst (λ n. find_if (has_prefix ops n) fib.entries ≡ some e)
                        ((decides prefix name).0 same) found,
                  )
                  refl
          ]
        ]

    insert-IsDistinct :
        (fib : Fib Name) (prefix : Name)
        → IsDistinct ops fib.entries
        → IsDistinct ops (insert ops fib prefix).0.entries
    unfolding insert find_exact_match
    insert-IsDistinct fib prefix d name =
        elim (Option-cases (find_if (has_prefix ops prefix) fib.entries)) [
          | inr (e, found) ↦ rw (found, insert) (d name)
          | inl absent ↦ elim (Bool-cases (ops.same_name prefix name)) [
            | inr other ↦
                rw (absent, insert)
                  (ground (
                    arith,
                    other,
                    d name,
                    count_if-append (has_prefix ops name) fib.entries
                        (record { prefix = prefix; next_hops = [] } ∷ []),
                  ))
            | inl same ↦
                rw (absent, insert)
                  (ground (
                    arith,
                    same,
                    count_if-append (has_prefix ops name) fib.entries
                        (record { prefix = prefix; next_hops = [] } ∷ []),
                    count_absent ops name fib.entries (
                        subst (λ n. find_if (has_prefix ops n) fib.entries ≡ none)
                          ((decides prefix name).0 same) absent),
                  ))
          ]
        ]

    replace-IsDistinct :
        (entries : List (Entry Name)) (prefix : Name) (f : Entry Name → Option (Entry Name))
        → ((e e' : Entry Name) → f e ≡ some e' → e'.prefix ≡ e.prefix)
        → IsDistinct ops entries
        → IsDistinct ops (replace ops prefix f entries)
    replace-IsDistinct entries prefix f keeps d name =
        omega (arith, count-replace-le ops decides prefix f keeps name entries, d name)

    add-keeps :
        (face : Face) (cost : ℕ) (e e' : Entry Name)
        → some (add_or_update sort e face cost).0 ≡ some e'
        → e'.prefix ≡ e.prefix
    add-keeps face cost e e' h =
        ap (λ x. x.prefix) (sym (some_inj h)) ∙ prefix-add ops sort e face cost

    erase-keeps : (e e' : Entry Name) → none ≡ some e' → e'.prefix ≡ e.prefix
    erase-keeps e e' h = absurd (ground (arith, h))

    hops-add :
        (face : Face) (cost : ℕ) (e : Entry Name)
        → some (add_or_update sort e face cost).0.next_hops
          ≡ added ops sort face cost (some e.next_hops)
    unfolding add_or_update
    hops-add face cost e = refl

    step-IsDistinct :
        (fib : Fib Name) (call : Call Name)
        → IsDistinct ops fib.entries
        → IsDistinct ops (step ops sort fib call).entries
    unfolding step erase add_or_update_next_hop remove_next_hop
    step-IsDistinct fib (inserts prefix) d = insert-IsDistinct fib prefix d
    step-IsDistinct fib (erases prefix other_node) d =
        subst (IsDistinct ops) (sym (erase-replace ops prefix fib.entries))
          (replace-IsDistinct fib.entries prefix (λ e. none) erase-keeps d)
    step-IsDistinct fib (adds prefix face cost) d =
        subst (IsDistinct ops) (sym (update-replace ops sort prefix face cost fib.entries)) (
          replace-IsDistinct fib.entries prefix (λ e. some (add_or_update sort e face cost).0)
            (add-keeps face cost) d)
    step-IsDistinct fib (removes prefix face) d =
        subst (IsDistinct ops) (sym (remove-replace ops prefix face fib.entries))
          (replace-IsDistinct fib.entries prefix (keep ops face) (prefix-keep ops face) d)

    meaning-step :
        (fib : Fib Name) (call : Call Name)
        → IsDistinct ops fib.entries
        → (name : Name)
        → meaning ops sort (step ops sort fib call) name
          ≡ map_step ops sort (meaning ops sort fib) call name
    unfolding step erase add_or_update_next_hop remove_next_hop map_step
    meaning-step fib (inserts prefix) d name = meaning-insert fib prefix name
    meaning-step fib (erases prefix other_node) d name =
        ap (λ entries. meaning ops sort (record { entries = entries; n_items = 0 }) name)
          (erase-replace ops prefix fib.entries)
        ∙ meaning-replace ops sort decides fib.entries prefix (λ e. none) (λ hops. none) 0
            fib.n_items d erase-keeps refl (λ e. refl) name
    meaning-step fib (adds prefix face cost) d name =
        ap (λ entries. meaning ops sort (record { entries = entries; n_items = 0 }) name)
          (update-replace ops sort prefix face cost fib.entries)
        ∙ meaning-replace ops sort decides fib.entries prefix
            (λ e. some (add_or_update sort e face cost).0) (added ops sort face cost) 0 fib.n_items
            d (add-keeps face cost) refl (hops-add face cost) name
    meaning-step fib (removes prefix face) d name =
        ap (λ entries. meaning ops sort (record { entries = entries; n_items = 0 }) name)
          (remove-replace ops prefix face fib.entries)
        ∙ meaning-replace ops sort decides fib.entries prefix (keep ops face)
            (removed ops sort face) 0 fib.n_items d (prefix-keep ops face) refl
            (hops-keep ops sort face) name

    run-meaning :
        (fib : Fib Name) (calls : List (Call Name))
        → IsDistinct ops fib.entries
        → meaning ops sort (run ops sort fib calls) ≡ map_run ops sort (meaning ops sort fib) calls
    unfolding run map_run
    run-meaning fib [] d = refl
    run-meaning fib (call ∷ calls) d =
        run-meaning (step ops sort fib call) calls (step-IsDistinct fib call d)
        ∙ ap (λ map. map_run ops sort map calls) (fun_ext (meaning-step fib call d))

    -- After any calls on an empty table, the next hops found at a name are those that the same
    -- calls on a map from names to next hops leave at the name: insertion makes an entry without
    -- next hops where there is none, a next hop is written to the entry of the prefix alone, and an
    -- entry goes away when it is erased or loses its last next hop.
    pub run-empty_table :
        (calls : List (Call Name)) (name : Name)
        → meaning ops sort (run ops sort (record { entries = []; n_items = 0 }) calls) name
          ≡ map_run ops sort (λ other. none) calls name
    unfolding find_exact_match
    run-empty_table calls name =
        ap (λ map. map name)
          (run-meaning (record { entries = []; n_items = 0 }) calls (λ other. omega arith))
