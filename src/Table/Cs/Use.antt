-- ===== src/Table/Cs/Use.antt =====
-- The Content Store through erasures, look-ups and whole histories
-- (daemon/table/cs.cpp, cs-policy-lru.cpp).
use mathlib.Core.Path.{subst, sym, ap, ◌∙◌}
use nfd.Base.{
  ℕ, zero, suc, ◌+◌, ◌≤◌, min, ◌≡◌, refl, inl, inr, List, [], ◌∷◌, ◌++◌, true, false, some, none,
  Bool, length, length-take, find_if, find_if_holds, find_if-IsOneOf, IsOneOf, erase_if,
  any_of-count, ◌==◌, ==_refl, arith, Bool-cases, Option-cases, take, ◌||◌, not,
}
use nfd.Base.Keyed.{has_key, count-erase-le}
use nfd.Packet.{Interest}
use nfd.Table.Cs.{
  Entry, Cs, CsOps, node_of, insert_to_queue, do_before_erase, do_before_use, erase_all, erase_impl,
  find_impl, find, find_prefix_range, drop_while, take_while, can_satisfy, is_less_than_query,
}
use nfd.Table.Cs.Synced.{in_table, erase-IsSynced, length-erase-table, in_table-erase}
use nfd.Table.Cs.Lru.{IsValid, IsWithin, found-in_table, relocate-IsValid}

module _ {Name : Type 0} where
  in_table-take :
      (i n : ℕ) (table : List (Entry Name)) → in_table i (take n table) ≤ in_table i table
  in_table-take i zero table = omega arith
  in_table-take i (suc n) [] = omega arith
  in_table-take i (suc n) (x ∷ xs) = ground (arith, in_table-take i n xs)

  in_table-take_while :
      (i : ℕ) (p : Entry Name → Bool) (table : List (Entry Name))
      → in_table i (take_while p table) ≤ in_table i table
  in_table-take_while i p [] = omega arith
  in_table-take_while i p (x ∷ xs) = ground (arith, in_table-take_while i p xs)

  in_table-drop_while :
      (i : ℕ) (p : Entry Name → Bool) (table : List (Entry Name))
      → in_table i (drop_while p table) ≤ in_table i table
  in_table-drop_while i p [] = omega arith
  in_table-drop_while i p (x ∷ xs) = ground (arith, in_table-drop_while i p xs)

  take_while-IsOneOf :
      (p : Entry Name → Bool) (table : List (Entry Name)) (e : Entry Name)
      → IsOneOf e (take_while p table)
      → IsOneOf e table
  take_while-IsOneOf p [] e h = h
  take_while-IsOneOf p (x ∷ xs) e h = ground (arith, take_while-IsOneOf p xs e)

  drop_while-IsOneOf :
      (p : Entry Name → Bool) (table : List (Entry Name)) (e : Entry Name)
      → IsOneOf e (drop_while p table)
      → IsOneOf e table
  drop_while-IsOneOf p [] e h = h
  drop_while-IsOneOf p (x ∷ xs) e h = ground (arith, drop_while-IsOneOf p xs e)

  module _ (ops : CsOps Name) where
    in_table-range :
        (i : ℕ) (table : List (Entry Name)) (prefix : Name)
        → in_table i (find_prefix_range ops table prefix) ≤ in_table i table
    unfolding find_prefix_range
    in_table-range i table prefix =
        let first = drop_while (is_less_than_query ops prefix) table in
        ground (
          arith,
          in_table-drop_while i (is_less_than_query ops prefix) table,
          in_table-take_while i (is_less_than_query ops (ops.successor prefix)) first,
        )

    erase_all_lem :
        (victims : List (Entry Name)) (cs : Cs Name)
        → IsValid cs
        → ((i : ℕ) → in_table i victims ≤ in_table i cs.table)
        → IsValid (erase_all ops victims cs)
          × (length (erase_all ops victims cs).table + length victims ≡ length cs.table)
          × ((i : ℕ)
              → in_table i (erase_all ops victims cs).table + in_table i victims
                ≡ in_table i cs.table)
    unfolding erase_all do_before_erase
    erase_all_lem [] cs v sub = (v, omega arith, λ i. omega arith)
    erase_all_lem (e ∷ es) cs v sub =
        let rest = erase_all_lem es erased erased-IsValid fewer in
        (
          rest.0,
          omega (
            arith,
            rest.1,
            length-erase-table e.node cs.table (v.synced.unique e.node),
            v.synced.unique e.node,
            present,
          ),
          λ i. ground (
            arith,
            rest.2 i,
            in_table-erase e.node i cs.table (v.synced.unique e.node),
            v.synced.unique i,
            present,
          ),
        )
      where
        erased : Cs Name
        erased = record cs {
          table = erase_if (has_key node_of e.node) cs.table;
          queue = erase_if (◌==◌ e.node) cs.queue;
        }

        present : 1 ≤ in_table e.node cs.table
        present = ground (arith, sub e.node, ==_refl e.node)

        erased-IsValid : IsValid erased
        erased-IsValid = record {
          synced = erase-IsSynced e.node cs.table cs.queue v.synced;
          below =
              λ i above. omega (arith, count-erase-le node_of e.node i cs.table, v.below i above);
        }

        fewer : (i : ℕ) → in_table i es ≤ in_table i erased.table
        fewer i = ground (
          arith,
          in_table-erase e.node i cs.table (v.synced.unique e.node),
          sub i,
          v.synced.unique i,
        )

    -- Erasing by prefix keeps the queue and the set in step. Of every node it removes the entries
    -- that are among the first `limit` ones of the range of the prefix, and no other; it says how
    -- many these are, all of the range or `limit` of them, whichever is less.
    pub erase_impl_lem :
        (cs : Cs Name) (prefix : Name) (limit : ℕ)
        → IsValid cs
        → let (after, n) = erase_impl ops cs prefix limit in
          let range = find_prefix_range ops cs.table prefix in
          IsValid after
          × ((i : ℕ) → in_table i after.table + in_table i (take limit range) ≡ in_table i cs.table)
          × (length after.table + n ≡ length cs.table)
          × (n ≡ min limit (length range))
    unfolding erase_impl
    erase_impl_lem cs prefix limit v =
        let victims = take limit (find_prefix_range ops cs.table prefix) in
        let rest = erase_all_lem victims cs v (λ i. omega (
          arith,
          in_table-take i limit (find_prefix_range ops cs.table prefix),
          in_table-range i cs.table prefix,
        )) in
        (
          rest.0,
          rest.2,
          rest.1,
          omega (arith, length-take limit (find_prefix_range ops cs.table prefix)),
        )

    -- An entry of the range of a prefix is in the set.
    in_range-in_table :
        (p : Entry Name → Bool) (cs : Cs Name) (prefix : Name) (e : Entry Name)
        → find_if p (find_prefix_range ops cs.table prefix) ≡ some e
        → 1 ≤ in_table e.node cs.table
    in_range-in_table p cs prefix e h = omega (
      arith,
      found-in_table p (find_prefix_range ops cs.table prefix) e h,
      in_table-range e.node cs.table prefix,
    )

    in_range-IsOneOf :
        (cs : Cs Name) (prefix : Name) (e : Entry Name)
        → IsOneOf e (find_prefix_range ops cs.table prefix)
        → IsOneOf e cs.table
    unfolding find_prefix_range
    in_range-IsOneOf cs prefix e h = elim (Bool-cases (ops.is_nonempty prefix)) [
      | inl nonempty ↦ drop_while-IsOneOf (is_less_than_query ops prefix) cs.table e (
          take_while-IsOneOf (is_less_than_query ops (ops.successor prefix))
            (drop_while (is_less_than_query ops prefix) cs.table) e
            (subst (IsOneOf e) (rw (nonempty, find_prefix_range) refl) h))
      | inr empty ↦
          drop_while-IsOneOf (is_less_than_query ops prefix) cs.table e
            (subst (IsOneOf e) (rw (empty, find_prefix_range) refl) h)
    ]

    find_hit :
        (cs : Cs Name) (interest : Interest Name) (now : ℕ) (e : Entry Name)
        → find_impl ops cs interest now ≡ some e
        → find ops cs interest now
          ≡ (record cs { queue = insert_to_queue e.node false cs.queue }, some e.packet)
    unfolding find do_before_use
    find_hit cs interest now e h = rw (h, find) refl

    find_miss :
        (cs : Cs Name) (interest : Interest Name) (now : ℕ)
        → find_impl ops cs interest now ≡ none
        → find ops cs interest now ≡ (cs, none)
    unfolding find
    find_miss cs interest now h = rw (h, find) refl

    hit_sound :
        (cs : Cs Name) (interest : Interest Name) (now : ℕ) (e : Entry Name)
        → find_impl ops cs interest now ≡ some e
        → (1 ≤ in_table e.node cs.table)
          × (can_satisfy ops e interest now ≡ true)
          × IsOneOf e cs.table
    unfolding find_impl
    hit_sound cs interest now e h = elim (Bool-cases (not cs.should_serve || cs.limit == 0)) [
      | inl refused ↦ absurd (ground (arith, refused))
      | inr served ↦
          let hit = subst (λ o. o ≡ some e) (rw (served, find_impl) refl) h in
          (
            in_range-in_table (λ x. can_satisfy ops x interest now) cs interest.name e hit,
            find_if_holds (λ x. can_satisfy ops x interest now)
                (find_prefix_range ops cs.table interest.name) e hit,
            in_range-IsOneOf cs interest.name e (
                find_if-IsOneOf (λ x. can_satisfy ops x interest now)
                  (find_prefix_range ops cs.table interest.name) e hit),
          )
    ]

    -- A hit is an entry of the set that can satisfy the Interest: its Data is the answer, the set
    -- stays as it is, and the entry goes to the back of the queue, the others keep their order.
    pub find_impl-find :
        (cs : Cs Name) (interest : Interest Name) (now : ℕ) (e : Entry Name)
        → IsValid cs
        → find_impl ops cs interest now ≡ some e
        → let (after, answer) = find ops cs interest now in
          IsOneOf e cs.table
          × (answer ≡ some e.packet)
          × (can_satisfy ops e interest now ≡ true)
          × (after.table ≡ cs.table)
          × (after.queue ≡ erase_if (◌==◌ e.node) cs.queue ++ e.node ∷ [])
    unfolding insert_to_queue
    find_impl-find cs interest now e v h =
        let sound = hit_sound cs interest now e h in
        (
          sound.2,
          ap (λ r. r.1) (find_hit cs interest now e h),
          sound.1,
          ap (λ r. r.0.table) (find_hit cs interest now e h),
          ap (λ r. r.0.queue) (find_hit cs interest now e h)
              ∙ ground (arith, any_of-count (◌==◌ e.node) cs.queue, v.synced.same e.node, sound.0),
        )

    pub find-IsWithin :
        (cs : Cs Name) (interest : Interest Name) (now limit : ℕ)
        → IsWithin limit cs
        → IsWithin limit (find ops cs interest now).0
    find-IsWithin cs interest now limit within =
        elim (Option-cases (find_impl ops cs interest now)) [
          | inl miss ↦ subst (λ r. IsWithin limit r.0) (sym (find_miss cs interest now miss)) within
          | inr (e, hit) ↦
              subst (λ r. IsWithin limit r.0) (sym (find_hit cs interest now e hit))
                (relocate-IsValid cs e.node (hit_sound cs interest now e hit).0 within.0, within.1)
        ]
