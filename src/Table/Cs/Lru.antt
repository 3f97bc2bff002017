-- ===== src/Table/Cs/Lru.antt =====
-- What the operations of the Content Store do to its entries and to the replacement queue
-- (daemon/table/cs.cpp, cs-policy.cpp, cs-policy-lru.cpp).
use mathlib.Core.Path.{subst, sym, ap, ◌∙◌}
use nfd.Base.{
  ℕ, zero, suc, ◌+◌, ◌-◌, ◌≤◌, ◌<◌, ◌≡◌, refl, inl, inr, List, [], ◌∷◌, ◌++◌, true, false, some,
  none, Bool, length, length-append, find_if, update_if, any_of-count, ◌==◌, ==_refl, some_inj,
  arith, Bool-cases, Option-cases, drop, ◌||◌, not,
}
use nfd.Base.Keyed.{has_key, count-update}
use nfd.Packet.{Data}
use nfd.Table.Cs.{
  Entry, Cs, CsOps, node_of, evict, set_limit, insert_to_queue, do_after_insert, do_after_refresh,
  insert_sorted, emplace, insert, new_entry, refresh, is_same_data, is_no_cache,
}
use nfd.Table.Cs.Synced.{
  in_table, IsSynced, evict_entries_lem, in_table-evict-le, update-IsSynced, relocate-IsSynced,
  push-IsSynced, in_table-insert_sorted,
}

-- The queue holds the nodes of the set, and no node of the set has a number yet to be given.
pub record IsValid {Name : Type 0} (cs : Cs Name) : Type 0 where
  pub synced : IsSynced cs.table cs.queue
  pub below : (i : ℕ) → cs.next_node ≤ i → in_table i cs.table ≡ 0

-- A valid store of no more entries than a limit.
abbrev pub IsWithin : {Name : Type 0} → ℕ → Cs Name → Type 0
IsWithin limit cs = IsValid cs × (length cs.table ≤ limit)

drop-append_one :
    (n : ℕ) (xs : List ℕ) (x : ℕ) → n ≤ length xs → drop n (xs ++ x ∷ []) ≡ drop n xs ++ x ∷ []
drop-append_one zero xs x h = refl
drop-append_one (suc n) [] x h = absurd (omega arith)
drop-append_one (suc n) (y ∷ ys) x h = drop-append_one n ys x (omega arith)

module _ {Name : Type 0} where
  evict-IsValid : (cs : Cs Name) → IsValid cs → IsWithin cs.limit (evict cs)
  evict-IsValid cs v =
      let evicted = evict_entries_lem cs.limit cs.table cs.queue v.synced in
      (
        record {
          synced = evicted.0;
          below = λ i h. omega (arith, in_table-evict-le i cs.limit cs.table cs.queue, v.below i h);
        },
        evicted.1,
      )

  -- Setting the limit evicts down to it, and what it leaves of the queue is its back.
  pub set_limit_lem :
      (cs : Cs Name) (limit : ℕ)
      → IsValid cs
      → IsValid (set_limit cs limit)
        × (length (set_limit cs limit).table ≤ limit)
        × ((set_limit cs limit).queue ≡ drop (length cs.queue - limit) cs.queue)
  unfolding set_limit
  set_limit_lem cs limit v =
      let valid =
        evict-IsValid (record cs { limit = limit })
          (record { synced = v.synced; below = v.below }) in
      (valid.0, valid.1, (evict_entries_lem limit cs.table cs.queue v.synced).2)

  pub relocate-IsValid :
      (cs : Cs Name) (i : ℕ)
      → 1 ≤ in_table i cs.table
      → IsValid cs
      → IsValid (record cs { queue = insert_to_queue i false cs.queue })
  relocate-IsValid cs i h v = record {
    synced = relocate-IsSynced i cs.table cs.queue (omega (arith, h, v.synced.same i)) v.synced;
    below = v.below;
  }

  -- An entry that a search returns is in the set.
  pub found-in_table :
      (p : Entry Name → Bool) (table : List (Entry Name)) (e : Entry Name)
      → find_if p table ≡ some e
      → 1 ≤ in_table (node_of e) table
  found-in_table p [] e h = absurd (ground arith)
  found-in_table p (x ∷ xs) e h = elim (Bool-cases (p x)) [
    | inl hit ↦
        subst (λ y. 1 ≤ in_table (node_of y) (x ∷ xs)) (same hit)
          (ground (arith, ==_refl (node_of x)))
    | inr miss ↦ ground (arith, found-in_table p xs e)
  ]
    where
      same : p x ≡ true → x ≡ e
      same hit = some_inj (ground arith)

  module _ (ops : CsOps Name) where
    -- The store with a new entry, before the eviction.
    abbrev pushed : Cs Name → Entry Name → Cs Name
    pushed cs e = record cs {
      table = insert_sorted ops e cs.table;
      next_node = cs.next_node + 1;
      queue = insert_to_queue cs.next_node true cs.queue;
    }

    pushed-IsValid :
        (cs : Cs Name) (e : Entry Name)
        → node_of e ≡ cs.next_node
        → IsValid cs
        → IsValid (pushed cs e)
    pushed-IsValid cs e h v = record {
      synced =
          subst (λ i. IsSynced (insert_sorted ops e cs.table) (insert_to_queue i true cs.queue)) h
            (push-IsSynced ops e cs.table cs.queue (v.below (node_of e) (omega (arith, h)))
              v.synced);
      below =
          λ i above. ground (arith, in_table-insert_sorted ops i e cs.table, v.below i, h, above);
    }

    -- The store with an entry refreshed and relocated.
    abbrev refreshed : Cs Name → Bool → ℕ → Entry Name → Cs Name
    refreshed cs is_unsolicited now e = record cs {
      table = update_if (has_key node_of e.node) (refresh ops is_unsolicited now) cs.table;
      queue = insert_to_queue e.node false cs.queue;
    }

    emplace_new :
        (cs : Cs Name) (packet : Data Name) (is_unsolicited : Bool) (now : ℕ)
        → find_if (is_same_data ops packet) cs.table ≡ none
        → emplace ops cs packet is_unsolicited now
          ≡ evict (pushed cs (new_entry ops cs.next_node packet is_unsolicited now))
    unfolding emplace do_after_insert
    emplace_new cs packet is_unsolicited now new = rw (new, emplace) refl

    emplace_old :
        (cs : Cs Name) (packet : Data Name) (is_unsolicited : Bool) (now : ℕ) (e : Entry Name)
        → find_if (is_same_data ops packet) cs.table ≡ some e
        → emplace ops cs packet is_unsolicited now ≡ refreshed cs is_unsolicited now e
    unfolding emplace do_after_refresh
    emplace_old cs packet is_unsolicited now e old = rw (old, emplace) refl

    refreshed-IsWithin :
        (cs : Cs Name) (is_unsolicited : Bool) (now : ℕ) (e : Entry Name)
        → 1 ≤ in_table e.node cs.table
        → IsWithin cs.limit cs
        → IsWithin cs.limit (refreshed cs is_unsolicited now e)
    refreshed-IsWithin cs is_unsolicited now e h (v, within) = (
      record {
        synced =
            relocate-IsSynced e.node updated cs.queue (omega (arith, h, v.synced.same e.node))
              synced;
        below = λ i above. omega (
          arith,
          count-update node_of (refresh ops is_unsolicited now) (λ r. refl) e.node i cs.table,
          v.below i above,
        );
      },
      omega (arith, within, synced.sizes, v.synced.sizes),
    )
      where
        updated : List (Entry Name)
        updated = update_if (has_key node_of e.node) (refresh ops is_unsolicited now) cs.table

        synced : IsSynced updated cs.queue
        synced =
            update-IsSynced e.node (refresh ops is_unsolicited now) cs.table cs.queue (λ r. refl)
              v.synced

    emplace-IsWithin :
        (cs : Cs Name) (packet : Data Name) (is_unsolicited : Bool) (now : ℕ)
        → IsWithin cs.limit cs
        → IsWithin cs.limit (emplace ops cs packet is_unsolicited now)
    emplace-IsWithin cs packet is_unsolicited now within =
        elim (Option-cases (find_if (is_same_data ops packet) cs.table)) [
          | inl new ↦
              let e = new_entry ops cs.next_node packet is_unsolicited now in
              subst (IsWithin cs.limit) (sym (emplace_new cs packet is_unsolicited now new))
                (evict-IsValid (pushed cs e) (pushed-IsValid cs e refl within.0))
          | inr (e, old) ↦
              subst (IsWithin cs.limit) (sym (emplace_old cs packet is_unsolicited now e old)) (
                refreshed-IsWithin cs is_unsolicited now e
                  (found-in_table (is_same_data ops packet) cs.table e old) within)
        ]

    -- Inserting keeps the queue and the set of entries in step and the store within its limit.
    pub insert-IsWithin :
        (cs : Cs Name) (packet : Data Name) (is_unsolicited : Bool) (now : ℕ)
        → IsWithin cs.limit cs
        → IsWithin cs.limit (insert ops cs packet is_unsolicited now)
    unfolding insert
    insert-IsWithin cs packet is_unsolicited now within =
        elim (Bool-cases (not cs.should_admit || cs.limit == 0)) [
          | inl refused ↦ rw (refused, insert) within
          | inr admitted ↦ elim (Bool-cases (is_no_cache ops packet)) [
            | inl skipped ↦ rw (admitted, skipped, insert) within
            | inr cached ↦
                rw (admitted, cached, insert) (emplace-IsWithin cs packet is_unsolicited now within)
          ]
        ]

    -- A new entry of a store of a positive limit goes to the back of the queue, and what is evicted
    -- for it is the front: the least recently used, and only as many as are over the limit.
    pub insert_new :
        (cs : Cs Name) (packet : Data Name) (is_unsolicited : Bool) (now : ℕ)
        → IsWithin cs.limit cs
        → 0 < cs.limit
        → cs.should_admit ≡ true
        → is_no_cache ops packet ≡ false
        → find_if (is_same_data ops packet) cs.table ≡ none
        → (insert ops cs packet is_unsolicited now).queue
          ≡ drop (suc (length cs.queue) - cs.limit) cs.queue ++ cs.next_node ∷ []
    unfolding insert insert_to_queue
    insert_new cs packet is_unsolicited now within positive admits cached new =
        ap (λ c. c.queue) inserted
        ∙ (evict_entries_lem cs.limit after.table after.queue valid.synced).2
        ∙ ap (λ q. drop (length q - cs.limit) q) back
        ∙ dropped
      where
        after : Cs Name
        after = pushed cs (new_entry ops cs.next_node packet is_unsolicited now)

        valid : IsValid after
        valid =
            pushed-IsValid cs (new_entry ops cs.next_node packet is_unsolicited now) refl within.0

        inserted : insert ops cs packet is_unsolicited now ≡ evict after
        inserted = rw (refused, cached, insert) (emplace_new cs packet is_unsolicited now new)
          where
            refused : (not cs.should_admit || cs.limit == 0) ≡ false
            refused = ground (arith, positive, admits)

        back : insert_to_queue cs.next_node true cs.queue ≡ cs.queue ++ cs.next_node ∷ []
        back = ground (
          arith,
          any_of-count (◌==◌ cs.next_node) cs.queue,
          within.0.synced.same cs.next_node,
          within.0.below cs.next_node,
        )

        dropped :
            drop (length (cs.queue ++ cs.next_node ∷ []) - cs.limit) (cs.queue ++ cs.next_node ∷ [])
            ≡ drop (suc (length cs.queue) - cs.limit) cs.queue ++ cs.next_node ∷ []
        dropped =
            rw size (drop-append_one (suc (length cs.queue) - cs.limit) cs.queue cs.next_node few)
          where
            size :
                length (cs.queue ++ cs.next_node ∷ []) - cs.limit ≡ suc (length cs.queue) - cs.limit
            size = omega (arith, length-append cs.queue (cs.next_node ∷ []))

            few : suc (length cs.queue) - cs.limit ≤ length cs.queue
            few = omega (arith, positive)
