-- ===== src/Table/Cs/Synced.antt =====
-- The replacement queue of the Content Store holds the nodes of the set of entries
-- (daemon/table/cs.cpp, cs-policy.cpp, cs-policy-lru.cpp).
use mathlib.Core.Path.{subst, ◌∙◌}
use nfd.Base.{
  leb→le, leb-false→lt, suc, ℕ, ◌+◌, ◌-◌, ◌≤◌, ◌≡◌, refl, inl, inr, List, [], ◌∷◌, ◌++◌, true,
  false, length, length-append, erase_if, update_if, count_if, count_if-append, any_of-count, ◌==◌,
  if◌then◌else◌, arith, Bool-cases, leb, drop,
}
use nfd.Base.Keyed.{has_key, count-erase-le, count-update}
use nfd.Table.Cs.{Entry, CsOps, node_of, evict_entries, insert_to_queue, insert_sorted}

-- How often a node occurs in the queue and in the set.
abbrev pub in_queue : ℕ → List ℕ → ℕ
in_queue i queue = count_if (◌==◌ i) queue

abbrev pub in_table : {Name : Type 0} → ℕ → List (Entry Name) → ℕ
in_table i table = count_if (has_key node_of i) table

-- The queue holds the nodes of the set, each once.
pub record IsSynced {Name : Type 0} (table : List (Entry Name)) (queue : List ℕ) : Type 0 where
  pub same : (i : ℕ) → in_queue i queue ≡ in_table i table
  pub unique : (i : ℕ) → in_table i table ≤ 1
  pub sizes : length queue ≡ length table

length-erase-queue :
    (i : ℕ) (queue : List ℕ)
    → in_queue i queue ≤ 1
    → length (erase_if (◌==◌ i) queue) + in_queue i queue ≡ length queue
length-erase-queue i [] u = refl
length-erase-queue i (x ∷ xs) u = ground (arith, length-erase-queue i xs)

in_queue-erase :
    (i j : ℕ) (queue : List ℕ)
    → in_queue i queue ≤ 1
    → in_queue j (erase_if (◌==◌ i) queue) ≡ (if i == j then 0 else in_queue j queue)
in_queue-erase i j [] u = ground arith
in_queue-erase i j (x ∷ xs) u = ground (arith, in_queue-erase i j xs)

module _ {Name : Type 0} where
  pub length-erase-table :
      (i : ℕ) (table : List (Entry Name))
      → in_table i table ≤ 1
      → length (erase_if (has_key node_of i) table) + in_table i table ≡ length table
  length-erase-table i [] u = refl
  length-erase-table i (x ∷ xs) u = ground (arith, length-erase-table i xs)

  pub in_table-erase :
      (i j : ℕ) (table : List (Entry Name))
      → in_table i table ≤ 1
      → in_table j (erase_if (has_key node_of i) table) ≡ (if i == j then 0 else in_table j table)
  in_table-erase i j [] u = ground arith
  in_table-erase i j (x ∷ xs) u = ground (arith, in_table-erase i j xs)

  -- A node that leaves the set leaves the queue.
  pub erase-IsSynced :
      (i : ℕ) (table : List (Entry Name)) (queue : List ℕ)
      → IsSynced table queue
      → IsSynced (erase_if (has_key node_of i) table) (erase_if (◌==◌ i) queue)
  erase-IsSynced i table queue s = record {
    same = λ j.
        ground (
          arith,
          in_queue-erase i j queue,
          in_table-erase i j table,
          s.same i,
          s.same j,
          s.unique i,
        );
    unique = λ j. omega (arith, count-erase-le node_of i j table, s.unique j);
    sizes = omega (
      arith,
      length-erase-queue i queue,
      length-erase-table i table (s.unique i),
      s.same i,
      s.unique i,
      s.sizes,
    );
  }

  pub in_table-insert_sorted :
      (ops : CsOps Name) (i : ℕ) (e : Entry Name) (table : List (Entry Name))
      → in_table i (insert_sorted ops e table) ≡ in_table i (e ∷ table)
  unfolding insert_sorted
  in_table-insert_sorted ops i e [] = refl
  in_table-insert_sorted ops i e (x ∷ xs) = ground (arith, in_table-insert_sorted ops i e xs)

  pub length-insert_sorted :
      (ops : CsOps Name) (e : Entry Name) (table : List (Entry Name))
      → length (insert_sorted ops e table) ≡ length table + 1
  unfolding insert_sorted
  length-insert_sorted ops e [] = refl
  length-insert_sorted ops e (x ∷ xs) = ground (arith, length-insert_sorted ops e xs)

  popped-IsSynced :
      (i : ℕ) (table : List (Entry Name)) (queue : List ℕ)
      → IsSynced table (i ∷ queue)
      → IsSynced (erase_if (has_key node_of i) table) queue
  popped-IsSynced i table queue s =
      subst (IsSynced (erase_if (has_key node_of i) table)) popped
        (erase-IsSynced i table (i ∷ queue) s)
    where
      popped : erase_if (◌==◌ i) (i ∷ queue) ≡ queue
      popped = ground arith

  -- Evicting to a limit leaves no more entries than the limit, and takes the front of the queue.
  pub evict_entries_lem :
      (limit : ℕ) (table : List (Entry Name)) (queue : List ℕ)
      → IsSynced table queue
      → let after = evict_entries limit table queue in
        IsSynced after.0 after.1
        × (length after.0 ≤ limit)
        × (after.1 ≡ drop (length queue - limit) queue)
  unfolding evict_entries
  evict_entries_lem limit table [] s = (s, omega (arith, s.sizes), ground arith)
  evict_entries_lem limit table (i ∷ queue) s = elim (Bool-cases (leb (length table) limit)) [
    | inl small ↦ rw small (s, leb→le (length table) limit small, kept small)
    | inr big ↦
        let rest =
          evict_entries_lem limit (erase_if (has_key node_of i) table) queue
            (popped-IsSynced i table queue s) in
        rw big (rest.0, rest.1, rest.2 ∙ skipped big)
  ]
    where
      kept :
          leb (length table) limit ≡ true
          → i ∷ queue ≡ drop (length (i ∷ queue) - limit) (i ∷ queue)
      kept small = rw (enough small) refl
        where
          enough : leb (length table) limit ≡ true → length (i ∷ queue) - limit ≡ 0
          enough small = omega (arith, leb→le (length table) limit small, s.sizes)

      skipped :
          leb (length table) limit ≡ false
          → drop (length queue - limit) queue ≡ drop (length (i ∷ queue) - limit) (i ∷ queue)
      skipped big = rw (one_more big) refl
        where
          one_more :
              leb (length table) limit ≡ false
              → length (i ∷ queue) - limit ≡ suc (length queue - limit)
          one_more big = omega (arith, leb-false→lt (length table) limit big, s.sizes)

  pub in_table-evict-le :
      (i limit : ℕ) (table : List (Entry Name)) (queue : List ℕ)
      → in_table i (evict_entries limit table queue).0 ≤ in_table i table
  unfolding evict_entries
  in_table-evict-le i limit table [] = omega arith
  in_table-evict-le i limit table (j ∷ queue) = ground (
    arith,
    in_table-evict-le i limit (erase_if (has_key node_of j) table) queue,
    count-erase-le node_of j i table,
  )

  pub update-IsSynced :
      (i : ℕ) (upd : Entry Name → Entry Name) (table : List (Entry Name)) (queue : List ℕ)
      → ((e : Entry Name) → node_of (upd e) ≡ node_of e)
      → IsSynced table queue
      → IsSynced (update_if (has_key node_of i) upd table) queue
  update-IsSynced i upd table queue keeps s = record {
    same = λ j. omega (arith, count-update node_of upd keeps i j table, s.same j);
    unique = λ j. omega (arith, count-update node_of upd keeps i j table, s.unique j);
    sizes = omega (arith, length-update i upd table, s.sizes);
  }
    where
      length-update :
          (i : ℕ) (upd : Entry Name → Entry Name) (table : List (Entry Name))
          → length (update_if (has_key node_of i) upd table) ≡ length table
      length-update i upd [] = refl
      length-update i upd (x ∷ xs) = ground (arith, length-update i upd xs)

pub in_queue-relocate :
    (i j : ℕ) (queue : List ℕ)
    → 1 ≤ in_queue i queue
    → in_queue j (erase_if (◌==◌ i) queue ++ i ∷ []) ≡ in_queue j queue
in_queue-relocate i j [] h = absurd (omega arith)
in_queue-relocate i j (x ∷ xs) h =
    ground (arith, count_if-append (◌==◌ j) xs (i ∷ []), in_queue-relocate i j xs)

length-relocate :
    (i : ℕ) (queue : List ℕ)
    → 1 ≤ in_queue i queue
    → length (erase_if (◌==◌ i) queue ++ i ∷ []) ≡ length queue
length-relocate i [] h = absurd (omega arith)
length-relocate i (x ∷ xs) h = ground (arith, length-append xs (i ∷ []), length-relocate i xs)

-- Relocating a queued node to the back keeps the queue a list of the same nodes.
pub relocate-IsSynced :
    {Name : Type 0} (i : ℕ) (table : List (Entry Name)) (queue : List ℕ)
    → 1 ≤ in_queue i queue
    → IsSynced table queue
    → IsSynced table (insert_to_queue i false queue)
unfolding insert_to_queue
relocate-IsSynced i table queue h s = subst (IsSynced table) relocated (record {
  same = λ j. omega (arith, in_queue-relocate i j queue h, s.same j);
  unique = s.unique;
  sizes = omega (arith, length-relocate i queue h, s.sizes);
})
  where
    relocated : erase_if (◌==◌ i) queue ++ i ∷ [] ≡ insert_to_queue i false queue
    relocated = ground (arith, any_of-count (◌==◌ i) queue)

-- A node that is not in the queue is pushed to its back.
pub push-IsSynced :
    {Name : Type 0} (ops : CsOps Name) (e : Entry Name) (table : List (Entry Name)) (queue : List ℕ)
    → in_table (node_of e) table ≡ 0
    → IsSynced table queue
    → IsSynced (insert_sorted ops e table) (insert_to_queue (node_of e) true queue)
unfolding insert_to_queue
push-IsSynced ops e table queue h s = subst (IsSynced (insert_sorted ops e table)) pushed (record {
  same = λ j. ground (
    arith,
    count_if-append (◌==◌ j) queue (node_of e ∷ []),
    in_table-insert_sorted ops j e table,
    s.same j,
  );
  unique = λ j. ground (arith, in_table-insert_sorted ops j e table, s.unique j, h);
  sizes =
      omega
        (arith, length-append queue (node_of e ∷ []), length-insert_sorted ops e table, s.sizes);
})
  where
    pushed : queue ++ node_of e ∷ [] ≡ insert_to_queue (node_of e) true queue
    pushed = ground (arith, any_of-count (◌==◌ (node_of e)) queue, s.same (node_of e))
