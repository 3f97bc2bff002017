-- ===== src/Table/Cs/History.antt =====
-- The invariant of the Content Store over every history of calls (daemon/table/cs.{hpp,cpp}).
use mathlib.Core.Path.{subst, sym}
use nfd.Base.{
  ℕ, ◌≤◌, ◌≡◌, refl, List, [], ◌∷◌, true, Bool, length, arith, take, Option-cases, find_if,
}
use nfd.Packet.{Interest, Data}
use nfd.Table.Cs.{
  Entry, Cs, CsOps, set_limit, emplace, insert, erase_all, erase_impl, find, find_impl,
  enable_admit, enable_serve, do_after_insert, do_after_refresh, do_before_erase, do_before_use,
  is_same_data, find_prefix_range,
}
use nfd.Table.Cs.Lru.{IsValid, IsWithin, insert-IsWithin, set_limit_lem}
use nfd.Table.Cs.Use.{erase_impl_lem, find-IsWithin}

-- A store right after construction.
abbrev pub empty_store : {Name : Type 0} → ℕ → Cs Name
empty_store n_max_packets = record {
  table = [];
  next_node = 0;
  queue = [];
  limit = n_max_packets;
  should_admit = true;
  should_serve = true;
}

-- A call that the store receives.
pub data Event (Name : Type 0) : Type 0 where
  inserts : Data Name → Bool → ℕ → Event Name
  erases : Name → ℕ → Event Name
  finds : Interest Name → ℕ → Event Name
  sets_limit : ℕ → Event Name
  enables_admit : Bool → Event Name
  enables_serve : Bool → Event Name

module _ {Name : Type 0} (ops : CsOps Name) where
  unfoldable pub step : Cs Name → Event Name → Cs Name
  unfolding insert erase_impl find set_limit enable_admit enable_serve
  step cs (inserts packet is_unsolicited now) = insert ops cs packet is_unsolicited now
  step cs (erases prefix limit) = (erase_impl ops cs prefix limit).0
  step cs (finds interest now) = (find ops cs interest now).0
  step cs (sets_limit limit) = set_limit cs limit
  step cs (enables_admit should_admit) = enable_admit cs should_admit
  step cs (enables_serve should_serve) = enable_serve cs should_serve

  unfoldable pub run : Cs Name → List (Event Name) → Cs Name
  unfolding step
  run cs [] = cs
  run cs (event ∷ events) = run (step cs event) events

  limit-insert :
      (cs : Cs Name) (packet : Data Name) (is_unsolicited : Bool) (now : ℕ)
      → (insert ops cs packet is_unsolicited now).limit ≡ cs.limit
  unfolding insert emplace do_after_insert do_after_refresh
  limit-insert cs packet is_unsolicited now =
      ground (arith, Option-cases (find_if (is_same_data ops packet) cs.table))

  limit-erase_all :
      (victims : List (Entry Name)) (cs : Cs Name) → (erase_all ops victims cs).limit ≡ cs.limit
  unfolding erase_all do_before_erase
  limit-erase_all [] cs = refl
  limit-erase_all (e ∷ es) cs = limit-erase_all es _

  limit-find :
      (cs : Cs Name) (interest : Interest Name) (now : ℕ)
      → (find ops cs interest now).0.limit ≡ cs.limit
  unfolding find do_before_use
  limit-find cs interest now = ground (arith, Option-cases (find_impl ops cs interest now))

  -- Every call keeps the queue and the set of entries in step, each entry once, and the store
  -- within its limit.
  pub step-IsWithin :
      (cs : Cs Name) (event : Event Name)
      → IsWithin cs.limit cs
      → IsWithin (step cs event).limit (step cs event)
  unfolding step set_limit erase_impl enable_admit enable_serve
  step-IsWithin cs (inserts packet is_unsolicited now) within =
      subst (λ l. IsWithin l (insert ops cs packet is_unsolicited now))
        (sym (limit-insert cs packet is_unsolicited now))
        (insert-IsWithin ops cs packet is_unsolicited now within)
  step-IsWithin cs (erases prefix limit) within =
      let erased = erase_impl_lem ops cs prefix limit within.0 in
      let victims = take limit (find_prefix_range ops cs.table prefix) in
      (erased.0, omega (arith, erased.1, limit-erase_all victims cs, within.1))
  step-IsWithin cs (finds interest now) within =
      subst (λ l. IsWithin l (find ops cs interest now).0) (sym (limit-find cs interest now))
        (find-IsWithin ops cs interest now cs.limit within)
  step-IsWithin cs (sets_limit limit) within =
      let evicted = set_limit_lem cs limit within.0 in (evicted.0, evicted.1)
  step-IsWithin cs (enables_admit should_admit) within =
      (record { synced = within.0.synced; below = within.0.below }, within.1)
  step-IsWithin cs (enables_serve should_serve) within =
      (record { synced = within.0.synced; below = within.0.below }, within.1)

  run-IsWithin :
      (cs : Cs Name) (events : List (Event Name))
      → IsWithin cs.limit cs
      → IsWithin (run cs events).limit (run cs events)
  unfolding run
  run-IsWithin cs [] within = within
  run-IsWithin cs (event ∷ events) within =
      run-IsWithin (step cs event) events (step-IsWithin cs event within)

  -- After construction and any history of calls, the replacement queue holds exactly the nodes of
  -- the set of entries, each once, and the store holds no more entries than its limit.
  pub run-empty_store :
      (n_max_packets : ℕ) (events : List (Event Name))
      → let cs = run (empty_store n_max_packets) events in IsValid cs × (length cs.table ≤ cs.limit)
  run-empty_store n_max_packets events = run-IsWithin (empty_store n_max_packets) events (
    record {
      synced = record { same = λ i. refl; unique = λ i. omega arith; sizes = refl };
      below = λ i h. refl;
    },
    omega arith,
  )
